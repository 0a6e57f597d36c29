-- ===== src/KeyValueStore/Due.antt =====
-- The section of the cleaner of KeyValueStore/main.go that takes out an item that is due.
use low_level_design_in_go.Base.{
  ℕ, suc, ◌≤◌, ◌<◌, ◌≡◌, ◌≢◌, refl, sym, ap, ◌∙◌, String, true, false, Option, none, some, List, [],
  ◌∷◌, ltb, arith, length, get_or, Bool-cases, Option-cases, inl, inr, has, has_self, has-perm,
  length-perm,
}
use low_level_design_in_go.Base.Run.{Returns, returns, Returns-bind, Returns-map}
use low_level_design_in_go.ContainerHeap.Order.{root_first}
use low_level_design_in_go.ContainerHeap.Removal.{Popped, pop-Popped}
use low_level_design_in_go.KeyValueStore.{KeyValueStore, update, take_due}
use low_level_design_in_go.KeyValueStore.Expiry.{ExpiryHeap, expiry_heap, peek}
use low_level_design_in_go.KeyValueStore.Lawful.{by_due, expiry_lawful}
use low_level_design_in_go.KeyValueStore.Indexed.{eq_address, lost-IsIndexed, place_of, update-ne}
use low_level_design_in_go.KeyValueStore.Model.{
  deadline, due_of, IsConsistent, view, TookDue, none_due, removed, relinked-IsConsistent,
}
use low_level_design_in_go.KeyValueStore.Rescheduling.{update-eq, due_of-same}

pub peek-none : (h : ExpiryHeap) → peek h ≡ none → length h.store ≡ 0
unfolding peek
peek-none h e = go h.store e
  where
    go : (ps : List ℕ) → elim ps [ [] ↦ none | p ∷ ps ↦ some p ] ≡ none → length ps ≡ 0
    go [] e = refl
    go (p ∷ ps) e = ground (arith, e)

pub peek-some :
    (h : ExpiryHeap) (p : ℕ) → peek h ≡ some p → (0 < length h.store) × (get_or h.store 0 0 ≡ p)
unfolding peek
peek-some h p e = go h.store e
  where
    go :
        (ps : List ℕ)
        → elim ps [ [] ↦ none | q ∷ ps ↦ some q ] ≡ some p
        → (0 < length ps) × (get_or ps 0 0 ≡ p)
    go [] e = absurd (ground (arith, e))
    go (q ∷ ps) e = (omega arith, ground (arith, e))

module _ {V : Type 0} (kv : KeyValueStore V) (v : IsConsistent kv) where
  abbrev due_at : ℕ → ℕ
  due_at p = (kv.heap.memory p).expires_at

  -- An entry that expires has an item in the heap, due when it ends.
  pub held_due :
      (k : String) (d : ℕ)
      → deadline (kv.store k) ≡ some d
      → (q : ℕ) × (has q kv.heap.store ≡ true) × (due_at q ≡ d)
  held_due k d e = go (kv.expiry_index k) refl (v.linked k ∙ e)
    where
      go :
          (o : Option ℕ)
          → kv.expiry_index k ≡ o
          → due_of kv.heap o ≡ some d
          → (q : ℕ) × (has q kv.heap.store ≡ true) × (due_at q ≡ d)
      go none at e = absurd (ground (arith, e))
      go (some q) at e = (q, (v.indexed.listed k q at).0, ground (arith, e))

  -- The first item is due no later than an entry ends.
  pub first_due :
      (p : ℕ) (k : String) (d : ℕ)
      → peek kv.heap ≡ some p
      → deadline (kv.store k) ≡ some d
      → due_at p ≤ d
  first_due p k d first e =
      let (q, held, due) = held_due k d e in
      let (i, inside, at, position) = place_of v.indexed.ordered.good q held in
      let root = (peek-some kv.heap p first).1 in
      let order =
        root_first (by_due kv.heap.memory) 0 (length kv.heap.store) kv.heap.store i
          v.indexed.ordered.heap inside in
      let order' : ltb (due_at q) (due_at p) ≡ false = rw (at, root) at order in
      ground (arith, order', due)

  -- What taking out a due item leaves.
  pub record TakenDue (now : ℕ) (kv' : KeyValueStore V) : Type 0 where
    pub consistent : IsConsistent kv'
    pub taken : TookDue (view kv) now (view kv')
    pub same_wakeup : kv'.wakeup ≡ kv.wakeup

  nothing_taken :
      (now : ℕ)
      → ((k : String) (d : ℕ) → deadline (kv.store k) ≡ some d → now < d)
      → TakenDue now kv
  nothing_taken now later = record { consistent = v; taken = none_due later; same_wakeup = refl }

  -- The store without the entry of the item that was popped.
  abbrev without_item : ℕ × ExpiryHeap → KeyValueStore V
  without_item (item, h) =
      let key = (h.memory item).key in
      record kv {
        store = update kv.store key none;
        heap = h;
        expiry_index = update kv.expiry_index key none;
      }

  -- What taking out a due item leaves: the entry that ends first is gone.
  pub record Emptied (now : ℕ) (kv' : KeyValueStore V) : Type 0 where
    pub consistent : IsConsistent kv'
    pub key : String
    pub due : ℕ
    pub ends : deadline (kv.store key) ≡ some due
    pub soon : due ≤ now
    pub least : (k : String) (d : ℕ) → deadline (kv.store k) ≡ some d → due ≤ d
    pub gone : kv'.store ≡ update kv.store key none
    pub same_shutdown : kv'.shutdown ≡ kv.shutdown
    pub same_wakeup : kv'.wakeup ≡ kv.wakeup
    pub shorter : suc (length kv'.heap.store) ≡ length kv.heap.store

  without_item-Emptied :
      (now p : ℕ) (r : ℕ × ExpiryHeap)
      → peek kv.heap ≡ some p
      → due_at p ≤ now
      → Popped expiry_heap
          (by_due kv.heap.memory)
          0
          (expiry_lawful kv.heap.memory kv.heap.next)
          kv.heap.store
          r
      → Emptied now (without_item r)
  without_item-Emptied now p (item, h) first due t =
      let same = t.heaped.good.same in
      let named : (h.memory item).key ≡ (kv.heap.memory item).key = (same item).0 in
      let key = (kv.heap.memory item).key in
      let index = kv.expiry_index in
      let held : has item kv.heap.store ≡ true =
        sym (has-perm item t.rest) ∙ has_self item h.store in
      let listed : index key ≡ some item = v.indexed.found item held in
      let (some_left, root) = peek-some kv.heap p first in
      let soon : due_at item ≤ due_at p =
        let order : ltb (due_at p) (due_at item) ≡ false = rw root at (t.first 0 some_left) in
        ground (arith, order) in
      rw named (record {
        consistent =
            relinked-IsConsistent kv _ key none v (lost-IsIndexed item v.indexed t.heaped t.rest)
              (ap (due_of h) (update-eq index none key))
              (λ k apart.
                ap (due_of h) (update-ne index none key k apart)
                ∙ due_of-same kv.heap h (index k) λ q _. (same q).1)
              refl v.closed;
        key = key;
        due = due_at item;
        ends = sym (v.linked key) ∙ ap (due_of kv.heap) listed;
        soon = omega arith;
        least = λ k d e.
            let (q, m, at_q) = held_due k d e in
            let (i, inside, at, position) = place_of v.indexed.ordered.good q m in
            let order : ltb (due_at q) (due_at item) ≡ false = rw at at (t.first i inside) in
            ground (arith, order, at_q);
        gone = refl;
        same_shutdown = refl;
        same_wakeup = refl;
        shorter = length-perm t.rest;
      })

  TakenDue-of_Emptied : (now : ℕ) (kv' : KeyValueStore V) → Emptied now kv' → TakenDue now kv'
  TakenDue-of_Emptied now kv' r = record {
    consistent = r.consistent;
    taken = rw (r.gone, r.same_shutdown) (removed r.key r.due r.ends r.soon r.least);
    same_wakeup = r.same_wakeup;
  }

  -- A first item that is due is taken out.
  pub take_due-Emptied :
      (now p : ℕ) → peek kv.heap ≡ some p → due_at p ≤ now → Returns (Emptied now) (take_due kv now)
  unfolding take_due
  take_due-Emptied now p first soon =
      let ready : ltb now (due_at p) ≡ false = ground (arith, soon) in
      rw (take_due, first, ready)
        (Returns-bind
          (pop-Popped expiry_heap (by_due kv.heap.memory) 0
            (expiry_lawful kv.heap.memory kv.heap.next) kv.heap v.indexed.ordered
            (peek-some kv.heap p first).0)
          λ r t. returns (without_item-Emptied now p r first soon t))

  pub nothing_held : peek kv.heap ≡ none → (k : String) (d : ℕ) → deadline (kv.store k) ≢ some d
  nothing_held empty k d e =
      let (q, m, at_q) = held_due k d e in
      let (i, inside, at, position) = place_of v.indexed.ordered.good q m in
      absurd (omega (arith, peek-none kv.heap empty))

  pub take_due-TakenDue : (now : ℕ) → Returns (TakenDue now) (take_due kv now)
  unfolding take_due
  take_due-TakenDue now = elim (Option-cases (peek kv.heap)) [
    | inl empty ↦
        rw (take_due, empty)
          (returns (nothing_taken now λ k d e. absurd (nothing_held empty k d e)))
    | inr (p, first) ↦ elim (Bool-cases (ltb now (due_at p))) [
      | inl early ↦
          rw (take_due, first, early)
            (returns (
              nothing_taken now
                λ k d e. let soonest = first_due p k d first e in ground (arith, early, soonest)))
      | inr ready ↦
          Returns-map (take_due-Emptied now p first (ground (arith, ready)))
            (TakenDue-of_Emptied now)
    ]
  ]
