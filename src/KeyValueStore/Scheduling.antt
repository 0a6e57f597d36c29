-- ===== src/KeyValueStore/Scheduling.antt =====
-- What KeyValueStore/main.go does to its expiry heap, each change with the entry of the index that
-- belongs to it.
use low_level_design_in_go.Base.{
  ℕ, suc, ◌<◌, ◌≡◌, ◌≢◌, refl, sym, ap, subst, ◌∙◌, String, true, false, ◌||◌, Option, none, some,
  ◌∷◌, ltb, ◌==◌, ==_iff, str_eq, str_eq_iff, arith, length, get_or, if◌then◌else◌, Perm,
  Bool-cases, inl, inr, has, has-perm,
}
use low_level_design_in_go.Base.Int.{pos}
use low_level_design_in_go.Base.Run.{Returns, returns, Returns-bind, Returns-map}
use low_level_design_in_go.ContainerHeap as Container
use low_level_design_in_go.ContainerHeap.{parent}
use low_level_design_in_go.ContainerHeap.Order.{Touched}
use low_level_design_in_go.ContainerHeap.Operations.{push-Holds}
use low_level_design_in_go.ContainerHeap.Removal.{remove-Taken, fix-Restored}
use low_level_design_in_go.KeyValueStore.Expiry.{ExpiryItem, ExpiryHeap, expiry_heap, write}
use low_level_design_in_go.KeyValueStore.Lawful.{
  by_due, SameItem, IsPlaced, IsOutside, expiry_lawful, trans_due,
}
use low_level_design_in_go.KeyValueStore.{update, remove_at, fix_at}
use low_level_design_in_go.KeyValueStore.Indexed.{
  eq_address, IsOrdered, IsIndexed, place_of, has-at, has-taken, update-ne, rebase, lost-IsIndexed,
}

-- The heap agrees with the index, and its items are those of `g` but for their positions.
abbrev pub Agrees : (ℕ → ExpiryItem) → (String → Option ℕ) → ExpiryHeap → Type 0
Agrees g index h = IsIndexed h index × ((p : ℕ) → SameItem (h.memory p) (g p))

pub remove_at-Agrees :
    (h : ExpiryHeap) (index : String → Option ℕ) (key : String) (p : ℕ)
    → IsIndexed h index
    → index key ≡ some p
    → Returns (Agrees h.memory (update index key none)) (remove_at h (h.memory p).position)
unfolding remove_at
remove_at-Agrees h index key p v e =
    let (held, named) = v.listed key p e in
    let (i, inside, at, position) = place_of v.ordered.good p held in
    rw position (
      Returns-bind
        (remove-Taken expiry_heap (by_due h.memory) 0 (expiry_lawful h.memory h.next) h i v.ordered
          inside)
        λ (q, h') t.
          let same : q ≡ p = t.entry ∙ at in
          returns (
            subst (λ k. IsIndexed h' (update index k none)) named
                (lost-IsIndexed p v t.heaped
                  (subst (λ r. Perm (r ∷ h'.store) h.store) same t.rest)),
            t.heaped.good.same,
          ))

pos-apart : {i j : ℕ} → i ≢ j → pos i ≢ pos j
pos-apart apart e = ground (arith, apart, e)

none-some : {p : ℕ} → none ≢ some p
none-some e = ground (arith, e)

module _ (h : ExpiryHeap) (index : String → Option ℕ) (key : String) (due : ℕ) where
  abbrev made : ExpiryItem
  made = record { key = key; expires_at = due; position = pos 0 }

  -- The heap once the new item is made.
  abbrev pub with_made : ExpiryHeap
  with_made = record h { memory = write h.memory h.next made; next = suc h.next }

  with_made-IsOrdered : IsIndexed h index → IsOrdered with_made.memory with_made.next with_made
  unfolding write
  with_made-IsOrdered v = record {
    good = record {
      placed = λ i inside. ground (
        arith,
        v.made (get_or h.store i 0) (has-at h.store i inside),
        v.ordered.good.placed i inside,
      );
      same = λ q. (refl, refl);
      same_next = refl;
    };
    heap = λ c p q.
        let child = v.made (get_or h.store c 0) (has-at h.store c q) in
        let above =
          v.made (get_or h.store (parent c) 0) (has-at h.store (parent c) (omega arith)) in
        ground (arith, child, above, v.ordered.heap c p q);
  }

  outside : IsIndexed h index → IsOutside with_made h.next
  outside v i inside same =
      absurd (omega (arith, v.made (get_or h.store i 0) (has-at h.store i inside)))

  pub push-Agrees :
      IsIndexed h index
      → index key ≡ none
      → Returns
          (Agrees with_made.memory (update index key (some h.next)))
          (Container.push expiry_heap with_made h.next)
  unfolding update write
  push-Agrees v free =
      Returns-map
        (push-Holds expiry_heap (by_due with_made.memory) 0
          (expiry_lawful with_made.memory with_made.next) with_made h.next (with_made-IsOrdered v)
          (outside v))
        λ h2 (ordered, same).
          let held : (q : ℕ) → has q h2.store ≡ ((q == h.next) || has q h.store) =
            λ q. has-taken q same in
          let named : (q : ℕ)
              → (h2.memory q).key ≡ (if q == h.next then key else (h.memory q).key) =
            λ q. ground (arith, (ordered.good.same q).0) in
          (
            record {
              ordered =
                  rebase with_made.memory h2.memory h2.next h2
                    (subst (λ n. IsOrdered with_made.memory n h2) (sym ordered.good.same_next)
                      ordered)
                    λ q. (refl, refl);
              made = λ q m. rw ordered.good.same_next (ground (arith, held q, v.made q, m));
              listed = λ k q e. elim (Bool-cases (str_eq key k)) [
                | inl s ↦
                    let here : h.next ≡ q = ground (arith, e, s) in
                    (
                      ground (arith, held q, here),
                      ground (arith, named q, here, s, str_eq_iff key k),
                    )
                | inr s ↦
                    let there = v.listed k q (ground (arith, e, s)) in
                    let below = v.made q there.0 in
                    (ground (arith, held q, there), ground (arith, named q, there, below))
              ];
              found = λ q m. elim (Bool-cases (q == h.next)) [
                | inl s ↦ ground (arith, named q, s, str_eq_iff key (h2.memory q).key)
                | inr s ↦
                    let there : has q h.store ≡ true = ground (arith, held q, s, m) in
                    let old : (h2.memory q).key ≡ (h.memory q).key = ground (arith, named q, s) in
                    let taken = v.found q there in
                    let apart : key ≢ (h.memory q).key =
                      λ t. none-some (sym free ∙ ap index t ∙ taken) in
                    rw old (update-ne index (some h.next) key (h.memory q).key apart ∙ taken)
              ];
            },
            ordered.good.same,
          )

module _ (h : ExpiryHeap) (index : String → Option ℕ) (key : String) (due : ℕ) (p : ℕ) where
  -- The heap once the item at `p` is given another time.
  abbrev pub with_due : ExpiryHeap
  with_due = record h { memory = write h.memory p (record (h.memory p) { expires_at = due }) }

  -- Only the edges at the item are in doubt.
  with_due-Touched :
      (i : ℕ)
      → IsIndexed h index
      → i < length h.store
      → get_or h.store i 0 ≡ p
      → Touched (by_due with_due.memory) 0 (length h.store) h.store i
  unfolding write
  with_due-Touched i v inside at =
      let at_place = λ (c : ℕ). get_or h.store c 0 in
      let elsewhere : (c : ℕ) → c < length h.store → c ≢ i → at_place c ≢ p = λ c low apart same.
        pos-apart apart (
          sym (v.ordered.good.placed c low)
          ∙ ap (λ q. (h.memory q).position) (same ∙ sym at)
          ∙ v.ordered.good.placed i inside) in
      let due_at : (c : ℕ)
          → c < length h.store
          → c ≢ i
          → (with_due.memory (at_place c)).expires_at ≡ (h.memory (at_place c)).expires_at =
        λ c low apart. ground (arith, elsewhere c low apart) in
      record {
        edges = λ c above low apart apart'.
            rw (due_at c low apart, due_at (parent c) (omega arith) apart')
              (v.ordered.heap c above low);
        bridged = λ c above low under root.
            rw (due_at c low (omega arith), due_at (parent i) (omega arith) (omega arith))
              (trans_due (h.memory (at_place (parent i))).expires_at
                (h.memory (at_place i)).expires_at (h.memory (at_place c)).expires_at
                (v.ordered.heap i root inside)
                (subst
                  (λ j.
                    ltb (h.memory (at_place c)).expires_at (h.memory (at_place j)).expires_at
                    ≡ false)
                  under (v.ordered.heap c above low)));
      }

  with_due-IsPlaced : IsIndexed h index → IsPlaced with_due.memory h.next with_due
  unfolding write
  with_due-IsPlaced v = record {
    placed =
        λ i inside. ground (arith, v.ordered.good.placed i inside, ==_iff p (get_or h.store i 0));
    same = λ q. (refl, refl);
    same_next = refl;
  }

  fix-Agrees :
      (i : ℕ)
      → IsIndexed h index
      → i < length h.store
      → get_or h.store i 0 ≡ p
      → Returns (Agrees with_due.memory index) (Container.fix expiry_heap with_due i)
  unfolding write
  fix-Agrees i v inside at =
      let g = with_due.memory in
      Returns-map
        (fix-Restored expiry_heap (by_due g) 0 (expiry_lawful g h.next) with_due i
          (with_due-IsPlaced v) inside (with_due-Touched i v inside at))
        λ h2 (ordered, same).
          let held : (q : ℕ) → has q h2.store ≡ has q h.store = λ q. has-perm q same in
          let named : (q : ℕ) → (h2.memory q).key ≡ (h.memory q).key =
            λ q. ground (arith, (ordered.good.same q).0, ==_iff p q) in
          (
            record {
              ordered =
                  rebase g h2.memory h2.next h2
                    (subst (λ n. IsOrdered g n h2) (sym ordered.good.same_next) ordered)
                    λ q. (refl, refl);
              made = λ q m. rw ordered.good.same_next (v.made q (sym (held q) ∙ m));
              listed = λ k q e. let (m, key_at) = v.listed k q e in (held q ∙ m, named q ∙ key_at);
              found = λ q m. ap index (named q) ∙ v.found q (sym (held q) ∙ m);
            },
            ordered.good.same,
          )

  pub fix_at-Agrees :
      IsIndexed h index
      → index key ≡ some p
      → Returns (Agrees with_due.memory index) (fix_at with_due (h.memory p).position)
  unfolding fix_at
  fix_at-Agrees v e =
      let (i, inside, at, position) = place_of v.ordered.good p (v.listed key p e).0 in
      subst (λ z. Returns (Agrees with_due.memory index) (fix_at with_due z)) (sym position)
        (fix-Agrees i v inside at)
