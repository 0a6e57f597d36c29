-- ===== src/KeyValueStore/Storing.antt =====
-- What the helpers of KeyValueStore/main.go leave that change an entry together with its item.
use low_level_design_in_go.Base.{
  ℕ, suc, ◌+◌, ◌≡◌, refl, sym, ap, subst, ◌∙◌, String, true, false, ◌⊎◌, Option, none, some, arith,
  Option-cases, inl, inr,
}
use low_level_design_in_go.Base.Run.{Returns, returns, Returns-bind, Returns-map, Returns-if}
use low_level_design_in_go.KeyValueStore.{
  Entry, KeyValueStore, update, signal_cleanup, forget_item, set_forever, set_until, old_expires,
  drop_key,
}
use low_level_design_in_go.KeyValueStore.Expiry.{ExpiryHeap}
use low_level_design_in_go.KeyValueStore.Indexed.{eq_address, IsIndexed}
use low_level_design_in_go.KeyValueStore.Model.{
  deadline, due_of, IsConsistent, relinked-IsConsistent, entry_for,
}
use low_level_design_in_go.KeyValueStore.Rescheduling.{
  Rescheduled, forget_item-Rescheduled, postpone-Rescheduled, schedule-Rescheduled,
}

module _ {V : Type 0} where
  -- What `set_forever` and `set_until` leave: the entry, with its item or without one.
  pub record Stored (kv : KeyValueStore V) (key : String) (x : Option (Entry V))
      (kv' : KeyValueStore V) : Type 0 where
    pub consistent : IsConsistent kv'
    pub stored : kv'.store ≡ update kv.store key x
    pub same_shutdown : kv'.shutdown ≡ kv.shutdown
    pub told : (kv'.heap ≡ kv.heap) ⊎ (kv'.wakeup ≡ true)
    pub keeps_token : kv.wakeup ≡ true → kv'.wakeup ≡ true

  relinked :
      (kv kv' kv'' : KeyValueStore V) (key : String) (x : Option (Entry V))
      → IsConsistent kv
      → Rescheduled kv key (deadline x) kv'
      → kv''.store ≡ update kv.store key x
      → kv''.heap ≡ kv'.heap
      → kv''.expiry_index ≡ kv'.expiry_index
      → kv''.shutdown ≡ kv'.shutdown
      → kv''.done ≡ kv'.done
      → IsConsistent kv''
  relinked kv kv' kv'' key x v r stored heap index shutdown done =
      relinked-IsConsistent kv kv'' key x v
        (subst (λ h. IsIndexed h kv''.expiry_index) (sym heap)
          (subst (IsIndexed kv'.heap) (sym index) r.indexed))
        (rw (heap, index) r.own) (λ k apart. rw (heap, index) (r.others k apart)) stored
        (done ∙ r.same_done ∙ v.closed ∙ sym (shutdown ∙ r.same_shutdown))

  -- An entry that expires has an item, and another one has none.
  item_of_old :
      (h : ExpiryHeap) (o : Option ℕ) (e : Option (Entry V))
      → due_of h o ≡ deadline e
      → old_expires e ≡ true
      → (p : ℕ) × (o ≡ some p)
  unfolding old_expires
  item_of_old h (some p) e link old = (p, refl)
  item_of_old h none none link old = absurd (ground (arith, old))
  item_of_old h none (some e) link old = absurd (ground (arith, link, old))

  free_of_old :
      (h : ExpiryHeap) (o : Option ℕ) (e : Option (Entry V))
      → due_of h o ≡ deadline e
      → old_expires e ≡ false
      → o ≡ none
  unfolding old_expires
  free_of_old h none e link old = refl
  free_of_old h (some p) none link old = absurd (ground (arith, link))
  free_of_old h (some p) (some e) link old = absurd (ground (arith, link, old))

  -- A key without an item, left alone.
  unscheduled-Rescheduled :
      (kv : KeyValueStore V) (key : String)
      → IsConsistent kv
      → kv.expiry_index key ≡ none
      → Rescheduled kv key none kv
  unscheduled-Rescheduled kv key v e = record {
    indexed = v.indexed;
    own = ap (due_of kv.heap) e;
    others = λ k apart. refl;
    same_store = refl;
    same_shutdown = refl;
    same_done = refl;
  }

  -- The item is gone, and the cleaner is told if there was one.
  abbrev Forgotten : KeyValueStore V → String → KeyValueStore V → Type 0
  Forgotten kv key kv' =
      Rescheduled kv key none kv'
      × ((kv'.heap ≡ kv.heap) ⊎ (kv'.wakeup ≡ true))
      × (kv.wakeup ≡ true → kv'.wakeup ≡ true)

  forgets :
      (kv : KeyValueStore V) (key : String) (p : ℕ)
      → IsIndexed kv.heap kv.expiry_index
      → kv.expiry_index key ≡ some p
      → Returns (Forgotten kv key) (forget_item kv key p)
  forgets kv key p v e =
      Returns-map (forget_item-Rescheduled kv key p v e)
        λ kv' (r, signalled). (r, inr signalled, λ _. signalled)

  pub set_forever-Stored :
      (kv : KeyValueStore V) (key : String) (value : V)
      → IsConsistent kv
      → Returns (Stored kv key (some (entry_for value 0 0))) (set_forever kv key value)
  unfolding set_forever
  set_forever-Stored kv key value v =
      Returns-bind
        (Returns-if {P = Forgotten kv key} (old_expires (kv.store key))
          (λ old.
            let (p, e) =
              item_of_old kv.heap (kv.expiry_index key) (kv.store key) (v.linked key) old in
            rw e (forgets kv key p v.indexed e))
          λ new. returns (
            unscheduled-Rescheduled kv key v
                (free_of_old kv.heap (kv.expiry_index key) (kv.store key) (v.linked key) new),
            inl refl,
            λ token. token,
          ))
        λ kv' (r, told, keeps).
          let stored = ap (λ m. update m key (some (entry_for value 0 0))) r.same_store in
          returns (record {
            consistent =
                relinked kv kv'
                  (record kv' { store = update kv'.store key (some (entry_for value 0 0)) }) key
                  (some (entry_for value 0 0)) v r stored refl refl refl refl;
            stored = stored;
            same_shutdown = r.same_shutdown;
            told = told;
            keeps_token = keeps;
          })

  pub set_until-Stored :
      (kv : KeyValueStore V) (key : String) (value : V) (ttl now : ℕ)
      → IsConsistent kv
      → Returns
          (Stored kv key (some (entry_for value (suc ttl) now)))
          (set_until kv key value (now + suc ttl))
  unfolding set_until signal_cleanup
  set_until-Stored kv key value ttl now v =
      let due = now + suc ttl in
      let entry = entry_for value (suc ttl) now in
      Returns-bind
        (Returns-if {P = Rescheduled kv key (some due)} (old_expires (kv.store key))
          (λ old.
            let (p, e) =
              item_of_old kv.heap (kv.expiry_index key) (kv.store key) (v.linked key) old in
            rw e (postpone-Rescheduled kv key p due v.indexed e))
          λ new.
            schedule-Rescheduled kv key due v.indexed
              (free_of_old kv.heap (kv.expiry_index key) (kv.store key) (v.linked key) new))
        λ kv' r.
          let stored = ap (λ m. update m key (some entry)) r.same_store in
          returns (record {
            consistent =
                relinked kv kv'
                  (record kv' { wakeup = true; store = update kv'.store key (some entry) }) key
                  (some entry) v r stored refl refl refl refl;
            stored = stored;
            same_shutdown = r.same_shutdown;
            told = inr refl;
            keeps_token = λ token. refl;
          })

  pub drop_key-Stored :
      (kv : KeyValueStore V) (key : String)
      → IsConsistent kv
      → Returns (Stored kv key none) (drop_key kv key)
  unfolding drop_key
  drop_key-Stored kv key v =
      let kv0 = record kv { store = update kv.store key none } in
      let finish : (kv' : KeyValueStore V) → Forgotten kv0 key kv' → Stored kv key none kv' =
        λ kv' (r, told, keeps).
          let r' : Rescheduled kv key none (record kv' { store = kv.store }) = record {
            indexed = r.indexed;
            own = r.own;
            others = r.others;
            same_store = refl;
            same_shutdown = r.same_shutdown;
            same_done = r.same_done;
          } in
          record {
            consistent =
                relinked kv (record kv' { store = kv.store }) kv' key none v r' r.same_store refl
                  refl refl refl;
            stored = r.same_store;
            same_shutdown = r.same_shutdown;
            told = told;
            keeps_token = keeps;
          } in
      elim (Option-cases (kv.expiry_index key)) [
        | inl free ↦
            rw (drop_key, free)
              (returns (
                finish kv0 (
                  record {
                    indexed = v.indexed;
                    own = ap (due_of kv.heap) free;
                    others = λ k apart. refl;
                    same_store = refl;
                    same_shutdown = refl;
                    same_done = refl;
                  },
                  inl refl,
                  λ token. token,
                )))
        | inr (p, e) ↦ rw (drop_key, e) (Returns-map (forgets kv0 key p v.indexed e) finish)
      ]
