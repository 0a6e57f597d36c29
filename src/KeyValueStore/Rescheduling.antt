-- ===== src/KeyValueStore/Rescheduling.antt =====
-- The helpers of KeyValueStore/main.go that change the heap with the index: what they leave.
use low_level_design_in_go.Base.{
  ℕ, ◌≡◌, ◌≢◌, refl, sym, ap, ◌∙◌, String, true, Option, none, some, str_eq_iff, arith, ==_iff,
}
use low_level_design_in_go.Base.Run.{Returns, returns, Returns-bind}
use low_level_design_in_go.KeyValueStore.{
  KeyValueStore, update, signal_cleanup, forget_item, postpone, schedule,
}
use low_level_design_in_go.KeyValueStore.Expiry.{ExpiryHeap, write}
use low_level_design_in_go.KeyValueStore.Indexed.{eq_address, IsIndexed, update-ne}
use low_level_design_in_go.KeyValueStore.Scheduling.{remove_at-Agrees, push-Agrees, fix_at-Agrees}
use low_level_design_in_go.KeyValueStore.Model.{due_of}

pub update-eq :
    {X : Type 0} (m : String → Option X) (x : Option X) (key : String) → update m key x key ≡ x
unfolding update
update-eq m x key = ground (arith, str_eq_iff key key)

-- The index keeps what it has under another key, and so does the heap.
pub due_of-same :
    (h h' : ExpiryHeap) (o : Option ℕ)
    → ((p : ℕ) → o ≡ some p → (h'.memory p).expires_at ≡ (h.memory p).expires_at)
    → due_of h' o ≡ due_of h o
due_of-same h h' none e = refl
due_of-same h h' (some p) e = ap some (e p refl)

module _ {V : Type 0} where
  -- `kv'` is `kv` with the item of `key` due at `d`, or without one.
  pub record Rescheduled (kv : KeyValueStore V) (key : String) (d : Option ℕ)
      (kv' : KeyValueStore V) : Type 0 where
    pub indexed : IsIndexed kv'.heap kv'.expiry_index
    pub own : due_of kv'.heap (kv'.expiry_index key) ≡ d
    pub others :
        (k : String)
        → key ≢ k
        → due_of kv'.heap (kv'.expiry_index k) ≡ due_of kv.heap (kv.expiry_index k)
    pub same_store : kv'.store ≡ kv.store
    pub same_shutdown : kv'.shutdown ≡ kv.shutdown
    pub same_done : kv'.done ≡ kv.done

  pub forget_item-Rescheduled :
      (kv : KeyValueStore V) (key : String) (p : ℕ)
      → IsIndexed kv.heap kv.expiry_index
      → kv.expiry_index key ≡ some p
      → Returns (λ kv'. Rescheduled kv key none kv' × (kv'.wakeup ≡ true)) (forget_item kv key p)
  unfolding forget_item signal_cleanup
  forget_item-Rescheduled kv key p v e =
      let index = kv.expiry_index in
      Returns-bind (remove_at-Agrees kv.heap index key p v e) λ h (indexed, items). returns (
        record {
          indexed = indexed;
          own = ap (due_of h) (update-eq index none key);
          others = λ k apart.
              ap (due_of h) (update-ne index none key k apart)
              ∙ due_of-same kv.heap h (index k) λ q _. (items q).1;
          same_store = refl;
          same_shutdown = refl;
          same_done = refl;
        },
        refl,
      )

  pub postpone-Rescheduled :
      (kv : KeyValueStore V) (key : String) (p due : ℕ)
      → IsIndexed kv.heap kv.expiry_index
      → kv.expiry_index key ≡ some p
      → Returns (Rescheduled kv key (some due)) (postpone kv p due)
  unfolding postpone write
  postpone-Rescheduled kv key p due v e =
      let index = kv.expiry_index in
      Returns-bind (fix_at-Agrees kv.heap index key due p v e) λ h (indexed, items).
        returns (record {
          indexed = indexed;
          own = ap (due_of h) e ∙ ap some ((items p).1 ∙ ground (arith, ==_iff p p));
          others = λ k apart. due_of-same kv.heap h (index k) λ q at.
              let unlike : p ≢ q = λ s. apart (
                sym (v.listed key p e).1
                ∙ ap (λ r. (kv.heap.memory r).key) s
                ∙ (v.listed k q at).1) in
              (items q).1 ∙ ground (arith, unlike);
          same_store = refl;
          same_shutdown = refl;
          same_done = refl;
        })

  pub schedule-Rescheduled :
      (kv : KeyValueStore V) (key : String) (due : ℕ)
      → IsIndexed kv.heap kv.expiry_index
      → kv.expiry_index key ≡ none
      → Returns (Rescheduled kv key (some due)) (schedule kv key due)
  unfolding schedule write
  schedule-Rescheduled kv key due v e =
      let index = kv.expiry_index in
      let made = some kv.heap.next in
      Returns-bind (push-Agrees kv.heap index key due v e) λ h (indexed, items). returns (record {
        indexed = indexed;
        own =
            ap (due_of h) (update-eq index made key)
            ∙ ap some ((items kv.heap.next).1 ∙ ground (arith, ==_iff kv.heap.next kv.heap.next));
        others = λ k apart.
            ap (due_of h) (update-ne index made key k apart)
            ∙ due_of-same kv.heap h (index k) λ q at.
              let below = v.made q (v.listed k q at).0 in (items q).1 ∙ ground (arith, below);
        same_store = refl;
        same_shutdown = refl;
        same_done = refl;
      })
