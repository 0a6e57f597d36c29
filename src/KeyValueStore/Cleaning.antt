-- ===== src/KeyValueStore/Cleaning.antt =====
-- The loop of `autoCleanup` of KeyValueStore/main.go.
use low_level_design_in_go.Base.{
  ℕ, zero, suc, ◌≤◌, ◌<◌, ◌≡◌, ◌⊎◌, refl, sym, ap, subst, ◌∙◌, String, true, Option, none, some,
  List, leb, str_eq, str_eq_iff, arith, length, All, if◌then◌else◌, Bool-cases, Option-cases, inl,
  inr,
}
use low_level_design_in_go.Base.Run.{
  Run, ok, ◌>>=◌, Returns, returns, Returns-bind, Returns-map, Returns-if,
}
use low_level_design_in_go.KeyValueStore.{Entry, KeyValueStore, update, Wait, idle, timer, clean}
use low_level_design_in_go.KeyValueStore.Expiry.{ExpiryHeap, peek}
use low_level_design_in_go.KeyValueStore.Indexed.{update-ne, str_eq-ne}
use low_level_design_in_go.KeyValueStore.Rescheduling.{update-eq}
use low_level_design_in_go.KeyValueStore.Model.{deadline, IsConsistent}
use low_level_design_in_go.KeyValueStore.Due.{Emptied, take_due-Emptied, first_due, nothing_held}
use low_level_design_in_go.KeyValueStore.Sections.{Section, is_call}
use low_level_design_in_go.KeyValueStore.Histories.{run_sections, calls-told}

-- What the cleaner waits for when this is the heap.
unfoldable pub waits_for : ExpiryHeap → Wait
unfolding peek
waits_for h = elim (peek h) [ none ↦ idle | some p ↦ timer (h.memory p).expires_at ]

module _ {V : Type 0} where
  -- An entry, unless it has ended by `now`.
  abbrev pub unless_due : ℕ → Option (Entry V) → Option (Entry V)
  unless_due now e = elim (deadline e) [ none ↦ e | some d ↦ if leb d now then none else e ]

  -- What the cleaner leaves: every entry that has ended is gone, the others are as they were, and
  -- it waits for the first of them.
  pub record Cleaned (now : ℕ) (kv : KeyValueStore V) (r : KeyValueStore V × Wait) : Type 0 where
    pub consistent : IsConsistent r.0
    pub swept : (k : String) → r.0.store k ≡ unless_due now (kv.store k)
    pub waits : r.1 ≡ waits_for r.0.heap
    pub same_shutdown : r.0.shutdown ≡ kv.shutdown

  unless_due-later :
      (now : ℕ) (e : Option (Entry V))
      → ((d : ℕ) → deadline e ≡ some d → now < d)
      → unless_due now e ≡ e
  unless_due-later now e later = elim (Option-cases (deadline e)) [
    | inl forever ↦ rw (unless_due, forever) refl
    | inr (d, at) ↦ rw (unless_due, at) (ground (arith, later d at))
  ]

  unless_due-gone :
      (now d : ℕ) (e : Option (Entry V)) → deadline e ≡ some d → d ≤ now → unless_due now e ≡ none
  unless_due-gone now d e at soon = rw (unless_due, at) (ground (arith, soon))

  -- Taking out an entry that has ended does not change what the sweep leaves.
  swept_after :
      (now : ℕ) (kv kv1 : KeyValueStore V) (v : IsConsistent kv)
      → Emptied kv v now kv1
      → (k : String) → unless_due now (kv1.store k) ≡ unless_due now (kv.store k)
  swept_after now kv kv1 v t k =
      let at : kv1.store k ≡ update kv.store t.key none k = ap (λ m. m k) t.gone in
      elim (Bool-cases (str_eq t.key k)) [
        | inl s ↦
            let e : t.key ≡ k = (str_eq_iff t.key k).0 s in
            let left : kv1.store k ≡ none =
              at
              ∙ subst (λ j. update kv.store t.key none j ≡ none) e
                  (update-eq kv.store none t.key) in
            ap (unless_due now) left
            ∙ sym (
                unless_due-gone now t.due (kv.store k)
                  (ap (λ j. deadline (kv.store j)) (sym e) ∙ t.ends) t.soon)
        | inr s ↦ ap (unless_due now) (at ∙ update-ne kv.store none t.key k (str_eq-ne s))
      ]

  -- On a consistent store, with more fuel than items in the heap, the cleaner's loop reaches its
  -- next wait. The store stays consistent, exactly the entries that have ended by then are gone, and
  -- the loop waits for the deadline that ends first, or for news if there is none.
  pub clean-Cleaned :
      (fuel : ℕ) (kv : KeyValueStore V) (now : ℕ)
      → IsConsistent kv
      → length kv.heap.store < fuel
      → Returns (Cleaned now kv) (clean fuel kv now)
  unfolding clean waits_for
  clean-Cleaned zero kv now v enough = absurd (omega arith)
  clean-Cleaned (suc fuel) kv now v enough = elim (Option-cases (peek kv.heap)) [
    | inl empty ↦
        rw (clean, empty)
          (returns (record {
            consistent = v;
            swept = λ k.
                sym
                  (unless_due-later now (kv.store k) λ d e. absurd (nothing_held kv v empty k d e));
            waits = rw (waits_for, empty) refl;
            same_shutdown = refl;
          }))
    | inr (p, first) ↦
        rw (clean, first)
          (Returns-if (leb (kv.heap.memory p).expires_at now)
            (λ ready.
              Returns-bind (take_due-Emptied kv v now p first (ground (arith, ready))) λ kv1 t.
                Returns-map (clean-Cleaned fuel kv1 now t.consistent (omega (arith, t.shorter)))
                  λ r c. record {
                    consistent = c.consistent;
                    swept = λ k. c.swept k ∙ swept_after now kv kv1 v t k;
                    waits = c.waits;
                    same_shutdown = c.same_shutdown ∙ t.same_shutdown;
                  })
            λ early. returns (record {
              consistent = v;
              swept = λ k. sym (
                  unless_due-later now (kv.store k) λ d e.
                    let soonest = first_due kv v p k d first e in ground (arith, early, soonest));
              waits = rw (waits_for, first) refl;
              same_shutdown = refl;
            }))
  ]

  -- The cleaner goes to its wait, and then other goroutines have their calls.
  unfoldable pub clean_then :
      ℕ → KeyValueStore V → ℕ → List (Section V) → Run (KeyValueStore V × Wait)
  unfolding clean run_sections
  clean_then fuel kv now ss =
      clean fuel kv now >>= λ (kv1, w). run_sections kv1 ss >>= λ (kv2, rs). ok (kv2, w)

  -- On a consistent store, with more fuel than items in the heap, the cleaner goes to its wait, and
  -- whatever sections of callers come after that, either a token waits to wake it or its wait is the
  -- one that the heap now asks for.
  pub clean_then-waits :
      (fuel : ℕ) (kv : KeyValueStore V) (now : ℕ) (ss : List (Section V))
      → IsConsistent kv
      → length kv.heap.store < fuel
      → All (λ s. is_call s ≡ true) ss
      → Returns
          (λ (kv', w). (kv'.wakeup ≡ true) ⊎ (w ≡ waits_for kv'.heap))
          (clean_then fuel kv now ss)
  unfolding clean_then
  clean_then-waits fuel kv now ss v enough calls =
      Returns-bind (clean-Cleaned fuel kv now v enough) λ (kv1, w) c.
        Returns-bind (calls-told kv1 ss c.consistent calls) λ (kv2, rs) told.
          returns (elim told [
            | inl same ↦ inr (c.waits ∙ ap waits_for (sym same))
            | inr token ↦ inl token
          ])
