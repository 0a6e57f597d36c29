-- ===== src/KeyValueStore/Histories.antt =====
-- Interleavings of the critical sections of KeyValueStore/main.go.
use low_level_design_in_go.Base.{
  ◌≡◌, ◌⊎◌, refl, ◌∙◌, true, List, [], ◌∷◌, All, inl, inr, arith, has,
}
use low_level_design_in_go.Base.Run.{Run, ok, ◌>>=◌, Returns, returns, Returns-bind, Returns-map}
use low_level_design_in_go.KeyValueStore.{KeyValueStore, new_key_value_store}
use low_level_design_in_go.KeyValueStore.Expiry.{new_min_priority_queue}
use low_level_design_in_go.KeyValueStore.Indexed.{eq_address}
use low_level_design_in_go.KeyValueStore.Model.{IsConsistent, TimedMap, view}
use low_level_design_in_go.KeyValueStore.Sections.{Section, Reply, run_section, Allows, is_call}
use low_level_design_in_go.KeyValueStore.Keeping.{run_section-Keeps}

module _ {V : Type 0} where
  -- Sections in the order in which the lock lets them in, and their replies.
  unfoldable pub run_sections :
      KeyValueStore V → List (Section V) → Run (KeyValueStore V × List (Reply V))
  unfolding run_section
  run_sections kv [] = ok (kv, [])
  run_sections kv (s ∷ ss) = do
    (kv1, r) ← run_section kv s
    (kv2, rs) ← run_sections kv1 ss
    ok (kv2, r ∷ rs)

  -- The map with deadlines makes the same steps and gives the same replies.
  pub data Follows : TimedMap V → List (Section V) → TimedMap V → List (Reply V) → Type 0 where
    nothing : {m : TimedMap V} → Follows m [] m []
    then :
        {m m1 m2 : TimedMap V} {s : Section V} {ss : List (Section V)} {r : Reply V}
        {rs : List (Reply V)}
        → Allows m s m1 r
        → Follows m1 ss m2 rs
        → Follows m (s ∷ ss) m2 (r ∷ rs)

  pub new_key_value_store-IsConsistent : IsConsistent (new_key_value_store {V = V})
  unfolding new_key_value_store new_min_priority_queue has
  new_key_value_store-IsConsistent = record {
    indexed = record {
      ordered = record {
        good = record {
          placed = λ i inside. absurd (omega arith);
          same = λ p. (refl, refl);
          same_next = refl;
        };
        heap = λ c p q. absurd (omega arith);
      };
      made = λ p m. absurd (ground (arith, m));
      listed = λ k p e. absurd (ground (arith, e));
      found = λ p m. absurd (ground (arith, m));
    };
    linked = λ k. refl;
    closed = refl;
  }

  -- On a consistent store no interleaving of the critical sections of Set, Get, Delete, Shutdown and
  -- of the cleaner panics or runs out of fuel, and the store stays consistent: heap, index and
  -- entries agree. Step by step the entries and the shutdown flag change as those of a map with
  -- deadlines, and the replies are that map's: Set stores, or tells of its error; a look gives the
  -- live value; Delete tells whether the key was there; the cleaner takes out an entry that ends
  -- first, if one has ended.
  pub run_sections-Follows :
      (kv : KeyValueStore V) (ss : List (Section V))
      → IsConsistent kv
      → Returns
          (λ (kv', rs). IsConsistent kv' × Follows (view kv) ss (view kv') rs)
          (run_sections kv ss)
  unfolding run_sections
  run_sections-Follows kv [] v = returns (v, nothing)
  run_sections-Follows kv (s ∷ ss) v = Returns-bind (run_section-Keeps kv s v) λ (kv1, r) k.
      Returns-bind (run_sections-Follows kv1 ss k.consistent)
        λ (kv2, rs) (v2, follows). returns (v2, then k.allowed follows)

  -- Whatever callers do after the cleaner looked at the heap, it finds a token to wake it, or the
  -- heap is the one that it looked at.
  pub calls-told :
      (kv : KeyValueStore V) (ss : List (Section V))
      → IsConsistent kv
      → All (λ s. is_call s ≡ true) ss
      → Returns (λ (kv', rs). (kv'.heap ≡ kv.heap) ⊎ (kv'.wakeup ≡ true)) (run_sections kv ss)
  unfolding run_sections
  calls-told kv ss v calls = Returns-map (go kv ss v calls) λ (kv', rs) (told, keeps). told
    where
      go :
          (kv : KeyValueStore V) (ss : List (Section V))
          → IsConsistent kv
          → All (λ s. is_call s ≡ true) ss
          → Returns
              (λ (kv', rs).
                ((kv'.heap ≡ kv.heap) ⊎ (kv'.wakeup ≡ true))
                × (kv.wakeup ≡ true → kv'.wakeup ≡ true))
              (run_sections kv ss)
      go kv [] v calls = returns (inl refl, λ token. token)
      go kv (s ∷ ss) v calls = Returns-bind (run_section-Keeps kv s v) λ (kv1, r) k.
          Returns-bind (go kv1 ss k.consistent calls.1) λ (kv2, rs) (told, keeps). returns (
            elim (k.told calls.0) [
              | inr token ↦ inr (keeps token)
              | inl same ↦ elim told [ inl same2 ↦ inl (same2 ∙ same) | inr token ↦ inr token ]
            ],
            λ token. keeps (k.keeps_token token),
          )
