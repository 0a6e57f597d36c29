-- ===== src/KeyValueStore/Refusals.antt =====
-- KeyValueStore/main.go once it is shut down.
use low_level_design_in_go.Base.{
  ℕ, ◌≡◌, ◌≢◌, refl, sym, ap, ◌∙◌, String, Bool, true, false, not, if◌then◌else◌, Option, none,
  some, List, [], ◌∷◌, All, arith,
}
use low_level_design_in_go.Base.Int.{pos, negsuc}
use low_level_design_in_go.Base.Run.{Returns, returns, Returns-bind}
use low_level_design_in_go.KeyValueStore.{
  Entry, KeyValueStore, shutting_down, expired, answer, look_again,
}
use low_level_design_in_go.KeyValueStore.Model.{
  IsConsistent, TimedMap, view, live, set_model, delete_model, read_model,
}
use low_level_design_in_go.KeyValueStore.Sections.{
  Section, sets, looks, looks_again, deletes, shuts_down, takes_due, Reply, stored, looked, read,
  deleted, done, Allows, allows_set, allows_look, allows_again, allows_delete, allows_shutdown,
  allows_due, is_call,
}
use low_level_design_in_go.KeyValueStore.Keeping.{run_section-Keeps}
use low_level_design_in_go.KeyValueStore.Histories.{run_sections}

some-none : {X : Type 0} {x : X} → some x ≢ none
some-none e = ground (arith, e)

if_true : {X : Type 0} {b : Bool} {x : X} (y : X) → b ≡ true → (if b then x else y) ≡ x
if_true y e = rw e refl

if_false : {X : Type 0} {b : Bool} {y : X} (x : X) → b ≡ false → (if b then x else y) ≡ y
if_false x e = rw e refl

module _ {V : Type 0} where
  -- A reply that tells of no value and no change.
  abbrev pub IsRefusal : Reply V → Type 0
  IsRefusal (stored e) = e ≢ none
  IsRefusal (looked l) = l ≡ answer none
  IsRefusal (read v) = v ≡ none
  IsRefusal (deleted b) = b ≡ false
  IsRefusal done = Unit

  live_stopped :
      (m : TimedMap V) (key : String) (now : ℕ) → m.stopped ≡ true → live m key now ≡ none
  unfolding live
  live_stopped m key now stop = rw (live, stop) refl

  not_lapsed :
      (o : Option (Entry V)) (stopped : Bool) (now : ℕ)
      → stopped ≡ true
      → elim o [ none ↦ false | some e ↦ if stopped then false else expired e now ] ≡ false
  not_lapsed none stopped now stop = refl
  not_lapsed (some e) stopped now stop = if_true _ stop

  not_there :
      (o : Option (Entry V)) (stopped : Bool)
      → stopped ≡ true
      → elim o [ none ↦ false | some e ↦ not stopped ] ≡ false
  not_there none stopped stop = refl
  not_there (some e) stopped stop = rw stop refl

  call-IsRefusal :
      (m m' : TimedMap V) (s : Section V) (r : Reply V)
      → m.stopped ≡ true
      → is_call s ≡ true
      → Allows m s m' r
      → (m' ≡ m) × IsRefusal r
  unfolding set_model delete_model read_model
  call-IsRefusal m m' (sets key value (negsuc ttl) now) r stop call (allows_set allowed) =
      (ap (λ r. r.0) allowed, λ fine. some-none (sym (ap (λ r. r.1) allowed) ∙ fine))
  call-IsRefusal m m' (sets key value (pos ttl) now) r stop call (allows_set {e = e} allowed) =
      let refused : (m', e) ≡ (m, some shutting_down) = allowed ∙ if_true _ stop in
      (ap (λ r. r.0) refused, λ fine. some-none (sym (ap (λ r. r.1) refused) ∙ fine))
  call-IsRefusal m m' (looks key now) r stop call (allows_look {l = answer v} allowed) =
      (refl, ap answer (allowed ∙ live_stopped m key now stop))
  call-IsRefusal m m' (looks key now) r stop call (allows_look {l = look_again} allowed) =
      absurd (ground (arith, stop, allowed.3))
  call-IsRefusal m m' (looks_again key now) r stop call (allows_again allowed) = (
    ap (λ r. r.0) allowed ∙ if_false _ (not_lapsed (m.entries key) m.stopped now stop),
    ap (λ r. r.1) allowed ∙ live_stopped m key now stop,
  )
  call-IsRefusal m m' (deletes key) r stop call (allows_delete allowed) =
      let kept = not_there (m.entries key) m.stopped stop in
      (ap (λ r. r.0) allowed ∙ if_false _ kept, ap (λ r. r.1) allowed ∙ kept)
  call-IsRefusal m m' shuts_down r stop call allows_shutdown =
      (ap (λ b. record { entries = m.entries; stopped = b }) (sym stop), tt)
  call-IsRefusal m m' (takes_due now) r stop call (allows_due taken) = absurd (ground (arith, call))

  -- On a consistent store that is shut down, whatever calls are made, none panics, every reply is a
  -- refusal (an error of Set, no value, nothing deleted), and the entries and the flag stay as they
  -- are.
  pub run_sections-IsRefusal :
      (kv : KeyValueStore V) (ss : List (Section V))
      → IsConsistent kv
      → kv.shutdown ≡ true
      → All (λ s. is_call s ≡ true) ss
      → Returns (λ (kv', rs). (view kv' ≡ view kv) × All IsRefusal rs) (run_sections kv ss)
  unfolding run_sections
  run_sections-IsRefusal kv [] v stop calls = returns (refl, tt)
  run_sections-IsRefusal kv (s ∷ ss) v stop calls =
      Returns-bind (run_section-Keeps kv s v) λ (kv1, r) k.
        let (same, refused) = call-IsRefusal (view kv) (view kv1) s r stop calls.0 k.allowed in
        Returns-bind
          (run_sections-IsRefusal kv1 ss k.consistent
            (ap (λ (m : TimedMap V). m.stopped) same ∙ stop) calls.1)
          λ (kv2, rs) (same2, rest). returns (same2 ∙ same, (refused, rest))
