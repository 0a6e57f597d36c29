-- ===== src/KeyValueStore/Keeping.antt =====
-- What each critical section of KeyValueStore/main.go does to the map with deadlines.
use low_level_design_in_go.Base.{
  ℕ, zero, suc, ◌≡◌, ◌⊎◌, refl, ◌∙◌, String, Bool, true, false, not, Option, none, some, arith,
  if_cases, Option-cases, inl, inr,
}
use low_level_design_in_go.Base.Int.{ℤ, pos, negsuc}
use low_level_design_in_go.Base.Run.{Returns, returns, Returns-bind, Returns-if}
use low_level_design_in_go.KeyValueStore.{
  Entry, KeyValueStore, negative_ttl, shutting_down, update, expired, set, first_look, second_look,
  delete, shut_down,
}
use low_level_design_in_go.KeyValueStore.Indexed.{eq_address}
use low_level_design_in_go.KeyValueStore.Model.{
  IsConsistent, view, live, set_model, delete_model, read_model,
}
use low_level_design_in_go.KeyValueStore.Due.{take_due-TakenDue}
use low_level_design_in_go.KeyValueStore.Storing.{
  Stored, set_forever-Stored, set_until-Stored, drop_key-Stored,
}
use low_level_design_in_go.KeyValueStore.Sections.{
  Section, sets, looks, looks_again, deletes, shuts_down, takes_due, Reply, stored, looked, read,
  deleted, done, run_section, LookAllows, Allows, allows_set, allows_look, allows_again,
  allows_delete, allows_shutdown, allows_due, is_call,
}

false_of_not : {b : Bool} → not b ≡ true → b ≡ false
false_of_not e = ground (arith, e)

true_of_not : {b : Bool} → not b ≡ false → b ≡ true
true_of_not e = ground (arith, e)

module _ {V : Type 0} where
  -- A section leaves a consistent store, does what the map allows, and tells the cleaner when it
  -- changed the heap under it.
  pub record Keeps (kv : KeyValueStore V) (s : Section V) (r : KeyValueStore V × Reply V)
      : Type 0 where
    pub consistent : IsConsistent r.0
    pub allowed : Allows (view kv) s (view r.0) r.1
    pub told : is_call s ≡ true → (r.0.heap ≡ kv.heap) ⊎ (r.0.wakeup ≡ true)
    pub keeps_token : kv.wakeup ≡ true → r.0.wakeup ≡ true

  same-Keeps :
      (kv : KeyValueStore V) (s : Section V) (r : Reply V)
      → IsConsistent kv
      → Allows (view kv) s (view kv) r
      → Keeps kv s (kv, r)
  same-Keeps kv s r v allowed = record {
    consistent = v;
    allowed = allowed;
    told = λ _. inl refl;
    keeps_token = λ token. token;
  }

  changed-Keeps :
      (kv kv' : KeyValueStore V) (s : Section V) (key : String) (x : Option (Entry V)) (r : Reply V)
      → Stored kv key x kv'
      → Allows (view kv) s (record { entries = update kv.store key x; stopped = kv.shutdown }) r
      → Keeps kv s (kv', r)
  changed-Keeps kv kv' s key x r t allowed = record {
    consistent = t.consistent;
    allowed = rw (t.stored, t.same_shutdown) allowed;
    told = λ _. t.told;
    keeps_token = t.keeps_token;
  }

  set-Keeps :
      (kv : KeyValueStore V) (key : String) (value : V) (ttl : ℤ) (now : ℕ)
      → IsConsistent kv
      → Returns (Keeps kv (sets key value ttl now)) (run_section kv (sets key value ttl now))
  unfolding run_section set set_model
  set-Keeps kv key value (negsuc ttl) now v = returns (
      same-Keeps kv (sets key value (negsuc ttl) now) (stored (some negative_ttl)) v
        (allows_set refl))
  set-Keeps kv key value (pos zero) now v =
      Returns-bind
        (Returns-if {P = λ (kv', e). Keeps kv (sets key value (pos 0) now) (kv', stored e)}
          kv.shutdown
          (λ stop. returns (
            same-Keeps kv (sets key value (pos 0) now) (stored (some shutting_down)) v
              (allows_set (rw stop refl))))
          λ open_. Returns-bind (set_forever-Stored kv key value v) λ kv' t. returns (
            changed-Keeps kv kv' (sets key value (pos 0) now) key _ (stored none) t
              (allows_set (rw open_ refl))))
        λ r k. returns k
  set-Keeps kv key value (pos (suc ttl)) now v =
      Returns-bind
        (Returns-if {P = λ (kv', e). Keeps kv (sets key value (pos (suc ttl)) now) (kv', stored e)}
          kv.shutdown
          (λ stop. returns (
            same-Keeps kv (sets key value (pos (suc ttl)) now) (stored (some shutting_down)) v
              (allows_set (rw stop refl))))
          λ open_. Returns-bind (set_until-Stored kv key value ttl now v) λ kv' t. returns (
            changed-Keeps kv kv' (sets key value (pos (suc ttl)) now) key _ (stored none) t
              (allows_set (rw open_ refl))))
        λ r k. returns k

  delete-Keeps :
      (kv : KeyValueStore V) (key : String)
      → IsConsistent kv
      → Returns (Keeps kv (deletes key)) (run_section kv (deletes key))
  unfolding run_section delete delete_model
  delete-Keeps kv key v =
      Returns-bind
        (Returns-if {P = λ (kv', b). Keeps kv (deletes key) (kv', deleted b)} kv.shutdown
          (λ stop. returns (
            same-Keeps kv (deletes key) (deleted false) v (elim (Option-cases (kv.store key)) [
              | inl e ↦ allows_delete ((rw (e, stop) refl))
              | inr (x, e) ↦ allows_delete ((rw (e, stop) refl))
            ])))
          λ open_. elim (Option-cases (kv.store key)) [
            | inl e ↦ rw e (
                returns (same-Keeps kv (deletes key) (deleted false) v (allows_delete (rw e refl))))
            | inr (x, e) ↦ rw e (
                Returns-bind (drop_key-Stored kv key v) λ kv' t. returns (
                  changed-Keeps kv kv' (deletes key) key none (deleted true) t
                    (allows_delete (rw (e, open_) refl))))
          ])
        λ r k. returns k

  pub second_look-Reads :
      (kv : KeyValueStore V) (key : String) (now : ℕ)
      → IsConsistent kv
      → Returns (λ (kv', x). Keeps kv (looks_again key now) (kv', read x)) (second_look kv key now)
  unfolding second_look read_model live
  second_look-Reads kv key now v =
      let s = looks_again key now in
      Returns-if {P = λ (kv', x). Keeps kv s (kv', read x)} kv.shutdown
        (λ stop. returns (
          same-Keeps kv s (read none) v (elim (Option-cases (kv.store key)) [
            | inl e ↦ allows_again ((rw (e, stop) refl))
            | inr (x, e) ↦ allows_again ((rw (e, stop) refl))
          ])))
        λ open_. elim (Option-cases (kv.store key)) [
          | inl e ↦
              rw e (returns (same-Keeps kv s (read none) v (allows_again (rw (e, open_) refl))))
          | inr (x, e) ↦ rw e (
              Returns-if (expired x now)
                (λ old. Returns-bind (drop_key-Stored kv key v) λ kv' t. returns (
                  changed-Keeps kv kv' s key none (read none) t
                    (allows_again (rw (e, open_, old) refl))))
                λ fresh. returns (
                  same-Keeps kv s (read (some x.value)) v
                    (allows_again (rw (e, open_, fresh) refl))))
        ]

  pub first_look-Allows :
      (kv : KeyValueStore V) (key : String) (now : ℕ)
      → LookAllows (view kv) key now (first_look kv key now)
  unfolding first_look live
  first_look-Allows kv key now =
      if_cases (LookAllows (view kv) key now) kv.shutdown (λ stop. rw stop refl)
        λ open_. elim (Option-cases (kv.store key)) [
          | inl e ↦
              let absent : none ≡ live (view kv) key now = rw (live, open_, e) refl in rw e absent
          | inr (x, e) ↦ rw e (
              if_cases (LookAllows (view kv) key now) (not (expired x now))
                (λ fresh. rw (e, open_, false_of_not fresh) refl)
                λ old. (x, e, true_of_not old, open_))
        ]

  shut_down-Keeps :
      (kv : KeyValueStore V)
      → IsConsistent kv
      → Returns (Keeps kv shuts_down) (run_section kv shuts_down)
  unfolding run_section shut_down
  shut_down-Keeps kv v =
      Returns-bind
        (Returns-if {P = λ kv'. Keeps kv shuts_down (kv', done)} kv.shutdown
          (λ stop. returns (same-Keeps kv shuts_down done v (rw stop allows_shutdown)))
          λ open_. rw (v.closed ∙ open_) (
            returns (record {
              consistent = record { indexed = v.indexed; linked = v.linked; closed = refl };
              allowed = allows_shutdown;
              told = λ _. inl refl;
              keeps_token = λ token. token;
            })))
        λ kv' k. returns k

  take_due-Keeps :
      (kv : KeyValueStore V) (now : ℕ)
      → IsConsistent kv
      → Returns (Keeps kv (takes_due now)) (run_section kv (takes_due now))
  unfolding run_section
  take_due-Keeps kv now v = Returns-bind (take_due-TakenDue kv v now) λ kv' t. returns (record {
    consistent = t.consistent;
    allowed = allows_due t.taken;
    told = λ call. absurd (ground (arith, call));
    keeps_token = λ token. t.same_wakeup ∙ token;
  })

  -- Every section returns and keeps what the map with deadlines asks.
  pub run_section-Keeps :
      (kv : KeyValueStore V) (s : Section V)
      → IsConsistent kv
      → Returns (Keeps kv s) (run_section kv s)
  unfolding run_section
  run_section-Keeps kv (sets key value ttl now) v = set-Keeps kv key value ttl now v
  run_section-Keeps kv (looks key now) v = returns (
      same-Keeps kv (looks key now) (looked (first_look kv key now)) v
        (allows_look (first_look-Allows kv key now)))
  run_section-Keeps kv (looks_again key now) v =
      Returns-bind (second_look-Reads kv key now v) λ r k. returns k
  run_section-Keeps kv (deletes key) v = delete-Keeps kv key v
  run_section-Keeps kv shuts_down v = shut_down-Keeps kv v
  run_section-Keeps kv (takes_due now) v = take_due-Keeps kv now v
