-- ===== src/KeyValueStore/Sections.antt =====
-- The critical sections of KeyValueStore/main.go, and what each may do to the map with deadlines
-- that the store stands for.
use low_level_design_in_go.Base.{ℕ, ◌≡◌, String, Bool, true, false, Option, some}
use low_level_design_in_go.Base.Int.{ℤ}
use low_level_design_in_go.Base.Run.{Run, ok, ◌>>=◌}
use low_level_design_in_go.KeyValueStore.{
  Entry, KeyValueStore, SetError, expired, Look, answer, look_again, set, first_look, second_look,
  delete, shut_down, take_due,
}
use low_level_design_in_go.KeyValueStore.Indexed.{eq_address}
use low_level_design_in_go.KeyValueStore.Model.{
  TimedMap, live, set_model, delete_model, read_model, TookDue,
}

-- A section, with the clock's reading in it.
pub data Section (V : Type 0) : Type 0 where
  sets : String → V → ℤ → ℕ → Section V
  looks looks_again : String → ℕ → Section V
  deletes : String → Section V
  shuts_down : Section V
  takes_due : ℕ → Section V

-- What a section gives back.
pub data Reply (V : Type 0) : Type 0 where
  stored : Option SetError → Reply V
  looked : Look V → Reply V
  read : Option V → Reply V
  deleted : Bool → Reply V
  done : Reply V

module _ {V : Type 0} where
  unfoldable pub run_section : KeyValueStore V → Section V → Run (KeyValueStore V × Reply V)
  unfolding set first_look second_look delete shut_down take_due
  run_section kv (sets key value ttl now) =
      set kv key value ttl now >>= λ (kv', e). ok (kv', stored e)
  run_section kv (looks key now) = ok (kv, looked (first_look kv key now))
  run_section kv (looks_again key now) = second_look kv key now >>= λ (kv', v). ok (kv', read v)
  run_section kv (deletes key) = delete kv key >>= λ (kv', b). ok (kv', deleted b)
  run_section kv shuts_down = shut_down kv >>= λ kv'. ok (kv', done)
  run_section kv (takes_due now) = take_due kv now >>= λ kv'. ok (kv', done)

  -- A first look answers with the live value, or leaves an expired entry to the second one.
  abbrev pub LookAllows : TimedMap V → String → ℕ → Look V → Type 0
  LookAllows m key now (answer v) = v ≡ live m key now
  LookAllows m key now look_again =
      (e : Entry V) × (m.entries key ≡ some e) × (expired e now ≡ true) × (m.stopped ≡ false)

  -- What a section may do to the map with deadlines, and reply.
  pub data Allows (m : TimedMap V) : Section V → TimedMap V → Reply V → Type 0 where
    allows_set :
        {key : String} {value : V} {ttl : ℤ} {now : ℕ} {m' : TimedMap V} {e : Option SetError}
        → (m', e) ≡ set_model m key value ttl now
        → Allows m (sets key value ttl now) m' (stored e)
    allows_look :
        {key : String} {now : ℕ} {l : Look V}
        → LookAllows m key now l
        → Allows m (looks key now) m (looked l)
    allows_again :
        {key : String} {now : ℕ} {m' : TimedMap V} {v : Option V}
        → (m', v) ≡ read_model m key now
        → Allows m (looks_again key now) m' (read v)
    allows_delete :
        {key : String} {m' : TimedMap V} {b : Bool}
        → (m', b) ≡ delete_model m key
        → Allows m (deletes key) m' (deleted b)
    allows_shutdown : Allows m shuts_down (record m { stopped = true }) done
    allows_due : {now : ℕ} {m' : TimedMap V} → TookDue m now m' → Allows m (takes_due now) m' done

  pub read_of_again :
      {m m' : TimedMap V} {key : String} {now : ℕ} {v : Option V}
      → Allows m (looks_again key now) m' (read v)
      → (m', v) ≡ read_model m key now
  read_of_again (allows_again e) = e

  -- A section of one of the callers, not of the cleaner.
  abbrev pub is_call : Section V → Bool
  is_call (takes_due now) = false
  is_call s = true
