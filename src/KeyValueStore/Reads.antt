-- ===== src/KeyValueStore/Reads.antt =====
-- `Get` and `Exists` of KeyValueStore/main.go, with no other goroutine between their sections.
use low_level_design_in_go.Base.{
  ℕ, ◌≤◌, ◌≡◌, refl, sym, ap, subst, ◌∙◌, String, Bool, true, false, Option, none, some, str_eq,
  str_eq_iff, if_cases, arith, Bool-cases, inl, inr,
}
use low_level_design_in_go.Base.Run.{ok, ◌>>=◌, Returns, returns, Returns-map}
use low_level_design_in_go.KeyValueStore.{
  Entry, KeyValueStore, update, Look, answer, look_again, expired, first_look, second_look, get,
  exists, is_found,
}
use low_level_design_in_go.KeyValueStore.Model.{IsConsistent, TimedMap, view, live, read_model}
use low_level_design_in_go.KeyValueStore.Sections.{LookAllows, read_of_again}
use low_level_design_in_go.KeyValueStore.Keeping.{first_look-Allows, second_look-Reads}
use low_level_design_in_go.KeyValueStore.Indexed.{update-ne, str_eq-ne}
use low_level_design_in_go.KeyValueStore.Rescheduling.{update-eq}

module _ {V : Type 0} where
  -- What a read returns: the value that is live at its first reading of the clock, and a consistent
  -- store with the same live values.
  pub record Got (kv : KeyValueStore V) (key : String) (now : ℕ) (r : KeyValueStore V × Option V)
      : Type 0 where
    pub consistent : IsConsistent r.0
    pub value : r.1 ≡ live (view kv) key now
    pub same_live :
        (k : String) (later : ℕ) → now ≤ later → live (view r.0) k later ≡ live (view kv) k later

  live-expired :
      (m : TimedMap V) (key : String) (e : Entry V) (now later : ℕ)
      → m.entries key ≡ some e
      → expired e now ≡ true
      → now ≤ later
      → live m key later ≡ none
  unfolding live expired
  live-expired m key e now later at old order = elim (Bool-cases m.stopped) [
    | inl stop ↦ rw (live, stop) refl
    | inr open_ ↦
        let still : expired e later ≡ true = ground (arith, old, order) in
        rw (live, open_, at, still) refl
  ]

  live_absent : (m : TimedMap V) (k : String) (t : ℕ) → m.entries k ≡ none → live m k t ≡ none
  unfolding live
  live_absent m k t e = elim (Bool-cases m.stopped) [
    | inl stop ↦ rw (live, stop) refl
    | inr open_ ↦ rw (live, open_, e) refl
  ]

  live_same :
      (es es' : String → Option (Entry V)) (stopped : Bool) (k : String) (t : ℕ)
      → es' k ≡ es k
      → live (record { entries = es'; stopped = stopped }) k t
        ≡ live (record { entries = es; stopped = stopped }) k t
  unfolding live
  live_same es es' stopped k t e = rw (live, e) refl

  -- An expired entry that a read removes was live for nobody.
  read_live :
      (m m' : TimedMap V) (key : String) (e : Entry V) (now later : ℕ) (k : String) (t : ℕ)
      → m.entries key ≡ some e
      → expired e now ≡ true
      → now ≤ t
      → m' ≡ (read_model m key later).0
      → live m' k t ≡ live m k t
  unfolding read_model
  read_live m m' key e now later k t at old after same =
      ap (λ n. live n k t) same ∙ if_cases (λ n. live n k t ≡ live m k t) _ (λ _. gone) λ _. refl
    where
      gone : live (record m { entries = update m.entries key none }) k t ≡ live m k t
      gone = elim (Bool-cases (str_eq key k)) [
        | inl s ↦
            let here : key ≡ k = (str_eq_iff key k).0 s in
            let empty : update m.entries key none k ≡ none =
              subst (λ j. update m.entries key none j ≡ none) here (update-eq m.entries none key) in
            live_absent (record m { entries = update m.entries key none }) k t empty
            ∙ sym (live-expired m k e now t (ap m.entries (sym here) ∙ at) old after)
        | inr s ↦
            live_same m.entries (update m.entries key none) m.stopped k t
              (update-ne m.entries none key k (str_eq-ne s))
      ]

  -- On a consistent store, when no other goroutine comes between its sections and the clock does not
  -- go back, Get returns the value that is live at its first reading of the clock, or none. The
  -- store stays consistent, and every key has the same live value from then on as before.
  pub get-Got :
      (kv : KeyValueStore V) (key : String) (now later : ℕ)
      → IsConsistent kv
      → now ≤ later
      → Returns (Got kv key now) (get kv key now later)
  unfolding get read_model live
  get-Got kv key now later v order = go (first_look kv key now) (first_look-Allows kv key now)
    where
      go :
          (l : Look V)
          → LookAllows (view kv) key now l
          → Returns
              (Got kv key now)
              (elim l [ answer x ↦ ok (kv, x) | look_again ↦ second_look kv key later ])
      go (answer x) allowed =
          returns (record { consistent = v; value = allowed; same_live = λ k t after. refl })
      go look_again (e, at, old, open_) =
          Returns-map (second_look-Reads kv key later v) λ (kv', x) k. record {
            consistent = k.consistent;
            value =
                ap (λ r. r.1) (read_of_again k.allowed)
                ∙ live-expired (view kv) key e now later at old order
                ∙ sym (live-expired (view kv) key e now now at old (omega arith));
            same_live = λ j t after.
                read_live (view kv) (view kv') key e now later j t at old after
                  (ap (λ r. r.0) (read_of_again k.allowed));
          }

  -- `Exists` answers whether `Get` would return a value, and leaves the same store.
  pub exists-get :
      (kv : KeyValueStore V) (key : String) (now later : ℕ)
      → exists kv key now later ≡ (get kv key now later >>= is_found)
  unfolding exists get
  exists-get kv key now later = go (first_look kv key now)
    where
      go :
          (l : Look V)
          → elim l [
            | answer (some v) ↦ ok (kv, true)
            | answer none ↦ ok (kv, false)
            | look_again ↦ second_look kv key later >>= is_found
          ]
            ≡ (elim l [ answer v ↦ ok (kv, v) | look_again ↦ second_look kv key later ]
                >>= is_found)
      go (answer none) = refl
      go (answer (some v)) = refl
      go look_again = refl
