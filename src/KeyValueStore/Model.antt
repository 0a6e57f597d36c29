-- ===== src/KeyValueStore/Model.antt =====
-- What the store of KeyValueStore/main.go stands for: a map with deadlines, and whether it is shut
-- down. The heap, the index and the channels are the implementation's own.
use low_level_design_in_go.Base.{
  ℕ, zero, suc, ◌+◌, ◌≤◌, ◌<◌, ◌≡◌, ◌≢◌, sym, ap, ◌∙◌, String, Bool, true, false, not, inl, inr,
  Option, none, some, str_eq, str_eq_iff, arith, if◌then◌else◌, Bool-cases,
}
use low_level_design_in_go.Base.Int.{ℤ, pos, negsuc}
use low_level_design_in_go.KeyValueStore.{
  Entry, KeyValueStore, SetError, negative_ttl, shutting_down, update, expired,
}
use low_level_design_in_go.KeyValueStore.Expiry.{ExpiryHeap}
use low_level_design_in_go.KeyValueStore.Indexed.{IsIndexed, update-ne, str_eq-ne}

-- When an entry ends, if it does.
abbrev pub deadline : {V : Type 0} → Option (Entry V) → Option ℕ
deadline none = none
deadline (some e) = if e.expires then some e.expires_at else none

-- When the item that the index names is due.
abbrev pub due_of : ExpiryHeap → Option ℕ → Option ℕ
due_of h none = none
due_of h (some p) = some (h.memory p).expires_at

pub record TimedMap (V : Type 0) : Type 0 where
  pub entries : String → Option (Entry V)
  pub stopped : Bool

module _ {V : Type 0} where
  -- The heap and the index agree, and hold the deadlines of the entries.
  pub record IsConsistent (kv : KeyValueStore V) : Type 0 where
    pub indexed : IsIndexed kv.heap kv.expiry_index
    pub linked : (k : String) → due_of kv.heap (kv.expiry_index k) ≡ deadline (kv.store k)
    pub closed : kv.done ≡ kv.shutdown

  abbrev pub view : KeyValueStore V → TimedMap V
  view kv = record { entries = kv.store; stopped = kv.shutdown }

  -- The entry that `Set` makes.
  abbrev pub entry_for : V → ℕ → ℕ → Entry V
  entry_for value zero now = record { value = value; expires_at = 0; expires = false }
  entry_for value (suc ttl) now = record {
    value = value;
    expires_at = now + suc ttl;
    expires = true;
  }

  -- The value under a key at a time, unless it is gone or expired.
  unfoldable pub live : TimedMap V → String → ℕ → Option V
  unfolding expired
  live m key now = if m.stopped then none else elim (m.entries key) [
    | none ↦ none
    | some e ↦ if expired e now then none else some e.value
  ]

  unfoldable pub set_model : TimedMap V → String → V → ℤ → ℕ → TimedMap V × Option SetError
  unfolding update
  set_model m key value (negsuc ttl) now = (m, some negative_ttl)
  set_model m key value (pos ttl) now =
      if m.stopped
      then (m, some shutting_down)
      else (record m { entries = update m.entries key (some (entry_for value ttl now)) }, none)

  -- A key leaves if it is there and the store is open; the answer tells.
  unfoldable pub delete_model : TimedMap V → String → TimedMap V × Bool
  unfolding update
  delete_model m key =
      let there : Bool = elim (m.entries key) [ none ↦ false | some e ↦ not m.stopped ] in
      (if there then record m { entries = update m.entries key none } else m, there)

  -- A read that finds an expired entry removes it.
  unfoldable pub read_model : TimedMap V → String → ℕ → TimedMap V × Option V
  unfolding expired live update
  read_model m key now =
      let lapsed : Bool = elim (m.entries key) [
        | none ↦ false
        | some e ↦ if m.stopped then false else expired e now
      ] in
      (if lapsed then record m { entries = update m.entries key none } else m, live m key now)

  -- What the cleaner does at a time: it removes one entry that is due, if there is one.
  pub data TookDue (m : TimedMap V) (now : ℕ) : TimedMap V → Type 0 where
    none_due :
        ((k : String) (due : ℕ) → deadline (m.entries k) ≡ some due → now < due) → TookDue m now m
    removed :
        (k : String) (due : ℕ)
        → deadline (m.entries k) ≡ some due
        → due ≤ now
        → ((j : String) (other : ℕ) → deadline (m.entries j) ≡ some other → due ≤ other)
        → TookDue m now (record m { entries = update m.entries k none })

  -- One key is given another entry, and its deadline.
  pub relinked-IsConsistent :
      (kv kv' : KeyValueStore V) (key : String) (x : Option (Entry V))
      → IsConsistent kv
      → IsIndexed kv'.heap kv'.expiry_index
      → due_of kv'.heap (kv'.expiry_index key) ≡ deadline x
      → ((k : String)
          → key ≢ k
          → due_of kv'.heap (kv'.expiry_index k) ≡ due_of kv.heap (kv.expiry_index k))
      → kv'.store ≡ update kv.store key x
      → kv'.done ≡ kv'.shutdown
      → IsConsistent kv'
  unfolding update
  relinked-IsConsistent kv kv' key x v indexed own others stored closed = record {
    indexed = indexed;
    linked = λ k. elim (Bool-cases (str_eq key k)) [
      | inl s ↦
          let e : kv'.store k ≡ x = ap (λ m. m k) stored ∙ ground (arith, s) in
          rw (e, sym ((str_eq_iff key k).0 s)) own
      | inr s ↦
          let apart : key ≢ k = str_eq-ne s in
          let e : kv'.store k ≡ kv.store k =
            ap (λ m. m k) stored ∙ update-ne kv.store x key k apart in
          rw e (others k apart ∙ v.linked k)
    ];
    closed = closed;
  }
