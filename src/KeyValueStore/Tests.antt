-- ===== src/KeyValueStore/Tests.antt =====
-- The store of KeyValueStore/main.go on concrete calls.
use low_level_design_in_go.Base.{
  ℕ, ◌≡◌, refl, ◌⊎◌, str_eq, str_eq_iff, true, false, none, some, List, [], ◌∷◌, All, arith, has,
  has_self, has-get_or, if◌then◌else◌,
}
use low_level_design_in_go.Base.Int.{pos, negsuc}
use low_level_design_in_go.Base.Run.{ok, ◌>>=◌, Returns}
use low_level_design_in_go.KeyValueStore.{
  KeyValueStore, Entry, new_key_value_store, get, clean, idle, negative_ttl, answer,
}
use low_level_design_in_go.KeyValueStore.Expiry as Heap
use low_level_design_in_go.KeyValueStore.Expiry.{ExpiryItem, new_min_priority_queue}
use low_level_design_in_go.KeyValueStore.Indexed.{eq_address}
use low_level_design_in_go.KeyValueStore.Model.{IsConsistent, view}
use low_level_design_in_go.KeyValueStore.Sections.{
  Section, sets, looks, deletes, shuts_down, takes_due, stored, looked, deleted, done,
}
use low_level_design_in_go.KeyValueStore.Histories.{
  run_sections, Follows, run_sections-Follows, new_key_value_store-IsConsistent,
}
use low_level_design_in_go.KeyValueStore.Reads.{Got, get-Got}
use low_level_design_in_go.KeyValueStore.Refusals.{IsRefusal, run_sections-IsRefusal}
use low_level_design_in_go.KeyValueStore.Cleaning.{
  Cleaned, clean-Cleaned, clean_then, clean_then-waits, waits_for,
}

-- Two keys that expire and one that does not; the first key is moved behind the second one.
abbrev day : List (Section ℕ)
day =
    sets "a" 1 (pos 5) 10
    ∷ sets "b" 2 (pos 7) 11
    ∷ sets "c" 3 (pos 0) 12
    ∷ sets "a" 4 (pos 20) 13
    ∷ sets "d" 5 (negsuc 0) 14
    ∷ takes_due 18
    ∷ looks "b" 18
    ∷ looks "a" 18
    ∷ deletes "c"
    ∷ shuts_down
    ∷ []

day_replies :
    (run_sections new_key_value_store day >>= λ (kv, rs). ok rs)
    ≡ ok (
        stored none
        ∷ stored none
        ∷ stored none
        ∷ stored none
        ∷ stored (some negative_ttl)
        ∷ done
        ∷ looked (answer none)
        ∷ looked (answer (some 4))
        ∷ deleted true
        ∷ done
        ∷ [])
unfolding run_sections new_key_value_store Heap.heap_len Heap.push Heap.less Heap.swap Heap.pop
day_replies = refl

run_sections-Follows_example :
    Returns
      (λ (kv', rs). IsConsistent kv' × Follows (view new_key_value_store) day (view kv') rs)
      (run_sections new_key_value_store day)
run_sections-Follows_example =
    run_sections-Follows new_key_value_store day new_key_value_store-IsConsistent

abbrev lent : ExpiryItem
lent = record { key = "a"; expires_at = 15; position = pos 0 }

abbrev lent_entry : Entry ℕ
lent_entry = record { value = 1; expires_at = 15; expires = true }

-- One key, which expires.
abbrev shelf : KeyValueStore ℕ
shelf = record {
  store = λ k. if str_eq "a" k then some lent_entry else none;
  heap = record { memory = λ p. lent; next = 1; store = 0 ∷ [] };
  expiry_index = λ k. if str_eq "a" k then some 0 else none;
  done = false;
  wakeup = false;
  shutdown = false;
}

only : (p : ℕ) → has p (0 ∷ []) ≡ true → p ≡ 0
only p m = let (i, inside, at) = has-get_or p 0 (0 ∷ []) m in ground (arith, inside, at)

shelf-IsConsistent : IsConsistent shelf
shelf-IsConsistent = record {
  indexed = record {
    ordered = record {
      good = record {
        placed = λ i inside. ground arith;
        same = λ p. (refl, refl);
        same_next = refl;
      };
      heap = λ c p q. absurd (omega arith);
    };
    made = λ p m. let e = only p m in omega arith;
    listed = λ k p e.
        let first : p ≡ 0 = ground (arith, e) in
        (rw first (has_self 0 []), ground (arith, e, str_eq_iff "a" k));
    found = λ p m. let e = only p m in ground arith;
  };
  linked = λ k. ground arith;
  closed = refl;
}

get-Got_example : Returns (Got shelf "a" 12) (get shelf "a" 12 13)
get-Got_example = get-Got shelf "a" 12 13 shelf-IsConsistent (omega arith)

-- A late read takes the key out.
late_read : (get shelf "a" 16 17 >>= λ (kv, v). ok v) ≡ ok none
unfolding get Heap.heap_len Heap.pop
late_read = refl

clean-Cleaned_example : Returns (Cleaned 15 shelf) (clean 2 shelf 15)
clean-Cleaned_example = clean-Cleaned 2 shelf 15 shelf-IsConsistent (omega arith)

clean-Cleaned_run : (clean 2 shelf 15 >>= λ (kv, w). ok w) ≡ ok idle
unfolding clean Heap.heap_len Heap.swap Heap.pop
clean-Cleaned_run = refl

abbrev calls : List (Section ℕ)
calls = sets "b" 2 (pos 1) 11 ∷ deletes "a" ∷ []

clean_then-waits_example :
    Returns
      (λ (kv', w). (kv'.wakeup ≡ true) ⊎ (w ≡ waits_for kv'.heap))
      (clean_then 2 shelf 10 calls)
clean_then-waits_example =
    clean_then-waits 2 shelf 10 calls shelf-IsConsistent (omega arith) (refl, (refl, tt))

-- The shelf after the shutdown.
abbrev closed_shelf : KeyValueStore ℕ
closed_shelf = record shelf { done = true; shutdown = true }

closed_shelf-IsConsistent : IsConsistent closed_shelf
closed_shelf-IsConsistent =
    let v = shelf-IsConsistent in record { indexed = v.indexed; linked = v.linked; closed = refl }

abbrev late_calls : List (Section ℕ)
late_calls = sets "b" 2 (pos 1) 11 ∷ looks "a" 12 ∷ deletes "a" ∷ []

run_sections-IsRefusal_example :
    Returns
      (λ (kv', rs). (view kv' ≡ view closed_shelf) × All IsRefusal rs)
      (run_sections closed_shelf late_calls)
run_sections-IsRefusal_example =
    run_sections-IsRefusal closed_shelf late_calls closed_shelf-IsConsistent refl
      (refl, (refl, (refl, tt)))
