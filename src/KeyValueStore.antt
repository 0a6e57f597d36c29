-- ===== src/KeyValueStore.antt =====
-- KeyValueStore/main.go: a map whose entries may expire. A method is its critical sections; `now`
-- is what `time.Now()` gives in a section.
pub mod Expiry
pub mod Lawful
pub mod Indexed
pub mod Scheduling
pub mod Model
pub mod Rescheduling
pub mod Storing
pub mod Due
pub mod Sections
pub mod Keeping
pub mod Reads
pub mod Histories
pub mod Refusals
pub mod Cleaning
pub mod Tests
use low_level_design_in_go.Base.{
  ℕ, zero, suc, ◌+◌, ◌≡◌, String, Bool, true, false, not, ◌&&◌, ◌||◌, Option, none, some, ltb, leb,
  str_eq, if◌then◌else◌,
}
use low_level_design_in_go.Base.Int.{ℤ, pos, negsuc}
use low_level_design_in_go.Base.Run.{Run, ok, panic, out_of_fuel, ◌>>=◌}
use low_level_design_in_go.ContainerHeap as Container
use low_level_design_in_go.KeyValueStore.Expiry.{
  ExpiryItem, ExpiryHeap, new_min_priority_queue, peek, expiry_heap, write,
}

-- `expires_at` of an entry that does not expire is the zero time.
pub record Entry (V : Type 0) : Type 0 where
  pub value : V
  pub expires_at : ℕ
  pub expires : Bool

-- `wakeup` tells whether the channel of capacity 1 holds a token, `done` whether it is closed.
pub record KeyValueStore (V : Type 0) : Type 0 where
  pub store : String → Option (Entry V)
  pub heap : ExpiryHeap
  pub expiry_index : String → Option ℕ
  pub done : Bool
  pub wakeup : Bool
  pub shutdown : Bool

pub data SetError : Type 0 where
  negative_ttl shutting_down : SetError

-- What a read comes to: an answer, or a second look under the write lock.
pub data Look (V : Type 0) : Type 0 where
  answer : Option V → Look V
  look_again : Look V

-- What the cleaner waits for, besides `wakeup` and `done`.
pub data Wait : Type 0 where
  idle : Wait
  timer : ℕ → Wait

-- `m[key] = x`, or `delete(m, key)` when there is none.
unfoldable pub update : {X : Type 0} → (String → Option X) → String → Option X → String → Option X
update m key x k = if str_eq key k then x else m k

-- heap.Remove of an index that is negative panics in `Swap`, or in `Pop` of an empty heap.
unfoldable pub remove_at : ExpiryHeap → ℤ → Run ExpiryHeap
unfolding Container.remove
remove_at h (pos i) = Container.remove expiry_heap h i >>= λ (p, h'). ok h'
remove_at h (negsuc i) = panic

-- heap.Fix of the index -1 leaves the heap; any other index below zero panics in `Less`.
unfoldable pub fix_at : ExpiryHeap → ℤ → Run ExpiryHeap
unfolding Container.fix
fix_at h (pos i) = Container.fix expiry_heap h i
fix_at h (negsuc zero) = ok h
fix_at h (negsuc (suc i)) = panic

-- A read through a pointer, which panics when it is nil.
abbrev pub deref : Option ℕ → Run ℕ
deref none = panic
deref (some p) = ok p

module _ {V : Type 0} where
  unfoldable pub new_key_value_store : KeyValueStore V
  unfolding new_min_priority_queue
  new_key_value_store = record {
    store = λ k. none;
    heap = new_min_priority_queue;
    expiry_index = λ k. none;
    done = false;
    wakeup = false;
    shutdown = false;
  }

  -- A send that is dropped when the channel is full.
  unfoldable pub signal_cleanup : KeyValueStore V → KeyValueStore V
  signal_cleanup kv = record kv { wakeup = true }

  -- `heap.Remove(kv.expiryHeap, item.Position)`, `delete(kv.expiryIndex, key)` and the signal.
  unfoldable pub forget_item : KeyValueStore V → String → ℕ → Run (KeyValueStore V)
  unfolding remove_at update signal_cleanup
  forget_item kv key item = remove_at kv.heap (kv.heap.memory item).position >>= λ h.
      ok (signal_cleanup (record kv { heap = h; expiry_index = update kv.expiry_index key none }))

  -- `if exists && oldEntry.Expires`
  unfoldable pub old_expires : Option (Entry V) → Bool
  old_expires none = false
  old_expires (some e) = e.expires

  -- The branch of `Set` for `ttl == 0`.
  unfoldable pub set_forever : KeyValueStore V → String → V → Run (KeyValueStore V)
  unfolding forget_item old_expires update
  set_forever kv key value = do
    let entry : Entry V = record { value = value; expires_at = 0; expires = false }
    let forget = deref (kv.expiry_index key) >>= forget_item kv key
    kv' ← if old_expires (kv.store key) then forget else ok kv
    ok (record kv' { store = update kv'.store key (some entry) })

  -- `item.ExpiresAt = due` and `heap.Fix(kv.expiryHeap, item.Position)`
  unfoldable pub postpone : KeyValueStore V → ℕ → ℕ → Run (KeyValueStore V)
  unfolding fix_at write
  postpone kv item due =
      let h = kv.heap in
      let changed = record (h.memory item) { expires_at = due } in
      fix_at (record h { memory = write h.memory item changed }) changed.position >>= λ h'.
      ok (record kv { heap = h' })

  -- A new item, pushed and entered in the index.
  unfoldable pub schedule : KeyValueStore V → String → ℕ → Run (KeyValueStore V)
  unfolding Container.push update write
  schedule kv key due =
      let h = kv.heap in
      let made : ExpiryItem = record { key = key; expires_at = due; position = pos 0 } in
      let h1 = record h { memory = write h.memory h.next made; next = suc h.next } in
      Container.push expiry_heap h1 h.next >>= λ h2.
      ok (record kv { heap = h2; expiry_index = update kv.expiry_index key (some h.next) })

  -- The branch of `Set` for a positive `ttl`.
  unfoldable pub set_until : KeyValueStore V → String → V → ℕ → Run (KeyValueStore V)
  unfolding postpone schedule old_expires update signal_cleanup
  set_until kv key value due = do
    let entry : Entry V = record { value = value; expires_at = due; expires = true }
    let move = deref (kv.expiry_index key) >>= λ item. postpone kv item due
    kv' ← if old_expires (kv.store key) then move else schedule kv key due
    let signalled = signal_cleanup kv'
    ok (record signalled { store = update signalled.store key (some entry) })

  unfoldable pub set :
      KeyValueStore V → String → V → ℤ → ℕ → Run (KeyValueStore V × Option SetError)
  unfolding set_forever set_until
  set kv key value (negsuc ttl) now = ok (kv, some negative_ttl)
  set kv key value (pos zero) now =
      let stored = set_forever kv key value >>= λ kv'. ok (kv', none) in
      if kv.shutdown then ok (kv, some shutting_down) else stored
  set kv key value (pos (suc ttl)) now =
      let stored = set_until kv key value (now + suc ttl) >>= λ kv'. ok (kv', none) in
      if kv.shutdown then ok (kv, some shutting_down) else stored

  -- `delete(kv.store, key)`, and the item if there is one.
  unfoldable pub drop_key : KeyValueStore V → String → Run (KeyValueStore V)
  unfolding forget_item update
  drop_key kv key =
      let kv' = record kv { store = update kv.store key none } in
      elim (kv'.expiry_index key) [ none ↦ ok kv' | some item ↦ forget_item kv' key item ]

  -- `entry.Expires && entry.ExpiresAt.Before(time.Now())`
  unfoldable pub expired : Entry V → ℕ → Bool
  expired e now = e.expires && ltb e.expires_at now

  -- `Get` up to `kv.mu.Lock()`.
  unfoldable pub first_look : KeyValueStore V → String → ℕ → Look V
  unfolding expired
  first_look kv key now = if kv.shutdown then answer none else elim (kv.store key) [
    | none ↦ answer none
    | some e ↦ if not (expired e now) then answer (some e.value) else look_again
  ]

  -- `Get` from `kv.mu.Lock()` on.
  unfoldable pub second_look : KeyValueStore V → String → ℕ → Run (KeyValueStore V × Option V)
  unfolding expired drop_key
  second_look kv key now =
      let dropped = drop_key kv key >>= λ kv'. ok (kv', none) in
      let found : Run (KeyValueStore V × Option V) = elim (kv.store key) [
        | none ↦ ok (kv, none)
        | some e ↦ if expired e now then dropped else ok (kv, some e.value)
      ] in
      if kv.shutdown then ok (kv, none) else found

  -- `Get` with no other goroutine between its sections; `later` is its second reading of the clock.
  unfoldable pub get : KeyValueStore V → String → ℕ → ℕ → Run (KeyValueStore V × Option V)
  unfolding first_look second_look
  get kv key now later = elim (first_look kv key now) [
    | answer v ↦ ok (kv, v)
    | look_again ↦ second_look kv key later
  ]

  -- Whether a read found a value.
  abbrev pub is_found : KeyValueStore V × Option V → Run (KeyValueStore V × Bool)
  is_found (kv, none) = ok (kv, false)
  is_found (kv, some x) = ok (kv, true)

  -- `Exists` makes the steps of `Get` and answers whether there is a value.
  unfoldable pub exists : KeyValueStore V → String → ℕ → ℕ → Run (KeyValueStore V × Bool)
  unfolding first_look second_look
  exists kv key now later = elim (first_look kv key now) [
    | answer (some v) ↦ ok (kv, true)
    | answer none ↦ ok (kv, false)
    | look_again ↦ second_look kv key later >>= is_found
  ]

  unfoldable pub delete : KeyValueStore V → String → Run (KeyValueStore V × Bool)
  unfolding drop_key
  delete kv key =
      let dropped = drop_key kv key >>= λ kv'. ok (kv', true) in
      if kv.shutdown
      then ok (kv, false)
      else elim (kv.store key) [ none ↦ ok (kv, false) | some e ↦ dropped ]

  -- Closing a closed channel panics.
  unfoldable pub shut_down : KeyValueStore V → Run (KeyValueStore V)
  shut_down kv =
      let closed = if kv.done then panic else ok (record kv { shutdown = true; done = true }) in
      if kv.shutdown then ok kv else closed

  -- The section of the cleaner that takes out the first item if it is due.
  unfoldable pub take_due : KeyValueStore V → ℕ → Run (KeyValueStore V)
  unfolding peek Container.pop update
  take_due kv now =
      let taken = Container.pop expiry_heap kv.heap >>= λ (item, h).
      let key = (h.memory item).key in
      ok (record kv {
        store = update kv.store key none;
        heap = h;
        expiry_index = update kv.expiry_index key none;
      }) in
      elim (peek kv.heap) [
        | none ↦ ok kv
        | some item ↦ if not (ltb now (kv.heap.memory item).expires_at) then taken else ok kv
      ]

  -- The loop of `autoCleanup` up to its next wait, while the clock stands at `now` and no other
  -- goroutine takes the lock.
  unfoldable pub clean : ℕ → KeyValueStore V → ℕ → Run (KeyValueStore V × Wait)
  unfolding peek take_due
  clean zero kv now = out_of_fuel
  clean (suc fuel) kv now =
      let again = take_due kv now >>= λ kv'. clean fuel kv' now in
      elim (peek kv.heap) [
        | none ↦ ok (kv, idle)
        | some item ↦
            let due = (kv.heap.memory item).expires_at in
            if leb due now then again else ok (kv, timer due)
      ]
