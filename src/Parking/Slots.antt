-- ===== src/Parking/Slots.antt =====
-- Parking_Management/buffer_slots.go: the slots where a vehicle waits while a loop of moves is
-- broken up. A claim that must wait for a slot is `none`; the methods are called with the mutex held.
use low_level_design_in_go.Base.{
  ℕ, zero, suc, ◌+◌, ◌-◌, ◌<◌, ◌≡◌, refl, ap, subst, String, Bool, true, false, not, ◌&&◌, Option,
  none, some, List, [], ◌∷◌, ltb, leb, if◌then◌else◌, Bool-cases, inl, inr, length, get_or, take,
  set, length-set, get_or-set, ==_iff, ◌∙◌, All, arith,
}
use low_level_design_in_go.Base.Run.{Run, ok, panic, ◌>>=◌, index, assign, index-get_or}

pub record BufferSlot : Type 0 where
  pub claimed : Bool
  pub vehicle_ticket : String

abbrev pub buffer_slot_count : ℕ
buffer_slot_count = 3

abbrev pub buffer_slot_id_base : ℕ
buffer_slot_id_base = 1000000

-- `bufferSlot{}`
abbrev pub free_slot : BufferSlot
free_slot = record { claimed = false; vehicle_ticket = "" }

unfoldable pub buffer_slot_id : ℕ → ℕ
buffer_slot_id slot_index = buffer_slot_id_base + slot_index

unfoldable pub is_buffer_slot_id : ℕ → Bool
is_buffer_slot_id floor_number =
    leb buffer_slot_id_base floor_number
    && ltb floor_number (buffer_slot_id_base + buffer_slot_count)

-- A negative index, as an index out of range, makes its caller panic.
unfoldable pub buffer_slot_index : ℕ → Run ℕ
buffer_slot_index floor_number =
    if ltb floor_number buffer_slot_id_base then panic else ok (floor_number - buffer_slot_id_base)

-- One pass of the loop, from slot `i` on; `slots` are those from there.
unfoldable pub claim_from : List BufferSlot → ℕ → Option (ℕ × List BufferSlot)
unfolding buffer_slot_id
claim_from [] i = none
claim_from (slot ∷ slots) i =
    let later : Option (ℕ × List BufferSlot) = elim (claim_from slots (i + 1)) [
      | none ↦ none
      | some (id, slots') ↦ some (id, slot ∷ slots')
    ] in
    if not slot.claimed
    then some (buffer_slot_id i, record slot { claimed = true } ∷ slots)
    else later

unfoldable pub claim_buffer_slot : List BufferSlot → Option (ℕ × List BufferSlot)
unfolding claim_from
claim_buffer_slot slots = claim_from slots 0

unfoldable pub release_buffer_slot : ℕ → List BufferSlot → Run (List BufferSlot)
unfolding is_buffer_slot_id buffer_slot_index
release_buffer_slot buffer_id slots =
    if not (is_buffer_slot_id buffer_id)
    then ok slots
    else buffer_slot_index buffer_id >>= λ i. assign slots i free_slot

unfoldable pub remove_vehicle_from_buffer_slot : ℕ → List BufferSlot → Run (List BufferSlot)
unfolding is_buffer_slot_id buffer_slot_index
remove_vehicle_from_buffer_slot buffer_id slots =
    if not (is_buffer_slot_id buffer_id)
    then ok slots
    else buffer_slot_index buffer_id >>= λ i.
        index slots i >>= λ slot. ok (set slots i (record slot { vehicle_ticket = "" }))

unfoldable pub place_vehicle_in_buffer_slot : ℕ → String → List BufferSlot → Run (List BufferSlot)
unfolding buffer_slot_index
place_vehicle_in_buffer_slot buffer_id ticket_id slots = buffer_slot_index buffer_id >>= λ i.
    index slots i >>= λ slot. ok (set slots i (record slot { vehicle_ticket = ticket_id }))

-- The claim of a slot that was free: `slots'` differs from `slots` at place `i` only, and
-- the slots before it are claimed. Slots are numbered from `from`.
pub data Claims (slots : List BufferSlot) (from : ℕ) : Option (ℕ × List BufferSlot) → Type 0 where
  claims :
      (i id : ℕ)
      → id ≡ buffer_slot_id_base + (from + i)
      → i < length slots
      → (get_or slots i free_slot).claimed ≡ false
      → All (λ slot. slot.claimed ≡ true) (take i slots)
      → Claims slots from
          (some (id, set slots i (record (get_or slots i free_slot) { claimed = true })))
  waits : All (λ slot. slot.claimed ≡ true) slots → Claims slots from none

claim_from-Claims : (slots : List BufferSlot) (from : ℕ) → Claims slots from (claim_from slots from)
unfolding claim_from buffer_slot_id
claim_from-Claims [] from = waits tt
claim_from-Claims (slot ∷ slots) from = elim (Bool-cases slot.claimed) [
  | inr free ↦
      let test : not slot.claimed ≡ true = ground arith in
      rw test (claims 0 (buffer_slot_id_base + from) (omega arith) (omega arith) free tt)
  | inl taken ↦
      let test : not slot.claimed ≡ false = ground arith in
      rw test (go (claim_from slots (from + 1)) taken (claim_from-Claims slots (from + 1)))
]
  where
    go :
        (o : Option (ℕ × List BufferSlot))
        → slot.claimed ≡ true
        → Claims slots (from + 1) o
        → Claims
            (slot ∷ slots)
            from
            (elim o [ none ↦ none | some (id, slots') ↦ some (id, slot ∷ slots') ])
    go _ taken (claims i id e low free before) =
        claims (suc i) id (omega (arith, e)) (omega arith) free (taken, before)
    go _ taken (waits all) = waits (taken, all)

-- A claim takes the first free slot, marks it as claimed and answers its id; it waits exactly if
-- every slot is claimed.
pub claim_buffer_slot-Claims : (slots : List BufferSlot) → Claims slots 0 (claim_buffer_slot slots)
unfolding claim_buffer_slot
claim_buffer_slot-Claims slots = claim_from-Claims slots 0

set-get_or : {A : Type 0} (xs : List A) (i : ℕ) (d : A) → set xs i (get_or xs i d) ≡ xs
set-get_or [] i d = refl
set-get_or (x ∷ xs) zero d = refl
set-get_or (x ∷ xs) (suc i) d = ap (◌∷◌ x) (set-get_or xs i d)

set-set : {A : Type 0} (xs : List A) (i : ℕ) (v w : A) → set (set xs i v) i w ≡ set xs i w
set-set [] i v w = refl
set-set (x ∷ xs) zero v w = refl
set-set (x ∷ xs) (suc i) v w = ap (◌∷◌ x) (set-set xs i v w)

release-in_range :
    (slots : List BufferSlot) (i : ℕ)
    → i < buffer_slot_count
    → i < length slots
    → release_buffer_slot (buffer_slot_id_base + i) slots ≡ ok (set slots i free_slot)
unfolding release_buffer_slot is_buffer_slot_id buffer_slot_index
release-in_range slots i small inside =
    let known : not (is_buffer_slot_id (buffer_slot_id_base + i)) ≡ false = ground arith in
    let above : ltb (buffer_slot_id_base + i) buffer_slot_id_base ≡ false = ground arith in
    let place : buffer_slot_id_base + i - buffer_slot_id_base ≡ i = omega arith in
    rw (known, above, place, index-get_or slots i free_slot inside)

-- The slots of a system: as many as the constant says, and a free one holds no vehicle.
abbrev pub AreSlots : List BufferSlot → Type 0
AreSlots slots =
    (length slots ≡ buffer_slot_count)
    × ((i : ℕ)
        → (get_or slots i free_slot).claimed ≡ false
        → (get_or slots i free_slot).vehicle_ticket ≡ "")

place-in_range :
    (slots : List BufferSlot) (i : ℕ) (ticket_id : String)
    → i < length slots
    → place_vehicle_in_buffer_slot (buffer_slot_id_base + i) ticket_id slots
      ≡ ok (set slots i (record (get_or slots i free_slot) { vehicle_ticket = ticket_id }))
unfolding place_vehicle_in_buffer_slot buffer_slot_index
place-in_range slots i ticket_id inside =
    let above : ltb (buffer_slot_id_base + i) buffer_slot_id_base ≡ false = ground arith in
    let place : buffer_slot_id_base + i - buffer_slot_id_base ≡ i = omega arith in
    rw (above, place, index-get_or slots i free_slot inside)

-- What claiming, filling and releasing a slot does: `i` is the first free slot, it is claimed and
-- then holds the vehicle, the other slots stay, and the release makes all as it was.
pub record Cycle (slots slots' : List BufferSlot) (id : ℕ) (ticket_id : String) (i : ℕ)
    : Type 0 where
  pub number : id ≡ buffer_slot_id_base + i
  pub inside : i < buffer_slot_count
  pub was_free : (get_or slots i free_slot).claimed ≡ false
  pub first : All (λ slot. slot.claimed ≡ true) (take i slots)
  pub claim : slots' ≡ set slots i (record { claimed = true; vehicle_ticket = "" })
  pub fill :
      place_vehicle_in_buffer_slot id ticket_id slots'
      ≡ ok (set slots i (record { claimed = true; vehicle_ticket = ticket_id }))
  pub free :
      release_buffer_slot id (set slots i (record { claimed = true; vehicle_ticket = ticket_id }))
      ≡ ok slots

claimed-Cycle :
    (slots : List BufferSlot) (i : ℕ) (ticket_id : String)
    → AreSlots slots
    → i < length slots
    → (get_or slots i free_slot).claimed ≡ false
    → All (λ slot. slot.claimed ≡ true) (take i slots)
    → Cycle slots
        (set slots i (record (get_or slots i free_slot) { claimed = true }))
        (buffer_slot_id_base + i)
        ticket_id
        i
claimed-Cycle slots i ticket_id are low free first =
    let claimed : BufferSlot = record { claimed = true; vehicle_ticket = "" } in
    let filled : BufferSlot = record { claimed = true; vehicle_ticket = ticket_id } in
    let blank : (get_or slots i free_slot).vehicle_ticket ≡ "" = are.1 i free in
    let now : record (get_or slots i free_slot) { claimed = true } ≡ claimed =
      ap (λ t. record { claimed = true; vehicle_ticket = t }) blank in
    let was : get_or slots i free_slot ≡ free_slot = ground (arith, free, blank) in
    let here : get_or (set slots i claimed) i free_slot ≡ claimed =
      get_or-set slots i i claimed free_slot low ∙ rw ((==_iff i i).1 refl) refl in
    let small : i < buffer_slot_count = omega (arith, are.0) in
    record {
      number = refl;
      inside = small;
      was_free = free;
      first = first;
      claim = ap (set slots i) now;
      fill =
          ap (λ c. place_vehicle_in_buffer_slot (buffer_slot_id_base + i) ticket_id (set slots i c))
            now
          ∙ place-in_range (set slots i claimed) i ticket_id (rw (length-set slots i claimed) low)
          ∙ ap (λ c. ok (set (set slots i claimed) i (record c { vehicle_ticket = ticket_id })))
              here
          ∙ ap ok (set-set slots i claimed filled);
      free =
          release-in_range (set slots i filled) i small (rw (length-set slots i filled) low)
          ∙ ap ok (
              set-set slots i filled free_slot
              ∙ subst (λ v. set slots i v ≡ slots) was (set-get_or slots i free_slot));
    }

Claims-Cycle :
    (slots : List BufferSlot) (o : Option (ℕ × List BufferSlot)) (ticket_id : String)
    → AreSlots slots
    → Claims slots 0 o
    → (id : ℕ) (slots' : List BufferSlot) → o ≡ some (id, slots')
    → (i : ℕ) × Cycle slots slots' id ticket_id i
Claims-Cycle slots _ ticket_id are (waits all) id slots' e = absurd (ground (arith, e))
Claims-Cycle slots _ ticket_id are (claims i id' e' low free before) id slots' e =
    let slot = record (get_or slots i free_slot) { claimed = true } in
    let at : buffer_slot_id_base + i ≡ id = ground (arith, e, e') in
    let same : set slots i slot ≡ slots' = ground (arith, e) in
    (
      i,
      subst (λ n. Cycle slots slots' n ticket_id i) at
          (subst (λ sl. Cycle slots sl (buffer_slot_id_base + i) ticket_id i) same
            (claimed-Cycle slots i ticket_id are low free before)),
    )

-- With three slots of which the free ones hold no vehicle, a claim that answers takes the first free
-- slot and marks it as claimed, a vehicle that is placed there stands in it while the other slots
-- stay, and the release makes the slot free again, so that all slots are as they were.
pub claim-place-release :
    (slots slots' : List BufferSlot) (id : ℕ) (ticket_id : String)
    → AreSlots slots
    → claim_buffer_slot slots ≡ some (id, slots')
    → (i : ℕ) × Cycle slots slots' id ticket_id i
claim-place-release slots slots' id ticket_id are e =
    Claims-Cycle slots (claim_buffer_slot slots) ticket_id are (claim_buffer_slot-Claims slots) id
      slots' e
