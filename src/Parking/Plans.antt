-- ===== src/Parking/Plans.antt =====
-- The PlanRearrangement methods of Parking_Management/parking_rearrangement, over the records in
-- the order in which the source happens to range over its map. The three methods have one body
-- but for the floor that they choose for a vehicle, which is `choose` here; `none` is the nil plan.
pub mod Placed
pub mod Choosers
pub mod Loops
pub mod Rearrangements
pub mod Compaction
use low_level_design_in_go.Base.{
  ℕ, zero, suc, ◌+◌, ◌-◌, Bool, true, false, not, ◌||◌, Option, none, some, List, [], ◌∷◌, ◌++◌,
  map, ltb, leb, ◌==◌, if◌then◌else◌, length, set, replicate,
}
use low_level_design_in_go.Base.Run.{Run, ok, ◌>>=◌, index, assign}
use low_level_design_in_go.Parking.{
  Vehicle, Floor, ParkingRecord, VehicleMove, get_vehicle_space, zone_range,
}

-- `usedSpace` and `plan.Moves`.
pub record Plan : Type 0 where
  pub used_space : List ℕ
  pub moves : List VehicleMove

abbrev pub space_of : ParkingRecord → ℕ
space_of record_ = get_vehicle_space record_.vehicle.type

-- The move of a vehicle to its new floor, unless that is its target already.
abbrev pub move_of : ParkingRecord → ℕ → List VehicleMove
move_of r floor =
    if r.target_floor_number == floor
    then []
    else record {
      ticket_id = r.ticket_id;
      from_floor_number = r.target_floor_number;
      to_floor_number = floor;
    }
      ∷ []

-- A vehicle is counted on the floor chosen for it, if there is one.
abbrev pub placed_at : Plan → ParkingRecord → Option ℕ → Run (Option Plan)
placed_at plan r none = ok none
placed_at plan r (some floor) = index plan.used_space floor >>= λ used. ok (
    some (record {
      used_space = set plan.used_space floor (used + space_of r);
      moves = plan.moves ++ move_of r floor;
    }))

-- The records that are not planned for: those to be unparked, and those of no known type.
unfoldable pub skipped : ParkingRecord → Bool
skipped r = r.unpark_requested || space_of r == 0

-- The loop over the records, given how the floor of a vehicle is chosen.
unfoldable pub place_all :
    (List ℕ → ParkingRecord → Run (Option ℕ)) → Plan → List ParkingRecord → Run (Option Plan)
place_all choose plan [] = ok (some plan)
place_all choose plan (r ∷ records) =
    let placed = choose plan.used_space r >>= placed_at plan r in
    (if skipped r then ok (some plan) else placed) >>= λ o. elim o [
      | none ↦ ok none
      | some plan' ↦ place_all choose plan' records
    ]

abbrev pub empty_plan : List Floor → Plan
empty_plan floors = record { used_space = replicate (length floors) 0; moves = [] }

abbrev pub moves_only : Run (Option Plan) → Run (Option (List VehicleMove))
moves_only r = r >>= λ o. elim o [ none ↦ ok none | some plan ↦ ok (some plan.moves) ]

-- The inner loop of load_balanced.go, from floor `i` on.
unfoldable pub least_used : ℕ → List Floor → List ℕ → ℕ → Option ℕ → Run (Option ℕ)
least_used required [] used_space i selected = ok selected
least_used required (floor ∷ floors) used_space i selected = index used_space i >>= λ used.
    (if ltb floor.capacity (used + required) then ok selected else elim selected [
      | none ↦ ok (some i)
      | some s ↦ index used_space s >>= λ least. ok (if ltb used least then some i else some s)
    ])
    >>= λ selected'. least_used required floors used_space (i + 1) selected'

unfoldable pub plan_load_balanced :
    List Floor → List ParkingRecord → Run (Option (List VehicleMove))
unfolding place_all least_used
plan_load_balanced floors records =
    if length floors == 0
    then ok (some [])
    else moves_only (
        place_all (λ used_space r. least_used (space_of r) floors used_space 0 none)
          (empty_plan floors) records)

-- The inner loop of zone_balanced.go: `n` floors from floor `i` on.
unfoldable pub first_unused : ℕ → List Floor → List ℕ → ℕ → ℕ → Run (Option ℕ)
first_unused required floors used_space zero i = ok none
first_unused required floors used_space (suc n) i = index used_space i >>= λ used.
    index floors i >>= λ floor.
    let rest = first_unused required floors used_space n (i + 1) in
    if ltb floor.capacity (used + required) then rest else ok (some i)

abbrev pub zone_choice : List Floor → List ℕ → ParkingRecord → Run (Option ℕ)
zone_choice floors used_space r =
    let (start, end) = zone_range (length floors) r.vehicle.type in
    first_unused (space_of r) floors used_space (end - start) start

unfoldable pub plan_zone_balanced :
    List Floor → List ParkingRecord → Run (Option (List VehicleMove))
unfolding place_all first_unused
plan_zone_balanced floors records =
    if length floors == 0
    then ok (some [])
    else moves_only (place_all (zone_choice floors) (empty_plan floors) records)

-- The inner loop of compaction_balanced.go, from floor `i` on. `best` is `bestFloor` with
-- `bestRemaining`; `none` stands for -1 and the largest integer, above every capacity.
unfoldable pub best_fit : ℕ → List Floor → List ℕ → ℕ → Option (ℕ × ℕ) → Run (Option ℕ)
best_fit space [] used_space i best = elim best [
  | none ↦ ok none
  | some (floor, left) ↦ ok (some floor)
]
best_fit space (floor ∷ floors) used_space i best = index used_space i >>= λ used.
    let left = floor.capacity - used - space in
    let closer : Bool = elim best [ none ↦ true | some (f, least) ↦ ltb left least ] in
    best_fit space floors used_space (i + 1)
      (if leb (used + space) floor.capacity then if closer then some (i, left) else best else best)

-- The vehicles of the records to be planned for.
unfoldable pub to_place : List ParkingRecord → List ParkingRecord
to_place [] = []
to_place (r ∷ records) = let rest = to_place records in if skipped r then rest else r ∷ rest

-- `sort.Slice`, the largest first, by insertion: it leaves the order of equals open, and so does the
-- map.
unfoldable pub insert_by_space : ParkingRecord → List ParkingRecord → List ParkingRecord
insert_by_space r [] = r ∷ []
insert_by_space r (s ∷ rest) =
    let later = insert_by_space r rest in
    if leb (space_of s) (space_of r) then r ∷ s ∷ rest else s ∷ later

unfoldable pub sort_by_space : List ParkingRecord → List ParkingRecord
unfolding insert_by_space
sort_by_space [] = []
sort_by_space (r ∷ rest) = insert_by_space r (sort_by_space rest)

-- A `VehicleSpace` of the source is the record that its ticket finds again.
unfoldable pub plan_compaction : List Floor → List ParkingRecord → Run (Option (List VehicleMove))
unfolding place_all best_fit to_place sort_by_space
plan_compaction floors records =
    if length floors == 0
    then ok (some [])
    else moves_only (
        place_all (λ used_space r. best_fit (space_of r) floors used_space 0 none)
          (empty_plan floors) (sort_by_space (to_place records)))
