-- ===== src/Parking/Strategies.antt =====
-- The Allocate methods of Parking_Management/parking_strategy. An allocation is the floor number
-- of the decision. A test `required > capacity - reserved` of the source is `capacity < required
-- + reserved` here, since differences of ints may be negative. The percentages of the
-- compaction strategy are compared exactly, as fractions; the source compares float64s.
use low_level_design_in_go.Base.{
  ℕ, zero, suc, ◌+◌, ◌-◌, ◌*◌, Bool, true, ◌||◌, Option, none, some, List, [], ◌∷◌, ltb, leb, ◌==◌,
  if◌then◌else◌, length,
}
use low_level_design_in_go.Base.Run.{Run, ok, ◌>>=◌, index}
use low_level_design_in_go.Parking.{Vehicle, Floor, get_vehicle_space, zone_range}

-- The loop of nearest_floor.go.
unfoldable pub first_fit : ℕ → List Floor → Option ℕ
first_fit required [] = none
first_fit required (floor ∷ floors) =
    if ltb floor.capacity (required + floor.reserved_capacity)
    then first_fit required floors
    else some floor.number

unfoldable pub nearest_floor : Vehicle → List Floor → Option ℕ
unfolding first_fit
nearest_floor vehicle floors =
    let required = get_vehicle_space vehicle.type in
    if required == 0 then none else first_fit required floors

-- The floor number of a selected floor, if there is one.
abbrev pub decision : Option Floor → Option ℕ
decision none = none
decision (some floor) = some floor.number

-- The loop of load_balanced.go.
unfoldable pub least_reserved : ℕ → Option Floor → List Floor → Option Floor
least_reserved required selected [] = selected
least_reserved required selected (floor ∷ floors) =
    let replaces : Bool = elim selected [
      | none ↦ true
      | some f ↦ ltb floor.reserved_capacity f.reserved_capacity
    ] in
    let selected' : Option Floor =
      if ltb floor.capacity (required + floor.reserved_capacity)
      then selected
      else if replaces
      then some floor
      else selected in
    least_reserved required selected' floors

unfoldable pub load_balanced : Vehicle → List Floor → Option ℕ
unfolding least_reserved
load_balanced vehicle floors =
    let required = get_vehicle_space vehicle.type in
    if required == 0 then none else decision (least_reserved required none floors)

-- `selectedCompactionPercentage < currentCompactionPercentage`
abbrev pub more_compact : Floor → Floor → Bool
more_compact floor selected =
    ltb (selected.reserved_capacity * floor.capacity) (floor.reserved_capacity * selected.capacity)

-- The loop of compaction.go.
unfoldable pub most_compact : ℕ → Option Floor → List Floor → Option Floor
most_compact required selected [] = selected
most_compact required selected (floor ∷ floors) =
    let replaces : Bool = elim selected [ none ↦ true | some f ↦ more_compact floor f ] in
    let selected' : Option Floor =
      if ltb floor.capacity (required + floor.reserved_capacity)
      then selected
      else if replaces
      then some floor
      else selected in
    most_compact required selected' floors

unfoldable pub compaction : Vehicle → List Floor → Option ℕ
unfolding most_compact
compaction vehicle floors =
    let required = get_vehicle_space vehicle.type in
    if required == 0 then none else decision (most_compact required none floors)

-- The loop of zone_based.go: `n` floors from floor `i` on.
unfoldable pub first_fit_from : ℕ → List Floor → ℕ → ℕ → Run (Option ℕ)
first_fit_from required floors zero i = ok none
first_fit_from required floors (suc n) i = index floors i >>= λ floor.
    let rest = first_fit_from required floors n (i + 1) in
    if ltb floor.capacity (required + floor.reserved_capacity) then rest else ok (some floor.number)

unfoldable pub zone_balanced : Vehicle → List Floor → Run (Option ℕ)
unfolding first_fit_from
zone_balanced vehicle floors =
    let required = get_vehicle_space vehicle.type in
    let (start, end) = zone_range (length floors) vehicle.type in
    if required == 0 || length floors == 0
    then ok none
    else if leb end start
    then ok none
    else first_fit_from required floors (end - start) start
