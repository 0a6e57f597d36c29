-- ===== src/Parking/Plans/Rearrangements.antt =====
-- The plans of Parking_Management/parking_rearrangement: where they lead.
use low_level_design_in_go.Base.{
  ℕ, ◌+◌, ◌≤◌, ◌<◌, ◌≡◌, sym, subst, false, Option, none, some, List, ◌∷◌, ◌++◌, ltb, ◌==◌,
  Bool-cases, inl, inr, length, length-replicate, get_or, get_or-replicate, All, arith,
}
use low_level_design_in_go.Base.Run.{Run, ok, Returns, returns, Returns-map, Returns-bind}
use low_level_design_in_go.Parking.{Floor, ParkingRecord, VehicleMove, zone_range}
use low_level_design_in_go.Parking.Zones.{zone_range-inside}
use low_level_design_in_go.Parking.Plans.{
  Plan, space_of, place_all, empty_plan, moves_only, to_place, least_used, zone_choice,
  plan_load_balanced, plan_zone_balanced,
}
use low_level_design_in_go.Parking.Plans.Placed.{
  Layout, vehicles_of, load, moves_to, capacity_at, Choice, full, chosen, Placed, placed, stuck,
  place_all-Placed,
}
use low_level_design_in_go.Parking.Plans.Choosers.{Picked, nothing, picked}
use low_level_design_in_go.Parking.Plans.Loops.{least_used-Picked, first_unused-Picked}

-- The outcome of planning for `vehicles` in this order. A plan gives every vehicle an allowed floor,
-- within the capacities, and lists the moves that lead from the targets there. No plan is made only
-- if the first vehicles have such floors and the next one finds no room on its floors beside them.
pub data Rearranged (floors : List Floor) (Allowed : ParkingRecord → ℕ → Type 0)
    (vehicles : List ParkingRecord) : Option (List VehicleMove) → Type 0 where
  planned :
      (layout : Layout)
      → vehicles_of layout ≡ vehicles
      → All (λ (r, floor). (floor < length floors) × Allowed r floor) layout
      → ((i : ℕ) → i < length floors → load i layout ≤ capacity_at floors i)
      → Rearranged floors Allowed vehicles (some (moves_to layout))
  refused :
      (layout : Layout) (r : ParkingRecord) (rest : List ParkingRecord)
      → vehicles_of layout ++ r ∷ rest ≡ vehicles
      → All (λ (s, floor). (floor < length floors) × Allowed s floor) layout
      → ((i : ℕ) → i < length floors → load i layout ≤ capacity_at floors i)
      → ((i : ℕ)
          → i < length floors
          → Allowed r i
          → capacity_at floors i < load i layout + space_of r)
      → Rearranged floors Allowed vehicles none

module _ (floors : List Floor) (Allowed : ParkingRecord → ℕ → Type 0) where
  abbrev pub Lawful : (List ℕ → ParkingRecord → Run (Option ℕ)) → Type 0
  Lawful choose =
      (used_space : List ℕ) (r : ParkingRecord)
      → length used_space ≡ length floors
      → 0 < space_of r
      → Returns (Choice floors Allowed used_space r) (choose used_space r)

  pub place_all-Rearranged :
      (choose : List ℕ → ParkingRecord → Run (Option ℕ))
      → Lawful choose
      → (records : List ParkingRecord)
      → Returns
          (Rearranged floors Allowed (to_place records))
          (moves_only (place_all choose (empty_plan floors) records))
  place_all-Rearranged choose lawful records =
      Returns-bind
        (place_all-Placed floors Allowed choose lawful (empty_plan floors) records
          (length-replicate (length floors) 0)
          λ i low. omega (arith, get_or-replicate {A = ℕ} (length floors) i 0))
        finish
    where
      empty : (i : ℕ) → get_or (empty_plan floors).used_space i 0 ≡ 0
      empty i = get_or-replicate {A = ℕ} (length floors) i 0

      finish :
          (o : Option Plan)
          → Placed floors Allowed (empty_plan floors) (to_place records) o
          → Returns (Rearranged floors Allowed (to_place records)) (moves_only (ok o))
      finish _ (placed layout all moved within room) = returns (
          subst (λ moves. Rearranged floors Allowed (to_place records) (some moves)) (sym moved)
            (planned layout all within λ i low. omega (arith, room i low, empty i)))
      finish _ (stuck layout r rest all within room no_room) = returns (
          refused layout r rest all within (λ i low. omega (arith, room i low, empty i))
            λ i low allowed. omega (arith, no_room i low allowed, empty i))

-- Every floor is allowed.
abbrev pub AnyFloor : ParkingRecord → ℕ → Type 0
AnyFloor r i = Unit

-- The floors of the vehicle's zone.
abbrev pub InZone : List Floor → ParkingRecord → ℕ → Type 0
InZone floors r i =
    let zone = zone_range (length floors) r.vehicle.type in (zone.0 ≤ i) × (i < zone.1)

pub any-Choice :
    {Over : ℕ → ℕ → Type 0} (floors : List Floor) (used_space : List ℕ) (r : ParkingRecord)
    (o : Option ℕ)
    → Picked Over floors used_space (space_of r) 0 (length floors) o
    → Choice floors AnyFloor used_space r o
any-Choice floors used_space r _ (nothing none_fits) = full λ i low allowed.
    elim (Bool-cases (ltb (capacity_at floors i) (get_or used_space i 0 + space_of r))) [
      | inl less ↦ ground arith
      | inr room ↦ absurd (none_fits i (omega arith) low (ground arith))
    ]
any-Choice floors used_space r _ (picked low high room over) = chosen high tt room

zone_choice-Lawful : (floors : List Floor) → Lawful floors (InZone floors) (zone_choice floors)
zone_choice-Lawful floors used_space r sized some_space =
    let zone = zone_range (length floors) r.vehicle.type in
    Returns-map
      (first_unused-Picked floors used_space (space_of r) sized zone.0 zone.1
        (zone_range-inside (length floors) r.vehicle.type))
      go
  where
    go :
        (o : Option ℕ)
        → (let zone = zone_range (length floors) r.vehicle.type in
            Picked (λ a b. a ≤ b) floors used_space (space_of r) zone.0 zone.1 o)
        → Choice floors (InZone floors) used_space r o
    go _ (nothing none_fits) = full λ i low (from, to).
        elim (Bool-cases (ltb (capacity_at floors i) (get_or used_space i 0 + space_of r))) [
          | inl less ↦ ground arith
          | inr room ↦ absurd (none_fits i from to (ground arith))
        ]
    go _ (picked low high room over) =
        chosen (omega (arith, zone_range-inside (length floors) r.vehicle.type)) (low, high) room

-- On a building with floors LoadBalancedRearrangement returns. If it plans, every vehicle that is
-- not leaving gets one floor, no floor takes more than its capacity, and the moves lead from the
-- targets to that layout. It gives up only when the vehicles before some vehicle have such floors,
-- and no floor has room for that one beside them.
pub plan_load_balanced-Rearranged :
    (floors : List Floor) (records : List ParkingRecord)
    → 0 < length floors
    → Returns (Rearranged floors AnyFloor (to_place records)) (plan_load_balanced floors records)
unfolding plan_load_balanced
plan_load_balanced-Rearranged floors records some_floors =
    let built : (length floors == 0) ≡ false = ground arith in
    rw built (
      place_all-Rearranged floors AnyFloor
        (λ used_space r. least_used (space_of r) floors used_space 0 none)
        (λ used_space r sized some_space.
          Returns-map (least_used-Picked floors used_space (space_of r) sized)
            λ o. any-Choice floors used_space r o)
        records)

-- On a building with floors ZoneBalancedRearrangement returns. If it plans, every vehicle that is
-- not leaving gets one floor, of the zone of its type, no floor takes more than its capacity, and
-- the moves lead from the targets to that layout. It gives up only when the vehicles before some
-- vehicle have such floors, and no floor of its zone has room for that one beside them.
pub plan_zone_balanced-Rearranged :
    (floors : List Floor) (records : List ParkingRecord)
    → 0 < length floors
    → Returns
        (Rearranged floors (InZone floors) (to_place records))
        (plan_zone_balanced floors records)
unfolding plan_zone_balanced
plan_zone_balanced-Rearranged floors records some_floors =
    let built : (length floors == 0) ≡ false = ground arith in
    rw built (
      place_all-Rearranged floors (InZone floors) (zone_choice floors) (zone_choice-Lawful floors)
        records)
