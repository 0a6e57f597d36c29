-- ===== src/Parking/Tests.antt =====
-- Parking_Management on concrete buildings.
use low_level_design_in_go.Base.{
  length, Bool, ℕ, ◌+◌, ◌-◌, ◌*◌, ◌≤◌, ◌<◌, ◌≡◌, refl, false, true, some, none, Option, List, [],
  ◌∷◌, get_or, Perm, arith, String,
}
use low_level_design_in_go.Base.Int.{pos, negsuc}
use low_level_design_in_go.Base.Run.{Returns}
use low_level_design_in_go.Parking.{
  VehicleType, bike, car, truck, Vehicle, Floor, ParkingRecord, VehicleMove, parked,
  get_vehicle_space, zone_range,
}
use low_level_design_in_go.Parking.Zones.{IsPart, zones_split}
use low_level_design_in_go.Parking.Strategies.{
  nearest_floor, load_balanced, compaction, zone_balanced, decision,
}
use low_level_design_in_go.Parking.Choices.{
  Best, less_reserved, fuller, load_balanced-Best, compaction-Best,
}
use low_level_design_in_go.Parking.FirstFits.{FirstFit, zone_balanced-FirstFit}
use low_level_design_in_go.Parking.Plans.{
  plan_load_balanced, plan_zone_balanced, plan_compaction, to_place,
}
use low_level_design_in_go.Parking.Plans.Rearrangements.{
  Rearranged, AnyFloor, InZone, plan_load_balanced-Rearranged, plan_zone_balanced-Rearranged,
}
use low_level_design_in_go.Parking.Plans.Compaction.{Decreasing, plan_compaction-Rearranged}
use low_level_design_in_go.Parking.Slots.{
  BufferSlot, free_slot, claim_buffer_slot, Cycle, claim-place-release,
}
use low_level_design_in_go.Parking.Lot.{AutomatedParkingSystem, park, unpark, find}
use low_level_design_in_go.Parking.Lot.Books.{floor_at, booked, IsBalanced, Parks, park-Parks}
use low_level_design_in_go.Parking.Lot.Allocations.{IsNumbered, nearest, nearest-Allocates}
use low_level_design_in_go.Parking.Lot.Blueprint.{commit_blueprint, IsBooked}
use low_level_design_in_go.Parking.Lot.Commits.{
  AreComponents, Settles, moves_of, commit_blueprint-IsBooked,
}
use low_level_design_in_go.Parking.Lot.Leaving.{Unparks, unpark-Unparks}

abbrev level : ℕ → ℕ → ℕ → Floor
level n cap used = record {
  number = n;
  capacity = cap;
  physically_used_capacity = 0;
  reserved_capacity = used;
}

abbrev building : List Floor
building = level 0 6 5 ∷ level 1 6 4 ∷ level 2 6 2 ∷ []

abbrev a_car : Vehicle
a_car = record { vehicle_reg_no = "KA-01"; type = car }

abbrev entry : String → VehicleType → ℕ → ParkingRecord
entry ticket type floor = record {
  ticket_id = ticket;
  customer_name = "ann";
  vehicle = record { vehicle_reg_no = ticket; type = type };
  physical_floor_number = pos 0;
  buffer_slot_index = negsuc 0;
  target_floor_number = floor;
  entry_time = 5;
  parking_status = parked;
  unpark_requested = false;
}

abbrev cars : List ParkingRecord
cars = entry "T1" car 0 ∷ entry "T2" truck 1 ∷ []

nearest_is_1 : nearest_floor a_car building ≡ some 1
unfolding nearest_floor get_vehicle_space
nearest_is_1 = refl

lightest_is_2 : load_balanced a_car building ≡ some 2
unfolding load_balanced get_vehicle_space
lightest_is_2 = refl

fullest_is_1 : compaction a_car building ≡ some 1
unfolding compaction get_vehicle_space
fullest_is_1 = refl

some_space : 0 < get_vehicle_space car
unfolding get_vehicle_space
some_space = omega arith

load_balanced-Best_example :
    (selected : Option Floor) × (load_balanced a_car building ≡ decision selected)
    × Best less_reserved (get_vehicle_space car) building selected
load_balanced-Best_example = load_balanced-Best a_car building some_space

compaction-Best_example :
    (selected : Option Floor) × (compaction a_car building ≡ decision selected)
    × Best fuller (get_vehicle_space car) building selected
compaction-Best_example = compaction-Best a_car building some_space

zone_balanced-FirstFit_example :
    Returns
      (FirstFit (get_vehicle_space car) building (zone_range 3 car).0 (zone_range 3 car).1)
      (zone_balanced a_car building)
zone_balanced-FirstFit_example = zone_balanced-FirstFit a_car building some_space

plan_load_balanced-Rearranged_example :
    Returns (Rearranged building AnyFloor (to_place cars)) (plan_load_balanced building cars)
plan_load_balanced-Rearranged_example = plan_load_balanced-Rearranged building cars (omega arith)

plan_zone_balanced-Rearranged_example :
    Returns
      (Rearranged building (InZone building) (to_place cars))
      (plan_zone_balanced building cars)
plan_zone_balanced-Rearranged_example = plan_zone_balanced-Rearranged building cars (omega arith)

plan_compaction-Rearranged_example :
    (vehicles : List ParkingRecord) × Perm vehicles (to_place cars)
    × Decreasing vehicles
    × Returns (Rearranged building AnyFloor vehicles) (plan_compaction building cars)
plan_compaction-Rearranged_example = plan_compaction-Rearranged building cars (omega arith)

abbrev slots : List BufferSlot
slots = free_slot ∷ free_slot ∷ free_slot ∷ []

free-ticket : (i : ℕ) → (get_or slots i free_slot).vehicle_ticket ≡ ""
free-ticket ℕ.zero = refl
free-ticket (ℕ.suc ℕ.zero) = refl
free-ticket (ℕ.suc (ℕ.suc ℕ.zero)) = refl
free-ticket (ℕ.suc (ℕ.suc (ℕ.suc i))) = refl

first_claimed :
    claim_buffer_slot slots
    ≡ some (1000000, record { claimed = true; vehicle_ticket = "" } ∷ free_slot ∷ free_slot ∷ [])
unfolding claim_buffer_slot
first_claimed = refl

claim-place-release_example :
    (i : ℕ) × Cycle slots
      (record { claimed = true; vehicle_ticket = "" } ∷ free_slot ∷ free_slot ∷ [])
      1000000
      "T1"
      i
claim-place-release_example =
    claim-place-release slots
      (record { claimed = true; vehicle_ticket = "" } ∷ free_slot ∷ free_slot ∷ []) 1000000 "T1"
      (refl, λ i _. free-ticket i) first_claimed

-- A building with two floors and a car on the first.
abbrev lot : AutomatedParkingSystem
lot = record {
  floors = level 0 6 2 ∷ level 1 6 0 ∷ [];
  records_by_tkt_id = ("T1", entry "T1" car 0) ∷ [];
  records_by_reg_no = ("T1", "T1") ∷ [];
  parking_jobs = [];
  unpark_jobs = [];
}

lot-IsBalanced : IsBalanced lot
unfolding get_vehicle_space
lot-IsBalanced = record {
  reserved = reserved_lem;
  within = within_lem;
  targets = (omega arith, tt);
}
  where
    reserved_lem :
        (i : ℕ) → i < 2 → (floor_at lot.floors i).reserved_capacity ≡ booked i lot.records_by_tkt_id
    reserved_lem ℕ.zero h = refl
    reserved_lem (ℕ.suc ℕ.zero) h = refl
    reserved_lem (ℕ.suc (ℕ.suc i)) h = omega arith

    within_lem :
        (i : ℕ)
        → i < 2
        → (floor_at lot.floors i).reserved_capacity ≤ (floor_at lot.floors i).capacity
    within_lem ℕ.zero h = omega arith
    within_lem (ℕ.suc ℕ.zero) h = omega arith
    within_lem (ℕ.suc (ℕ.suc i)) h = omega arith

unpark-Unparks_example : Returns (Unparks lot "T1" 9) (unpark lot "T1" 9)
unpark-Unparks_example = unpark-Unparks lot "T1" 9 lot-IsBalanced

lot-IsNumbered : IsNumbered lot.floors
lot-IsNumbered ℕ.zero h = refl
lot-IsNumbered (ℕ.suc ℕ.zero) h = refl
lot-IsNumbered (ℕ.suc (ℕ.suc i)) h = omega arith

no_such_ticket : find "T2" lot.records_by_tkt_id ≡ none
unfolding find
no_such_ticket = refl

park-Parks_example : Returns (Parks lot "T2" 7 a_car) (park nearest lot "T2" 7 a_car "bob")
park-Parks_example =
    park-Parks nearest lot "T2" 7 a_car "bob" (nearest-Allocates a_car lot.floors lot-IsNumbered)
      lot-IsBalanced no_such_ticket

zones_split_example :
    ((zone_range 10 truck).0 ≡ 0)
    × ((zone_range 10 car).0 ≡ (zone_range 10 truck).1)
    × ((zone_range 10 bike).0 ≡ (zone_range 10 car).1)
    × ((zone_range 10 bike).1 ≡ 10)
    × IsPart 20 10 ((zone_range 10 truck).1 - (zone_range 10 truck).0)
    × IsPart 30 10 ((zone_range 10 bike).1 - (zone_range 10 bike).0)
    × (50 * 10 ≤ 100 * ((zone_range 10 car).1 - (zone_range 10 car).0))
    × (100 * ((zone_range 10 car).1 - (zone_range 10 car).0) < 50 * 10 + 200)
zones_split_example = zones_split 10

abbrev order : List (List VehicleMove × Bool)
order = (record { ticket_id = "T1"; from_floor_number = 0; to_floor_number = 1 } ∷ [], false) ∷ []

commit_blueprint-IsBooked_example :
    Returns
      (λ (p', comps).
        IsBooked p'
        × (length p'.floors ≡ 2)
        × Settles lot (moves_of order) p'
        × AreComponents 2 comps)
      (commit_blueprint lot order)
commit_blueprint-IsBooked_example =
    commit_blueprint-IsBooked lot order
      (record { reserved = lot-IsBalanced.reserved; targets = lot-IsBalanced.targets })
      ((omega arith, tt), tt)
