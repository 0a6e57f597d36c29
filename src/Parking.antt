-- ===== src/Parking.antt =====
-- Parking_Management: the vehicles and floors of models/types.go and models/zone.go, and what the
-- rest takes from them through aliases.go. Numbers of floors and capacities are not negative, and
-- hourly prices, whole floats in the source, are whole numbers.
pub mod Strategies
pub mod Choices
pub mod FirstFits
pub mod Plans
pub mod Slots
pub mod Lot
pub mod Zones
pub mod Tests
use low_level_design_in_go.Base.Int.{ℤ}
use low_level_design_in_go.Base.{ℕ, ◌+◌, ◌-◌, ◌*◌, ◌/◌, String, List, Bool, Option, arith}

pub data VehicleType : Type 0 where
  bike car truck : VehicleType
  other : String → VehicleType

pub record Vehicle : Type 0 where
  pub vehicle_reg_no : String
  pub type : VehicleType

pub record Floor : Type 0 where
  pub number : ℕ
  pub capacity : ℕ
  pub physically_used_capacity : ℕ
  pub reserved_capacity : ℕ

pub data ParkingStatus : Type 0 where
  parking_pending parked rearranging : ParkingStatus

-- A record; an index or a physical floor of -1 stands for none, as in the source.
pub record ParkingRecord : Type 0 where
  pub ticket_id : String
  pub customer_name : String
  pub vehicle : Vehicle
  pub physical_floor_number : ℤ
  pub buffer_slot_index : ℤ
  pub target_floor_number : ℕ
  pub entry_time : ℕ
  pub parking_status : ParkingStatus
  pub unpark_requested : Bool

pub record VehicleMove : Type 0 where
  pub ticket_id : String
  pub from_floor_number : ℕ
  pub to_floor_number : ℕ

unfoldable pub get_vehicle_space : VehicleType → ℕ
get_vehicle_space bike = 1
get_vehicle_space car = 2
get_vehicle_space truck = 6
get_vehicle_space (other s) = 0

unfoldable pub get_vehicle_rate_per_hour : VehicleType → ℕ
get_vehicle_rate_per_hour bike = 20
get_vehicle_rate_per_hour car = 40
get_vehicle_rate_per_hour truck = 60
get_vehicle_rate_per_hour (other s) = 0

-- The start and the end of the floors for a vehicle type.
unfoldable pub zone_range : ℕ → VehicleType → ℕ × ℕ
zone_range floor_count type =
    let truck_floors = floor_count * 20 / 100 in
    let bike_floors = floor_count * 30 / 100 in
    let car_part = floor_count * 50 / 100 in
    let car_floors = car_part + (floor_count - truck_floors - bike_floors - car_part) in
    elim type [
      | truck ↦ (0, truck_floors)
      | car ↦ (truck_floors, truck_floors + car_floors)
      | bike ↦ (truck_floors + car_floors, floor_count)
      | other s ↦ (0, 0)
    ]
