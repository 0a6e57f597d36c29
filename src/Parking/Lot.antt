-- ===== src/Parking/Lot.antt =====
-- Park and Unpark of Parking_Management/parking.go. The mutex is held over each of them. The map of
-- records is a list of entries by ticket; the ticket's random number and the clock are arguments;
-- the robots take the jobs out of the two channels, which hold 1000 each. Times are nanoseconds.
pub mod Books
pub mod Leaving
pub mod Allocations
pub mod Beginnings
pub mod Blueprint
pub mod Commits
use low_level_design_in_go.Base.{
  ℕ, zero, suc, ◌+◌, ◌-◌, ◌*◌, ◌/◌, String, str_eq, Bool, true, false, not, ◌&&◌, Option, none,
  some, List, [], ◌∷◌, ◌++◌, ltb, leb, ◌==◌, if◌then◌else◌, length, set, max,
}
use low_level_design_in_go.Base.Int.{ℤ, pos, negsuc, ltb_ℤ}
use low_level_design_in_go.Base.Run.{Run, ok, ◌>>=◌, index}
use low_level_design_in_go.Parking.{
  Vehicle, Floor, ParkingRecord, ParkingStatus, parking_pending, parked, rearranging,
  get_vehicle_space, get_vehicle_rate_per_hour,
}

pub record Ticket : Type 0 where
  pub ticket_id : String
  pub vehicle_details : Vehicle
  pub entry_time : ℕ

pub record Receipt : Type 0 where
  pub ticket_id : String
  pub vehicle_details : Vehicle
  pub entry_at : ℕ
  pub exit_at : ℕ
  pub amount : ℕ

pub record ParkingJob : Type 0 where
  pub ticket_id : String
  pub vehicle : Vehicle
  pub to_floor_number : ℕ

pub data Error : Type 0 where
  cannot_park staging_full invalid_ticket already_requested unparking_busy : Error

pub data Result (A : Type 0) : Type 0 where
  value : A → Result A
  error : Error → Result A

-- A map by ticket, an entry for each key.
abbrev pub Records : Type 0
Records = List (String × ParkingRecord)

unfoldable pub find : String → Records → Option ParkingRecord
find key [] = none
find key ((k, r) ∷ rest) = let later = find key rest in if str_eq key k then some r else later

unfoldable pub put : String → ParkingRecord → Records → Records
put key r [] = (key, r) ∷ []
put key r ((k, s) ∷ rest) =
    let later = put key r rest in if str_eq key k then (k, r) ∷ rest else (k, s) ∷ later

pub record AutomatedParkingSystem : Type 0 where
  pub floors : List Floor
  pub records_by_tkt_id : Records
  pub records_by_reg_no : List (String × String)
  pub parking_jobs : List ParkingJob
  pub unpark_jobs : List String

abbrev pub channel_size : ℕ
channel_size = 1000

-- The floors and the maps of `NewAutomatedParkingSystem`, from floor `i` on.
unfoldable pub new_floors : ℕ → ℕ → ℕ → List Floor
new_floors zero i space = []
new_floors (suc n) i space =
    record { number = i; capacity = space; physically_used_capacity = 0; reserved_capacity = 0 }
    ∷ new_floors n (i + 1) space

unfoldable pub new_automated_parking_system : ℕ → ℕ → AutomatedParkingSystem
unfolding new_floors
new_automated_parking_system floors_cnt floor_space = record {
  floors = new_floors floors_cnt 0 floor_space;
  records_by_tkt_id = [];
  records_by_reg_no = [];
  parking_jobs = [];
  unpark_jobs = [];
}

-- No difference of reserved capacities is negative while the books are in order.
-- `p.floors[i].ReservedCapacity = change(p.floors[i].ReservedCapacity)`
abbrev pub reserve : List Floor → ℕ → (ℕ → ℕ) → Run (List Floor)
reserve floors i change = index floors i >>= λ floor.
    ok (set floors i (record floor { reserved_capacity = change floor.reserved_capacity }))

abbrev pub new_record : String → String → Vehicle → ℕ → ℕ → ParkingRecord
new_record ticket_id cust_name vehicle floor_number now = record {
  ticket_id = ticket_id;
  customer_name = cust_name;
  vehicle = vehicle;
  physical_floor_number = negsuc 0;
  buffer_slot_index = negsuc 0;
  target_floor_number = floor_number;
  entry_time = now;
  parking_status = parking_pending;
  unpark_requested = false;
}

-- Park, given what the strategy's Allocate decides.
unfoldable pub park :
    (Vehicle → List Floor → Run (Option ℕ))
    → AutomatedParkingSystem
    → String
    → ℕ
    → Vehicle
    → String
    → Run (AutomatedParkingSystem × Result Ticket)
unfolding put
park allocate p ticket_id now vehicle cust_name = allocate vehicle p.floors >>= λ decision.
    elim decision [
      | none ↦ ok (p, error cannot_park)
      | some floor_number ↦
          if ltb (length p.parking_jobs) channel_size
          then (reserve p.floors floor_number
                (λ reserved. reserved + get_vehicle_space vehicle.type)
              >>= λ floors. ok (
                record p {
                  parking_jobs =
                      p.parking_jobs
                      ++ record {
                        ticket_id = ticket_id;
                        vehicle = vehicle;
                        to_floor_number = floor_number;
                      }
                        ∷ [];
                  records_by_reg_no = (vehicle.vehicle_reg_no, ticket_id) ∷ p.records_by_reg_no;
                  records_by_tkt_id =
                      put ticket_id (new_record ticket_id cust_name vehicle floor_number now)
                        p.records_by_tkt_id;
                  floors = floors;
                },
                value
                    (record { ticket_id = ticket_id; vehicle_details = vehicle; entry_time = now }),
              ))
          else ok (p, error staging_full)
    ]

-- The hours begun between two times, and at least one.
unfoldable pub hours_begun : ℕ → ℕ → ℕ
hours_begun entry exit = max 1 ((exit - entry + 3599999999999) / 3600000000000)

-- The vehicle stands on a floor.
abbrev pub stands : ParkingRecord → Bool
stands r =
    elim r.parking_status [ parked ↦ true | _ ↦ false ]
    && ltb_ℤ r.buffer_slot_index (pos 0)
    && not (ltb_ℤ r.physical_floor_number (pos 0))

-- The end of Unpark: the space is given back.
abbrev pub give_back :
    AutomatedParkingSystem
    → String
    → ParkingRecord
    → ℕ
    → Run (AutomatedParkingSystem × Result Receipt)
give_back p ticket_id r exit_time =
    reserve p.floors r.target_floor_number (λ reserved. reserved - get_vehicle_space r.vehicle.type)
    >>= λ floors. ok (
      record p { floors = floors },
      value (record {
        ticket_id = ticket_id;
        vehicle_details = r.vehicle;
        entry_at = r.entry_time;
        exit_at = exit_time;
        amount = get_vehicle_rate_per_hour r.vehicle.type * hours_begun r.entry_time exit_time;
      }),
    )

-- Unpark, once the record is found. A failed send takes the mark back.
unfoldable pub unpark_record :
    AutomatedParkingSystem
    → String
    → ℕ
    → ParkingRecord
    → Run (AutomatedParkingSystem × Result Receipt)
unfolding put hours_begun
unpark_record p ticket_id exit_time r =
    let marked : AutomatedParkingSystem = record p {
      records_by_tkt_id = put ticket_id (record r { unpark_requested = true }) p.records_by_tkt_id;
    } in
    if r.unpark_requested
    then ok (p, error already_requested)
    else if not (stands r)
    then give_back marked ticket_id r exit_time
    else if ltb (length p.unpark_jobs) channel_size
    then give_back (record marked { unpark_jobs = p.unpark_jobs ++ ticket_id ∷ [] }) ticket_id r
        exit_time
    else ok (p, error unparking_busy)

unfoldable pub unpark :
    AutomatedParkingSystem → String → ℕ → Run (AutomatedParkingSystem × Result Receipt)
unfolding find unpark_record
unpark p ticket_id exit_time = elim (find ticket_id p.records_by_tkt_id) [
  | none ↦ ok (p, error invalid_ticket)
  | some r ↦ unpark_record p ticket_id exit_time r
]
