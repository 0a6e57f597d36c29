-- ===== src/Parking/Lot/Books.antt =====
-- The reserved capacities of Parking_Management/parking.go under Park and Unpark.
use low_level_design_in_go.Base.{
  ℕ, ◌+◌, ◌≤◌, ◌<◌, ◌≡◌, refl, sym, ap, subst, ◌∙◌, String, str_eq, Option, none, some, List, [],
  ◌∷◌, ◌++◌, ltb, ◌==◌, if◌then◌else◌, if_cases, Bool-cases, inl, inr, length, length-set, get_or,
  get_or-set, set, All, arith,
}
use low_level_design_in_go.Base.Run.{
  Run, ok, ◌>>=◌, index-get_or, Returns, returns, Returns-bind, Returns-if,
}
use low_level_design_in_go.Parking.{Vehicle, Floor, ParkingRecord, get_vehicle_space}
use low_level_design_in_go.Parking.Choices.{Fits, no_floor}
use low_level_design_in_go.Parking.Lot.{
  Ticket, Error, Result, value, error, cannot_park, staging_full, Records, find, put,
  AutomatedParkingSystem, channel_size, reserve, new_record, park,
}

-- The space that a record holds on floor `i`: until its vehicle is to leave, on its target floor.
abbrev pub held : ℕ → ParkingRecord → ℕ
held i r =
    if r.unpark_requested
    then 0
    else if r.target_floor_number == i
    then get_vehicle_space r.vehicle.type
    else 0

abbrev pub booked : ℕ → Records → ℕ
booked i [] = 0
booked i ((k, r) ∷ rest) = held i r + booked i rest

booked-put_new :
    (i : ℕ) (key : String) (r : ParkingRecord) (records : Records)
    → find key records ≡ none
    → booked i (put key r records) ≡ held i r + booked i records
unfolding find put
booked-put_new i key r [] e = refl
booked-put_new i key r ((k, s) ∷ rest) e = elim (Bool-cases (str_eq key k)) [
  | inl same ↦ absurd (ground (arith, e, same))
  | inr differs ↦
      let later : find key rest ≡ none = ground (arith, e, differs) in
      rw differs (omega (arith, booked-put_new i key r rest later))
]

pub booked-put_old :
    (i : ℕ) (key : String) (r old : ParkingRecord) (records : Records)
    → find key records ≡ some old
    → booked i (put key r records) + held i old ≡ held i r + booked i records
unfolding find put
booked-put_old i key r old [] e = absurd (ground (arith, e))
booked-put_old i key r old ((k, s) ∷ rest) e = elim (Bool-cases (str_eq key k)) [
  | inl same ↦
      let first : s ≡ old = ground (arith, e, same) in
      rw same (
        subst (λ o. held i r + booked i rest + held i o ≡ held i r + (held i s + booked i rest))
          first (omega arith))
  | inr differs ↦
      let later : find key rest ≡ some old = ground (arith, e, differs) in
      rw differs (omega (arith, booked-put_old i key r old rest later))
]

abbrev pub floor_at : List Floor → ℕ → Floor
floor_at floors i = get_or floors i no_floor

-- The books are in order: each floor has reserved exactly what the records hold there, within its
-- capacity.
pub record IsBalanced (p : AutomatedParkingSystem) : Type 0 where
  pub reserved :
      (i : ℕ)
      → i < length p.floors
      → (floor_at p.floors i).reserved_capacity ≡ booked i p.records_by_tkt_id
  pub within :
      (i : ℕ)
      → i < length p.floors
      → (floor_at p.floors i).reserved_capacity ≤ (floor_at p.floors i).capacity
  pub targets : All (λ (k, r). r.target_floor_number < length p.floors) p.records_by_tkt_id

-- What Park relies on in Allocate: a floor of the building with room.
pub data Allocates (vehicle : Vehicle) (floors : List Floor) : Option ℕ → Type 0 where
  nowhere : Allocates vehicle floors none
  on_floor :
      {i : ℕ}
      → i < length floors
      → Fits (get_vehicle_space vehicle.type) (floor_at floors i)
      → Allocates vehicle floors (some i)

-- More is reserved on one floor.
pub floor_at-reserve :
    (floors : List Floor) (i j reserved : ℕ)
    → i < length floors
    → let floors' = set floors i (record (floor_at floors i) { reserved_capacity = reserved }) in
      ((floor_at floors' j).capacity ≡ (floor_at floors j).capacity)
      × ((floor_at floors' j).reserved_capacity
          ≡ (if i == j then reserved else (floor_at floors j).reserved_capacity))
floor_at-reserve floors i j reserved inside =
    let floor = record (floor_at floors i) { reserved_capacity = reserved } in
    rw (get_or-set floors i j floor no_floor inside) (
      if_cases
        (λ (f : Floor).
          (f.capacity ≡ (floor_at floors j).capacity)
          × (f.reserved_capacity
              ≡ (if i == j then reserved else (floor_at floors j).reserved_capacity)))
        (i == j) (λ same. (ap (λ k. (floor_at floors k).capacity) (ground arith), ground arith))
        (λ differs. (refl, ground arith)))

pub put-All :
    (P : ParkingRecord → Type 0) (key : String) (r : ParkingRecord) (records : Records)
    → P r
    → All (λ (k, s). P s) records
    → All (λ (k, s). P s) (put key r records)
unfolding put
put-All P key r [] p all = (p, tt)
put-All P key r ((k, s) ∷ rest) p all =
    if_cases (All (λ (k', s'). P s')) (str_eq key k) (λ _. (p, all.1))
      (λ _. (all.0, put-All P key r rest p all.1))

pub find-All :
    (P : ParkingRecord → Type 0) (key : String) (r : ParkingRecord) (records : Records)
    → find key records ≡ some r
    → All (λ (k, s). P s) records
    → P r
unfolding find
find-All P key r [] e all = absurd (ground (arith, e))
find-All P key r ((k, s) ∷ rest) e all = elim (Bool-cases (str_eq key k)) [
  | inl same ↦ subst P (ground (arith, e, same)) all.0
  | inr differs ↦ find-All P key r rest (ground (arith, e, differs)) all.1
]

-- Park refuses the vehicle and changes nothing, or takes it in: the books stay in order, and the job
-- for the robots is the last of the queue.
pub data Parks (p : AutomatedParkingSystem) (ticket_id : String) (now : ℕ) (vehicle : Vehicle)
    : AutomatedParkingSystem × Result Ticket → Type 0 where
  refuses : {e : Error} → Parks p ticket_id now vehicle (p, error e)
  takes_in :
      {p' : AutomatedParkingSystem} (floor : ℕ)
      → IsBalanced p'
      → length p.parking_jobs < channel_size
      → p'.parking_jobs
        ≡ p.parking_jobs
          ++ record { ticket_id = ticket_id; vehicle = vehicle; to_floor_number = floor } ∷ []
      → ((i : ℕ)
          → booked i p'.records_by_tkt_id
            ≡ booked i p.records_by_tkt_id
              + (if floor == i then get_vehicle_space vehicle.type else 0))
      → Parks p ticket_id now vehicle (
        p',
        value (record { ticket_id = ticket_id; vehicle_details = vehicle; entry_time = now }),
      )

-- On a system with its books in order, with a strategy that decides on a floor with room, if on any,
-- and with a ticket that is new, Park returns. It answers an error and changes nothing, or it takes
-- the vehicle in: its job is the last of the queue, which had room, the vehicle's space is booked on
-- one floor, and the books stay in order, so that no floor has reserved more than its capacity.
pub park-Parks :
    (allocate : Vehicle → List Floor → Run (Option ℕ)) (p : AutomatedParkingSystem)
    (ticket_id : String) (now : ℕ) (vehicle : Vehicle) (cust_name : String)
    → Returns (Allocates vehicle p.floors) (allocate vehicle p.floors)
    → IsBalanced p
    → find ticket_id p.records_by_tkt_id ≡ none
    → Returns (Parks p ticket_id now vehicle) (park allocate p ticket_id now vehicle cust_name)
unfolding park
park-Parks allocate p ticket_id now vehicle cust_name decides b fresh = Returns-bind decides go
  where
    space : ℕ
    space = get_vehicle_space vehicle.type

    go :
        (o : Option ℕ)
        → Allocates vehicle p.floors o
        → Returns (Parks p ticket_id now vehicle) (elim o [
          | none ↦ ok (p, error cannot_park)
          | some floor_number ↦
              if ltb (length p.parking_jobs) channel_size
              then (reserve p.floors floor_number
                    (λ reserved. reserved + get_vehicle_space vehicle.type)
                  >>= λ floors. ok (
                    record p {
                      parking_jobs =
                          p.parking_jobs
                          ++ record {
                            ticket_id = ticket_id;
                            vehicle = vehicle;
                            to_floor_number = floor_number;
                          }
                            ∷ [];
                      records_by_reg_no = (vehicle.vehicle_reg_no, ticket_id) ∷ p.records_by_reg_no;
                      records_by_tkt_id =
                          put ticket_id
                            (new_record ticket_id cust_name vehicle floor_number now)
                            p.records_by_tkt_id;
                      floors = floors;
                    },
                    value (record {
                      ticket_id = ticket_id;
                      vehicle_details = vehicle;
                      entry_time = now;
                    }),
                  ))
              else ok (p, error staging_full)
        ])
    go _ nowhere = returns refuses
    go _ (on_floor {i} inside room) =
        Returns-if (ltb (length p.parking_jobs) channel_size)
          (λ open_place. rw (index-get_or p.floors i no_floor inside) (
            returns (
              takes_in i (balanced i inside room) (ground arith) refl
                (λ j. booked_after i j ∙ ground arith))))
          (λ staged. returns refuses)
      where
        booked_after :
            (i j : ℕ)
            → booked j
                (put ticket_id (new_record ticket_id cust_name vehicle i now) p.records_by_tkt_id)
              ≡ held j (new_record ticket_id cust_name vehicle i now) + booked j p.records_by_tkt_id
        booked_after i j =
            booked-put_new j ticket_id (new_record ticket_id cust_name vehicle i now)
              p.records_by_tkt_id fresh

        balanced :
            (i : ℕ)
            → i < length p.floors
            → Fits space (floor_at p.floors i)
            → IsBalanced (record p {
              parking_jobs =
                  p.parking_jobs
                  ++ record { ticket_id = ticket_id; vehicle = vehicle; to_floor_number = i } ∷ [];
              records_by_reg_no = (vehicle.vehicle_reg_no, ticket_id) ∷ p.records_by_reg_no;
              records_by_tkt_id =
                  put ticket_id (new_record ticket_id cust_name vehicle i now) p.records_by_tkt_id;
              floors = set p.floors i (record (floor_at p.floors i) {
                reserved_capacity = (floor_at p.floors i).reserved_capacity + space;
              });
            })
        balanced i inside room =
            let reserved' = (floor_at p.floors i).reserved_capacity + space in
            let size =
              length-set p.floors i
                (record (floor_at p.floors i) { reserved_capacity = reserved' }) in
            record {
              reserved = λ j low.
                  let at = floor_at-reserve p.floors i j reserved' inside in
                  at.1
                  ∙ ground (
                    arith,
                    b.reserved j (omega (arith, size)),
                    b.reserved i inside,
                    booked_after i j,
                  );
              within = λ j low.
                  let at = floor_at-reserve p.floors i j reserved' inside in
                  ground (arith, at, b.within j (omega (arith, size)));
              targets =
                  put-All
                    (λ r.
                      r.target_floor_number
                      < length (
                          set p.floors i
                            (record (floor_at p.floors i) { reserved_capacity = reserved' })))
                    ticket_id _ p.records_by_tkt_id (omega (arith, size))
                    (subst (λ n. All (λ (k, r). r.target_floor_number < n) p.records_by_tkt_id)
                      (sym size) b.targets);
            }
