-- ===== src/Parking/Lot/Leaving.antt =====
-- Unpark of Parking_Management/parking.go.
use low_level_design_in_go.Base.{
  ℕ, ◌+◌, ◌-◌, ◌*◌, ◌≤◌, ◌<◌, ◌≡◌, refl, sym, subst, ◌∙◌, String, str_eq, Bool, true, false, not,
  Option, none, some, List, [], ◌∷◌, ◌++◌, ltb, ◌==◌, if◌then◌else◌, Bool-cases, inl, inr, length,
  length-set, set, All, arith,
}
use low_level_design_in_go.Base.Run.{ok, index-get_or, Returns, returns, Returns-if}
use low_level_design_in_go.Parking.{ParkingRecord, get_vehicle_space, get_vehicle_rate_per_hour}
use low_level_design_in_go.Parking.Choices.{no_floor}
use low_level_design_in_go.Parking.Lot.{
  Receipt, Result, value, error, invalid_ticket, already_requested, unparking_busy, Records, find,
  put, AutomatedParkingSystem, channel_size, give_back, unpark_record, unpark, stands, hours_begun,
}
use low_level_design_in_go.Parking.Lot.Books.{
  held, booked, booked-put_old, floor_at, IsBalanced, floor_at-reserve, put-All, find-All,
}

pub find-put :
    (key : String) (r old : ParkingRecord) (records : Records)
    → find key records ≡ some old
    → find key (put key r records) ≡ some r
unfolding find put
find-put key r old [] e = absurd (ground (arith, e))
find-put key r old ((k, s) ∷ rest) e = elim (Bool-cases (str_eq key k)) [
  | inl same ↦ rw (same, same)
  | inr differs ↦ rw (differs, differs) (find-put key r old rest (ground (arith, e, differs)))
]

pub held_le-booked :
    (i : ℕ) (key : String) (r : ParkingRecord) (records : Records)
    → find key records ≡ some r
    → held i r ≤ booked i records
unfolding find
held_le-booked i key r [] e = absurd (ground (arith, e))
held_le-booked i key r ((k, s) ∷ rest) e = elim (Bool-cases (str_eq key k)) [
  | inl same ↦
      let first : s ≡ r = ground (arith, e, same) in
      subst (λ q. held i q ≤ held i s + booked i rest) first (omega arith)
  | inr differs ↦ omega (arith, held_le-booked i key r rest (ground (arith, e, differs)))
]

-- The record of a vehicle that is to leave.
abbrev pub leaving : ParkingRecord → ParkingRecord
leaving r = record r { unpark_requested = true }

-- The hours to pay for a stay: at least one, as many as cover the stay, and no hour more than that.
abbrev pub HoursBegun : ℕ → ℕ → ℕ → Type 0
HoursBegun entry exit hours =
    (1 ≤ hours)
    × (exit ≤ entry + hours * 3600000000000)
    × (1 < hours → entry + (hours - 1) * 3600000000000 < exit)

hours_begun-HoursBegun : (entry exit : ℕ) → HoursBegun entry exit (hours_begun entry exit)
unfolding hours_begun
hours_begun-HoursBegun entry exit = omega arith

-- The four outcomes of Unpark. The first three change nothing. In the last one the vehicle's space
-- is given back, which was reserved; the record is kept, marked, until the robots have done their
-- work; and the robots are called if the vehicle stands on a floor.
pub data Unparks (p : AutomatedParkingSystem) (ticket_id : String) (exit_time : ℕ)
    : AutomatedParkingSystem × Result Receipt → Type 0 where
  unknown :
      find ticket_id p.records_by_tkt_id ≡ none
      → Unparks p ticket_id exit_time (p, error invalid_ticket)
  again :
      (r : ParkingRecord)
      → find ticket_id p.records_by_tkt_id ≡ some r
      → r.unpark_requested ≡ true
      → Unparks p ticket_id exit_time (p, error already_requested)
  busy :
      (r : ParkingRecord)
      → find ticket_id p.records_by_tkt_id ≡ some r
      → r.unpark_requested ≡ false
      → stands r ≡ true
      → channel_size ≤ length p.unpark_jobs
      → Unparks p ticket_id exit_time (p, error unparking_busy)
  lets_go :
      {p' : AutomatedParkingSystem} (r : ParkingRecord) (hours : ℕ)
      → HoursBegun r.entry_time exit_time hours
      → find ticket_id p.records_by_tkt_id ≡ some r
      → r.unpark_requested ≡ false
      → IsBalanced p'
      → find ticket_id p'.records_by_tkt_id ≡ some (leaving r)
      → get_vehicle_space r.vehicle.type
        ≤ (floor_at p.floors r.target_floor_number).reserved_capacity
      → ((i : ℕ) → booked i p'.records_by_tkt_id + held i r ≡ booked i p.records_by_tkt_id)
      → p'.unpark_jobs ≡ (if stands r then p.unpark_jobs ++ ticket_id ∷ [] else p.unpark_jobs)
      → Unparks p ticket_id exit_time (
        p',
        value (record {
          ticket_id = ticket_id;
          vehicle_details = r.vehicle;
          entry_at = r.entry_time;
          exit_at = exit_time;
          amount = get_vehicle_rate_per_hour r.vehicle.type * hours;
        }),
      )

-- The system after the space of `r` is given back, with these jobs for the robots.
abbrev after_leave :
    AutomatedParkingSystem → String → ParkingRecord → List String → AutomatedParkingSystem
after_leave p ticket_id r jobs =
    let i = r.target_floor_number in
    record p {
      records_by_tkt_id = put ticket_id (leaving r) p.records_by_tkt_id;
      unpark_jobs = jobs;
      floors = set p.floors i (record (floor_at p.floors i) {
        reserved_capacity =
            (floor_at p.floors i).reserved_capacity - get_vehicle_space r.vehicle.type;
      });
    }

module _ (p : AutomatedParkingSystem) (ticket_id : String) (r : ParkingRecord) (b : IsBalanced p)
    (found : find ticket_id p.records_by_tkt_id ≡ some r) (stays : r.unpark_requested ≡ false) where
  home : r.target_floor_number < length p.floors
  home =
      find-All (λ q. q.target_floor_number < length p.floors) ticket_id r p.records_by_tkt_id found
        b.targets

  gone :
      (i : ℕ)
      → booked i (put ticket_id (leaving r) p.records_by_tkt_id) + held i r
        ≡ booked i p.records_by_tkt_id
  gone i = omega (arith, booked-put_old i ticket_id (leaving r) r p.records_by_tkt_id found)

  held_home : held r.target_floor_number r ≡ get_vehicle_space r.vehicle.type
  held_home = ground (arith, stays)

  held_elsewhere : (i : ℕ) → (r.target_floor_number == i) ≡ false → held i r ≡ 0
  held_elsewhere i e = ground (arith, stays, e)

  was_reserved :
      get_vehicle_space r.vehicle.type ≤ (floor_at p.floors r.target_floor_number).reserved_capacity
  was_reserved = omega (
    arith,
    held_home,
    b.reserved r.target_floor_number home,
    held_le-booked r.target_floor_number ticket_id r p.records_by_tkt_id found,
  )

  after_leave-IsBalanced : (jobs : List String) → IsBalanced (after_leave p ticket_id r jobs)
  after_leave-IsBalanced jobs =
      let i = r.target_floor_number in
      let reserved' = (floor_at p.floors i).reserved_capacity - get_vehicle_space r.vehicle.type in
      let size =
        length-set p.floors i (record (floor_at p.floors i) { reserved_capacity = reserved' }) in
      record {
        reserved = λ j low.
            let at = floor_at-reserve p.floors i j reserved' home in
            at.1 ∙ elim (Bool-cases (i == j)) [
              | inl same ↦
                  let e : i ≡ j = ground arith in
                  let spot : booked i (put ticket_id (leaving r) p.records_by_tkt_id) ≡ reserved' =
                    omega (arith, gone i, held_home, b.reserved i home) in
                  rw same (
                    subst
                      (λ k. reserved' ≡ booked k (put ticket_id (leaving r) p.records_by_tkt_id)) e
                      (sym spot))
              | inr differs ↦ rw differs (
                  omega
                    (arith, gone j, held_elsewhere j differs, b.reserved j (omega (arith, size))))
            ];
        within = λ j low.
            let at = floor_at-reserve p.floors i j reserved' home in
            ground (arith, at, b.within j (omega (arith, size)), b.within i home);
        targets =
            put-All
              (λ q.
                q.target_floor_number
                < length (
                    set p.floors i
                      (record (floor_at p.floors i) { reserved_capacity = reserved' })))
              ticket_id (leaving r) p.records_by_tkt_id (omega (arith, size, home))
              (subst (λ n. All (λ (k, q). q.target_floor_number < n) p.records_by_tkt_id) (sym size)
                b.targets);
      }

  given_back :
      (exit_time : ℕ) (jobs : List String)
      → (jobs ≡ (if stands r then p.unpark_jobs ++ ticket_id ∷ [] else p.unpark_jobs))
      → Returns (Unparks p ticket_id exit_time) (
          give_back
            (record p {
              records_by_tkt_id = put ticket_id (leaving r) p.records_by_tkt_id;
              unpark_jobs = jobs;
            })
            ticket_id
            r
            exit_time)
  given_back exit_time jobs called =
      rw (index-get_or p.floors r.target_floor_number no_floor home) (
        returns (
          lets_go r (hours_begun r.entry_time exit_time)
            (hours_begun-HoursBegun r.entry_time exit_time) found stays
            (after_leave-IsBalanced jobs)
            (find-put ticket_id (leaving r) r p.records_by_tkt_id found) was_reserved gone called))

so : (b : Bool) → not b ≡ false → b ≡ true
so true e = refl
so false e = sym e

if_so : (xs ys : List String) (b : Bool) → not b ≡ false → xs ≡ (if b then xs else ys)
if_so xs ys true e = refl
if_so xs ys false e = absurd (ground (arith, e))

if_not : (xs ys : List String) (b : Bool) → not b ≡ true → ys ≡ (if b then xs else ys)
if_not xs ys true e = absurd (ground (arith, e))
if_not xs ys false e = refl

unpark_record-Unparks :
    (p : AutomatedParkingSystem) (ticket_id : String) (exit_time : ℕ) (r : ParkingRecord)
    → IsBalanced p
    → find ticket_id p.records_by_tkt_id ≡ some r
    → Returns (Unparks p ticket_id exit_time) (unpark_record p ticket_id exit_time r)
unfolding unpark_record
unpark_record-Unparks p ticket_id exit_time r b found =
    Returns-if r.unpark_requested (λ before. returns (again r found before))
      (λ stays.
        Returns-if (not (stands r))
          (λ moves.
            given_back p ticket_id r b found stays exit_time p.unpark_jobs
              (if_not _ _ (stands r) moves))
          (λ still.
            Returns-if (ltb (length p.unpark_jobs) channel_size)
              (λ open_place.
                given_back p ticket_id r b found stays exit_time (p.unpark_jobs ++ ticket_id ∷ [])
                  (if_so _ _ (stands r) still))
              (λ filled. returns (busy r found stays (so (stands r) still) (ground arith)))))

-- On a system with its books in order, Unpark returns. It answers an error and changes nothing if
-- the ticket is unknown, if leaving was asked for already, or if the vehicle stands on a floor and
-- the channel of jobs is full. Otherwise the record is marked, exactly its space is given back,
-- which the target floor had reserved, the books stay in order, the robots are called if the vehicle
-- stands on a floor, and the receipt charges the hourly rate for each hour begun, and for one hour
-- at least.
pub unpark-Unparks :
    (p : AutomatedParkingSystem) (ticket_id : String) (exit_time : ℕ)
    → IsBalanced p
    → Returns (Unparks p ticket_id exit_time) (unpark p ticket_id exit_time)
unfolding unpark
unpark-Unparks p ticket_id exit_time b = go (find ticket_id p.records_by_tkt_id) refl
  where
    go :
        (o : Option ParkingRecord)
        → find ticket_id p.records_by_tkt_id ≡ o
        → Returns (Unparks p ticket_id exit_time) (elim o [
          | none ↦ ok (p, error invalid_ticket)
          | some r ↦ unpark_record p ticket_id exit_time r
        ])
    go none e = returns (unknown e)
    go (some r) e = unpark_record-Unparks p ticket_id exit_time r b e
