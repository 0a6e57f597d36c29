-- ===== src/Elevator/System/Calls.antt =====
-- Call and SelectFloor of Elevator_System/elevator.go: what they let through.
use low_level_design_in_go.Base.{
  ℕ, ◌+◌, ◌≤◌, ◌<◌, ◌≡◌, ◌≢◌, refl, ◌⊎◌, ◌↔◌, true, false, ◌||◌, Option, none, some, Perm, arith,
  if◌then◌else◌, insert, ltb,
}
use low_level_design_in_go.Base.Int.{ℤ, pos, negsuc, ltb_ℤ}
use low_level_design_in_go.Base.Run.{ok, Returns, returns, Returns-bind}
use low_level_design_in_go.Elevator.{
  Direction, up, down, external, internal, Request, SchedulingStrategy, boundary_checks,
}
use low_level_design_in_go.Elevator.Requests.{request_eq}
use low_level_design_in_go.Elevator.Strategy.{LawfulStrategy}
use low_level_design_in_go.Elevator.System.{
  ElevatorSystem, Error, invalid_request, call, select_floor,
}

-- The hall calls that make sense: a floor of the building, and a way to go from there.
abbrev pub CanCall : ℕ → Direction → ℕ → Type 0
CanCall floor direction top =
    (1 ≤ floor)
    × (floor ≤ top)
    × ((direction ≢ down) ⊎ (floor ≢ 1))
    × ((direction ≢ up) ⊎ (floor ≢ top))

boundary_checks_sound :
    (floor : ℕ) (direction : Direction) (top : ℕ)
    → boundary_checks (pos floor) direction top ≡ true
    → CanCall floor direction top
unfolding boundary_checks
boundary_checks_sound floor up top h = ground arith
boundary_checks_sound floor _ top h = ground arith

boundary_checks_complete :
    (floor : ℕ) (direction : Direction) (top : ℕ)
    → CanCall floor direction top
    → boundary_checks (pos floor) direction top ≡ true
unfolding boundary_checks
boundary_checks_complete floor up top can = ground arith
boundary_checks_complete floor _ top can = ground arith

-- For a floor that is not negative, boundaryChecks accepts exactly the floors from 1 to the top,
-- except for going down from floor 1 and up from the top.
pub boundary_checks_iff :
    (floor : ℕ) (direction : Direction) (top : ℕ)
    → (boundary_checks (pos floor) direction top ≡ true) ↔ CanCall floor direction top
boundary_checks_iff floor direction top =
    (boundary_checks_sound floor direction top, boundary_checks_complete floor direction top)

pub boundary_checks-negsuc :
    (n : ℕ) (direction : Direction) (top : ℕ) → boundary_checks (negsuc n) direction top ≡ false
unfolding boundary_checks
boundary_checks-negsuc n direction top = ground arith

module _ {S : Type 0} (strategy : SchedulingStrategy S) (L : LawfulStrategy strategy) where
  open L use {Good, waiting}

  -- What an accepted request does to the system: it waits, the processor is woken, and the car
  -- stays as it is.
  pub record Accepted (e : ElevatorSystem S) (r : Request) (a : ElevatorSystem S × Option Error)
      : Type 0 where
    pub error : a.1 ≡ none
    pub good : Good a.0.strategy
    pub added : Perm (waiting a.0.strategy) (insert r (waiting e.strategy))
    pub woken : a.0.work_ch ≡ true
    pub car : a.0.elevator ≡ e.elevator

  -- Over any lawful strategy in a good state, Call with a floor of the building and a direction that
  -- leads somewhere from it returns without an error: the request waits, the processor is woken, and
  -- the car is as it was.
  pub call_accepts :
      (e : ElevatorSystem S) (floor : ℕ) (direction : Direction)
      → Good e.strategy
      → CanCall floor direction e.floors
      → Returns
          (Accepted e (record { floor = floor; direction = direction; type = external }))
          (call strategy e (pos floor) direction)
  unfolding call
  call_accepts e floor direction good can =
      rw ((boundary_checks_iff floor direction e.floors).1 can) (
        Returns-bind (L.adds e.strategy _ good) λ s (good', added).
          returns (record { error = refl; good = good'; added = added; woken = refl; car = refl }))

  -- Call refuses every other floor and direction, and then changes nothing.
  pub call_refuses :
      (e : ElevatorSystem S) (floor : ℤ) (direction : Direction)
      → boundary_checks floor direction e.floors ≡ false
      → call strategy e floor direction ≡ ok (e, some invalid_request)
  unfolding call
  call_refuses e floor direction bad = rw bad

  -- Over any lawful strategy in a good state, SelectFloor with a floor of the building returns
  -- without an error: the request waits, headed down if the floor is below the car and else up, the
  -- processor is woken, and the car is as it was.
  pub select_floor_accepts :
      (e : ElevatorSystem S) (floor : ℕ)
      → Good e.strategy
      → 1 ≤ floor
      → floor ≤ e.floors
      → Returns
          (Accepted e (record {
            floor = floor;
            direction = if ltb floor e.elevator.current_floor then down else up;
            type = internal;
          }))
          (select_floor strategy e (pos floor))
  unfolding select_floor
  select_floor_accepts e floor good low high =
      let inside : (ltb_ℤ (pos floor) (pos 1) || ltb_ℤ (pos e.floors) (pos floor)) ≡ false =
        ground arith in
      let same : ltb (floor + 0) (e.elevator.current_floor + 0)
          ≡ ltb floor e.elevator.current_floor =
        ground arith in
      rw (inside, same)
        (Returns-bind (L.adds e.strategy _ good) λ s (good', added).
          returns (record { error = refl; good = good'; added = added; woken = refl; car = refl }))

  pub select_floor_refuses :
      (e : ElevatorSystem S) (floor : ℕ)
      → (floor < 1) ⊎ (e.floors < floor)
      → select_floor strategy e (pos floor) ≡ ok (e, some invalid_request)
  unfolding select_floor
  select_floor_refuses e floor outside =
      let refused : (ltb_ℤ (pos floor) (pos 1) || ltb_ℤ (pos e.floors) (pos floor)) ≡ true =
        ground arith in
      rw refused
