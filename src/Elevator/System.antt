-- ===== src/Elevator/System.antt =====
-- ElevatorSystem of Elevator_System/elevator.go, over any scheduling strategy. `work_ch` tells whether
-- the buffer of the channel, of size one, is full. The goroutine of `processor` takes its turns
-- between the calls: `drain` is one turn of it, after a receive from `workCh`.
pub mod Calls
pub mod Drain
pub mod Tests
use low_level_design_in_go.Base.{
  ℕ, zero, suc, ◌+◌, String, Bool, true, false, not, ◌||◌, Option, none, some, List, [], ◌∷◌, ltb,
  if◌then◌else◌,
}
use low_level_design_in_go.Base.Int.{ℤ, pos, pos_part, ltb_ℤ}
use low_level_design_in_go.Base.Run.{Run, ok, out_of_fuel, ◌>>=◌}
use low_level_design_in_go.Elevator.{
  Direction, up, down, idle, door_closed, external, internal, Request, ElevatorState,
  SchedulingStrategy, boundary_checks,
}
use low_level_design_in_go.Elevator.Car.{Trip, move_to}

pub data Error : Type 0 where
  invalid_request : Error

pub record ElevatorSystem (S : Type 0) : Type 0 where
  pub id : String
  pub floors : ℕ
  pub elevator : ElevatorState
  pub work_ch : Bool
  pub strategy : S
  pub shutdown : Bool

-- `NewElevatorSystem`, given the strategy that it makes.
unfoldable pub new_elevator_system : {S : Type 0} → S → String → ℕ → ElevatorSystem S
new_elevator_system strategy id floors = record {
  id = id;
  floors = floors;
  elevator = record {
    id = id;
    current_floor = 1;
    direction = idle;
    door_state = door_closed;
    pending = [];
  };
  work_ch = false;
  strategy = strategy;
  shutdown = false;
}

module _ {S : Type 0} (strategy : SchedulingStrategy S) where
  unfoldable pub signal_work : ElevatorSystem S → ElevatorSystem S
  signal_work e = record e { work_ch = true }

  unfoldable pub call : ElevatorSystem S → ℤ → Direction → Run (ElevatorSystem S × Option Error)
  unfolding signal_work
  call e floor direction =
      if not (boundary_checks floor direction e.floors) then ok (e, some invalid_request) else do
        let request : Request = record {
          floor = pos_part floor;
          direction = direction;
          type = external;
        }
        s ← strategy.add_request e.strategy request
        ok (signal_work (record e { strategy = s }), none)

  unfoldable pub select_floor : ElevatorSystem S → ℤ → Run (ElevatorSystem S × Option Error)
  unfolding signal_work
  select_floor e floor =
      if ltb_ℤ floor (pos 1) || ltb_ℤ (pos e.floors) floor then ok (e, some invalid_request) else do
        let current = e.elevator.current_floor
        let dir : Direction = if ltb_ℤ floor (pos current) then down else up
        let request : Request = record { floor = pos_part floor; direction = dir; type = internal }
        s ← strategy.add_request e.strategy request
        ok (signal_work (record e { strategy = s }), none)

  unfoldable pub state : ElevatorSystem S → ElevatorState
  state e = record e.elevator { pending = strategy.pending e.strategy }

  -- The inner loop of `processor`. It also gives back the requests that it served, in order;
  -- `closed` is the shutdown channel as each wait of each move finds it.
  unfoldable pub drain :
      ℕ → (ℕ → ℕ → Bool) → ElevatorSystem S → Run (List Request × ElevatorSystem S)
  unfolding state
  drain zero closed e = out_of_fuel
  drain (suc fuel) closed e = strategy.next_request e.strategy (state e) >>= λ (o, s). elim o [
    | none ↦ ok ([], record e { strategy = s })
    | some nextreq ↦
        drain fuel (λ k. closed (k + 1))
          (record e {
            strategy = s;
            elevator = (move_to (closed 0) e.elevator nextreq.floor).final;
          })
        >>= λ (served, e'). ok (nextreq ∷ served, e')
  ]

  unfoldable pub shutdown_system : ElevatorSystem S → ElevatorSystem S
  shutdown_system e = record e { shutdown = true }
