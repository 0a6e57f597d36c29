-- ===== src/Elevator/System/Tests.antt =====
-- The elevator of Elevator_System/elevator.go on concrete requests.
use low_level_design_in_go.Base.{
  ℕ, ◌≡◌, refl, Bool, false, true, ◌↔◌, inl, inr, [], ◌∷◌, ◌++◌, arith, has,
}
use low_level_design_in_go.Base.Int.{pos}
use low_level_design_in_go.Base.Run.{ok, ◌>>=◌, Returns}
use low_level_design_in_go.Elevator.{
  up, idle, door_closed, external, Request, ElevatorState, boundary_checks,
}
use low_level_design_in_go.Elevator.Requests.{request_eq}
use low_level_design_in_go.Elevator.Car.{move_to, drive, heading, distance, doors}
use low_level_design_in_go.Elevator.Car.Moves.{Moves, move_to-Moves}
use mathlib.Core.List.Perm
use low_level_design_in_go.Elevator.Directional as Sweeper
use low_level_design_in_go.Elevator.Directional.{Directional, new_directional, directional}
use low_level_design_in_go.Elevator.Directional.Invariant.{IsValid, Added, add_request-Added}
use low_level_design_in_go.Elevator.Directional.Next.{NextSpec, next_request_serves}
use low_level_design_in_go.Elevator.Directional.Listing.{Listed, pending-Listed, directional_lawful}
use low_level_design_in_go.Elevator.Directional.Sweep.{Sweeps, drain-Sweeps}
use low_level_design_in_go.Elevator.Fifo as Line
use low_level_design_in_go.Elevator.Fifo.{Fifo, fifo, fifo_lawful, queue_of}
use low_level_design_in_go.Elevator.Strategy.{Answer}
use low_level_design_in_go.Elevator.Heaps.{heap_len, swap, push, pop, min_less, max_less}
use low_level_design_in_go.Elevator.System.{ElevatorSystem, call, drain}
use low_level_design_in_go.Elevator.System.Calls.{
  CanCall, boundary_checks_iff, Accepted, call_accepts,
}
use low_level_design_in_go.Elevator.System.Drain.{Drained, drain-Drained}

abbrev hall_call : ℕ → Request
hall_call f = record { floor = f; direction = up; type = external }

abbrev car : ElevatorState
car = record {
  id = "E1";
  current_floor = 3;
  direction = idle;
  door_state = door_closed;
  pending = [];
}

-- One request waits at floor 6.
abbrev one : Directional
one = record { up_heap = hall_call 6 ∷ []; down_heap = []; sweep = up; pending = hall_call 6 ∷ [] }

one-IsValid : IsValid one
unfolding has
one-IsValid = record {
  ordered = record {
    ups = record { good = tt; heap = λ c p q. absurd (omega arith) };
    downs = record { good = tt; heap = λ c p q. absurd (omega arith) };
  };
  kept = Perm.refl _;
  distinct = (refl, tt);
  sweeping = inl refl;
}

abbrev tower : ElevatorSystem Directional
tower = record {
  id = "E1";
  floors = 10;
  elevator = car;
  work_ch = true;
  strategy = one;
  shutdown = false;
}

abbrev open_channel : ℕ → ℕ → Bool
open_channel k j = false

abbrev queue : Fifo
queue = record { requests = hall_call 2 ∷ []; waiting = hall_call 2 ∷ [] }

queue-IsValid : Line.IsValid queue
unfolding has
queue-IsValid = record { kept = Perm.refl _; distinct = (refl, tt) }

-- The car goes up to 6, and opens its doors there.
ride :
    (drain directional 2 open_channel tower >>= λ (served, e). ok e.elevator.current_floor) ≡ ok 6
unfolding drain move_to drive heading distance doors Sweeper.next_request heap_len swap push pop
    min_less max_less
ride = refl

boundary_checks_iff_example : (boundary_checks (pos 10) up 10 ≡ true) ↔ CanCall 10 up 10
boundary_checks_iff_example = boundary_checks_iff 10 up 10

call_accepts_example :
    Returns
      (Accepted directional directional_lawful tower (hall_call 4))
      (call directional tower (pos 4) up)
call_accepts_example =
    call_accepts directional directional_lawful tower 4 up one-IsValid
      (omega arith, omega arith, inr (omega arith), inr (omega arith))

move_to-Moves_example : Moves (open_channel 0) car 6 (move_to (open_channel 0) car 6)
move_to-Moves_example = move_to-Moves (open_channel 0) car 6 refl

drain-Drained_example :
    Returns
      (Drained directional directional_lawful open_channel tower)
      (drain directional 2 open_channel tower)
drain-Drained_example =
    drain-Drained directional directional_lawful 2 open_channel tower one-IsValid (omega arith)

drain-Sweeps_example : Returns (λ a. Sweeps 3 a.0) (drain directional 2 open_channel tower)
drain-Sweeps_example =
    drain-Sweeps 2 open_channel tower (λ k j. refl) (refl, refl) one-IsValid refl (omega arith)

add_request-Added_example :
    Returns (Added one (hall_call 4)) (Sweeper.add_request one (hall_call 4))
add_request-Added_example = add_request-Added one (hall_call 4) one-IsValid

next_request_serves_example :
    Returns (λ a. IsValid a.1 × NextSpec one 3 a) (Sweeper.next_request one car)
next_request_serves_example = next_request_serves one car one-IsValid

pending-Listed_example : Listed one (Sweeper.pending one)
pending-Listed_example = pending-Listed one

next_request-queue_example :
    Returns
      (λ (o, s').
        Line.IsValid s'
        × Answer queue.waiting s'.waiting o
        × (hall_call 2 ∷ [] ≡ queue_of o ++ s'.requests))
      (Line.next_request queue car)
next_request-queue_example = Line.next_request-queue queue car (hall_call 2 ∷ []) queue-IsValid refl
