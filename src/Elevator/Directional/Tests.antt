-- ===== src/Elevator/Directional/Tests.antt =====
-- Runs of the Directional strategy of Elevator_System/elevator.go.
use low_level_design_in_go.Base.{ℕ, zero, suc, ◌≡◌, refl, List, [], ◌∷◌, none, some}
use low_level_design_in_go.Base.Run.{Run, ok, out_of_fuel, ◌>>=◌}
use low_level_design_in_go.Elevator.{
  Direction, up, down, idle, door_closed, external, Request, ElevatorState,
}
use low_level_design_in_go.Elevator.Heaps.{heap_len, swap, push, pop, min_less, max_less}
use low_level_design_in_go.Elevator.Directional.{
  Directional, new_directional, add_request, next_request,
}

abbrev at_floor : ℕ → ElevatorState
at_floor f = record {
  id = "E1";
  current_floor = f;
  direction = idle;
  door_state = door_closed;
  pending = [];
}

abbrev call : ℕ → Direction → Request
call f d = record { floor = f; direction = d; type = external }

add_all : Directional → List Request → Run Directional
add_all s [] = ok s
add_all s (r ∷ rs) = add_request s r >>= λ s'. add_all s' rs

serve : ℕ → ℕ → Directional → Run (List ℕ)
serve zero f s = out_of_fuel
serve (suc fuel) f s = next_request s (at_floor f) >>= λ (o, s'). elim o [
  | none ↦ ok []
  | some r ↦ serve fuel r.floor s' >>= λ fs. ok (r.floor ∷ fs)
]

-- The example of the readme, with floor 7 among the first calls.
readme :
    (add_all new_directional
        (call 8 down ∷ call 3 up ∷ call 6 up ∷ call 2 down ∷ call 9 down ∷ call 7 up ∷ [])
      >>= serve 10 5)
    ≡ ok (6 ∷ 7 ∷ 8 ∷ 9 ∷ 3 ∷ 2 ∷ [])
unfolding add_all serve new_directional add_request next_request heap_len swap push pop min_less
    max_less
readme = refl
