-- ===== src/Elevator/Car.antt =====
-- moveTo of Elevator_System/elevator.go. The states that it publishes, one for each time that it
-- gives the mutex back, are listed in order; `closed k` tells whether its wait number `k` ends
-- because the shutdown channel is closed.
pub mod Moves
use low_level_design_in_go.Base.{
  ℕ, zero, suc, ◌+◌, ◌-◌, ◌*◌, ◌≤◌, ◌<◌, ◌≡◌, ◌≢◌, refl, sym, ap, subst, ◌∙◌, ◌⊎◌, inl, inr, Bool,
  true, false, List, [], ◌∷◌, ◌++◌, arith, ltb, if◌then◌else◌, if_cases, Bool-cases, length, min,
  max,
}
use low_level_design_in_go.Elevator.{
  Direction, up, down, idle, DoorState, door_open, door_closed, ElevatorState,
}

-- The states published, and the last of them.
pub record Trip : Type 0 where
  pub trace : List ElevatorState
  pub final : ElevatorState

-- One more state.
abbrev pub publish : Trip → ElevatorState → Trip
publish t s = record { trace = t.trace ++ s ∷ []; final = s }

-- `CurrentFloor += step`
abbrev pub moved_by : Direction → ℕ → ℕ
moved_by down floor = floor - 1
moved_by up floor = floor + 1
moved_by idle floor = floor

-- `for range distance`: `true` if a wait ended by the shutdown.
unfoldable pub drive : ℕ → ℕ → (ℕ → Bool) → Direction → Trip → Bool × Trip
drive zero wait closed step t = (false, t)
drive (suc distance) wait closed step t =
    let at = t.final in
    let go =
      drive distance (wait + 1) closed step
        (publish t (record at { current_floor = moved_by step at.current_floor })) in
    if closed wait then (true, t) else go

-- The direction of a move, which is also the sign of its step.
unfoldable pub heading : ℕ → ℕ → Direction
heading from to = if ltb to from then down else if ltb from to then up else idle

unfoldable pub distance : ℕ → ℕ → ℕ
distance from to = if ltb to from then from - to else to - from

-- The doors at the end of a move.
unfoldable pub doors : ℕ → (ℕ → Bool) → Trip → Trip
doors wait closed t =
    let t1 = publish t (record t.final { door_state = door_open; direction = idle }) in
    let t2 = publish t1 (record t1.final { door_state = door_closed }) in
    if closed wait then t1 else t2

unfoldable pub move_to : (ℕ → Bool) → ElevatorState → ℕ → Trip
unfolding drive heading distance doors
move_to closed e to_floor =
    let from = e.current_floor in
    let start =
      publish (record { trace = []; final = e }) (record e { direction = heading from to_floor }) in
    let (stopped, t) = drive (distance from to_floor) 0 closed (heading from to_floor) start in
    if stopped then t else doors (distance from to_floor) closed t
