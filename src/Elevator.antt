-- ===== src/Elevator.antt =====
-- Elevator_System/elevator.go: requests, the state of the car, and what a scheduling strategy offers.
-- A direction other than the three constants is left out. Floors are numbers: Call and SelectFloor
-- take any `int`, and hand on only floors from 1 to the top floor.
pub mod Requests
pub mod Heaps
pub mod Strategy
pub mod Directional
pub mod Fifo
pub mod Car
pub mod System
use low_level_design_in_go.Base.{
  ℕ, ◌≡◌, String, Bool, true, false, ◌&&◌, ◌||◌, not, ◌↔◌, List, Option, ◌==◌, ltb, if◌then◌else◌,
  Eq, arith,
}
use low_level_design_in_go.Base.Run.{Run}
use low_level_design_in_go.Base.Int.{ℤ, pos, ltb_ℤ}

pub data Direction : Type 0 where
  up down idle : Direction

pub data DoorState : Type 0 where
  door_open door_closed : DoorState

pub data RequestType : Type 0 where
  external internal : RequestType

pub record Request : Type 0 where
  pub floor : ℕ
  pub direction : Direction
  pub type : RequestType

pub record ElevatorState : Type 0 where
  pub id : String
  pub current_floor : ℕ
  pub direction : Direction
  pub door_state : DoorState
  pub pending : List Request

-- The methods of `SchedulingStrategy`; a method returns the strategy after it.
pub record SchedulingStrategy (S : Type 0) : Type 0 where
  pub add_request : S → Request → Run S
  pub next_request : S → ElevatorState → Run (Option Request × S)
  pub pending : S → List Request

abbrev pub direction_eq : Direction → Direction → Bool
direction_eq up up = true
direction_eq down down = true
direction_eq idle idle = true
direction_eq _ _ = false

unfoldable pub opposite : Direction → Direction
opposite d = if direction_eq d up then down else up

abbrev pub int_eq : ℤ → ℤ → Bool
int_eq a b = not (ltb_ℤ a b) && not (ltb_ℤ b a)

unfoldable pub boundary_checks : ℤ → Direction → ℕ → Bool
boundary_checks floor direction total_floors =
    if ltb_ℤ floor (pos 1) || ltb_ℤ (pos total_floors) floor
    then false
    else if int_eq floor (pos 1) && direction_eq direction down
    then false
    else if int_eq floor (pos total_floors) && direction_eq direction up
    then false
    else true
