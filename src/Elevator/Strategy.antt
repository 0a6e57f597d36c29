-- ===== src/Elevator/Strategy.antt =====
-- What the elevator of Elevator_System/elevator.go relies on in a SchedulingStrategy.
use low_level_design_in_go.Base.{◌≡◌, List, [], ◌∷◌, Option, none, some, Perm, insert, Distinct}
use low_level_design_in_go.Base.Run.{Returns}
use low_level_design_in_go.Elevator.{Request, ElevatorState, SchedulingStrategy}
use low_level_design_in_go.Elevator.Requests.{request_eq}

-- An answer of NextRequest that takes one waiting request out, or none if none waits.
pub data Answer (before after : List Request) : Option Request → Type 0 where
  next : {r : Request} → Perm (r ∷ after) before → Answer before after (some r)
  done : before ≡ [] → after ≡ [] → Answer before after none

-- A strategy is a set of waiting requests: AddRequest adds to it, NextRequest takes one out, and
-- Pending lists it.
pub record LawfulStrategy {S : Type 0} (strategy : SchedulingStrategy S) : Type 1 where
  pub Good : S → Type 0
  pub waiting : S → List Request
  pub distinct : (s : S) → Good s → Distinct (waiting s)
  pub adds :
      (s : S) (r : Request)
      → Good s
      → Returns
          (λ s'. Good s' × Perm (waiting s') (insert r (waiting s)))
          (strategy.add_request s r)
  pub nexts :
      (s : S) (current : ElevatorState)
      → Good s
      → Returns
          (λ (o, s'). Good s' × Answer (waiting s) (waiting s') o)
          (strategy.next_request s current)
  pub lists : (s : S) → Good s → Perm (strategy.pending s) (waiting s)
