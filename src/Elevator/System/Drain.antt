-- ===== src/Elevator/System/Drain.antt =====
-- One turn of `processor` in Elevator_System/elevator.go, over any lawful strategy.
use mathlib.Core.List.Perm
use low_level_design_in_go.Base.{
  ℕ, zero, suc, ◌+◌, ◌<◌, ◌≡◌, refl, ap, ◌∙◌, Bool, false, Option, none, some, List, [], ◌∷◌, Perm,
  arith, length, length-perm,
}
use low_level_design_in_go.Base.Run.{ok, ◌>>=◌, Returns, returns, Returns-bind}
use low_level_design_in_go.Elevator.{idle, door_closed, Request, ElevatorState, SchedulingStrategy}
use low_level_design_in_go.Elevator.Strategy.{Answer, next, done, LawfulStrategy}
use low_level_design_in_go.Elevator.Car.{move_to}
use low_level_design_in_go.Elevator.Car.Moves.{move_to-Moves}
use low_level_design_in_go.Elevator.System.{ElevatorSystem, state, drain}

-- The floor where the last request leaves the car.
abbrev pub last_floor : ℕ → List Request → ℕ
last_floor floor [] = floor
last_floor floor (r ∷ rs) = last_floor r.floor rs

-- The channel stays open during every wait of every move.
abbrev pub NeverClosed : (ℕ → ℕ → Bool) → Type 0
NeverClosed closed = (k j : ℕ) → closed k j ≡ false

-- The car stands with closed doors.
abbrev pub IsParked : ElevatorState → Type 0
IsParked s = (s.direction ≡ idle) × (s.door_state ≡ door_closed)

abbrev pub after_stop :
    {S : Type 0} → (ℕ → ℕ → Bool) → ElevatorSystem S → Request → S → ElevatorSystem S
after_stop closed e r s = record e {
  strategy = s;
  elevator = (move_to (closed 0) e.elevator r.floor).final;
}

-- One round of the loop, by the answer of NextRequest.
module _ {S : Type 0} (strategy : SchedulingStrategy S) (fuel : ℕ) (closed : ℕ → ℕ → Bool)
    (e : ElevatorSystem S) where
  pub drain-next :
      (r : Request) (s : S)
      → strategy.next_request e.strategy (state strategy e) ≡ ok (some r, s)
      → drain strategy (suc fuel) closed e ≡ (
          drain strategy fuel (λ k. closed (k + 1)) (after_stop closed e r s) >>= λ (served, e').
          ok (r ∷ served, e'))
  unfolding drain
  drain-next r s q = rw q

  pub drain-done :
      (s : S)
      → strategy.next_request e.strategy (state strategy e) ≡ ok (none, s)
      → drain strategy (suc fuel) closed e ≡ ok ([], record e { strategy = s })
  unfolding drain
  drain-done s q = rw q

-- A stop without a shutdown leaves the car parked at the floor of the request.
pub after_stop-IsParked :
    {S : Type 0} (closed : ℕ → ℕ → Bool) (e : ElevatorSystem S) (r : Request) (s : S)
    → NeverClosed closed
    → IsParked e.elevator
    → IsParked (after_stop closed e r s).elevator
      × ((after_stop closed e r s).elevator.current_floor ≡ r.floor)
after_stop-IsParked closed e r s never (still, shut) =
    let there = (move_to-Moves (closed 0) e.elevator r.floor shut).ends (never 0) in
    (rw there (refl, refl), rw there refl)

module _ {S : Type 0} (strategy : SchedulingStrategy S) (L : LawfulStrategy strategy) where
  open L use {Good, waiting}

  -- What a turn of the processor does: each waiting request is served once, and without a shutdown
  -- a parked car is parked again, at the floor of the last request.
  pub record Drained (closed : ℕ → ℕ → Bool) (e : ElevatorSystem S)
      (a : List Request × ElevatorSystem S) : Type 0 where
    pub served : Perm a.0 (waiting e.strategy)
    pub empty : waiting a.1.strategy ≡ []
    pub good : Good a.1.strategy
    pub parks :
        NeverClosed closed
        → IsParked e.elevator
        → a.1.elevator
          ≡ record e.elevator { current_floor = last_floor e.elevator.current_floor a.0 }

  -- Over any lawful strategy in a good state, with more fuel than waiting requests, a turn of the
  -- processor ends and serves every waiting request exactly once, leaving none, whether or not a
  -- shutdown cuts its moves short; if the shutdown channel stays open and the car is parked, the car
  -- is parked again at the end, at the floor of the last request.
  pub drain-Drained :
      (fuel : ℕ) (closed : ℕ → ℕ → Bool) (e : ElevatorSystem S)
      → Good e.strategy
      → length (waiting e.strategy) < fuel
      → Returns (Drained closed e) (drain strategy fuel closed e)
  unfolding drain
  drain-Drained zero closed e good f = absurd (omega arith)
  drain-Drained (suc fuel) closed e good f =
      Returns-bind (L.nexts e.strategy (state strategy e) good)
        λ (o, s) (good', answer). go o s good' answer (drain-Drained fuel)
    where
      after : Request → S → ElevatorSystem S
      after r s = record e {
        strategy = s;
        elevator = (move_to (closed 0) e.elevator r.floor).final;
      }

      go :
          (o : Option Request) (s : S)
          → Good s
          → Answer (waiting e.strategy) (waiting s) o
          → ((closed : ℕ → ℕ → Bool) (e : ElevatorSystem S)
              → Good e.strategy
              → length (waiting e.strategy) < fuel
              → Returns (Drained closed e) (drain strategy fuel closed e))
          → Returns (Drained closed e) (elim o [
            | none ↦ ok ([], record e { strategy = s })
            | some r ↦ drain strategy fuel (λ k. closed (k + 1)) (after r s) >>= λ (served, e').
                ok (r ∷ served, e')
          ])
      go none s good' (done before left) ih = returns (record {
        served = rw before (Perm.refl []);
        empty = left;
        good = good';
        parks = λ never parked. refl;
      })
      go (some r) s good' (next taken) ih =
          Returns-bind
            (ih (λ k. closed (k + 1)) (after r s) good' (omega (arith, length-perm taken)))
            λ a d. returns (record {
              served = Perm.trans (Perm.cons r d.served) taken;
              empty = d.empty;
              good = d.good;
              parks = λ never (still, shut).
                  let there = (move_to-Moves (closed 0) e.elevator r.floor shut).ends (never 0) in
                  let home : IsParked (after r s).elevator = rw there (refl, refl) in
                  d.parks (λ k. never (k + 1)) home
                  ∙ ap
                      (λ (t : ElevatorState). record t {
                        current_floor = last_floor t.current_floor a.0;
                      })
                      there
                  ∙ ground (arith, still, shut);
            })
