-- ===== src/Elevator/Directional/Sweep.antt =====
-- A car that serves the Directional strategy of Elevator_System/elevator.go until nothing waits.
use native.Mathlib.Numerals.{add-one}
use low_level_design_in_go.Base.{
  ℕ, zero, suc, ◌+◌, ◌≤◌, ◌<◌, ◌≡◌, sym, ap, subst, ◌∙◌, Bool, true, false, ◌⊎◌, inl, inr, Option,
  some, List, [], ◌∷◌, Perm, arith, ltb, length, get_or, length-perm, has, has-perm, has_self,
  Every-perm, Every-tail, Every-nil, Bool-cases,
}
use low_level_design_in_go.Base.Run.{ok, index-get_or, Returns, returns, Returns-bind, Returns-inv}
use low_level_design_in_go.Elevator.{up, down, Request, ElevatorState}
use low_level_design_in_go.Elevator.Requests.{request_eq, no_request}
use low_level_design_in_go.Elevator.Directional.{
  Directional, rebucket_up, rebucket_down, rebucket, choose, next_request, directional,
}
use low_level_design_in_go.Elevator.Directional.Rebucket.{Above, Below, Moved-refl, Rebucketed}
use low_level_design_in_go.Elevator.Directional.Invariant.{IsValid}
use low_level_design_in_go.Elevator.Directional.Choose.{
  Chosen, served_up, served_down, nothing, choose-Chosen,
}
use low_level_design_in_go.Elevator.Directional.Next.{next_request-Answered, Outcome-of_Chosen}
use low_level_design_in_go.Elevator.Directional.Listing.{Answer-of_spec}
use low_level_design_in_go.Elevator.Strategy.{Answer, next}
use low_level_design_in_go.Elevator.System.{ElevatorSystem, state, drain}
use low_level_design_in_go.Elevator.System.Drain.{
  NeverClosed, IsParked, after_stop, after_stop-IsParked, drain-next, drain-done,
}

-- Floors that only fall, from `floor` on.
pub data Falls : ℕ → List Request → Type 0 where
  stop : {floor : ℕ} → Falls floor []
  fall :
      {floor : ℕ} {r : Request} {rs : List Request}
      → r.floor ≤ floor
      → Falls r.floor rs
      → Falls floor (r ∷ rs)

-- Floors that first rise, and once they turn only fall.
pub data Sweeps : ℕ → List Request → Type 0 where
  rise :
      {floor : ℕ} {r : Request} {rs : List Request}
      → floor ≤ r.floor
      → Sweeps r.floor rs
      → Sweeps floor (r ∷ rs)
  turn : {floor : ℕ} {rs : List Request} → Falls floor rs → Sweeps floor rs

head-in : (u : List Request) → 0 < length u → has (get_or u 0 no_request) u ≡ true
head-in [] h = elim h [ ]
head-in (r ∷ u) h = has_self r u

rebucket_up-stays :
    (fuel : ℕ) (s : Directional) (floor : ℕ)
    → Above floor s.up_heap
    → rebucket_up (suc fuel) s floor ≡ ok s
unfolding rebucket_up
rebucket_up-stays fuel s floor above = elim (Bool-cases (ltb 0 (length s.up_heap))) [
  | inr empty ↦ rw empty
  | inl here ↦
      let top = get_or s.up_heap 0 no_request in
      let ahead = above top (head-in s.up_heap (ground arith)) in
      let test : ltb top.floor floor ≡ false = ground arith in
      rw (here, index-get_or s.up_heap 0 no_request (ground arith), test)
]

rebucket_down-stays :
    (fuel : ℕ) (s : Directional) (floor : ℕ)
    → Below floor s.down_heap
    → rebucket_down (suc fuel) s floor ≡ ok s
unfolding rebucket_down
rebucket_down-stays fuel s floor below = elim (Bool-cases (ltb 0 (length s.down_heap))) [
  | inr empty ↦ rw empty
  | inl here ↦
      let top = get_or s.down_heap 0 no_request in
      let ahead = below top (head-in s.down_heap (ground arith)) in
      let test : ltb floor top.floor ≡ false = ground arith in
      rw (here, index-get_or s.down_heap 0 no_request (ground arith), test)
]

-- Requests on their sides of the car stay where they are.
next_request-stays :
    (s : Directional) (current : ElevatorState)
    → Above current.current_floor s.up_heap
    → Below current.current_floor s.down_heap
    → next_request s current ≡ choose 2 s
unfolding next_request rebucket
next_request-stays s current above below = rw (
  add-one (length s.up_heap),
  rebucket_up-stays (length s.up_heap) s current.current_floor above,
  add-one (length s.down_heap),
  rebucket_down-stays (length s.down_heap) s current.current_floor below,
)

fewer :
    {before after : List Request} {r : Request}
    → Answer before after (some r)
    → length after < length before
fewer (next taken) = omega (arith, length-perm taken)

-- The facts about a choice that each round uses.
Chosen-IsValid :
    (s t s' : Directional) (floor : ℕ) (r : Request)
    → IsValid s
    → Rebucketed floor s t
    → Chosen t (some r, s')
    → IsValid s' × (length s'.pending < length s.pending)
Chosen-IsValid s t s' floor r v sides chosen =
    let (v', spec) = Outcome-of_Chosen s t floor (some r, s') v sides chosen in
    (v', fewer (Answer-of_spec s floor (some r, s') v spec))

nothing_taken : {r : Request} (us vs : List Request) → Perm (r ∷ us) vs → length vs ≡ 0 → ⊥
nothing_taken us vs p e = omega (arith, length-perm p)

-- Once the up heap is empty, a car on its way down only goes down.
drain-Falls :
    (fuel : ℕ) (closed : ℕ → ℕ → Bool) (e : ElevatorSystem Directional)
    → NeverClosed closed
    → IsParked e.elevator
    → IsValid e.strategy
    → e.strategy.sweep ≡ down
    → length e.strategy.up_heap ≡ 0
    → Below e.elevator.current_floor e.strategy.down_heap
    → length e.strategy.pending < fuel
    → Returns (λ a. Falls e.elevator.current_floor a.0) (drain directional fuel closed e)
unfolding state
drain-Falls zero closed e never parked v falling no_up below f = absurd (omega arith)
drain-Falls (suc fuel) closed e never parked v falling no_up below f =
    let (a, chose, chosen) = Returns-inv (choose-Chosen e.strategy v.ordered v.sweeping) in
    go a (next_request-stays e.strategy (state directional e) above below ∙ chose) chosen
      (drain-Falls fuel (λ k. closed (k + 1)))
  where
    above : Above e.elevator.current_floor e.strategy.up_heap
    above = Every-nil _ e.strategy.up_heap no_up

    sides : Rebucketed e.elevator.current_floor e.strategy e.strategy
    sides = record { moved = Moved-refl v.ordered; above = above; below = below }

    go :
        (a : Option Request × Directional)
        → next_request e.strategy (state directional e) ≡ ok a
        → Chosen e.strategy a
        → ((e : ElevatorSystem Directional)
            → NeverClosed (λ k. closed (k + 1))
            → IsParked e.elevator
            → IsValid e.strategy
            → e.strategy.sweep ≡ down
            → length e.strategy.up_heap ≡ 0
            → Below e.elevator.current_floor e.strategy.down_heap
            → length e.strategy.pending < fuel
            → Returns
                (λ a. Falls e.elevator.current_floor a.0)
                (drain directional fuel (λ k. closed (k + 1)) e))
        → Returns (λ a. Falls e.elevator.current_floor a.0) (drain directional (suc fuel) closed e)
    go a q (nothing {s'} _ _ _) ih = rw (drain-done directional fuel closed e s' q) (returns stop)
    go a q (served_up why u) ih = absurd (nothing_taken _ _ u.rest no_up)
    go a q (served_down {r} {s'} why u) ih =
        let (v', less) =
          Chosen-IsValid e.strategy e.strategy s' e.elevator.current_floor r v sides
            (served_down why u) in
        let (parked', there) = after_stop-IsParked closed e r s' never parked in
        rw (drain-next directional fuel closed e r s' q) (
          Returns-bind
            (ih (after_stop closed e r s') (λ k. never (k + 1)) parked' v' u.sweep
              (ap length u.other ∙ no_up)
              (rw there (Every-tail _ r s'.down_heap (Every-perm _ u.rest u.highest)))
              (omega arith))
            λ b falls. returns (
              fall (below r (sym (has-perm r u.rest) ∙ has_self r s'.down_heap))
                (subst (λ floor. Falls floor b.0) there falls)))

-- With the Directional strategy in a valid state and its sweep up, a parked car, a shutdown channel
-- that stays open, and more fuel than pending requests, a turn of the processor is one sweep: the
-- floors it serves first rise, from the car's floor on, and from the turn on they only fall.
pub drain-Sweeps :
    (fuel : ℕ) (closed : ℕ → ℕ → Bool) (e : ElevatorSystem Directional)
    → NeverClosed closed
    → IsParked e.elevator
    → IsValid e.strategy
    → e.strategy.sweep ≡ up
    → length e.strategy.pending < fuel
    → Returns (λ a. Sweeps e.elevator.current_floor a.0) (drain directional fuel closed e)
unfolding state
drain-Sweeps zero closed e never parked v rising f = absurd (omega arith)
drain-Sweeps (suc fuel) closed e never parked v rising f =
    let (a, answers, answered) =
      Returns-inv (next_request-Answered e.strategy (state directional e) v) in
    go a answers answered.sorted_out answered.sides answered.chosen
      (drain-Sweeps fuel (λ k. closed (k + 1)))
  where
    go :
        (a : Option Request × Directional)
        → next_request e.strategy (state directional e) ≡ ok a
        → (t : Directional) → Rebucketed e.elevator.current_floor e.strategy t
        → Chosen t a
        → ((e : ElevatorSystem Directional)
            → NeverClosed (λ k. closed (k + 1))
            → IsParked e.elevator
            → IsValid e.strategy
            → e.strategy.sweep ≡ up
            → length e.strategy.pending < fuel
            → Returns
                (λ a. Sweeps e.elevator.current_floor a.0)
                (drain directional fuel (λ k. closed (k + 1)) e))
        → Returns (λ a. Sweeps e.elevator.current_floor a.0) (drain directional (suc fuel) closed e)
    go a q t sides (nothing {s'} _ _ _) ih =
        rw (drain-done directional fuel closed e s' q) (returns (turn stop))
    go a q t sides (served_up {r} {s'} why u) ih =
        let (v', less) =
          Chosen-IsValid e.strategy t s' e.elevator.current_floor r v sides (served_up why u) in
        let (parked', there) = after_stop-IsParked closed e r s' never parked in
        rw (drain-next directional fuel closed e r s' q) (
          Returns-bind
            (ih (after_stop closed e r s') (λ k. never (k + 1)) parked' v' u.sweep (omega arith))
            λ b sweeps. returns (
              rise (sides.above r (sym (has-perm r u.rest) ∙ has_self r s'.up_heap))
                (subst (λ floor. Sweeps floor b.0) there sweeps)))
    go a q t sides (served_down {r} {s'} why u) ih =
        let (v', less) =
          Chosen-IsValid e.strategy t s' e.elevator.current_floor r v sides (served_down why u) in
        let (parked', there) = after_stop-IsParked closed e r s' never parked in
        rw (drain-next directional fuel closed e r s' q) (
          Returns-bind
            (drain-Falls fuel (λ k. closed (k + 1)) (after_stop closed e r s') (λ k. never (k + 1))
              parked' v' u.sweep (ap length u.other ∙ no_up why)
              (rw there (Every-tail _ r s'.down_heap (Every-perm _ u.rest u.highest)))
              (omega arith))
            λ b falls. returns (
              turn (
                fall (sides.below r (sym (has-perm r u.rest) ∙ has_self r s'.down_heap))
                  (subst (λ floor. Falls floor b.0) there falls))))
      where
        no_up : (t.sweep ≡ down) ⊎ (length t.up_heap ≡ 0) → length t.up_heap ≡ 0
        no_up (inl e') = absurd (ground (arith, sides.moved.sweep, rising, e'))
        no_up (inr e') = e'
