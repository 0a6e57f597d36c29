-- ===== src/Elevator/Directional/Next.antt =====
-- NextRequest of the Directional strategy in Elevator_System/elevator.go.
use mathlib.Core.List.{perm_middle}
use mathlib.Core.List.Perm
use low_level_design_in_go.Base.{
  ℕ, ◌≤◌, ◌≡◌, refl, sym, ap, subst, ◌∙◌, true, ◌⊎◌, inl, inr, Option, none, some, List, [], ◌∷◌,
  Perm, arith, length, length-perm, has, delete, Distinct, has-perm, delete-perm, delete-Distinct,
  has_self, Every, Every-perm, Every-append, Every-nil, length-append,
}
use low_level_design_in_go.Base.Run.{Returns, Returns-map, Returns-bind}
use low_level_design_in_go.Elevator.{Direction, up, down, Request, ElevatorState}
use low_level_design_in_go.Elevator.Requests.{request_eq}
use low_level_design_in_go.Elevator.Directional.{Directional, next_request}
use low_level_design_in_go.Elevator.Directional.Rebucket.{
  contents, Above, Below, Rebucketed, rebucket-Rebucketed,
}
use low_level_design_in_go.Elevator.Directional.Invariant.{IsValid}
use low_level_design_in_go.Elevator.Directional.Choose.{
  UpServed, DownServed, Chosen, served_up, served_down, nothing, choose-Chosen,
}

-- How NextRequest answers for a car at `floor`: it moves the requests to their sides of the car, to
-- `sorted_out`, and chooses there.
pub record Answered (s : Directional) (floor : ℕ) (a : Option Request × Directional) : Type 0 where
  pub sorted_out : Directional
  pub sides : Rebucketed floor s sorted_out
  pub chosen : Chosen sorted_out a

pub next_request-Answered :
    (s : Directional) (current : ElevatorState)
    → IsValid s
    → Returns (Answered s current.current_floor) (next_request s current)
unfolding next_request
next_request-Answered s current v =
    Returns-bind (rebucket-Rebucketed s current.current_floor v.ordered) λ t sides.
      Returns-map
        (choose-Chosen t sides.moved.ordered
          (subst (λ d. (d ≡ up) ⊎ (d ≡ down)) (sym sides.moved.sweep) v.sweeping))
        λ a chosen. record { sorted_out = t; sides = sides; chosen = chosen }

-- Why `r` is the next stop of a car at `floor`, by the sweep after the choice.
pub data IsNext (s : Directional) (floor : ℕ) (r : Request) : Direction → Type 0 where
  rising :
      floor ≤ r.floor
      → Every (λ q. (q.floor ≤ floor) ⊎ (r.floor ≤ q.floor)) (contents s)
      → (s.sweep ≡ up) ⊎ Above floor (contents s)
      → IsNext s floor r up
  falling :
      r.floor ≤ floor
      → Every (λ q. (floor ≤ q.floor) ⊎ (q.floor ≤ r.floor)) (contents s)
      → (s.sweep ≡ down) ⊎ Below floor (contents s)
      → IsNext s floor r down

-- The answer of NextRequest, with what it leaves.
pub data NextSpec (s : Directional) (floor : ℕ) : Option Request × Directional → Type 0 where
  serves :
      {r : Request} {s' : Directional}
      → Perm (r ∷ contents s') (contents s)
      → s'.pending ≡ delete r s.pending
      → IsNext s floor r s'.sweep
      → NextSpec s floor (some r, s')
  rests :
      {s' : Directional}
      → s.pending ≡ []
      → s'.pending ≡ []
      → s'.sweep ≡ s.sweep
      → NextSpec s floor (none, s')

-- A request that was taken out of the heaps, and of the pending set.
taken-kept :
    (s s' : Directional) (r : Request)
    → IsValid s
    → Perm (r ∷ contents s') (contents s)
    → s'.pending ≡ delete r s.pending
    → Perm s'.pending (contents s') × Distinct s'.pending
taken-kept s s' r v same gone =
    let waits : has r s.pending ≡ true =
      has-perm r v.kept ∙ sym (has-perm r same) ∙ has_self r (contents s') in
    (
      Perm.cons_inv {a = r} (
          Perm.trans
            (subst (λ p. Perm (r ∷ p) s.pending) (sym gone)
              (delete-perm r s.pending v.distinct waits))
            (Perm.trans v.kept (Perm.symm same))),
      subst Distinct (sym gone) (delete-Distinct r s.pending v.distinct),
    )

abbrev pub Outcome : Directional → ℕ → Option Request × Directional → Type 0
Outcome s floor (o, s') = IsValid s' × NextSpec s floor (o, s')

module _ (s t s' : Directional) (floor : ℕ) (r : Request) (v : IsValid s)
    (sides : Rebucketed floor s t) where
  -- What holds of every request in its heap holds of every request.
  all_sides :
      (P : Request → Type 0) → Every P t.up_heap → Every P t.down_heap → Every P (contents s)
  all_sides P ups downs =
      Every-perm P (Perm.symm sides.moved.same) (Every-append P t.up_heap t.down_heap ups downs)

  -- A stop taken from the up heap is the lowest that is not below the car.
  Outcome-up :
      (t.sweep ≡ up) ⊎ (length t.down_heap ≡ 0) → UpServed t r s' → Outcome s floor (some r, s')
  Outcome-up why u =
      let same : Perm (r ∷ contents s') (contents s) =
        Perm.trans (rw u.other (Perm.append_right t.down_heap u.rest)) sides.moved.same in
      let gone = u.pending ∙ ap (delete r) sides.moved.pending in
      let (kept, distinct) = taken-kept s s' r v same gone in
      let next : IsNext s floor r up =
        rising (sides.above r (sym (has-perm r u.rest) ∙ has_self r s'.up_heap))
          (all_sides _ (λ q m. inr (u.lowest q m)) (λ q m. inl (sides.below q m)))
          (elim why [
            | inl e ↦ inl (sym sides.moved.sweep ∙ e)
            | inr e ↦ inr (all_sides _ sides.above (Every-nil _ t.down_heap e))
          ]) in
      (
        record { ordered = u.ordered; kept = kept; distinct = distinct; sweeping = inl u.sweep },
        serves same gone (subst (IsNext s floor r) (sym u.sweep) next),
      )

  -- A stop taken from the down heap is the highest that is not above the car.
  Outcome-down :
      (t.sweep ≡ down) ⊎ (length t.up_heap ≡ 0) → DownServed t r s' → Outcome s floor (some r, s')
  Outcome-down why u =
      let same : Perm (r ∷ contents s') (contents s) =
        Perm.trans
          (Perm.trans (Perm.symm (perm_middle s'.up_heap s'.down_heap))
            (rw u.other (Perm.append_left t.up_heap u.rest)))
          sides.moved.same in
      let gone = u.pending ∙ ap (delete r) sides.moved.pending in
      let (kept, distinct) = taken-kept s s' r v same gone in
      let next : IsNext s floor r down =
        falling (sides.below r (sym (has-perm r u.rest) ∙ has_self r s'.down_heap))
          (all_sides _ (λ q m. inl (sides.above q m)) (λ q m. inr (u.highest q m)))
          (elim why [
            | inl e ↦ inl (sym sides.moved.sweep ∙ e)
            | inr e ↦ inr (all_sides _ (Every-nil _ t.up_heap e) sides.below)
          ]) in
      (
        record { ordered = u.ordered; kept = kept; distinct = distinct; sweeping = inr u.sweep },
        serves same gone (subst (IsNext s floor r) (sym u.sweep) next),
      )

nil_of_length : (rs : List Request) → length rs ≡ 0 → rs ≡ []
nil_of_length [] e = refl
nil_of_length (r ∷ rs) e = absurd (omega arith)

-- Nothing waits, so the strategy is left as it was.
Outcome-none :
    (s t s' : Directional) (floor : ℕ)
    → IsValid s
    → Rebucketed floor s t
    → s' ≡ t
    → length t.up_heap ≡ 0
    → length t.down_heap ≡ 0
    → Outcome s floor (none, s')
Outcome-none s t s' floor v sides e no_up no_down = rw e (
  record {
    ordered = sides.moved.ordered;
    kept = rw sides.moved.pending (Perm.trans v.kept (Perm.symm sides.moved.same));
    distinct = rw sides.moved.pending v.distinct;
    sweeping = rw sides.moved.sweep v.sweeping;
  },
  rests empty (sides.moved.pending ∙ empty) sides.moved.sweep,
)
  where
    size : length s.pending ≡ 0
    size = omega (
      arith,
      length-perm v.kept,
      length-perm sides.moved.same,
      length-append t.up_heap t.down_heap,
    )

    empty : s.pending ≡ []
    empty = nil_of_length s.pending size

pub Outcome-of_Chosen :
    (s t : Directional) (floor : ℕ) (a : Option Request × Directional)
    → IsValid s
    → Rebucketed floor s t
    → Chosen t a
    → Outcome s floor a
Outcome-of_Chosen s t floor a v sides (served_up {r} {s'} why u) =
    Outcome-up s t s' floor r v sides why u
Outcome-of_Chosen s t floor a v sides (served_down {r} {s'} why u) =
    Outcome-down s t s' floor r v sides why u
Outcome-of_Chosen s t floor a v sides (nothing {s'} e no_up no_down) =
    Outcome-none s t s' floor v sides e no_up no_down

-- NextRequest returns on a valid Directional strategy, which stays valid. It answers nothing only if
-- nothing is pending. Otherwise it takes out exactly one pending request: with the sweep then up,
-- the lowest that is not below the car, where the sweep was up before or nothing is below the car;
-- with the sweep then down, the highest that is not above the car, where the sweep was down before
-- or nothing is above the car.
pub next_request_serves :
    (s : Directional) (current : ElevatorState)
    → IsValid s
    → Returns (λ a. IsValid a.1 × NextSpec s current.current_floor a) (next_request s current)
next_request_serves s current v =
    Returns-map (next_request-Answered s current v)
      λ a answered. Outcome-of_Chosen s _ current.current_floor a v answered.sides answered.chosen
