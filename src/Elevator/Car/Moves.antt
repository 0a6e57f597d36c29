-- ===== src/Elevator/Car/Moves.antt =====
-- What moveTo of Elevator_System/elevator.go publishes on its way, and where it ends.
use low_level_design_in_go.Base.{
  ℕ, zero, suc, ◌+◌, ◌≤◌, ◌≡◌, refl, ◌⊎◌, inl, inr, Bool, false, [], ◌∷◌, ◌++◌, arith, ltb,
  if_cases, Bool-cases, min, max, All, All-append,
}
use low_level_design_in_go.Elevator.{
  Direction, up, down, idle, door_open, door_closed, ElevatorState,
}
use low_level_design_in_go.Elevator.Car.{
  Trip, publish, moved_by, drive, heading, distance, doors, move_to,
}

-- `n` steps in direction `d` lead from `floor` to `to`.
abbrev pub Toward : Direction → ℕ → ℕ → ℕ → Type 0
Toward up floor n to = floor + n ≡ to
Toward down floor n to = floor ≡ to + n
Toward idle floor n to = (floor ≡ to) × (n ≡ 0)

-- A state that passengers may see on a trip to `to` between floors `lo` and `hi`: the doors are
-- closed, or the car stands idle at `to`.
abbrev pub IsSafe : ℕ → ℕ → ℕ → ElevatorState → Type 0
IsSafe lo hi to s =
    (lo ≤ s.current_floor)
    × (s.current_floor ≤ hi)
    × ((s.door_state ≡ door_closed) ⊎ ((s.current_floor ≡ to) × (s.direction ≡ idle)))

-- A trip on its way: every state so far was safe, and the doors are closed.
pub record OnWay (lo hi to : ℕ) (e : ElevatorState) (d : Direction) (t : Trip) : Type 0 where
  pub safe : All (IsSafe lo hi to) t.trace
  pub within : (lo ≤ t.final.current_floor) × (t.final.current_floor ≤ hi)
  pub shut : t.final.door_state ≡ door_closed
  pub same : (t.final.id ≡ e.id) × (t.final.pending ≡ e.pending)
  pub heads : t.final.direction ≡ d

module _ (lo hi to : ℕ) (e : ElevatorState) (low : lo ≤ to) (high : to ≤ hi) where
  publish-OnWay :
      (d : Direction) (t : Trip) (floor : ℕ)
      → OnWay lo hi to e d t
      → lo ≤ floor
      → floor ≤ hi
      → OnWay lo hi to e d (publish t (record t.final { current_floor = floor }))
  publish-OnWay d t floor w l h = record {
    safe = All-append (IsSafe lo hi to) t.trace _ w.safe ((l, h, inl w.shut), tt);
    within = (l, h);
    shut = w.shut;
    same = w.same;
    heads = w.heads;
  }

  drive-OnWay :
      (n wait : ℕ) (closed : ℕ → Bool) (d : Direction) (t : Trip)
      → OnWay lo hi to e d t
      → Toward d t.final.current_floor n to
      → let r = drive n wait closed d t in
        OnWay lo hi to e d r.1 × ((r.0 ≡ false) → r.1.final.current_floor ≡ to)
  unfolding drive
  drive-OnWay zero wait closed d t w toward = (w, λ _. arrived d toward)
    where
      arrived : (d : Direction) → Toward d t.final.current_floor 0 to → t.final.current_floor ≡ to
      arrived up h = omega arith
      arrived down h = omega arith
      arrived idle h = h.0
  drive-OnWay (suc n) wait closed d t w toward =
      let floor = moved_by d t.final.current_floor in
      let (on, within) = onward d t.final.current_floor w.within toward in
      if_cases
        (λ (r : Bool × Trip).
          OnWay lo hi to e d r.1 × ((r.0 ≡ false) → r.1.final.current_floor ≡ to))
        (closed wait) (λ _. (w, λ no_stop. cc))
        (λ _. drive-OnWay n (wait + 1) closed d _ (publish-OnWay d t floor w within.0 within.1) on)
    where
      onward :
          (d : Direction) (floor : ℕ)
          → (lo ≤ floor) × (floor ≤ hi)
          → Toward d floor (suc n) to
          → Toward d (moved_by d floor) n to × ((lo ≤ moved_by d floor) × (moved_by d floor ≤ hi))
      onward up floor h q = omega arith
      onward down floor h q = omega arith
      onward idle floor h q = absurd (omega arith)

  doors-IsSafe :
      (wait : ℕ) (closed : ℕ → Bool) (d : Direction) (t : Trip)
      → OnWay lo hi to e d t
      → t.final.current_floor ≡ to
      → All (IsSafe lo hi to) (doors wait closed t).trace
        × ((closed wait ≡ false)
            → (doors wait closed t).final
              ≡ record e { current_floor = to; direction = idle; door_state = door_closed })
  unfolding doors
  doors-IsSafe wait closed d t w there =
      let opened : ElevatorState = record t.final { door_state = door_open; direction = idle } in
      let shut : ElevatorState = record opened { door_state = door_closed } in
      let safe_open =
        All-append (IsSafe lo hi to) t.trace (opened ∷ []) w.safe
          ((w.within.0, w.within.1, inr (there, refl)), tt) in
      let safe_shut =
        All-append (IsSafe lo hi to) (t.trace ++ opened ∷ []) (shut ∷ []) safe_open
          ((w.within.0, w.within.1, inl refl), tt) in
      (
        if_cases (λ (r : Trip). All (IsSafe lo hi to) r.trace) (closed wait) (λ _. safe_open)
            (λ _. safe_shut),
        λ keeps_on. rw keeps_on (ground (arith, there, w.same)),
      )

-- A trip of the car to floor `to`: what passengers see of it, and where it ends.
pub record Moves (closed : ℕ → Bool) (e : ElevatorState) (to : ℕ) (t : Trip) : Type 0 where
  pub safe : All (IsSafe (min e.current_floor to) (max e.current_floor to) to) t.trace
  pub ends :
      ((k : ℕ) → closed k ≡ false)
      → t.final ≡ record e { current_floor = to; direction = idle; door_state = door_closed }

drive-unstopped :
    (n wait : ℕ) (closed : ℕ → Bool) (d : Direction) (t : Trip)
    → ((k : ℕ) → closed k ≡ false)
    → (drive n wait closed d t).0 ≡ false
unfolding drive
drive-unstopped zero wait closed d t never = refl
drive-unstopped (suc n) wait closed d t never =
    rw (never wait) (drive-unstopped n (wait + 1) closed d _ never)

heading-Toward : (from to : ℕ) → Toward (heading from to) from (distance from to) to
unfolding heading distance
heading-Toward from to = elim (Bool-cases (ltb to from)) [
  | inl lower ↦ rw lower (ground arith)
  | inr not_lower ↦ rw not_lower (elim (Bool-cases (ltb from to)) [
    | inl higher ↦ rw higher (ground arith)
    | inr not_higher ↦ rw not_higher (ground arith, ground arith)
  ])
]

-- When moveTo starts with closed doors, every state that it shows lies between the floors at its
-- ends, and shows open doors only at the destination with an idle direction, wherever a shutdown
-- cuts the move short; if the shutdown channel stays open, the car ends at the destination, idle and
-- with closed doors.
pub move_to-Moves :
    (closed : ℕ → Bool) (e : ElevatorState) (to : ℕ)
    → e.door_state ≡ door_closed
    → Moves closed e to (move_to closed e to)
unfolding move_to
move_to-Moves closed e to shut =
    let from = e.current_floor in
    let d = heading from to in
    let n = distance from to in
    let lo = min from to in
    let hi = max from to in
    let start : Trip = publish (record { trace = []; final = e }) (record e { direction = d }) in
    let on_way : OnWay lo hi to e d start = record {
      safe = ((omega arith, omega arith, inl shut), tt);
      within = (omega arith, omega arith);
      shut = shut;
      same = (refl, refl);
      heads = refl;
    } in
    let (w, there) =
      drive-OnWay lo hi to e (omega arith) (omega arith) n 0 closed d start on_way
        (heading-Toward from to) in
    elim (Bool-cases (drive n 0 closed d start).0) [
      | inl stopped ↦
          rw stopped (record {
            safe = w.safe;
            ends = λ never. cc (drive-unstopped n 0 closed d start never);
          })
      | inr arrived ↦
          let (safe, ends) =
            doors-IsSafe lo hi to e (omega arith) (omega arith) n closed d _ w (there arrived) in
          rw arrived (record { safe = safe; ends = λ never. ends (never n) })
    ]
