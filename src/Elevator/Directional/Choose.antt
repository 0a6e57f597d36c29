-- ===== src/Elevator/Directional/Choose.antt =====
-- The two rounds of NextRequest in Elevator_System/elevator.go.
use low_level_design_in_go.Base.{
  ℕ, suc, ◌<◌, ◌≡◌, refl, sym, subst, true, false, ◌&&◌, ◌⊎◌, inl, inr, Option, none, some, ◌∷◌,
  Perm, arith, ltb, length, delete, has-get_or, Bool-cases,
}
use low_level_design_in_go.Base.Run.{ok, Returns, returns, Returns-map, Returns-bind}
use low_level_design_in_go.ContainerHeap.Removal.{pop-Popped}
use low_level_design_in_go.Elevator.{up, down, Request, direction_eq, opposite}
use low_level_design_in_go.Elevator.Requests.{request_eq, no_request}
use low_level_design_in_go.Elevator.Heaps.{
  min_heap, max_heap, by_floor, by_floor_down, min_heap_lawful, max_heap_lawful,
}
use low_level_design_in_go.Elevator.Directional.{Directional, take, choose}
use low_level_design_in_go.Elevator.Directional.Rebucket.{Ordered, Above, Below}

-- The head of the up heap is taken: the lowest of its requests.
pub record UpServed (s : Directional) (r : Request) (s' : Directional) : Type 0 where
  pub ordered : Ordered s'
  pub rest : Perm (r ∷ s'.up_heap) s.up_heap
  pub other : s'.down_heap ≡ s.down_heap
  pub pending : s'.pending ≡ delete r s.pending
  pub sweep : s'.sweep ≡ up
  pub lowest : Above r.floor s.up_heap

pub record DownServed (s : Directional) (r : Request) (s' : Directional) : Type 0 where
  pub ordered : Ordered s'
  pub rest : Perm (r ∷ s'.down_heap) s.down_heap
  pub other : s'.up_heap ≡ s.up_heap
  pub pending : s'.pending ≡ delete r s.pending
  pub sweep : s'.sweep ≡ down
  pub highest : Below r.floor s.down_heap

-- What NextRequest chooses among requests that stand on their side of the car: on the sweep's side
-- if there is one, else on the other side, with the sweep turned.
pub data Chosen (s : Directional) : Option Request × Directional → Type 0 where
  served_up :
      {r : Request} {s' : Directional}
      → (s.sweep ≡ up) ⊎ (length s.down_heap ≡ 0)
      → UpServed s r s'
      → Chosen s (some r, s')
  served_down :
      {r : Request} {s' : Directional}
      → (s.sweep ≡ down) ⊎ (length s.up_heap ≡ 0)
      → DownServed s r s'
      → Chosen s (some r, s')
  nothing :
      {s' : Directional}
      → s' ≡ s
      → length s.up_heap ≡ 0
      → length s.down_heap ≡ 0
      → Chosen s (none, s')

abbrev turned : Directional → Directional
turned s = record s { sweep = opposite s.sweep }

module _ (rounds : ℕ) (s : Directional) (o : Ordered s) where
  choose-up :
      s.sweep ≡ up
      → 0 < length s.up_heap
      → Returns (λ (q, s'). (r : Request) × (q ≡ some r) × UpServed s r s') (choose (suc rounds) s)
  unfolding choose take
  choose-up rising here =
      let test : (direction_eq s.sweep up && ltb 0 (length s.up_heap)) ≡ true = ground arith in
      rw test (
        Returns-bind (pop-Popped min_heap by_floor no_request min_heap_lawful s.up_heap o.ups here)
          λ (r, u) popped. returns (
            r,
            refl,
            record {
              ordered = record { ups = popped.heaped; downs = o.downs };
              rest = popped.rest;
              other = refl;
              pending = refl;
              sweep = rising;
              lowest = λ q m.
                  let (i, inside, at) = has-get_or q no_request s.up_heap m in
                  ground (arith, popped.first i inside, at);
            },
          ))

  choose-down :
      s.sweep ≡ down
      → 0 < length s.down_heap
      → Returns
          (λ (q, s'). (r : Request) × (q ≡ some r) × DownServed s r s')
          (choose (suc rounds) s)
  unfolding choose take
  choose-down falling here =
      let test : (direction_eq s.sweep up && ltb 0 (length s.up_heap)) ≡ false = ground arith in
      let test' : (direction_eq s.sweep down && ltb 0 (length s.down_heap)) ≡ true = ground arith in
      rw (test, test')
        (Returns-bind
          (pop-Popped max_heap by_floor_down no_request max_heap_lawful s.down_heap o.downs here)
          λ (r, d) popped. returns (
            r,
            refl,
            record {
              ordered = record { ups = o.ups; downs = popped.heaped };
              rest = popped.rest;
              other = refl;
              pending = refl;
              sweep = falling;
              highest = λ q m.
                  let (i, inside, at) = has-get_or q no_request s.down_heap m in
                  ground (arith, popped.first i inside, at);
            },
          ))

  choose_turn_up :
      s.sweep ≡ up → length s.up_heap ≡ 0 → choose (suc rounds) s ≡ choose rounds (turned s)
  unfolding choose
  choose_turn_up rising empty = ground arith

  choose_turn_down :
      s.sweep ≡ down → length s.down_heap ≡ 0 → choose (suc rounds) s ≡ choose rounds (turned s)
  unfolding choose
  choose_turn_down falling empty = ground arith

turn_up : (s : Directional) → s.sweep ≡ up → (turned s).sweep ≡ down
unfolding opposite
turn_up s e = rw e

turn_down : (s : Directional) → s.sweep ≡ down → (turned s).sweep ≡ up
unfolding opposite
turn_down s e = rw e

turned-turned : (s : Directional) → (s.sweep ≡ up) ⊎ (s.sweep ≡ down) → turned (turned s) ≡ s
unfolding opposite
turned-turned s (inl e) = ground arith
turned-turned s (inr e) = ground arith

choose-zero : (s : Directional) → choose 0 s ≡ ok (none, s)
unfolding choose
choose-zero s = refl

-- A choice made after the sweep turned is a choice.
up_after_turn :
    {s : Directional} {q : Option Request} {s' : Directional}
    → (s.sweep ≡ up) ⊎ (length s.down_heap ≡ 0)
    → (r : Request) × (q ≡ some r) × UpServed (turned s) r s'
    → Chosen s (q, s')
up_after_turn {s} {q} {s'} why (r, e, u) =
    subst (λ x. Chosen s (x, s')) (sym e)
      (served_up why (record {
        ordered = u.ordered;
        rest = u.rest;
        other = u.other;
        pending = u.pending;
        sweep = u.sweep;
        lowest = u.lowest;
      }))

down_after_turn :
    {s : Directional} {q : Option Request} {s' : Directional}
    → (s.sweep ≡ down) ⊎ (length s.up_heap ≡ 0)
    → (r : Request) × (q ≡ some r) × DownServed (turned s) r s'
    → Chosen s (q, s')
down_after_turn {s} {q} {s'} why (r, e, u) =
    subst (λ x. Chosen s (x, s')) (sym e)
      (served_down why (record {
        ordered = u.ordered;
        rest = u.rest;
        other = u.other;
        pending = u.pending;
        sweep = u.sweep;
        highest = u.highest;
      }))

Ordered-turned : {s : Directional} → Ordered s → Ordered (turned s)
Ordered-turned o = record { ups = o.ups; downs = o.downs }

pub choose-Chosen :
    (s : Directional)
    → Ordered s
    → (s.sweep ≡ up) ⊎ (s.sweep ≡ down)
    → Returns (Chosen s) (choose 2 s)
choose-Chosen s o (inl rising) = elim (Bool-cases (ltb 0 (length s.up_heap))) [
  | inl here ↦ Returns-map (choose-up 1 s o rising (ground arith)) λ (q, s') (r, e, served).
      subst (λ x. Chosen s (x, s')) (sym e) (served_up (inl rising) served)
  | inr no_up ↦
      rw (choose_turn_up 1 s o rising (ground arith))
        (elim (Bool-cases (ltb 0 (length s.down_heap))) [
          | inl here ↦
              Returns-map
                (choose-down 0 (turned s) (Ordered-turned o) (turn_up s rising) (ground arith))
                λ (q, s') served. down_after_turn (inr (ground arith)) served
          | inr no_down ↦
              rw
                (
                  choose_turn_down 0 (turned s) (Ordered-turned o) (turn_up s rising)
                      (ground arith),
                  choose-zero,
                )
                (returns (nothing (turned-turned s (inl rising)) (ground arith) (ground arith)))
        ])
]
choose-Chosen s o (inr falling) = elim (Bool-cases (ltb 0 (length s.down_heap))) [
  | inl here ↦ Returns-map (choose-down 1 s o falling (ground arith)) λ (q, s') (r, e, served).
      subst (λ x. Chosen s (x, s')) (sym e) (served_down (inl falling) served)
  | inr no_down ↦
      rw (choose_turn_down 1 s o falling (ground arith))
        (elim (Bool-cases (ltb 0 (length s.up_heap))) [
          | inl here ↦
              Returns-map
                (choose-up 0 (turned s) (Ordered-turned o) (turn_down s falling) (ground arith))
                λ (q, s') served. up_after_turn (inr (ground arith)) served
          | inr no_up ↦
              rw
                (
                  choose_turn_up 0 (turned s) (Ordered-turned o) (turn_down s falling)
                      (ground arith),
                  choose-zero,
                )
                (returns (nothing (turned-turned s (inr falling)) (ground arith) (ground arith)))
        ])
]
