-- ===== src/Parking/Plans/Loops.antt =====
-- The inner loops of Parking_Management/parking_rearrangement, one by one.
use low_level_design_in_go.Base.{
  ℕ, zero, suc, ◌+◌, ◌-◌, ◌≤◌, ◌<◌, ◌≡◌, sym, ap, subst, ◌∙◌, inl, inr, true, Option, none, some,
  List, [], ◌∷◌, ltb, leb, ◌==◌, if◌then◌else◌, if_cases, Bool-cases, length, get_or, arith,
}
use low_level_design_in_go.Base.Run.{ok, ◌>>=◌, index, index-get_or, Returns, returns, Returns-if}
use low_level_design_in_go.Parking.{Floor}
use low_level_design_in_go.Parking.Choices.{no_floor}
use low_level_design_in_go.Parking.Plans.{least_used, first_unused, best_fit}
use low_level_design_in_go.Parking.Plans.Placed.{capacity_at}
use low_level_design_in_go.Parking.Plans.Choosers.{
  HasRoom, Picked, nothing, picked, skip_last, keep_last, first_last, take_last,
}

-- `rest` are the floors from floor `i` on.
record From (floors rest : List Floor) (i : ℕ) : Type 0 where
  here : (k : ℕ) → get_or rest k no_floor ≡ get_or floors (i + k) no_floor
  size : i + length rest ≡ length floors

From-tail :
    (floors rest : List Floor) (i : ℕ) (floor : Floor)
    → From floors (floor ∷ rest) i
    → From floors rest (i + 1)
From-tail floors rest i floor F = record {
  here = λ k. F.here (suc k) ∙ ap (λ j. get_or floors j no_floor) (omega arith);
  size = omega (arith, F.size);
}

From-all : (floors : List Floor) → From floors floors 0
From-all floors = record {
  here = λ k. ap (λ j. get_or floors j no_floor) (omega arith);
  size = omega arith;
}

From-head :
    (floors rest : List Floor) (i : ℕ) (floor : Floor)
    → From floors (floor ∷ rest) i
    → (capacity_at floors i ≡ floor.capacity) × (i < length floors)
From-head floors rest i floor F = (
  ap (λ (f : Floor). f.capacity)
      (ap (λ j. get_or floors j no_floor) (omega arith) ∙ sym (F.here 0)),
  omega (arith, F.size),
)

module _ (floors : List Floor) (used_space : List ℕ) (space : ℕ)
    (sized : length used_space ≡ length floors) where
  -- A floor over another, for LoadBalancedRearrangement: it is not used more.
  abbrev pub LessUsed : ℕ → ℕ → Type 0
  LessUsed i j = get_or used_space i 0 ≤ get_or used_space j 0

  least_used-From :
      (rest : List Floor) (i : ℕ) (selected : Option ℕ)
      → From floors rest i
      → Picked LessUsed floors used_space space 0 i selected
      → Returns
          (Picked LessUsed floors used_space space 0 (length floors))
          (least_used space rest used_space i selected)
  unfolding least_used
  least_used-From [] i selected F p = returns (
      subst (λ hi. Picked LessUsed floors used_space space 0 hi selected) (omega (arith, F.size)) p)
  least_used-From (floor ∷ rest) i selected F p =
      let (cap, low) = From-head floors rest i floor F in
      rw (index-get_or used_space i 0 (omega arith))
        (elim (Bool-cases (ltb floor.capacity (get_or used_space i 0 + space))) [
          | inl full ↦ rw full (
              least_used-From rest (i + 1) selected (From-tail floors rest i floor F)
                (skip_last floors used_space space 0 i (λ room. absurd (ground arith)) p))
          | inr room ↦ rw room (
              go selected p (ground arith) (λ selected'.
                least_used-From rest (i + 1) selected' (From-tail floors rest i floor F)))
        ])
    where
      go :
          (selected : Option ℕ)
          → Picked LessUsed floors used_space space 0 i selected
          → HasRoom floors used_space space i
          → ((selected' : Option ℕ)
              → Picked LessUsed floors used_space space 0 (i + 1) selected'
              → Returns
                  (Picked LessUsed floors used_space space 0 (length floors))
                  (least_used space rest used_space (i + 1) selected'))
          → Returns (Picked LessUsed floors used_space space 0 (length floors)) (
              (elim selected [
                | none ↦ ok (some i)
                | some s ↦ index used_space s >>= λ least.
                    ok (if ltb (get_or used_space i 0) least then some i else some s)
              ])
              >>= λ selected'. least_used space rest used_space (i + 1) selected')
      go none p room loop =
          loop (some i) (first_last floors used_space space 0 i (omega arith) room (omega arith) p)
      go (some s) p room loop = rw (index-get_or used_space s 0 (inside p)) (
          loop _ (
            if_cases (Picked LessUsed floors used_space space 0 (i + 1))
              (ltb (get_or used_space i 0) (get_or used_space s 0))
              (λ less.
                take_last floors used_space space 0 i s (omega arith) room (omega arith)
                  (λ j h. ground arith) p)
              (λ not_less. keep_last floors used_space space 0 i s (ground arith) p)))
        where
          inside : Picked LessUsed floors used_space space 0 i (some s) → s < length used_space
          inside (picked _ high _ _) = omega (arith, (From-head floors rest i floor F).1)

  pub least_used-Picked :
      Returns
        (Picked LessUsed floors used_space space 0 (length floors))
        (least_used space floors used_space 0 none)
  least_used-Picked =
      least_used-From floors 0 none (From-all floors) (nothing λ j low high _. omega arith)

  -- A floor over another, for CompactionBalancedRearrangement: it has no more space left.
  abbrev pub left_at : ℕ → ℕ
  left_at i = capacity_at floors i - get_or used_space i 0 - space

  abbrev pub Tighter : ℕ → ℕ → Type 0
  Tighter i j = left_at i ≤ left_at j

  abbrev floor_of : Option (ℕ × ℕ) → Option ℕ
  floor_of none = none
  floor_of (some (i, left)) = some i

  abbrev IsLeft : Option (ℕ × ℕ) → Type 0
  IsLeft none = Unit
  IsLeft (some (i, left)) = left ≡ left_at i

  best_fit-From :
      (rest : List Floor) (i : ℕ) (best : Option (ℕ × ℕ))
      → From floors rest i
      → IsLeft best
      → Picked Tighter floors used_space space 0 i (floor_of best)
      → Returns
          (Picked Tighter floors used_space space 0 (length floors))
          (best_fit space rest used_space i best)
  unfolding best_fit
  best_fit-From [] i none F l p =
      returns
        (subst (λ hi. Picked Tighter floors used_space space 0 hi none) (omega (arith, F.size)) p)
  best_fit-From [] i (some (s, left)) F l p =
      returns (
        subst (λ hi. Picked Tighter floors used_space space 0 hi (some s)) (omega (arith, F.size))
          p)
  best_fit-From (floor ∷ rest) i best F l p =
      let (cap, low) = From-head floors rest i floor F in
      rw (index-get_or used_space i 0 (omega arith))
        (elim (Bool-cases (leb (get_or used_space i 0 + space) floor.capacity)) [
          | inr full ↦ rw full (
              best_fit-From rest (i + 1) best (From-tail floors rest i floor F) l
                (skip_last floors used_space space 0 i (λ room. absurd (ground arith)) p))
          | inl room ↦ rw room (
              go best l p (ground arith)
                (λ best'. best_fit-From rest (i + 1) best' (From-tail floors rest i floor F)))
        ])
    where
      go :
          (best : Option (ℕ × ℕ))
          → IsLeft best
          → Picked Tighter floors used_space space 0 i (floor_of best)
          → HasRoom floors used_space space i
          → ((best' : Option (ℕ × ℕ))
              → IsLeft best'
              → Picked Tighter floors used_space space 0 (i + 1) (floor_of best')
              → Returns
                  (Picked Tighter floors used_space space 0 (length floors))
                  (best_fit space rest used_space (i + 1) best'))
          → let left = floor.capacity - get_or used_space i 0 - space in
            Returns (Picked Tighter floors used_space space 0 (length floors)) (
              best_fit space rest used_space (i + 1) (
                if elim best [ none ↦ true | some (f, least) ↦ ltb left least ]
                then some (i, left)
                else best))
      go none l p room loop =
          loop (some (i, _))
            (ap (λ c. c - get_or used_space i 0 - space) (sym (From-head floors rest i floor F).0))
            (first_last floors used_space space 0 i (omega arith) room (omega arith) p)
      go (some (s, least)) l p room loop =
          let left = floor.capacity - get_or used_space i 0 - space in
          let here : left ≡ left_at i =
            ap (λ c. c - get_or used_space i 0 - space) (sym (From-head floors rest i floor F).0) in
          if_cases
            (λ best'.
              Returns (Picked Tighter floors used_space space 0 (length floors))
                (best_fit space rest used_space (i + 1) best'))
            (ltb left least)
            (λ less. loop (some (i, left)) here (
              take_last floors used_space space 0 i s (omega arith) room (omega arith)
                (λ j h. ground (arith, here, l)) p))
            (λ not_less.
              loop (some (s, least)) l
                (keep_last floors used_space space 0 i s (ground (arith, here, l)) p))

  pub best_fit-Picked :
      Returns
        (Picked Tighter floors used_space space 0 (length floors))
        (best_fit space floors used_space 0 none)
  best_fit-Picked =
      best_fit-From floors 0 none (From-all floors) tt (nothing λ j low high _. omega arith)

  -- The first floor with room, for ZoneBalancedRearrangement.
  first_unused-from :
      (lo n i : ℕ)
      → lo ≤ i
      → i + n ≤ length floors
      → ((j : ℕ) → lo ≤ j → j < i → HasRoom floors used_space space j → ⊥)
      → Returns
          (Picked (λ a b. a ≤ b) floors used_space space lo (i + n))
          (first_unused space floors used_space n i)
  unfolding first_unused
  first_unused-from lo zero i low inside full =
      returns (nothing λ j low' high. full j low' (omega arith))
  first_unused-from lo (suc n) i low inside full =
      rw (index-get_or used_space i 0 (omega arith), index-get_or floors i no_floor (omega arith))
        (Returns-if (ltb (capacity_at floors i) (get_or used_space i 0 + space))
          (λ no_room.
            subst
              (λ hi.
                Returns (Picked (λ a b. a ≤ b) floors used_space space lo hi)
                  (first_unused space floors used_space n (i + 1)))
              (omega arith)
              (first_unused-from lo n (i + 1) (omega arith) (omega arith) λ j low' high.
                elim (Bool-cases (j == i)) [
                  | inl last ↦ λ room. absurd (ground arith)
                  | inr inner ↦ full j low' (ground arith)
                ]))
          (λ room. returns (
            picked low (omega arith) (ground arith) λ j low' high fits.
              elim (Bool-cases (ltb j i)) [
                | inl earlier ↦ absurd (full j low' (ground arith) fits)
                | inr later ↦ ground arith
              ])))

  pub first_unused-Picked :
      (lo hi : ℕ)
      → hi ≤ length floors
      → Returns
          (Picked (λ a b. a ≤ b) floors used_space space lo hi)
          (first_unused space floors used_space (hi - lo) lo)
  unfolding first_unused
  first_unused-Picked lo hi inside = elim (Bool-cases (leb lo hi)) [
    | inl some_floors ↦
        let span : lo + (hi - lo) ≡ hi = ground arith in
        subst
          (λ top.
            Returns (Picked (λ a b. a ≤ b) floors used_space space lo top)
              (first_unused space floors used_space (hi - lo) lo))
          span
          (first_unused-from lo (hi - lo) lo (omega arith) (omega arith)
            λ j low high _. omega arith)
    | inr empty ↦
        let none_at_all : hi - lo ≡ 0 = ground arith in
        rw none_at_all (returns (nothing λ j low high _. ground arith))
  ]
