-- ===== src/Parking/Plans/Placed.antt =====
-- What the loop of the PlanRearrangement methods of Parking_Management/parking_rearrangement does.
use mathlib.Core.List.{append_assoc, append-nil}
use low_level_design_in_go.Base.{
  ℕ, ◌+◌, ◌≤◌, ◌<◌, ◌≡◌, refl, sym, ap, subst, ◌∙◌, inl, inr, false, Option, none, some, List, [],
  ◌∷◌, ◌++◌, map, ◌==◌, if◌then◌else◌, if_cases, Bool-cases, length, set, length-set, get_or,
  get_or-set, All, arith,
}
use low_level_design_in_go.Base.Run.{
  Run, ok, ◌>>=◌, index-get_or, Returns, returns, Returns-map, Returns-inv,
}
use low_level_design_in_go.Parking.{Floor, ParkingRecord, VehicleMove}
use low_level_design_in_go.Parking.Choices.{no_floor}
use low_level_design_in_go.Parking.Plans.{
  Plan, space_of, move_of, skipped, placed_at, place_all, to_place,
}

-- Vehicles with their floors in the new layout.
abbrev pub Layout : Type 0
Layout = List (ParkingRecord × ℕ)

abbrev pub vehicles_of : Layout → List ParkingRecord
vehicles_of layout = map (λ (r, floor). r) layout

-- The space that a layout takes on floor `i`.
abbrev pub load : ℕ → Layout → ℕ
load i [] = 0
load i ((r, floor) ∷ rest) = (if floor == i then space_of r else 0) + load i rest

-- The moves that lead to a layout.
abbrev pub moves_to : Layout → List VehicleMove
moves_to [] = []
moves_to ((r, floor) ∷ rest) = move_of r floor ++ moves_to rest

abbrev pub capacity_at : List Floor → ℕ → ℕ
capacity_at floors i = (get_or floors i no_floor).capacity

stays_space : (r : ParkingRecord) → skipped r ≡ false → 0 < space_of r
unfolding skipped
stays_space r e = ground arith

module _ (floors : List Floor) (Allowed : ParkingRecord → ℕ → Type 0) where
  -- A floor chosen for a vehicle has room for it; none is chosen if no allowed floor has room.
  pub data Choice (used_space : List ℕ) (r : ParkingRecord) : Option ℕ → Type 0 where
    full :
        ((i : ℕ)
          → i < length floors
          → Allowed r i
          → capacity_at floors i < get_or used_space i 0 + space_of r)
        → Choice used_space r none
    chosen :
        {i : ℕ}
        → i < length floors
        → Allowed r i
        → get_or used_space i 0 + space_of r ≤ capacity_at floors i
        → Choice used_space r (some i)

  -- Where the loop ends that starts from `plan`: every vehicle has an allowed floor, each floor has
  -- room for its vehicles, and the moves lead there; or the first vehicles are placed so, and the
  -- next finds no room.
  pub data Placed (plan : Plan) (vehicles : List ParkingRecord) : Option Plan → Type 0 where
    placed :
        {plan' : Plan} (layout : Layout)
        → vehicles_of layout ≡ vehicles
        → plan'.moves ≡ plan.moves ++ moves_to layout
        → All (λ (r, floor). (floor < length floors) × Allowed r floor) layout
        → ((i : ℕ)
            → i < length floors
            → get_or plan.used_space i 0 + load i layout ≤ capacity_at floors i)
        → Placed plan vehicles (some plan')
    stuck :
        (layout : Layout) (r : ParkingRecord) (rest : List ParkingRecord)
        → vehicles_of layout ++ r ∷ rest ≡ vehicles
        → All (λ (r, floor). (floor < length floors) × Allowed r floor) layout
        → ((i : ℕ)
            → i < length floors
            → get_or plan.used_space i 0 + load i layout ≤ capacity_at floors i)
        → ((i : ℕ)
            → i < length floors
            → Allowed r i
            → capacity_at floors i < get_or plan.used_space i 0 + load i layout + space_of r)
        → Placed plan vehicles none

  module _ (choose : List ℕ → ParkingRecord → Run (Option ℕ))
      (lawful : (used_space : List ℕ) (r : ParkingRecord)
        → length used_space ≡ length floors
        → 0 < space_of r
        → Returns (Choice used_space r) (choose used_space r)) where
    -- One vehicle is placed first.
    before :
        (plan : Plan) (r : ParkingRecord) (vehicles : List ParkingRecord) (i : ℕ) (o : Option Plan)
        → i < length plan.used_space
        → length plan.used_space ≡ length floors
        → Allowed r i
        → Placed
            (record {
              used_space = set plan.used_space i (get_or plan.used_space i 0 + space_of r);
              moves = plan.moves ++ move_of r i;
            })
            vehicles
            o
        → Placed plan (r ∷ vehicles) o
    before plan r vehicles i _ inside size allowed (placed layout all moved within room) =
        placed ((r, i) ∷ layout) (ap (◌∷◌ r) all)
          (moved ∙ append_assoc plan.moves (move_of r i) (moves_to layout))
          ((rw (sym size) inside, allowed), within)
          (λ j low. ground (
            arith,
            room j low,
            get_or-set plan.used_space i j (get_or plan.used_space i 0 + space_of r) 0 inside,
          ))
    before plan r vehicles i _ inside size allowed (stuck layout s rest all within room no_room) =
        stuck ((r, i) ∷ layout) s rest (ap (◌∷◌ r) all) ((rw (sym size) inside, allowed), within)
          (λ j low. ground (
            arith,
            room j low,
            get_or-set plan.used_space i j (get_or plan.used_space i 0 + space_of r) 0 inside,
          ))
          (λ j low ok_there. ground (
            arith,
            no_room j low ok_there,
            get_or-set plan.used_space i j (get_or plan.used_space i 0 + space_of r) 0 inside,
          ))

    pub place_all-Placed :
        (plan : Plan) (records : List ParkingRecord)
        → length plan.used_space ≡ length floors
        → ((i : ℕ) → i < length floors → get_or plan.used_space i 0 ≤ capacity_at floors i)
        → Returns (Placed plan (to_place records)) (place_all choose plan records)
    unfolding place_all to_place
    place_all-Placed plan [] size fits =
        returns (placed [] refl (sym (append-nil plan.moves)) tt λ i low. omega (arith, fits i low))
    place_all-Placed plan (r ∷ records) size fits = elim (Bool-cases (skipped r)) [
      | inl skip ↦ rw skip (place_all-Placed plan records size fits)
      | inr stays ↦ rw stays (
          let (o, e, choice) = Returns-inv (lawful plan.used_space r size (stays_space r stays)) in
          rw e (go o choice λ plan'. place_all-Placed plan' records))
    ]
      where
        Loop : Type 0
        Loop =
            (plan' : Plan)
            → length plan'.used_space ≡ length floors
            → ((i : ℕ) → i < length floors → get_or plan'.used_space i 0 ≤ capacity_at floors i)
            → Returns (Placed plan' (to_place records)) (place_all choose plan' records)

        go :
            (o : Option ℕ)
            → Choice plan.used_space r o
            → Loop
            → Returns (Placed plan (r ∷ to_place records)) (
                placed_at plan r o >>= λ o'. elim o' [
                  | none ↦ ok none
                  | some plan' ↦ place_all choose plan' records
                ])
        go _ (full no_room) loop = returns (
            stuck [] r (to_place records) refl tt (λ i low. omega (arith, fits i low))
              (λ i low ok_there. omega (arith, no_room i low ok_there)))
        go _ (chosen {i} low allowed room) loop =
            let inside : i < length plan.used_space = omega arith in
            let used' = get_or plan.used_space i 0 + space_of r in
            rw (index-get_or plan.used_space i 0 inside) (
              Returns-map
                (loop
                  (record {
                    used_space = set plan.used_space i used';
                    moves = plan.moves ++ move_of r i;
                  })
                  (length-set plan.used_space i used' ∙ size)
                  (λ j low'. rw (get_or-set plan.used_space i j used' 0 inside) (
                    if_cases (λ u. u ≤ capacity_at floors j) (i == j)
                      (λ same. subst (λ k. used' ≤ capacity_at floors k) (ground arith) room)
                      (λ other_floor. fits j low'))))
                λ o' after. before plan r (to_place records) i o' inside size allowed after)
