-- ===== src/Parking/Lot/Allocations.antt =====
-- The strategies of Parking_Management/parking_strategy as Park of parking.go relies on them.
use low_level_design_in_go.Base.{
  ℕ, ◌≤◌, ◌<◌, ◌≡◌, refl, sym, ap, subst, ◌∙◌, Bool, false, Option, some, List, [], ◌∷◌, ◌++◌, ◌==◌,
  Bool-cases, inl, inr, length, length-append, get_or, arith,
}
use low_level_design_in_go.Base.Run.{Run, ok, Returns, returns, Returns-map}
use low_level_design_in_go.Parking.{Vehicle, Floor, get_vehicle_space}
use low_level_design_in_go.Parking.Zones.{zone_range-inside}
use low_level_design_in_go.Parking.Strategies.{
  nearest_floor, load_balanced, compaction, zone_balanced, decision,
}
use low_level_design_in_go.Parking.Choices.{
  Fits, no_floor, Best, no_room, best, load_balanced-Best, compaction-Best,
}
use low_level_design_in_go.Parking.FirstFits.{
  FirstFit, no_fit, fits, nearest_floor-FirstFit, zone_balanced-FirstFit,
}
use low_level_design_in_go.Parking.Lot.Books.{Allocates, nowhere, on_floor, floor_at}

-- Floors carry their index as their number.
abbrev pub IsNumbered : List Floor → Type 0
IsNumbered floors = (i : ℕ) → i < length floors → (floor_at floors i).number ≡ i

FirstFit-Allocates :
    (vehicle : Vehicle) (floors : List Floor) (lo hi : ℕ) (o : Option ℕ)
    → IsNumbered floors
    → hi ≤ length floors
    → FirstFit (get_vehicle_space vehicle.type) floors lo hi o
    → Allocates vehicle floors o
FirstFit-Allocates vehicle floors lo hi _ numbered within (no_fit unfit) = nowhere
FirstFit-Allocates vehicle floors lo hi _ numbered within (fits i low high room unfit) =
    subst (λ n. Allocates vehicle floors (some n)) (sym (numbered i (omega arith)))
      (on_floor (omega arith) room)

get_or-middle :
    (before after : List Floor) (f : Floor)
    → get_or (before ++ f ∷ after) (length before) no_floor ≡ f
get_or-middle [] after f = refl
get_or-middle (g ∷ before) after f = get_or-middle before after f

Best-Allocates :
    {better : Floor → Floor → Bool} (vehicle : Vehicle) (floors : List Floor)
    (selected : Option Floor)
    → IsNumbered floors
    → Best better (get_vehicle_space vehicle.type) floors selected
    → Allocates vehicle floors (decision selected)
Best-Allocates vehicle floors _ numbered (no_room all) = nowhere
Best-Allocates vehicle floors _ numbered (best {f} before after e room b a) =
    let here : floor_at floors (length before) ≡ f =
      ap (λ fs. get_or fs (length before) no_floor) e ∙ get_or-middle before after f in
    let inside : length before < length floors =
      omega (arith, ap length e, length-append before (f ∷ after)) in
    let number : f.number ≡ length before =
      sym (ap (λ (g : Floor). g.number) here) ∙ numbered (length before) inside in
    subst (λ n. Allocates vehicle floors (some n)) (sym number)
      (on_floor inside (subst (Fits (get_vehicle_space vehicle.type)) (sym here) room))

-- The strategies that never panic.
abbrev pub nearest : Vehicle → List Floor → Run (Option ℕ)
nearest vehicle floors = ok (nearest_floor vehicle floors)

abbrev pub balanced : Vehicle → List Floor → Run (Option ℕ)
balanced vehicle floors = ok (load_balanced vehicle floors)

abbrev pub compact : Vehicle → List Floor → Run (Option ℕ)
compact vehicle floors = ok (compaction vehicle floors)

module _ (vehicle : Vehicle) (floors : List Floor) (numbered : IsNumbered floors) where
  no_space : (get_vehicle_space vehicle.type == 0) ≡ false → 0 < get_vehicle_space vehicle.type
  no_space e = ground arith

  pub nearest-Allocates : Returns (Allocates vehicle floors) (nearest vehicle floors)
  unfolding nearest_floor
  nearest-Allocates = elim (Bool-cases (get_vehicle_space vehicle.type == 0)) [
    | inl unknown ↦ rw unknown (returns nowhere)
    | inr known ↦ returns (
        FirstFit-Allocates vehicle floors 0 (length floors) _ numbered (omega arith)
          (nearest_floor-FirstFit vehicle floors (no_space known)))
  ]

  pub balanced-Allocates : Returns (Allocates vehicle floors) (balanced vehicle floors)
  unfolding load_balanced
  balanced-Allocates = elim (Bool-cases (get_vehicle_space vehicle.type == 0)) [
    | inl unknown ↦ rw unknown (returns nowhere)
    | inr known ↦
        let (selected, e, b) = load_balanced-Best vehicle floors (no_space known) in
        returns (
          subst (Allocates vehicle floors) (sym e)
            (Best-Allocates vehicle floors selected numbered b))
  ]

  pub compact-Allocates : Returns (Allocates vehicle floors) (compact vehicle floors)
  unfolding compaction
  compact-Allocates = elim (Bool-cases (get_vehicle_space vehicle.type == 0)) [
    | inl unknown ↦ rw unknown (returns nowhere)
    | inr known ↦
        let (selected, e, b) = compaction-Best vehicle floors (no_space known) in
        returns (
          subst (Allocates vehicle floors) (sym e)
            (Best-Allocates vehicle floors selected numbered b))
  ]

  -- On floors numbered by their index, ZoneBalancedStrategy returns, for a vehicle of any type, and
  -- if it decides on a floor, that is a floor of the building with room for the vehicle, as Park
  -- relies on.
  pub zone_balanced-Allocates : Returns (Allocates vehicle floors) (zone_balanced vehicle floors)
  unfolding zone_balanced
  zone_balanced-Allocates = elim (Bool-cases (get_vehicle_space vehicle.type == 0)) [
    | inl unknown ↦ rw unknown (returns nowhere)
    | inr known ↦ Returns-map (zone_balanced-FirstFit vehicle floors (no_space known)) λ o first.
        FirstFit-Allocates vehicle floors _ _ o numbered
          (zone_range-inside (length floors) vehicle.type) first
  ]
