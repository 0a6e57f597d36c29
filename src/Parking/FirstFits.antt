-- ===== src/Parking/FirstFits.antt =====
-- Which floor Allocate decides on in Parking_Management/parking_strategy/nearest_floor.go and
-- zone_based.go.
use low_level_design_in_go.Base.{
  ℕ, zero, suc, ◌+◌, ◌-◌, ◌≤◌, ◌<◌, ◌≡◌, sym, subst, inl, inr, true, false, Option, none, some,
  List, [], ◌∷◌, ltb, leb, ◌==◌, ◌||◌, if_cases, Bool-cases, length, get_or, arith,
}
use low_level_design_in_go.Base.Run.{index-get_or, Returns, returns, Returns-if, Returns-map}
use low_level_design_in_go.Parking.{Vehicle, Floor, get_vehicle_space, zone_range}
use low_level_design_in_go.Parking.Strategies.{
  first_fit, nearest_floor, first_fit_from, zone_balanced,
}
use low_level_design_in_go.Parking.Zones.{zone_range-inside}
use low_level_design_in_go.Parking.Choices.{Fits, no_floor}

-- The first floor with room among those from `lo` up to, but without, `hi`.
pub data FirstFit (required : ℕ) (floors : List Floor) (lo hi : ℕ) : Option ℕ → Type 0 where
  no_fit :
      ((i : ℕ) → lo ≤ i → i < hi → Fits required (get_or floors i no_floor) → ⊥)
      → FirstFit required floors lo hi none
  fits :
      (i : ℕ)
      → lo ≤ i
      → i < hi
      → Fits required (get_or floors i no_floor)
      → ((j : ℕ) → lo ≤ j → j < i → Fits required (get_or floors j no_floor) → ⊥)
      → FirstFit required floors lo hi (some (get_or floors i no_floor).number)

first_fit_from-FirstFit :
    (required : ℕ) (floors : List Floor) (n i : ℕ)
    → i + n ≤ length floors
    → Returns (FirstFit required floors i (i + n)) (first_fit_from required floors n i)
unfolding first_fit_from
first_fit_from-FirstFit required floors zero i inside = returns (no_fit λ j low high _. omega arith)
first_fit_from-FirstFit required floors (suc n) i inside =
    let floor = get_or floors i no_floor in
    rw (index-get_or floors i no_floor (omega arith)) (
      Returns-if (ltb floor.capacity (required + floor.reserved_capacity))
        (λ full.
          Returns-map (first_fit_from-FirstFit required floors n (i + 1) (omega arith))
            λ o later. extend o full later)
        (λ room.
          returns (fits i (omega arith) (omega arith) (ground arith) λ j low high _. omega arith)))
  where
    floor : Floor
    floor = get_or floors i no_floor

    passed :
        ltb floor.capacity (required + floor.reserved_capacity) ≡ true
        → (j : ℕ) → i ≤ j
        → ((i + 1 ≤ j) → Fits required (get_or floors j no_floor) → ⊥)
        → Fits required (get_or floors j no_floor)
        → ⊥
    passed full j low later room = elim (Bool-cases (i == j)) [
      | inl same ↦
          let e : i ≡ j = ground arith in
          let here : Fits required floor =
            subst (λ k. Fits required (get_or floors k no_floor)) (sym e) room in
          ground arith
      | inr differs ↦ later (ground arith) room
    ]

    extend :
        (o : Option ℕ)
        → ltb floor.capacity (required + floor.reserved_capacity) ≡ true
        → FirstFit required floors (i + 1) (i + 1 + n) o
        → FirstFit required floors i (i + suc n) o
    extend _ full (no_fit unfit) =
        no_fit λ j low high. passed full j low λ low'. unfit j low' (omega arith)
    extend _ full (fits k low high room unfit) =
        fits k (omega arith) (omega arith) room
          λ j low' high'. passed full j low' λ low''. unfit j low'' high'

-- For a vehicle of a known type, ZoneBalancedStrategy returns, and decides on the first floor with
-- room in the vehicle's zone, or on none if no floor of the zone has room.
pub zone_balanced-FirstFit :
    (vehicle : Vehicle) (floors : List Floor)
    → 0 < get_vehicle_space vehicle.type
    → let zone = zone_range (length floors) vehicle.type in
      Returns
        (FirstFit (get_vehicle_space vehicle.type) floors zone.0 zone.1)
        (zone_balanced vehicle floors)
unfolding zone_balanced
zone_balanced-FirstFit vehicle floors some_space =
    let required = get_vehicle_space vehicle.type in
    let zone = zone_range (length floors) vehicle.type in
    let within = zone_range-inside (length floors) vehicle.type in
    Returns-if (required == 0 || length floors == 0)
      (λ nothing. returns (no_fit λ i low high _. ground arith))
      (λ something.
        Returns-if (leb zone.1 zone.0) (λ empty. returns (no_fit λ i low high _. ground arith))
          (λ some_floors.
            let span : zone.0 + (zone.1 - zone.0) ≡ zone.1 = ground arith in
            subst
              (λ hi.
                Returns (FirstFit required floors zone.0 hi)
                  (first_fit_from required floors (zone.1 - zone.0) zone.0))
              span
              (first_fit_from-FirstFit required floors (zone.1 - zone.0) zone.0 (omega arith))))

first_fit-FirstFit :
    (required : ℕ) (floors : List Floor)
    → FirstFit required floors 0 (length floors) (first_fit required floors)
unfolding first_fit
first_fit-FirstFit required [] = no_fit λ i low high _. omega arith
first_fit-FirstFit required (floor ∷ floors) =
    if_cases (FirstFit required (floor ∷ floors) 0 (suc (length floors)))
      (ltb floor.capacity (required + floor.reserved_capacity))
      (λ full. shift _ (λ room. ground arith) (first_fit-FirstFit required floors))
      (λ room. fits 0 (omega arith) (omega arith) (ground arith) λ j low high _. omega arith)
  where
    shift :
        (o : Option ℕ)
        → (Fits required floor → ⊥)
        → FirstFit required floors 0 (length floors) o
        → FirstFit required (floor ∷ floors) 0 (suc (length floors)) o
    shift _ full (no_fit unfit) = no_fit (passed unfit)
      where
        passed :
            ((i : ℕ) → 0 ≤ i → i < length floors → Fits required (get_or floors i no_floor) → ⊥)
            → (i : ℕ) → 0 ≤ i
            → i < suc (length floors)
            → Fits required (get_or (floor ∷ floors) i no_floor)
            → ⊥
        passed unfit zero low high room = full room
        passed unfit (suc i) low high room = unfit i (omega arith) (omega arith) room
    shift _ full (fits k low high room unfit) =
        fits (suc k) (omega arith) (omega arith) room (passed unfit)
      where
        passed :
            ((i : ℕ) → 0 ≤ i → i < k → Fits required (get_or floors i no_floor) → ⊥)
            → (i : ℕ) → 0 ≤ i
            → i < suc k
            → Fits required (get_or (floor ∷ floors) i no_floor)
            → ⊥
        passed unfit zero low high room = full room
        passed unfit (suc i) low high room = unfit i (omega arith) (omega arith) room

-- For a vehicle of a known type, NearestFloorStrategy decides on the first floor with room, or on
-- none if no floor has room.
pub nearest_floor-FirstFit :
    (vehicle : Vehicle) (floors : List Floor)
    → 0 < get_vehicle_space vehicle.type
    → FirstFit
        (get_vehicle_space vehicle.type)
        floors
        0
        (length floors)
        (nearest_floor vehicle floors)
unfolding nearest_floor
nearest_floor-FirstFit vehicle floors some_space =
    let required = get_vehicle_space vehicle.type in
    let known : (required == 0) ≡ false = ground arith in
    rw known (first_fit-FirstFit required floors)
