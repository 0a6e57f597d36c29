-- ===== src/Parking/Plans/Compaction.antt =====
-- The plan of Parking_Management/parking_rearrangement/compaction_balanced.go.
use mathlib.Core.List.Perm
use low_level_design_in_go.Base.{
  ◌≤◌, ◌<◌, ◌≡◌, refl, ap, subst, false, none, List, [], ◌∷◌, leb, ◌==◌, if_cases, Bool-cases, inl,
  inr, length, All, All-map, Perm, arith,
}
use low_level_design_in_go.Base.Run.{Returns, Returns-map}
use low_level_design_in_go.Parking.{Floor, ParkingRecord}
use low_level_design_in_go.Parking.Plans.{
  space_of, skipped, place_all, empty_plan, moves_only, to_place, best_fit, plan_compaction,
  insert_by_space, sort_by_space,
}
use low_level_design_in_go.Parking.Plans.Loops.{best_fit-Picked}
use low_level_design_in_go.Parking.Plans.Rearrangements.{
  Rearranged, AnyFloor, any-Choice, place_all-Rearranged,
}

-- No vehicle needs more space than one before it.
abbrev pub Decreasing : List ParkingRecord → Type 0
Decreasing [] = Unit
Decreasing (r ∷ rest) = All (λ s. space_of s ≤ space_of r) rest × Decreasing rest

insert_by_space-All :
    (P : ParkingRecord → Type 0) (r : ParkingRecord) (rest : List ParkingRecord)
    → P r
    → All P rest
    → All P (insert_by_space r rest)
unfolding insert_by_space
insert_by_space-All P r [] p all = (p, tt)
insert_by_space-All P r (s ∷ rest) p all =
    if_cases (All P) (leb (space_of s) (space_of r)) (λ _. (p, all))
      (λ _. (all.0, insert_by_space-All P r rest p all.1))

sort_by_space-All :
    (P : ParkingRecord → Type 0) (rs : List ParkingRecord) → All P rs → All P (sort_by_space rs)
unfolding sort_by_space
sort_by_space-All P [] all = tt
sort_by_space-All P (r ∷ rs) all =
    insert_by_space-All P r (sort_by_space rs) all.0 (sort_by_space-All P rs all.1)

insert_by_space-Decreasing :
    (r : ParkingRecord) (rest : List ParkingRecord)
    → Decreasing rest
    → Decreasing (insert_by_space r rest)
unfolding insert_by_space
insert_by_space-Decreasing r [] d = (tt, tt)
insert_by_space-Decreasing r (s ∷ rest) d =
    if_cases Decreasing (leb (space_of s) (space_of r))
      (λ small. ((ground arith, All-map _ _ (λ q le. ground arith) rest d.0), d))
      (λ large. (
        insert_by_space-All (λ q. space_of q ≤ space_of s) r rest (ground arith) d.0,
        insert_by_space-Decreasing r rest d.1,
      ))

pub sort_by_space-Decreasing : (rs : List ParkingRecord) → Decreasing (sort_by_space rs)
unfolding sort_by_space
sort_by_space-Decreasing [] = tt
sort_by_space-Decreasing (r ∷ rs) =
    insert_by_space-Decreasing r (sort_by_space rs) (sort_by_space-Decreasing rs)

insert_by_space-perm :
    (r : ParkingRecord) (rest : List ParkingRecord) → Perm (insert_by_space r rest) (r ∷ rest)
unfolding insert_by_space
insert_by_space-perm r [] = Perm.refl _
insert_by_space-perm r (s ∷ rest) =
    if_cases (λ rs. Perm rs (r ∷ s ∷ rest)) (leb (space_of s) (space_of r)) (λ _. Perm.refl _)
      (λ _. Perm.trans (Perm.cons s (insert_by_space-perm r rest)) (Perm.swap r s rest))

pub sort_by_space-perm : (rs : List ParkingRecord) → Perm (sort_by_space rs) rs
unfolding sort_by_space
sort_by_space-perm [] = Perm.refl []
sort_by_space-perm (r ∷ rs) =
    Perm.trans (insert_by_space-perm r (sort_by_space rs)) (Perm.cons r (sort_by_space-perm rs))

to_place-kept : (rs : List ParkingRecord) → All (λ r. skipped r ≡ false) rs → to_place rs ≡ rs
unfolding to_place
to_place-kept [] all = refl
to_place-kept (r ∷ rs) all = rw all.0 (ap (◌∷◌ r) (to_place-kept rs all.1))

to_place-All : (rs : List ParkingRecord) → All (λ r. skipped r ≡ false) (to_place rs)
unfolding to_place
to_place-All [] = tt
to_place-All (r ∷ rs) = elim (Bool-cases (skipped r)) [
  | inl skip ↦ rw skip (to_place-All rs)
  | inr kept ↦ rw kept (kept, to_place-All rs)
]

-- On a building with floors CompactionBalancedRearrangement returns. It takes the vehicles that are
-- not leaving in an order of decreasing space. If it plans, each of them gets one floor, no floor
-- takes more than its capacity, and the moves lead from the targets to that layout. It gives up only
-- at a vehicle that no floor has room for, beside those placed before.
pub plan_compaction-Rearranged :
    (floors : List Floor) (records : List ParkingRecord)
    → 0 < length floors
    → (vehicles : List ParkingRecord) × Perm vehicles (to_place records)
      × Decreasing vehicles
      × Returns (Rearranged floors AnyFloor vehicles) (plan_compaction floors records)
unfolding plan_compaction
plan_compaction-Rearranged floors records some_floors =
    let vehicles = sort_by_space (to_place records) in
    let built : (length floors == 0) ≡ false = ground arith in
    let same : to_place vehicles ≡ vehicles =
      to_place-kept vehicles (sort_by_space-All _ (to_place records) (to_place-All records)) in
    (
      vehicles,
      sort_by_space-perm (to_place records),
      sort_by_space-Decreasing (to_place records),
      rw built (
          subst
            (λ vs. Returns (Rearranged floors AnyFloor vs) (
              moves_only (
                place_all (λ used_space r. best_fit (space_of r) floors used_space 0 none)
                  (empty_plan floors) vehicles)))
            same
            (place_all-Rearranged floors AnyFloor
              (λ used_space r. best_fit (space_of r) floors used_space 0 none)
              (λ used_space r sized some_space.
                Returns-map (best_fit-Picked floors used_space (space_of r) sized)
                  λ o. any-Choice floors used_space r o)
              vehicles)),
    )
