-- ===== src/Parking/Zones.antt =====
-- ZoneRange of Parking_Management/models/zone.go.
use low_level_design_in_go.Base.{ℕ, suc, ◌+◌, ◌-◌, ◌*◌, ◌≤◌, ◌<◌, ◌≡◌, arith}
use low_level_design_in_go.Parking.{VehicleType, bike, car, truck, other, zone_range}

-- The number `k` is the part `percent` of `n`, rounded down.
abbrev pub IsPart : ℕ → ℕ → ℕ → Type 0
IsPart percent n k = (100 * k ≤ percent * n) × (percent * n < 100 * suc k)

-- For any number of floors, the zones split the floors: trucks from the ground, then cars, then
-- bikes up to the top. Trucks have a fifth of the floors and bikes three tenths, both rounded down;
-- the cars have at least half of them, and less than two floors more than half.
pub zones_split :
    (n : ℕ)
    → ((zone_range n truck).0 ≡ 0)
      × ((zone_range n car).0 ≡ (zone_range n truck).1)
      × ((zone_range n bike).0 ≡ (zone_range n car).1)
      × ((zone_range n bike).1 ≡ n)
      × IsPart 20 n ((zone_range n truck).1 - (zone_range n truck).0)
      × IsPart 30 n ((zone_range n bike).1 - (zone_range n bike).0)
      × (50 * n ≤ 100 * ((zone_range n car).1 - (zone_range n car).0))
      × (100 * ((zone_range n car).1 - (zone_range n car).0) < 50 * n + 200)
unfolding zone_range
zones_split n = omega arith

-- Every zone lies within the floors.
pub zone_range-inside : (n : ℕ) (type : VehicleType) → (zone_range n type).1 ≤ n
unfolding zone_range
zone_range-inside n bike = omega arith
zone_range-inside n car = omega arith
zone_range-inside n truck = omega arith
zone_range-inside n (other s) = omega arith
