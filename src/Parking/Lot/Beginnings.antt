-- ===== src/Parking/Lot/Beginnings.antt =====
-- NewAutomatedParkingSystem of Parking_Management/parking.go, as Park and Unpark find it.
use low_level_design_in_go.Base.{ℕ, zero, suc, ◌+◌, ◌<◌, ◌≡◌, refl, ap, ◌∙◌, length, arith}
use low_level_design_in_go.Parking.{Floor}
use low_level_design_in_go.Parking.Lot.{new_floors, new_automated_parking_system}
use low_level_design_in_go.Parking.Lot.Books.{IsBalanced, floor_at}
use low_level_design_in_go.Parking.Lot.Allocations.{IsNumbered}

-- An empty floor.
abbrev empty_floor : ℕ → ℕ → Floor
empty_floor number space = record {
  number = number;
  capacity = space;
  physically_used_capacity = 0;
  reserved_capacity = 0;
}

length-new_floors : (n i space : ℕ) → length (new_floors n i space) ≡ n
unfolding new_floors
length-new_floors zero i space = refl
length-new_floors (suc n) i space = ap suc (length-new_floors n (i + 1) space)

floor_at-new_floors :
    (n i space k : ℕ) → k < n → floor_at (new_floors n i space) k ≡ empty_floor (i + k) space
unfolding new_floors
floor_at-new_floors zero i space k low = absurd (omega arith)
floor_at-new_floors (suc n) i space zero low = ap (λ number. empty_floor number space) (omega arith)
floor_at-new_floors (suc n) i space (suc k) low =
    floor_at-new_floors n (i + 1) space k (omega arith)
    ∙ ap (λ number. empty_floor number space) (omega arith)

-- For any number of floors and any space, a new parking system has its books in order, and as many
-- floors as asked for, numbered by their index.
pub new_automated_parking_system-IsBalanced :
    (floors_cnt floor_space : ℕ)
    → let p = new_automated_parking_system floors_cnt floor_space in
      IsBalanced p × IsNumbered p.floors × (length p.floors ≡ floors_cnt)
unfolding new_automated_parking_system
new_automated_parking_system-IsBalanced n space =
    let size = length-new_floors n 0 space in
    let at : (k : ℕ)
        → k < length (new_floors n 0 space)
        → floor_at (new_floors n 0 space) k ≡ empty_floor k space =
      λ k low.
        floor_at-new_floors n 0 space k (omega (arith, size))
        ∙ ap (λ number. empty_floor number space) (omega arith) in
    (
      record {
        reserved = λ k low. ap (λ (f : Floor). f.reserved_capacity) (at k low);
        within = λ k low. rw (at k low) (omega arith);
        targets = tt;
      },
      (λ k low. ap (λ (f : Floor). f.number) (at k low)),
      size,
    )
