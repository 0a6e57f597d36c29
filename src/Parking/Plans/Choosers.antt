-- ===== src/Parking/Plans/Choosers.antt =====
-- The floors that the inner loops of Parking_Management/parking_rearrangement choose.
use low_level_design_in_go.Base.{
  ℕ, ◌+◌, ◌≤◌, ◌<◌, subst, inl, inr, Option, none, some, List, ◌==◌, Bool-cases, get_or, arith,
}
use low_level_design_in_go.Parking.{Floor}
use low_level_design_in_go.Parking.Plans.Placed.{capacity_at}

-- The floor has room for `space` more.
abbrev pub HasRoom : List Floor → List ℕ → ℕ → ℕ → Type 0
HasRoom floors used_space space i = get_or used_space i 0 + space ≤ capacity_at floors i

-- A floor from `lo` up to, but without, `hi` that has room, and that `Over` holds of towards every
-- other; or none, if none has room.
pub data Picked (Over : ℕ → ℕ → Type 0) (floors : List Floor) (used_space : List ℕ)
    (space lo hi : ℕ) : Option ℕ → Type 0 where
  nothing :
      ((j : ℕ) → lo ≤ j → j < hi → HasRoom floors used_space space j → ⊥)
      → Picked Over floors used_space space lo hi none
  picked :
      {i : ℕ}
      → lo ≤ i
      → i < hi
      → HasRoom floors used_space space i
      → ((j : ℕ) → lo ≤ j → j < hi → HasRoom floors used_space space j → Over i j)
      → Picked Over floors used_space space lo hi (some i)

module _ {Over : ℕ → ℕ → Type 0} (floors : List Floor) (used_space : List ℕ) (space lo hi : ℕ) where
  -- One more floor at the end, which is full.
  pub skip_last :
      {o : Option ℕ}
      → (HasRoom floors used_space space hi → ⊥)
      → Picked Over floors used_space space lo hi o
      → Picked Over floors used_space space lo (hi + 1) o
  skip_last full (nothing none_fits) = nothing λ j low high. elim (Bool-cases (j == hi)) [
    | inl last ↦ subst (λ k. HasRoom floors used_space space k → ⊥) (ground arith) full
    | inr inner ↦ none_fits j low (ground arith)
  ]
  skip_last full (picked {i} low high room over) = picked low (omega arith) room λ j low' high'.
      elim (Bool-cases (j == hi)) [
        | inl last ↦
            λ fits. absurd (full (subst (HasRoom floors used_space space) (ground arith) fits))
        | inr inner ↦ over j low' (ground arith)
      ]

  -- One more floor at the end, over which the choice stands.
  pub keep_last :
      (i : ℕ)
      → Over i hi
      → Picked Over floors used_space space lo hi (some i)
      → Picked Over floors used_space space lo (hi + 1) (some i)
  keep_last i stands (picked low high room over) =
      picked low (omega arith) room λ j low' high' fits. elim (Bool-cases (j == hi)) [
        | inl last ↦ subst (Over i) (ground arith) stands
        | inr inner ↦ over j low' (ground arith) fits
      ]

  -- One more floor at the end, which is the first with room.
  pub first_last :
      lo ≤ hi
      → HasRoom floors used_space space hi
      → Over hi hi
      → Picked Over floors used_space space lo hi none
      → Picked Over floors used_space space lo (hi + 1) (some hi)
  first_last low room self (nothing none_fits) = picked low (omega arith) room λ j low' high fits.
      elim (Bool-cases (j == hi)) [
        | inl last ↦ subst (Over hi) (ground arith) self
        | inr inner ↦ absurd (none_fits j low' (ground arith) fits)
      ]

  -- One more floor at the end, which replaces the choice.
  pub take_last :
      (i : ℕ)
      → lo ≤ hi
      → HasRoom floors used_space space hi
      → Over hi hi
      → ((j : ℕ) → Over i j → Over hi j)
      → Picked Over floors used_space space lo hi (some i)
      → Picked Over floors used_space space lo (hi + 1) (some hi)
  take_last i low room self trans (picked _ _ _ over) =
      picked low (omega arith) room λ j low' high fits. elim (Bool-cases (j == hi)) [
        | inl last ↦ subst (Over hi) (ground arith) self
        | inr inner ↦ trans j (over j low' (ground arith) fits)
      ]
