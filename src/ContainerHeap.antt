-- ===== src/ContainerHeap.antt =====
-- Go's container/heap, which KeyValueStore/main.go and Elevator_System/elevator.go call. The
-- functions work on any implementation of `heap.Interface`; the source's own implementations
-- (heap.go in both folders) fill `Interface`.
pub mod Order
pub mod Lawful
pub mod Up
pub mod Down
pub mod Operations
pub mod Removal
use low_level_design_in_go.Base.{
  ℕ, zero, suc, ◌+◌, ◌-◌, ◌*◌, ◌/◌, Bool, true, false, not, ◌&&◌, ◌||◌, ltb, leb, ◌==◌,
  if◌then◌else◌,
}
use low_level_design_in_go.Base.Run.{Run, ok, out_of_fuel, ◌>>=◌}

-- `heap.Interface`: `H` is the state of the container, `A` what is pushed and popped.
pub record Interface (H A : Type 0) : Type 0 where
  pub len : H → ℕ
  pub less : H → ℕ → ℕ → Run Bool
  pub swap : H → ℕ → ℕ → Run H
  pub push : H → A → H
  pub pop : H → Run (A × H)

-- `(c - 1) / 2`, which Go rounds to 0 at 0.
abbrev pub parent : ℕ → ℕ
parent c = (c - 1) / 2

module _ {H A : Type 0} (I : Interface H A) where
  unfoldable pub up_loop : ℕ → H → ℕ → Run H
  up_loop zero h j = out_of_fuel
  up_loop (suc fuel) h j =
      let rise = I.swap h (parent j) j >>= λ h'. up_loop fuel h' (parent j) in
      let step = I.less h j (parent j) >>= λ below. if not below then ok h else rise in
      if parent j == j then ok h else step

  unfoldable pub up : H → ℕ → Run H
  unfolding up_loop
  up h j = up_loop (j + 1) h j

  -- The child of `i` that goes up: the right one if it exists and is less than the left one.
  unfoldable pub lesser_child : H → ℕ → ℕ → Run ℕ
  lesser_child h i n =
      let j1 = 2 * i + 1 in
      if ltb (j1 + 1) n
      then (I.less h (j1 + 1) j1 >>= λ right. ok (if right then j1 + 1 else j1))
      else ok j1

  -- The loop of `down` returns the last index as well.
  unfoldable pub down_loop : ℕ → H → ℕ → ℕ → Run (H × ℕ)
  unfolding lesser_child
  down_loop zero h i n = out_of_fuel
  down_loop (suc fuel) h i n =
      let step : Run (H × ℕ) = do
        j ← lesser_child h i n
        below ← I.less h j i
        let sink = I.swap h i j >>= λ h'. down_loop fuel h' j n
        if not below then ok (h, i) else sink
      in if leb n (2 * i + 1) then ok (h, i) else step

  unfoldable pub down : H → ℕ → ℕ → Run (H × Bool)
  unfolding down_loop
  down h i0 n = down_loop (n + 1) h i0 n >>= λ (h', i). ok (h', ltb i0 i)

  unfoldable pub push : H → A → Run H
  unfolding up
  push h x = let h' = I.push h x in up h' (I.len h' - 1)

  unfoldable pub pop : H → Run (A × H)
  unfolding down
  pop h = do h1 ← I.swap h 0 (I.len h - 1); (h2, _) ← down h1 0 (I.len h - 1); I.pop h2

  -- `if !down(h, i, n) { up(h, i) }`
  unfoldable pub settle : H → ℕ → ℕ → Run H
  unfolding down up
  settle h i n = down h i n >>= λ (h', moved). if not moved then up h' i else ok h'

  unfoldable pub remove : H → ℕ → Run (A × H)
  unfolding settle
  remove h i =
      let n = I.len h - 1 in
      let trade = I.swap h i n >>= λ h1. settle h1 i n in
      (if not (n == i) then trade else ok h) >>= I.pop

  unfoldable pub fix : H → ℕ → Run H
  unfolding settle
  fix h i = settle h i (I.len h)
