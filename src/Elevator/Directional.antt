-- ===== src/Elevator/Directional.antt =====
-- The Directional strategy of Elevator_System/elevator.go: two heaps of requests and a sweep. Its
-- mutex is held over each method, so a method is one step.
-- `slices.SortFunc` leaves the order of equal floors open; here it is insertion sort.
pub mod Rebucket
pub mod Invariant
pub mod Choose
pub mod Next
pub mod Sweep
pub mod Listing
pub mod Tests
use low_level_design_in_go.Base.{
  ℕ, zero, suc, ◌+◌, Bool, true, false, not, ◌&&◌, List, [], ◌∷◌, ◌++◌, Option, none, some, ltb,
  leb, if◌then◌else◌, length, Eq, has, insert, delete,
}
use low_level_design_in_go.Base.Run.{Run, ok, out_of_fuel, ◌>>=◌, index}
use low_level_design_in_go.ContainerHeap
use low_level_design_in_go.Elevator.{
  Direction, up, down, Request, ElevatorState, SchedulingStrategy, direction_eq, opposite,
}
use low_level_design_in_go.Elevator.Requests.{request_eq}
use low_level_design_in_go.Elevator.Heaps.{min_heap, max_heap}

pub record Directional : Type 0 where
  pub up_heap : List Request
  pub down_heap : List Request
  pub sweep : Direction
  pub pending : List Request

unfoldable pub new_directional : Directional
new_directional = record { up_heap = []; down_heap = []; sweep = up; pending = [] }

unfoldable pub add_request : Directional → Request → Run Directional
unfolding has insert ContainerHeap.push
add_request s request =
    let s' : Directional = record s { pending = insert request s.pending } in
    if has request s.pending
    then ok s
    else if direction_eq request.direction down
    then (ContainerHeap.push max_heap s.down_heap request >>= λ h. ok (record s' { down_heap = h }))
    else (ContainerHeap.push min_heap s.up_heap request >>= λ h. ok (record s' { up_heap = h }))

-- The first loop of `rebucket`: what the car has passed on the way up.
unfoldable pub rebucket_up : ℕ → Directional → ℕ → Run Directional
unfolding ContainerHeap.push ContainerHeap.pop
rebucket_up zero s floor = out_of_fuel
rebucket_up (suc fuel) s floor =
    let move : Run Directional = do
      (r, u) ← ContainerHeap.pop min_heap s.up_heap
      d ← ContainerHeap.push max_heap s.down_heap r
      rebucket_up fuel (record s { up_heap = u; down_heap = d }) floor
    in let test = index s.up_heap 0 >>= λ top. if ltb top.floor floor then move else ok s in
      if ltb 0 (length s.up_heap) then test else ok s

-- The second loop: what the car has passed on the way down.
unfoldable pub rebucket_down : ℕ → Directional → ℕ → Run Directional
unfolding ContainerHeap.push ContainerHeap.pop
rebucket_down zero s floor = out_of_fuel
rebucket_down (suc fuel) s floor =
    let move : Run Directional = do
      (r, d) ← ContainerHeap.pop max_heap s.down_heap
      u ← ContainerHeap.push min_heap s.up_heap r
      rebucket_down fuel (record s { up_heap = u; down_heap = d }) floor
    in let test = index s.down_heap 0 >>= λ top. if ltb floor top.floor then move else ok s in
      if ltb 0 (length s.down_heap) then test else ok s

-- A loop moves each request at most once.
unfoldable pub rebucket : Directional → ℕ → Run Directional
unfolding rebucket_up rebucket_down
rebucket s floor = do
  s' ← rebucket_up (length s.up_heap + 1) s floor
  rebucket_down (length s'.down_heap + 1) s' floor

unfoldable pub take : Directional → Request → Directional
unfolding delete
take s request = record s { pending = delete request s.pending }

-- The rounds of `for range 2`.
unfoldable pub choose : ℕ → Directional → Run (Option Request × Directional)
unfolding take ContainerHeap.pop opposite
choose zero s = ok (none, s)
choose (suc rounds) s =
    let turned = choose rounds (record s { sweep = opposite s.sweep }) in
    if direction_eq s.sweep up && ltb 0 (length s.up_heap)
    then (ContainerHeap.pop min_heap s.up_heap >>= λ (r, u).
        ok (some r, take (record s { up_heap = u }) r))
    else if direction_eq s.sweep down && ltb 0 (length s.down_heap)
    then (ContainerHeap.pop max_heap s.down_heap >>= λ (r, d).
        ok (some r, take (record s { down_heap = d }) r))
    else turned

unfoldable pub next_request : Directional → ElevatorState → Run (Option Request × Directional)
unfolding rebucket choose
next_request s current = rebucket s current.current_floor >>= choose 2

-- `slices.SortFunc`, by a test for "not after".
unfoldable pub insert_sorted : (Request → Request → Bool) → Request → List Request → List Request
insert_sorted le r [] = r ∷ []
insert_sorted le r (q ∷ qs) = if le r q then r ∷ q ∷ qs else q ∷ insert_sorted le r qs

unfoldable pub sort_func : (Request → Request → Bool) → List Request → List Request
unfolding insert_sorted
sort_func le [] = []
sort_func le (r ∷ rs) = insert_sorted le r (sort_func le rs)

unfoldable pub pending : Directional → List Request
unfolding sort_func
pending s =
    let ups = sort_func (λ a b. leb a.floor b.floor) s.up_heap in
    let downs = sort_func (λ a b. leb b.floor a.floor) s.down_heap in
    if direction_eq s.sweep down then downs ++ ups else ups ++ downs

-- Directional as a SchedulingStrategy.
abbrev pub directional : SchedulingStrategy Directional
directional = record { add_request = add_request; next_request = next_request; pending = pending }
