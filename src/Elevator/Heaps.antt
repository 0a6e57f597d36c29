-- ===== src/Elevator/Heaps.antt =====
-- Elevator_System/heap.go: MinHeap and MaxHeap as implementations of `heap.Interface`.
use low_level_design_in_go.Base.{
  ℕ, suc, ◌<◌, ◌≡◌, refl, Bool, true, false, List, [], ◌∷◌, ◌++◌, ltb, arith, length, get_or, take,
  exchange, set, length-set,
}
use low_level_design_in_go.Base.Run.{
  Run, ok, panic, ◌>>=◌, index, assign, Returns, returns, index-get_or,
}
use low_level_design_in_go.ContainerHeap.{Interface}
use low_level_design_in_go.ContainerHeap.Order.{WeakOrder}
use low_level_design_in_go.ContainerHeap.Lawful.{Lawful}
use low_level_design_in_go.Elevator.{Request}
use low_level_design_in_go.Elevator.Requests.{no_request}

unfoldable pub heap_len : List Request → ℕ
heap_len h = length h

unfoldable pub swap : List Request → ℕ → ℕ → Run (List Request)
swap h i j = do b ← index h j; a ← index h i; h' ← assign h i b; assign h' j a

unfoldable pub push : List Request → Request → List Request
push h x = h ++ x ∷ []

-- `old[n-1]` panics on an empty heap, where `n - 1` is negative.
unfoldable pub pop : List Request → Run (Request × List Request)
pop [] = panic
pop (r ∷ h) = index (r ∷ h) (length h) >>= λ x. ok (x, take (length h) (r ∷ h))

unfoldable pub min_less : List Request → ℕ → ℕ → Run Bool
min_less h i j = do a ← index h i; b ← index h j; ok (ltb a.floor b.floor)

unfoldable pub max_less : List Request → ℕ → ℕ → Run Bool
max_less h i j = do a ← index h i; b ← index h j; ok (ltb b.floor a.floor)

abbrev pub min_heap : Interface (List Request) Request
min_heap = record { len = heap_len; less = min_less; swap = swap; push = push; pop = pop }

abbrev pub max_heap : Interface (List Request) Request
max_heap = record { len = heap_len; less = max_less; swap = swap; push = push; pop = pop }

pub asym_floor : (a b : Request) → ltb a.floor b.floor ≡ true → ltb b.floor a.floor ≡ false
asym_floor a b h = ground arith

pub trans_floor :
    (a b c : Request)
    → ltb b.floor a.floor ≡ false
    → ltb c.floor b.floor ≡ false
    → ltb c.floor a.floor ≡ false
trans_floor a b c h k = ground arith

-- The lower floor first.
abbrev pub by_floor : WeakOrder Request
by_floor = record { before = λ a b. ltb a.floor b.floor; asym = asym_floor; trans = trans_floor }

-- The higher floor first.
abbrev pub by_floor_down : WeakOrder Request
by_floor_down = record {
  before = λ a b. ltb b.floor a.floor;
  asym = λ a b h. asym_floor b a h;
  trans = λ a b c h k. trans_floor c b a k h;
}

swap-exchange :
    (h : List Request) (i j : ℕ)
    → i < length h
    → j < length h
    → swap h i j ≡ ok (exchange no_request h i j)
unfolding swap exchange
swap-exchange h i j hi hj =
    let once = set h i (get_or h j no_request) in
    rw (
      index-get_or h j no_request hj,
      index-get_or h i no_request hi,
      index-get_or once j no_request (rw length-set hj),
    )

pop-last :
    (h : List Request) (n : ℕ) → length h ≡ suc n → pop h ≡ ok (get_or h n no_request, take n h)
unfolding pop
pop-last [] n size = absurd (omega arith)
pop-last (r ∷ h) n size =
    let e : length h ≡ n = omega arith in
    rw e (rw (index-get_or (r ∷ h) n no_request (omega arith)))

less_index :
    (h : List Request) (i j : ℕ) (less : Request → Request → Bool)
    → i < length h
    → j < length h
    → (index h i >>= λ a. index h j >>= λ b. ok (less a b))
      ≡ ok (less (get_or h i no_request) (get_or h j no_request))
less_index h i j less hi hj = rw (index-get_or h i no_request hi, index-get_or h j no_request hj)

pub heap_len-length : (h : List Request) → heap_len h ≡ length h
unfolding heap_len
heap_len-length h = refl

pub min_less-before :
    (h : List Request) (i j : ℕ)
    → i < length h
    → j < length h
    → min_less h i j ≡ ok (by_floor.before (get_or h i no_request) (get_or h j no_request))
unfolding min_less
min_less-before h i j hi hj = less_index h i j (λ a b. ltb a.floor b.floor) hi hj

pub max_less-before :
    (h : List Request) (i j : ℕ)
    → i < length h
    → j < length h
    → max_less h i j ≡ ok (by_floor_down.before (get_or h i no_request) (get_or h j no_request))
unfolding max_less
max_less-before h i j hi hj = less_index h i j (λ a b. ltb b.floor a.floor) hi hj

pub swap-Returns :
    (h : List Request) (i j : ℕ)
    → Unit {0}
    → i < length h
    → j < length h
    → Returns (λ h'. Unit {0} × (h' ≡ exchange no_request h i j)) (swap h i j)
swap-Returns h i j _ hi hj = rw (swap-exchange h i j hi hj) (returns (tt, refl))

pub push-append : (h : List Request) (x : Request) → Unit {0} → Unit {0} × (push h x ≡ h ++ x ∷ [])
unfolding push
push-append h x _ = (tt, refl)

pub pop-Returns :
    (h : List Request) (n : ℕ)
    → Unit {0}
    → length h ≡ suc n
    → Returns (λ (x, h'). Unit {0} × (x ≡ get_or h n no_request) × (h' ≡ take n h)) (pop h)
pop-Returns h n _ size = rw (pop-last h n size) (returns (tt, refl, refl))

-- The two heaps show their slices as they are, and promise nothing more.
abbrev pub min_heap_lawful : Lawful min_heap by_floor no_request
min_heap_lawful = record {
  view = λ h. h;
  shown = λ r. r;
  Good = λ h. Unit {0};
  Fresh = λ h x. Unit {0};
  len-view = heap_len-length;
  less-view = λ h i j _. min_less-before h i j;
  swap-view = swap-Returns;
  push-view = λ h x good _. push-append h x good;
  pop-view = pop-Returns;
}

abbrev pub max_heap_lawful : Lawful max_heap by_floor_down no_request
max_heap_lawful = record {
  view = λ h. h;
  shown = λ r. r;
  Good = λ h. Unit {0};
  Fresh = λ h x. Unit {0};
  len-view = heap_len-length;
  less-view = λ h i j _. max_less-before h i j;
  swap-view = swap-Returns;
  push-view = λ h x good _. push-append h x good;
  pop-view = pop-Returns;
}
