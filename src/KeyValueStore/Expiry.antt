-- ===== src/KeyValueStore/Expiry.antt =====
-- KeyValueStore/heap.go: the heap of pointers to expiry items, as an implementation of
-- `heap.Interface`. A pointer is an address of the memory in which the items lie.
use low_level_design_in_go.Base.{
  ℕ, ◌-◌, String, Bool, Option, none, some, List, [], ◌∷◌, ◌++◌, ltb, ◌==◌, length, take,
  if◌then◌else◌,
}
use low_level_design_in_go.Base.Int.{ℤ, pos, negsuc}
use low_level_design_in_go.Base.Run.{Run, ok, ◌>>=◌, index, assign}
use low_level_design_in_go.ContainerHeap.{Interface}

-- Time is in nanoseconds from an epoch that is before all times of a run.
pub record ExpiryItem : Type 0 where
  pub key : String
  pub expires_at : ℕ
  pub position : ℤ

-- The items at addresses from `next` on are not yet made.
pub record ExpiryHeap : Type 0 where
  pub memory : ℕ → ExpiryItem
  pub next : ℕ
  pub store : List ℕ

-- `*p = x`
unfoldable pub write : (ℕ → ExpiryItem) → ℕ → ExpiryItem → ℕ → ExpiryItem
write m p x q = if p == q then x else m q

abbrev pub nothing_yet : ExpiryItem
nothing_yet = record { key = ""; expires_at = 0; position = pos 0 }

unfoldable pub new_min_priority_queue : ExpiryHeap
new_min_priority_queue = record { memory = λ p. nothing_yet; next = 0; store = [] }

unfoldable pub heap_len : ExpiryHeap → ℕ
heap_len h = length h.store

unfoldable pub less : ExpiryHeap → ℕ → ℕ → Run Bool
less h i j = do
  p ← index h.store i
  q ← index h.store j
  ok (ltb (h.memory p).expires_at (h.memory q).expires_at)

-- `p.Position = i`
unfoldable pub move_to : ExpiryHeap → ℕ → ℤ → ExpiryHeap
unfolding write
move_to h p i = record h { memory = write h.memory p (record (h.memory p) { position = i }) }

unfoldable pub swap : ExpiryHeap → ℕ → ℕ → Run ExpiryHeap
unfolding move_to
swap h i j = do
  q ← index h.store j
  p ← index h.store i
  once ← assign h.store i q
  store ← assign once j p
  at_i ← index store i
  at_j ← index store j
  ok (move_to (move_to (record h { store = store }) at_i (pos i)) at_j (pos j))

unfoldable pub push : ExpiryHeap → ℕ → ExpiryHeap
unfolding move_to
push h p =
    let placed = move_to h p (pos (length h.store)) in record placed { store = h.store ++ p ∷ [] }

-- `h.store[n-1]` panics on an empty heap, where `n - 1` is negative; position -1 is `negsuc 0`.
unfoldable pub pop : ExpiryHeap → Run (ℕ × ExpiryHeap)
unfolding move_to
pop h =
    let n = length h.store - 1 in
    index h.store n >>= λ p. ok (p, move_to (record h { store = take n h.store }) p (negsuc 0))

unfoldable pub peek : ExpiryHeap → Option ℕ
peek h = elim h.store [ [] ↦ none | p ∷ ps ↦ some p ]

abbrev pub expiry_heap : Interface ExpiryHeap ℕ
expiry_heap = record { len = heap_len; less = less; swap = swap; push = push; pop = pop }
