-- ===== src/LruCache.antt =====
-- LRU cache/main.go: nodes in a list with links in both directions, and a map from keys to nodes. A
-- pointer to a node is an address of the memory in which the nodes lie.
pub mod Chains
pub mod Unlinking
pub mod Ranks
pub mod Reranking
pub mod Evicting
pub mod Adding
pub mod Recency
pub mod Finding
pub mod Following
pub mod Histories
pub mod Tests
use low_level_design_in_go.Base.{
  ℕ, zero, suc, ◌-◌, String, Bool, true, false, Option, none, some, ◌==◌, str_eq, if◌then◌else◌,
}
use low_level_design_in_go.Base.Int.{ℤ, pos, negsuc}
use low_level_design_in_go.Base.Run.{Run, ok, panic, out_of_fuel, ◌>>=◌}

pub record LruNode : Type 0 where
  pub key : String
  pub data_ : String
  pub next_block : Option ℕ
  pub prev_block : Option ℕ

-- `cached` is `len(nodeCache)`; the nodes at addresses from `next` on are not yet made.
pub record LruCache : Type 0 where
  pub memory : ℕ → LruNode
  pub next : ℕ
  pub node_cache : String → Option ℕ
  pub cached : ℕ
  pub mfu_node : Option ℕ
  pub lru_node : Option ℕ
  pub capacity : ℤ

abbrev pub nothing_yet : LruNode
nothing_yet = record { key = ""; data_ = ""; next_block = none; prev_block = none }

abbrev pub new_lru_cache : ℤ → LruCache
new_lru_cache capacity = record {
  memory = λ a. nothing_yet;
  next = 0;
  node_cache = λ key. none;
  cached = 0;
  mfu_node = none;
  lru_node = none;
  capacity = capacity;
}

-- A field of a nil pointer panics.
abbrev pub deref : Option ℕ → Run ℕ
deref none = panic
deref (some a) = ok a

-- `*a = n`
unfoldable pub write : (ℕ → LruNode) → ℕ → LruNode → ℕ → LruNode
write m a n b = if a == b then n else m b

abbrev pub set_next : (ℕ → LruNode) → ℕ → Option ℕ → ℕ → LruNode
set_next m a q = write m a (record (m a) { next_block = q })

abbrev pub set_prev : (ℕ → LruNode) → ℕ → Option ℕ → ℕ → LruNode
set_prev m a q = write m a (record (m a) { prev_block = q })

abbrev pub set_data : (ℕ → LruNode) → ℕ → String → ℕ → LruNode
set_data m a value = write m a (record (m a) { data_ = value })

-- `p == q` on pointers.
abbrev pub same_node : Option ℕ → Option ℕ → Bool
same_node none none = true
same_node (some a) (some b) = a == b
same_node none (some b) = false
same_node (some a) none = false

-- `len(c.nodeCache) == c.capacity`
abbrev pub is_full : ℕ → ℤ → Bool
is_full n (pos capacity) = n == capacity
is_full n (negsuc capacity) = false

-- `delete(c.nodeCache, key)`
unfoldable pub delete_key : LruCache → String → LruCache
delete_key c key = record c {
  node_cache = λ k. if str_eq key k then none else c.node_cache k;
  cached = elim (c.node_cache key) [ none ↦ c.cached | some a ↦ c.cached - 1 ];
}

-- `c.nodeCache[key] = a`
unfoldable pub insert_key : LruCache → String → ℕ → LruCache
insert_key c key a = record c {
  node_cache = λ k. if str_eq key k then some a else c.node_cache k;
  cached = elim (c.node_cache key) [ none ↦ suc c.cached | some b ↦ c.cached ];
}

-- The LRUNode `a`, with `p` before it, is taken off the list.
abbrev pub cut_last : LruCache → ℕ → ℕ → LruCache
cut_last c a p = record c { lru_node = some p; memory = set_prev (set_next c.memory p none) a none }

-- `re_rank` of the LRUNode.
unfoldable pub unlink_last : LruCache → Run LruCache
unlink_last c = do a ← deref c.lru_node; p ← deref (c.memory a).prev_block; ok (cut_last c a p)

-- `re_rank` of a node in the middle.
unfoldable pub unlink_middle : LruCache → ℕ → Run LruCache
unlink_middle c a = do
  p ← deref (c.memory a).prev_block
  let m1 : ℕ → LruNode = set_next c.memory p (c.memory a).next_block
  q ← deref (m1 a).next_block
  let m2 : ℕ → LruNode = set_prev m1 q (m1 a).prev_block
  ok (record c { memory = set_prev m2 a none })

-- A node off the list becomes the MFUNode.
unfoldable pub promote : LruCache → ℕ → Run LruCache
promote c a = do
  let m1 : ℕ → LruNode = set_next c.memory a c.mfu_node
  f ← deref c.mfu_node
  ok (record c { memory = set_prev m1 f (some a); mfu_node = some a })

unfoldable pub re_rank : LruCache → String → Run LruCache
unfolding unlink_last unlink_middle promote
re_rank c key =
    let move_last = deref (c.node_cache key) >>= λ a. unlink_last c >>= λ c'. promote c' a in
    let move_middle = deref (c.node_cache key) >>= λ a. unlink_middle c a >>= λ c'. promote c' a in
    if same_node c.mfu_node (c.node_cache key)
    then ok c
    else if same_node c.lru_node (c.node_cache key)
    then move_last
    else move_middle

-- The LRUNode `a` is taken off the list: what is before it decides how.
abbrev pub cut : LruCache → ℕ → Option ℕ → LruCache
cut c a none = record c { lru_node = none; mfu_node = none }
cut c a (some p) = cut_last c a p

-- `Put` when the cache is full.
unfoldable pub evict : LruCache → Run LruCache
evict c = do
  a ← deref c.lru_node
  let c' : LruCache = cut c a (c.memory a).prev_block
  ok (delete_key c' (c'.memory a).key)

-- A new node `a` becomes the MFUNode, before the one that was it, if any.
abbrev pub link_first : LruCache → ℕ → Option ℕ → LruCache
link_first c a none = record c { mfu_node = some a; lru_node = some a }
link_first c a (some f) = record c {
  memory = set_prev (set_next c.memory a (some f)) f (some a);
  mfu_node = some a;
}

-- `Put` of a key that is not in the cache, once there is room.
unfoldable pub add_first : LruCache → String → String → LruCache
unfolding insert_key
add_first c key value =
    let a = c.next in
    let node : LruNode = record {
      key = key;
      data_ = value;
      next_block = none;
      prev_block = none;
    } in
    let made : LruCache = record c { memory = write c.memory a node; next = suc a } in
    link_first (insert_key made key a) a c.mfu_node

unfoldable pub put : LruCache → String → String → Run (LruCache × String)
unfolding re_rank evict add_first
put c key value = elim (c.node_cache key) [
  | none ↦
      let room = evict c in
      (if is_full c.cached c.capacity then room else ok c) >>= λ c'.
      ok (add_first c' key value, value)
  | some a ↦ re_rank (record c { memory = set_data c.memory a value }) key >>= λ c'. ok (c', value)
]

unfoldable pub get : LruCache → String → Run (LruCache × String)
unfolding re_rank
get c key = elim (c.node_cache key) [
  | none ↦ ok (c, "NOT FOUND")
  | some a ↦ do c' ← re_rank c key; b ← deref (c'.node_cache key); ok (c', (c'.memory b).data_)
]

-- The loop of `Show`: what `count` is at its end.
unfoldable pub show_from : ℕ → (ℕ → LruNode) → Option ℕ → ℕ → Run ℕ
show_from fuel m none count = ok count
show_from zero m (some a) count = out_of_fuel
show_from (suc fuel) m (some a) count = show_from fuel m (m a).next_block (suc count)

unfoldable pub show : ℕ → LruCache → Run ℕ
unfolding show_from
show fuel c = show_from fuel c.memory c.mfu_node 1
