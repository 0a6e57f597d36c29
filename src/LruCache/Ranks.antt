-- ===== src/LruCache/Ranks.antt =====
-- The cache of LRU cache/main.go as its nodes in the order of their last use, and what `re_rank` does
-- to that order.
use low_level_design_in_go.Base.{
  ℕ, ◌<◌, ◌≡◌, refl, sym, ap, subst, ◌∙◌, String, true, false, none, some, List, [], ◌∷◌, ◌++◌,
  arith, has, Distinct, length,
}
use low_level_design_in_go.Base.Run.{Returns, returns}
use low_level_design_in_go.LruCache.{LruNode, LruCache, write, set_next, set_prev, promote}
use low_level_design_in_go.LruCache.Chains.{
  eq_address, first_or, last_or, Linked, write-other, write_self, Linked-write, Linked-set_prev,
}
use low_level_design_in_go.LruCache.Unlinking.{Kept, Kept-trans, Kept-write}

-- The nodes `xs`, from the MFUNode to the LRUNode, are the cache: they are linked in this order, and the
-- map has each of them under its key, and no other node.
pub record IsRanked (c : LruCache) (xs : List ℕ) : Type 0 where
  pub linked : Linked c.memory none xs none
  pub distinct : Distinct xs
  pub mfu : c.mfu_node ≡ first_or xs none
  pub lru : c.lru_node ≡ last_or xs none
  pub listed :
      (k : String) (a : ℕ) → c.node_cache k ≡ some a → (has a xs ≡ true) × ((c.memory a).key ≡ k)
  pub found : (a : ℕ) → has a xs ≡ true → c.node_cache (c.memory a).key ≡ some a
  pub made : (a : ℕ) → has a xs ≡ true → a < c.next
  pub counted : c.cached ≡ length xs

-- `c'` has the nodes of `c`, in the order `ys`.
pub record Reranked (c : LruCache) (ys : List ℕ) (c' : LruCache) : Type 0 where
  pub ranked : IsRanked c' ys
  pub kept : Kept c.memory c'.memory
  pub same_map : c'.node_cache ≡ c.node_cache
  pub same_capacity : c'.capacity ≡ c.capacity

pub record Promoted (c : LruCache) (a : ℕ) (zs : List ℕ) (c' : LruCache) : Type 0 where
  pub linked : Linked c'.memory none (a ∷ zs) none
  pub mfu : c'.mfu_node ≡ some a
  pub lru : c'.lru_node ≡ c.lru_node
  pub kept : Kept c.memory c'.memory
  pub same_map : c'.node_cache ≡ c.node_cache
  pub same_next : c'.next ≡ c.next
  pub same_count : c'.cached ≡ c.cached
  pub same_capacity : c'.capacity ≡ c.capacity

-- The memory once a node off the list, with no link back, is put before the first node.
pub put_before :
    (m : ℕ → LruNode) (a f : ℕ) (fs : List ℕ)
    → has a (f ∷ fs) ≡ false
    → has f fs ≡ false
    → (m a).prev_block ≡ none
    → Linked m none (f ∷ fs) none
    → Linked (set_prev (set_next m a (some f)) f (some a)) none (a ∷ f ∷ fs) none
unfolding has
put_before m a f fs off_a off_f free l =
    let n1 = record (m a) { next_block = some f } in
    let m1 = write m a n1 in
    let n2 = record (m1 f) { prev_block = some a } in
    let same : write m1 f n2 a ≡ n1 =
      write-other m1 f a n2 (ground (arith, off_a)) ∙ write_self m a n1 in
    (
      ap (λ n. n.prev_block) same ∙ free,
      ap (λ n. n.next_block) same,
      Linked-set_prev m1 none none (some a) f fs off_f
          (Linked-write m none none a n1 (f ∷ fs) off_a l),
    )

pub promote-Promoted :
    (c : LruCache) (a f : ℕ) (fs : List ℕ)
    → has a (f ∷ fs) ≡ false
    → has f fs ≡ false
    → (c.memory a).prev_block ≡ none
    → c.mfu_node ≡ some f
    → Linked c.memory none (f ∷ fs) none
    → Returns (Promoted c a (f ∷ fs)) (promote c a)
unfolding promote
promote-Promoted c a f fs off_a off_f free mfu l =
    let m = c.memory in
    let n1 = record (m a) { next_block = some f } in
    let m1 = write m a n1 in
    let m2 = set_prev m1 f (some a) in
    let done : Promoted c a (f ∷ fs) (record c { memory = m2; mfu_node = some a }) = record {
      linked = put_before m a f fs off_a off_f free l;
      mfu = refl;
      lru = refl;
      kept = Kept-trans m m1 m2 (Kept-write m a n1 refl refl) (Kept-write m1 f _ refl refl);
      same_map = refl;
      same_next = refl;
      same_count = refl;
      same_capacity = refl;
    } in
    simp mfu (returns done)

-- The same nodes in another order.
pub reordered :
    (c c' : LruCache) (xs ys : List ℕ)
    → IsRanked c xs
    → Linked c'.memory none ys none
    → Distinct ys
    → c'.mfu_node ≡ first_or ys none
    → c'.lru_node ≡ last_or ys none
    → ((b : ℕ) → has b ys ≡ has b xs)
    → length ys ≡ length xs
    → ((b : ℕ) → (c'.memory b).key ≡ (c.memory b).key)
    → c'.node_cache ≡ c.node_cache
    → c'.next ≡ c.next
    → c'.cached ≡ c.cached
    → IsRanked c' ys
reordered c c' xs ys v l d mfu lru same size kept same_map same_next same_count = record {
  linked = l;
  distinct = d;
  mfu = mfu;
  lru = lru;
  listed = λ k a e.
      let (m, named) = v.listed k a (sym (ap (λ f. f k) same_map) ∙ e) in
      (same a ∙ m, kept a ∙ named);
  found = λ a m.
      ap (λ f. f (c'.memory a).key) same_map
      ∙ ap c.node_cache (kept a)
      ∙ v.found a (sym (same a) ∙ m);
  made = λ a m. subst (λ n. a < n) (sym same_next) (v.made a (sym (same a) ∙ m));
  counted = same_count ∙ v.counted ∙ sym size;
}

pub snoc : (x : ℕ) (xs : List ℕ) → (ls : List ℕ) × (p : ℕ) × (x ∷ xs ≡ ls ++ p ∷ [])
snoc x [] = ([], x, refl)
snoc x (y ∷ ys) = let (ls, p, e) = snoc y ys in (x ∷ ls, p, ap (λ zs. x ∷ zs) e)
