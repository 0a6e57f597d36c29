-- ===== src/LruCache/Following.antt =====
-- Put and Get of LRU cache/main.go against the keys with their values in the order of their last use.
use low_level_design_in_go.Base.{
  ℕ, suc, ◌≤◌, ◌<◌, ◌≡◌, ◌≢◌, refl, sym, ap, subst, ◌∙◌, String, true, false, none, some, List, [],
  ◌∷◌, ◌++◌, arith, ==_iff, ◌==◌, has, length, length-append, Option-cases, inl, inr, if◌then◌else◌,
}
use low_level_design_in_go.Base.Int.{pos}
use low_level_design_in_go.Base.Run.{
  Run, ok, Returns, returns, Returns-bind, Returns-map, Returns-if, ◌>>=◌,
}
use low_level_design_in_go.LruCache.{
  LruNode, LruCache, set_data, write, put, get, re_rank, evict, add_first, deref, is_full,
}
use low_level_design_in_go.LruCache.Chains.{
  eq_address, Linked-ext, write_self, write-other, write-field,
}
use low_level_design_in_go.LruCache.Unlinking.{Distinct-middle}
use low_level_design_in_go.LruCache.Ranks.{IsRanked, Reranked, reordered, snoc}
use low_level_design_in_go.LruCache.Reranking.{re_rank-Reranked, apart}
use low_level_design_in_go.LruCache.Evicting.{evict-Evicted}
use low_level_design_in_go.LruCache.Adding.{add_first-Added}
use low_level_design_in_go.LruCache.Recency.{
  lookup, forget, drop_last, put_model, get_model, entries, length-entries, entries-same,
  drop_last-entries, lookup-without,
}
use low_level_design_in_go.LruCache.Finding.{Models, absent-IsWithout, find}

-- The node of the key is put in front, with its value in `c`.
front-Models :
    (capacity : ℕ) (l : List (String × String)) (key value : String) (a : ℕ) (zs : List ℕ)
    (c c' : LruCache)
    → Reranked c (a ∷ zs) c'
    → (c.memory a).key ≡ key
    → (c.memory a).data_ ≡ value
    → entries c.memory zs ≡ forget l key
    → c.capacity ≡ pos capacity
    → suc (length zs) ≤ capacity
    → Models capacity ((key, value) ∷ forget l key) c'
front-Models capacity l key value a zs c c' r named valued others limit fits =
    let same = entries-same c.memory c'.memory (a ∷ zs) λ b _. r.kept b in
    record {
      nodes = a ∷ zs;
      ranked = r.ranked;
      shown = same ∙ rw (named, valued, others) refl;
      limit = r.same_capacity ∙ limit;
      fits = fits;
    }

pub get-Follows :
    (capacity : ℕ) (l : List (String × String)) (c : LruCache) (key : String)
    → Models capacity l c
    → Returns
        (λ (c', v). Models capacity (get_model l key).0 c' × (v ≡ (get_model l key).1))
        (get c key)
unfolding get get_model
get-Follows capacity l c key s = elim (Option-cases (c.node_cache key)) [
  | inl absent ↦
      let none_there : lookup l key ≡ none =
        ap (λ l. lookup l key) (sym s.shown)
        ∙ lookup-without c.memory key s.nodes (absent-IsWithout c s.nodes key s.ranked absent) in
      rw (get, get_model, absent, none_there) (returns (s, refl))
  | inr (a, at) ↦
      let f = find c s.nodes key a s.ranked at in
      let there : lookup l key ≡ some (c.memory a).data_ =
        ap (λ l. lookup l key) (sym s.shown) ∙ f.value in
      let after : LruCache → Run (LruCache × String) =
        λ c'. deref (c'.node_cache key) >>= λ b. ok (c', (c'.memory b).data_) in
      let moved : Returns
          (λ (c', v).
            Models capacity ((key, (c.memory a).data_) ∷ forget l key) c'
            × (v ≡ (c.memory a).data_))
          (re_rank c key >>= after) =
        Returns-bind (re_rank-Reranked c key f.before a f.after f.ranked at) λ c' r.
          let at' : c'.node_cache key ≡ some a = ap (λ m. m key) r.same_map ∙ at in
          let models : Models capacity ((key, (c.memory a).data_) ∷ forget l key) c' =
            front-Models capacity l key (c.memory a).data_ a (f.before ++ f.after) c c' r f.named
              refl (sym f.others ∙ ap (λ l. forget l key) s.shown) s.limit
              (omega (arith, s.fits, f.size)) in
          simp at' (returns (models, (r.kept a).1)) in
      rw (get, get_model, at, there) moved
]

-- A cache with room for one more, which has not the key.
pub record Room (capacity : ℕ) (l : List (String × String)) (key : String) (c : LruCache)
    : Type 0 where
  pub nodes : List ℕ
  pub ranked : IsRanked c nodes
  pub shown : entries c.memory nodes ≡ (if length l == capacity then drop_last l else l)
  pub absent : c.node_cache key ≡ none
  pub limit : c.capacity ≡ pos capacity
  pub fits : length nodes < capacity

last_node : (xs : List ℕ) → 0 < length xs → (ls : List ℕ) × (b : ℕ) × (xs ≡ ls ++ b ∷ [])
last_node [] h = elim h [ ]
last_node (x ∷ xs) h = snoc x xs

make-Room :
    (capacity : ℕ) (l : List (String × String)) (c : LruCache) (key : String)
    → 0 < capacity
    → Models capacity l c
    → c.node_cache key ≡ none
    → Returns (Room capacity l key) (if is_full c.cached c.capacity then evict c else ok c)
make-Room capacity l c key some_room s absent =
    let size : length l ≡ length s.nodes =
      ap length (sym s.shown) ∙ length-entries c.memory s.nodes in
    let test : is_full c.cached c.capacity ≡ (length l == capacity) =
      ap (λ k. is_full c.cached k) s.limit
      ∙ ap (λ n. n == capacity) (s.ranked.counted ∙ sym size) in
    Returns-if (is_full c.cached c.capacity)
      (λ full.
        let is_full_l : (length l == capacity) ≡ true = sym test ∙ full in
        let (ls, b, e) =
          last_node s.nodes
            (omega (arith, size, (==_iff (length l) capacity).0 is_full_l, some_room)) in
        Returns-map (evict-Evicted c ls b (subst (IsRanked c) e s.ranked)) λ c' v. record {
          nodes = ls;
          ranked = v.ranked;
          shown =
              entries-same c.memory c'.memory ls (λ b _. v.kept b)
              ∙ sym (drop_last-entries c.memory ls b)
              ∙ ap drop_last (ap (entries c.memory) (sym e) ∙ s.shown)
              ∙ sym (ap (λ t. if t then drop_last l else l) is_full_l);
          absent = v.fewer key absent;
          limit = v.same_capacity ∙ s.limit;
          fits = omega (arith, s.fits, ap length e, length-append ls (b ∷ []));
        })
      λ open_.
        let is_open : (length l == capacity) ≡ false = sym test ∙ open_ in
        let apart : length l ≢ capacity = λ same. ground (arith, is_open, same) in
        returns (record {
          nodes = s.nodes;
          ranked = s.ranked;
          shown = s.shown ∙ sym (ap (λ t. if t then drop_last l else l) is_open);
          absent = absent;
          limit = s.limit;
          fits = omega (arith, s.fits, size, apart);
        })

added-Models :
    (capacity : ℕ) (l : List (String × String)) (key value : String) (c : LruCache)
    → Room capacity l key c
    → Models capacity
        ((key, value) ∷ (if length l == capacity then drop_last l else l))
        (add_first c key value)
added-Models capacity l key value c r =
    let c' = add_first c key value in
    let v = add_first-Added c r.nodes key value r.ranked r.absent in
    let same = entries-same c.memory c'.memory r.nodes v.others in
    record {
      nodes = c.next ∷ r.nodes;
      ranked = v.ranked;
      shown = rw (v.first_key, v.first_data, same, r.shown) refl;
      limit = v.same_capacity ∙ r.limit;
      fits = omega (arith, r.fits);
    }

apart_sym : (a b : ℕ) → (b == a) ≡ false → (a == b) ≡ false
apart_sym a b e = ground (arith, e)

-- A write to another node.
entries-off :
    (m : ℕ → LruNode) (a : ℕ) (n : LruNode) (xs : List ℕ)
    → has a xs ≡ false
    → entries (write m a n) xs ≡ entries m xs
entries-off m a n xs off = entries-same m (write m a n) xs λ b inside.
    let same = write-other m a b n (apart_sym a b (apart a b xs off inside)) in
    (ap (λ r. r.key) same, ap (λ r. r.data_) same)

-- A write of the data of a node leaves the order.
overwritten :
    (c : LruCache) (xs : List ℕ) (a : ℕ) (value : String)
    → IsRanked c xs
    → IsRanked (record c { memory = set_data c.memory a value }) xs
overwritten c xs a value v =
    let m = c.memory in
    let n = record (m a) { data_ = value } in
    reordered c (record c { memory = write m a n }) xs xs v
      (Linked-ext m (write m a n) none none xs
        (λ b. (
          write-field (λ r. r.prev_block) m a n refl b,
          write-field (λ r. r.next_block) m a n refl b,
        ))
        v.linked)
      v.distinct v.mfu v.lru (λ b. refl) refl (write-field (λ r. r.key) m a n refl) refl refl refl

pub put-Follows :
    (capacity : ℕ) (l : List (String × String)) (c : LruCache) (key value : String)
    → 0 < capacity
    → Models capacity l c
    → Returns
        (λ (c', v). Models capacity (put_model capacity l key value) c' × (v ≡ value))
        (put c key value)
unfolding put put_model
put-Follows capacity l c key value some_room s = elim (Option-cases (c.node_cache key)) [
  | inl absent ↦
      let none_there : lookup l key ≡ none =
        ap (λ l. lookup l key) (sym s.shown)
        ∙ lookup-without c.memory key s.nodes (absent-IsWithout c s.nodes key s.ranked absent) in
      rw (put, put_model, absent, none_there)
        (Returns-bind (make-Room capacity l c key some_room s absent)
          λ c' r. returns (added-Models capacity l key value c' r, refl))
  | inr (a, at) ↦
      let f = find c s.nodes key a s.ranked at in
      let there : lookup l key ≡ some (c.memory a).data_ =
        ap (λ l. lookup l key) (sym s.shown) ∙ f.value in
      let c0 = record c { memory = set_data c.memory a value } in
      let self = write_self c.memory a (record (c.memory a) { data_ = value }) in
      let off = (Distinct-middle f.before a f.after f.ranked.distinct).0 in
      rw (put, put_model, at, there)
        (Returns-bind
          (re_rank-Reranked c0 key f.before a f.after
            (overwritten c (f.before ++ a ∷ f.after) a value f.ranked) at)
          λ c' r. returns (
            front-Models capacity l key value a (f.before ++ f.after) c0 c' r
                (ap (λ n. n.key) self ∙ f.named) (ap (λ n. n.data_) self)
                (entries-off c.memory a (record (c.memory a) { data_ = value })
                    (f.before ++ f.after) off
                  ∙ sym f.others
                  ∙ ap (λ l. forget l key) s.shown)
                s.limit (omega (arith, s.fits, f.size)),
            refl,
          ))
]
