-- ===== src/LruCache/Finding.antt =====
-- The nodes of LRU cache/main.go as keys with their values, and the node of a key among them.
use low_level_design_in_go.Base.{
  ℕ, suc, ◌≤◌, ◌≡◌, sym, ap, subst, ◌∙◌, String, true, false, none, some, List, ◌∷◌, ◌++◌, arith,
  has, has-append, length, length-append, Bool-cases, inl, inr, str_eq, str_eq_iff,
}
use low_level_design_in_go.Base.Int.{pos}
use low_level_design_in_go.LruCache.{LruCache}
use low_level_design_in_go.LruCache.Chains.{eq_address}
use low_level_design_in_go.LruCache.Unlinking.{Distinct-middle}
use low_level_design_in_go.LruCache.Ranks.{IsRanked}
use low_level_design_in_go.LruCache.Recency.{
  lookup, forget, entries, IsWithout, lookup-at, forget-at, has-split,
}

-- The cache holds these keys and values, the most recently used one first, and no more than its capacity.
pub record Models (capacity : ℕ) (l : List (String × String)) (c : LruCache) : Type 0 where
  pub nodes : List ℕ
  pub ranked : IsRanked c nodes
  pub shown : entries c.memory nodes ≡ l
  pub limit : c.capacity ≡ pos capacity
  pub fits : length nodes ≤ capacity

-- A key that the map has not is no node's.
pub absent-IsWithout :
    (c : LruCache) (xs : List ℕ) (key : String)
    → IsRanked c xs
    → c.node_cache key ≡ none
    → IsWithout c.memory key xs
absent-IsWithout c xs key v absent b m = elim (Bool-cases (str_eq (c.memory b).key key)) [
  | inl same ↦
      let none_some : none ≡ some b =
        sym absent
        ∙ ap c.node_cache (sym ((str_eq_iff (c.memory b).key key).0 same))
        ∙ v.found b m in
      ground (arith, none_some)
  | inr other ↦ other
]

-- The key of a node is no other node's.
present-IsWithout :
    (c : LruCache) (ls : List ℕ) (a : ℕ) (rs : List ℕ) (key : String)
    → IsRanked c (ls ++ a ∷ rs)
    → c.node_cache key ≡ some a
    → IsWithout c.memory key (ls ++ rs)
unfolding has
present-IsWithout c ls a rs key v at b m = elim (Bool-cases (str_eq (c.memory b).key key)) [
  | inl same ↦
      let inside : has b (ls ++ a ∷ rs) ≡ true =
        ground (arith, m, has-append b ls rs, has-append b ls (a ∷ rs)) in
      let s : some a ≡ some b =
        sym at
        ∙ ap c.node_cache (sym ((str_eq_iff (c.memory b).key key).0 same))
        ∙ v.found b inside in
      let a_b : a ≡ b = ap (λ o. elim o [ none ↦ a | some x ↦ x ]) s in
      let off : has b (ls ++ rs) ≡ false =
        subst (λ x. has x (ls ++ rs) ≡ false) a_b (Distinct-middle ls a rs v.distinct).0 in
      ground (arith, m, off)
  | inr other ↦ other
]

-- The node of a key that the map has.
pub record Found (c : LruCache) (xs : List ℕ) (key : String) (a : ℕ) : Type 0 where
  pub before : List ℕ
  pub after : List ℕ
  pub order : xs ≡ before ++ a ∷ after
  pub ranked : IsRanked c (before ++ a ∷ after)
  pub named : (c.memory a).key ≡ key
  pub alone : IsWithout c.memory key (before ++ after)
  pub value : lookup (entries c.memory xs) key ≡ some (c.memory a).data_
  pub others : forget (entries c.memory xs) key ≡ entries c.memory (before ++ after)
  pub size : length xs ≡ suc (length (before ++ after))

pub find :
    (c : LruCache) (xs : List ℕ) (key : String) (a : ℕ)
    → IsRanked c xs
    → c.node_cache key ≡ some a
    → Found c xs key a
find c xs key a v at =
    let (m, named) = v.listed key a at in
    let (ls, rs, e) = has-split a xs m in
    let ranked : IsRanked c (ls ++ a ∷ rs) = subst (IsRanked c) e v in
    let alone : IsWithout c.memory key (ls ++ rs) = present-IsWithout c ls a rs key ranked at in
    record {
      before = ls;
      after = rs;
      order = e;
      ranked = ranked;
      named = named;
      alone = alone;
      value =
          ap (λ ys. lookup (entries c.memory ys) key) e
          ∙ lookup-at c.memory key ls a rs alone named;
      others =
          ap (λ ys. forget (entries c.memory ys) key) e
          ∙ forget-at c.memory key ls a rs alone named;
      size = ap length e ∙ omega (arith, length-append ls (a ∷ rs), length-append ls rs);
    }
