-- ===== src/LruCache/Reranking.antt =====
-- `re_rank` of LRU cache/main.go on a cache in order.
use low_level_design_in_go.Base.{
  ℕ, ◌≡◌, refl, sym, ap, subst, ◌∙◌, String, true, false, Option, none, some, List, [], ◌∷◌, ◌++◌,
  arith, ==_iff, ◌==◌, has, has-append, Distinct, length-append, Bool-cases, inl, inr,
}
use low_level_design_in_go.Base.Run.{Returns, returns, Returns-bind, Returns-map}
use low_level_design_in_go.LruCache.{
  LruCache, promote, re_rank, same_node, unlink_last, unlink_middle,
}
use low_level_design_in_go.LruCache.Chains.{eq_address, last_or, last_or-append}
use low_level_design_in_go.LruCache.Unlinking.{
  Kept, Kept-trans, Distinct-middle, Unlinked, unlink_last-Unlinked, unlink_middle-Unlinked,
}
use low_level_design_in_go.LruCache.Ranks.{IsRanked, Reranked, promote-Promoted, reordered, snoc}

pub Distinct-left : (xs ys : List ℕ) → Distinct (xs ++ ys) → Distinct xs
Distinct-left [] ys d = _
Distinct-left (x ∷ xs) ys (off, d) =
    (ground (arith, off, has-append x xs ys), Distinct-left xs ys d)

append_last : (xs : List ℕ) (p : ℕ) (ys : List ℕ) → (xs ++ p ∷ []) ++ ys ≡ xs ++ p ∷ ys
append_last [] p ys = refl
append_last (x ∷ xs) p ys = ap (λ zs. x ∷ zs) (append_last xs p ys)

pub last_off : (ls : List ℕ) (p : ℕ) → Distinct (ls ++ p ∷ []) → has p ls ≡ false
unfolding has
last_off ls p d = ground (arith, (Distinct-middle ls p [] d).0, has-append p ls [])

pub last-Unlinked :
    (c : LruCache) (ls : List ℕ) (p a : ℕ)
    → IsRanked c ((ls ++ p ∷ []) ++ a ∷ [])
    → Returns (Unlinked c a (ls ++ p ∷ [])) (unlink_last c)
last-Unlinked c ls p a v =
    unlink_last-Unlinked c ls p a (last_off ls p (Distinct-left (ls ++ p ∷ []) (a ∷ []) v.distinct))
      (last_off (ls ++ p ∷ []) a v.distinct) (v.lru ∙ last_or-append (ls ++ p ∷ []) (a ∷ []) none)
      v.linked

middle-Unlinked :
    (c : LruCache) (ls : List ℕ) (p a q : ℕ) (rs : List ℕ)
    → IsRanked c ((ls ++ p ∷ []) ++ a ∷ q ∷ rs)
    → Returns (Unlinked c a ((ls ++ p ∷ []) ++ q ∷ rs)) (unlink_middle c a)
unfolding has
middle-Unlinked c ls p a q rs v =
    let zs = ls ++ p ∷ [] in
    let (a_off, d1) = Distinct-middle zs a (q ∷ rs) v.distinct in
    let (q_off, d2) = Distinct-middle zs q rs d1 in
    let (p_off, _) = Distinct-middle ls p rs (subst Distinct (append_last ls p rs) d2) in
    let q_zs : has q (ls ++ p ∷ []) ≡ false =
      ground (arith, q_off, has-append q (ls ++ p ∷ []) rs) in
    unlink_middle-Unlinked c ls p a q rs (ground (arith, p_off, has-append p ls rs))
      (ground (arith, p_off, has-append p ls rs, q_zs, has-append q ls (p ∷ []))) q_zs
      (ground (arith, q_off, has-append q (ls ++ p ∷ []) rs))
      (ground (arith, a_off, has-append a (ls ++ p ∷ []) (q ∷ rs)))
      (ground (arith, a_off, has-append a (ls ++ p ∷ []) (q ∷ rs)))
      (v.lru ∙ last_or-append (ls ++ p ∷ []) (a ∷ q ∷ rs) none) v.linked

promote-Reranked :
    (c c1 : LruCache) (x : ℕ) (ls : List ℕ) (a : ℕ) (rs : List ℕ)
    → IsRanked c (x ∷ ls ++ a ∷ rs)
    → Unlinked c a (x ∷ ls ++ rs) c1
    → Returns (Reranked c (a ∷ x ∷ ls ++ rs)) (promote c1 a)
unfolding has
promote-Reranked c c1 x ls a rs v u =
    let (off, d) = Distinct-middle (x ∷ ls) a rs v.distinct in
    Returns-map
      (promote-Promoted c1 a x (ls ++ rs) off d.0 u.free (u.mfu (omega arith) ∙ v.mfu) u.linked)
      λ c2 w.
        let kept : Kept c.memory c2.memory =
          Kept-trans c.memory c1.memory c2.memory u.kept w.kept in
        record {
          ranked =
              reordered c c2 (x ∷ ls ++ a ∷ rs) (a ∷ x ∷ ls ++ rs) v w.linked (off, d) w.mfu
                (w.lru ∙ u.lru) (λ b. ground (arith, has-append b ls (a ∷ rs), has-append b ls rs))
                (omega (arith, length-append ls (a ∷ rs), length-append ls rs)) (λ b. (kept b).0)
                (w.same_map ∙ u.same_map) (w.same_next ∙ u.same_next) (w.same_count ∙ u.same_count);
          kept = kept;
          same_map = w.same_map ∙ u.same_map;
          same_capacity = w.same_capacity ∙ u.same_capacity;
        }

-- The last node of a list is one of its nodes.
last_in :
    (x : ℕ) (xs : List ℕ) (p : Option ℕ)
    → (b : ℕ) × (last_or (x ∷ xs) p ≡ some b) × (has b (x ∷ xs) ≡ true)
unfolding has
last_in x [] p = (x, refl, ground (arith, ==_iff x x))
last_in x (y ∷ ys) p = let (b, e, m) = last_in y ys (some x) in (b, e, ground (arith, m))

pub append_none : (xs : List ℕ) → xs ++ [] ≡ xs
append_none [] = refl
append_none (x ∷ xs) = ap (λ zs. x ∷ zs) (append_none xs)

pub apart : (a b : ℕ) (xs : List ℕ) → has a xs ≡ false → has b xs ≡ true → (b == a) ≡ false
apart a b xs off inside = elim (Bool-cases (b == a)) [
  | inl same ↦
      let e : has a xs ≡ true = subst (λ c. has c xs ≡ true) ((==_iff b a).0 same) inside in
      ground (arith, off, e)
  | inr other ↦ other
]

-- `re_rank` of a key in the cache moves its node to the front.
pub re_rank-Reranked :
    (c : LruCache) (key : String) (ls : List ℕ) (a : ℕ) (rs : List ℕ)
    → IsRanked c (ls ++ a ∷ rs)
    → c.node_cache key ≡ some a
    → Returns (Reranked c (a ∷ ls ++ rs)) (re_rank c key)
unfolding re_rank has
re_rank-Reranked c key [] a rs v at =
    let first : same_node c.mfu_node (c.node_cache key) ≡ true =
      rw (v.mfu, at) ((==_iff a a).1 refl) in
    rw first (
      returns
        (record { ranked = v; kept = λ b. (refl, refl); same_map = refl; same_capacity = refl }))
re_rank-Reranked c key (x ∷ ls) a [] v at =
    let (off, _) = Distinct-middle (x ∷ ls) a [] v.distinct in
    let first : same_node c.mfu_node (some a) ≡ false = rw v.mfu (ground (arith, off)) in
    let last : same_node c.lru_node (some a) ≡ true =
      rw (v.lru ∙ last_or-append (x ∷ ls) (a ∷ []) none) ((==_iff a a).1 refl) in
    let (zs, p, e) = snoc x ls in
    let cut =
      subst (λ zs. IsRanked c (zs ++ a ∷ []) → Returns (Unlinked c a (zs ++ [])) (unlink_last c))
        (sym e)
        (λ v'.
          subst (λ ys. Returns (Unlinked c a ys) (unlink_last c)) (sym (append_none (zs ++ p ∷ [])))
            (last-Unlinked c zs p a v'))
        v in
    simp (at, first, last) (Returns-bind cut λ c1 u. promote-Reranked c c1 x ls a [] v u)
re_rank-Reranked c key (x ∷ ls) a (q ∷ rs) v at =
    let (off, _) = Distinct-middle (x ∷ ls) a (q ∷ rs) v.distinct in
    let first : same_node c.mfu_node (some a) ≡ false = rw v.mfu (ground (arith, off)) in
    let (b, is_last, inside) = last_in q rs none in
    let last : same_node c.lru_node (some a) ≡ false =
      rw (v.lru ∙ last_or-append (x ∷ ls) (a ∷ q ∷ rs) none ∙ is_last)
        (apart a b (q ∷ rs) (ground (arith, off, has-append a ls (q ∷ rs))) inside) in
    let (zs, p, e) = snoc x ls in
    let cut =
      subst
        (λ zs.
          IsRanked c (zs ++ a ∷ q ∷ rs) → Returns (Unlinked c a (zs ++ q ∷ rs)) (unlink_middle c a))
        (sym e) (middle-Unlinked c zs p a q rs) v in
    simp (at, first, last) (Returns-bind cut λ c1 u. promote-Reranked c c1 x ls a (q ∷ rs) v u)
