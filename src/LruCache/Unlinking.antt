-- ===== src/LruCache/Unlinking.antt =====
-- `re_rank` of LRU cache/main.go: a node is taken off the list and put before the first one.
use low_level_design_in_go.Base.{
  ℕ, ◌≡◌, refl, sym, ap, ◌∙◌, false, none, some, List, [], ◌∷◌, ◌++◌, arith, has, has-append,
  Distinct, length, ◌<◌,
}
use low_level_design_in_go.Base.Run.{Returns, returns}
use low_level_design_in_go.LruCache.{
  LruNode, LruCache, write, set_next, set_prev, unlink_last, unlink_middle, cut_last,
}
use low_level_design_in_go.LruCache.Chains.{
  eq_address, last_or, last_or-append, Linked, Linked-append, Linked-split, write-other,
  write-field, write_self, Linked-write, Linked-set_next, Linked-set_prev,
}

-- The keys and the data of the nodes are the same.
abbrev pub Kept : (ℕ → LruNode) → (ℕ → LruNode) → Type 0
Kept m m' = (b : ℕ) → ((m' b).key ≡ (m b).key) × ((m' b).data_ ≡ (m b).data_)

pub Kept-trans : (m m' m'' : ℕ → LruNode) → Kept m m' → Kept m' m'' → Kept m m''
Kept-trans m m' m'' k l b = ((l b).0 ∙ (k b).0, (l b).1 ∙ (k b).1)

pub Kept-write :
    (m : ℕ → LruNode) (a : ℕ) (n : LruNode)
    → n.key ≡ (m a).key
    → n.data_ ≡ (m a).data_
    → Kept m (write m a n)
Kept-write m a n key content b =
    (write-field (λ r. r.key) m a n key b, write-field (λ r. r.data_) m a n content b)

pub Distinct-middle :
    (ls : List ℕ) (a : ℕ) (rs : List ℕ)
    → Distinct (ls ++ a ∷ rs)
    → (has a (ls ++ rs) ≡ false) × Distinct (ls ++ rs)
unfolding has
Distinct-middle [] a rs d = d
Distinct-middle (x ∷ ls) a rs (off, d) =
    let (gone, rest) = Distinct-middle ls a rs d in
    (
      ground (arith, gone, off, has-append x ls (a ∷ rs)),
      (ground (arith, off, has-append x ls (a ∷ rs), has-append x ls rs), rest),
    )

-- `c'` is `c` with the node `a` off the list, which is `zs`.
pub record Unlinked (c : LruCache) (a : ℕ) (zs : List ℕ) (c' : LruCache) : Type 0 where
  pub linked : Linked c'.memory none zs none
  pub free : (c'.memory a).prev_block ≡ none
  pub lru : c'.lru_node ≡ last_or zs none
  pub mfu : 0 < length zs → c'.mfu_node ≡ c.mfu_node
  pub kept : Kept c.memory c'.memory
  pub same_map : c'.node_cache ≡ c.node_cache
  pub same_next : c'.next ≡ c.next
  pub same_count : c'.cached ≡ c.cached
  pub same_capacity : c'.capacity ≡ c.capacity

-- The memory once the last node `a` is cut off from `p` before it.
pub cut_last-Unlinked :
    (c : LruCache) (ls : List ℕ) (p a : ℕ)
    → has p ls ≡ false
    → has a (ls ++ p ∷ []) ≡ false
    → Linked c.memory none (ls ++ p ∷ []) (some a)
    → Unlinked c a (ls ++ p ∷ []) (cut_last c a p)
cut_last-Unlinked c ls p a off_p off l =
    let m = c.memory in
    let m1 = set_next m p none in
    let l1 : Linked m1 none (ls ++ p ∷ []) none =
      Linked-set_next m none (some a) none ls p off_p l in
    record {
      linked =
          Linked-write m1 none none a (record (m1 a) { prev_block = none }) (ls ++ p ∷ []) off l1;
      free = ap (λ r. r.prev_block) (write_self m1 a (record (m1 a) { prev_block = none }));
      lru = sym (last_or-append ls (p ∷ []) none);
      mfu = λ _. refl;
      kept =
          Kept-trans m m1 (set_prev m1 a none) (Kept-write m p _ refl refl)
            (Kept-write m1 a _ refl refl);
      same_map = refl;
      same_next = refl;
      same_count = refl;
      same_capacity = refl;
    }

pub unlink_last-Unlinked :
    (c : LruCache) (ls : List ℕ) (p a : ℕ)
    → has p ls ≡ false
    → has a (ls ++ p ∷ []) ≡ false
    → c.lru_node ≡ some a
    → Linked c.memory none ((ls ++ p ∷ []) ++ a ∷ []) none
    → Returns (Unlinked c a (ls ++ p ∷ [])) (unlink_last c)
unfolding unlink_last
unlink_last-Unlinked c ls p a off_p off lru l =
    let (left, links) = Linked-split c.memory none none (ls ++ p ∷ []) (a ∷ []) l in
    let at : (c.memory a).prev_block ≡ some p = links.0 ∙ last_or-append ls (p ∷ []) none in
    simp (lru, at) (returns (cut_last-Unlinked c ls p a off_p off left))

pub unlink_middle-Unlinked :
    (c : LruCache) (ls : List ℕ) (p a q : ℕ) (rs : List ℕ)
    → has p ls ≡ false
    → has p (q ∷ rs) ≡ false
    → has q (ls ++ p ∷ []) ≡ false
    → has q rs ≡ false
    → has a (ls ++ p ∷ []) ≡ false
    → has a (q ∷ rs) ≡ false
    → c.lru_node ≡ last_or (q ∷ rs) none
    → Linked c.memory none ((ls ++ p ∷ []) ++ a ∷ q ∷ rs) none
    → Returns (Unlinked c a ((ls ++ p ∷ []) ++ q ∷ rs)) (unlink_middle c a)
unfolding unlink_middle has
unlink_middle-Unlinked c ls p a q rs p_ls p_rs q_ls q_rs a_ls a_rs lru l =
    let m = c.memory in
    let (left, links) = Linked-split m none none (ls ++ p ∷ []) (a ∷ q ∷ rs) l in
    let after : (m a).next_block ≡ some q = links.1 in
    let right : Linked m (some a) (q ∷ rs) none = links.2 in
    let prev : (m a).prev_block ≡ some p = links.0 ∙ last_or-append ls (p ∷ []) none in
    let m1 = set_next m p (some q) in
    let same1 : m1 a ≡ m a =
      write-other m p a (record (m p) { next_block = some q })
        (ground (arith, a_ls, has-append a ls (p ∷ []))) in
    let next1 : (m1 a).next_block ≡ some q = ap (λ n. n.next_block) same1 ∙ after in
    let prev1 : (m1 a).prev_block ≡ some p = ap (λ n. n.prev_block) same1 ∙ prev in
    let m2 = set_prev m1 q (some p) in
    let n1 = record (m p) { next_block = some q } in
    let left1 : Linked m1 none (ls ++ p ∷ []) (some q) =
      Linked-set_next m none (some a) (some q) ls p p_ls left in
    let right1 : Linked m1 (some a) (q ∷ rs) none =
      Linked-write m (some a) none p n1 (q ∷ rs) p_rs right in
    let left2 : Linked m2 none (ls ++ p ∷ []) (some q) =
      Linked-write m1 none (some q) q (record (m1 q) { prev_block = some p }) (ls ++ p ∷ []) q_ls
        left1 in
    let right2 : Linked m2 (some p) (q ∷ rs) none =
      Linked-set_prev m1 (some a) none (some p) q rs q_rs right1 in
    let n3 = record (m2 a) { prev_block = none } in
    let m3 = write m2 a n3 in
    let left3 : Linked m3 none (ls ++ p ∷ []) (some q) =
      Linked-write m2 none (some q) a n3 (ls ++ p ∷ []) a_ls left2 in
    let right3 : Linked m3 (some p) (q ∷ rs) none =
      Linked-write m2 (some p) none a n3 (q ∷ rs) a_rs right2 in
    let joined : Linked m3 none ((ls ++ p ∷ []) ++ q ∷ rs) none =
      Linked-append m3 none none (ls ++ p ∷ []) (q ∷ rs) left3
        (rw (last_or-append ls (p ∷ []) none) right3) in
    let done : Unlinked c a ((ls ++ p ∷ []) ++ q ∷ rs) (record c { memory = m3 }) = record {
      linked = joined;
      free = ap (λ r. r.prev_block) (write_self m2 a n3);
      lru = lru ∙ sym (last_or-append (ls ++ p ∷ []) (q ∷ rs) none);
      mfu = λ _. refl;
      kept =
          Kept-trans m m2 m3
            (Kept-trans m m1 m2 (Kept-write m p n1 refl refl)
              (Kept-write m1 q (record (m1 q) { prev_block = some p }) refl refl))
            (Kept-write m2 a n3 refl refl);
      same_map = refl;
      same_next = refl;
      same_count = refl;
      same_capacity = refl;
    } in
    rw (prev, after, next1, prev1) (returns done)
