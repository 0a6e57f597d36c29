-- ===== src/LruCache/Evicting.antt =====
-- `Put` of LRU cache/main.go on a full cache: its last node is taken out.
use low_level_design_in_go.Base.{
  ℕ, ◌<◌, ◌≡◌, ◌≢◌, refl, sym, ap, subst, ◌∙◌, String, Bool, true, false, Option, none, some, List,
  [], ◌∷◌, ◌++◌, arith, ==_iff, has, has-append, length-append, str_eq, str_eq_iff, if◌then◌else◌,
  if_cases,
}
use low_level_design_in_go.Base.Run.{Returns, returns}
use low_level_design_in_go.LruCache.{LruCache, cut_last, delete_key, evict}
use low_level_design_in_go.LruCache.Chains.{
  eq_address, first_or, first_or-append, last_or-append, Linked-split,
}
use low_level_design_in_go.LruCache.Unlinking.{Kept, Unlinked, cut_last-Unlinked}
use low_level_design_in_go.LruCache.Ranks.{IsRanked, snoc}
use low_level_design_in_go.LruCache.Reranking.{Distinct-left, last_off}

-- What is left of a cache without its last node `b`.
pub record Evicted (c : LruCache) (ls : List ℕ) (b : ℕ) (c' : LruCache) : Type 0 where
  pub ranked : IsRanked c' ls
  pub kept : Kept c.memory c'.memory
  pub same_capacity : c'.capacity ≡ c.capacity
  pub fewer : (k : String) → c.node_cache k ≡ none → c'.node_cache k ≡ none

pub has_left : (a : ℕ) (ls ys : List ℕ) → has a ls ≡ true → has a (ls ++ ys) ≡ true
has_left a ls ys m = ground (arith, m, has-append a ls ys)

has_last : (ls : List ℕ) (b : ℕ) → has b (ls ++ b ∷ []) ≡ true
unfolding has
has_last [] b = ground (arith, ==_iff b b)
has_last (x ∷ ls) b = ground (arith, has_last ls b)

has_other : (a : ℕ) (ls : List ℕ) (b : ℕ) → has a (ls ++ b ∷ []) ≡ true → a ≢ b → has a ls ≡ true
unfolding has
has_other a ls b m other = ground (arith, m, other, has-append a ls (b ∷ []), ==_iff b a)

not_deleted :
    (b : Bool) (o : Option ℕ) (a : ℕ)
    → (if b then none else o) ≡ some a
    → (b ≡ false) × (o ≡ some a)
not_deleted true o a e = ground (arith, e)
not_deleted false o a e = (refl, e)

-- The key of the node that is off the list is deleted from the map.
delete_key-Evicted :
    (c c1 : LruCache) (ls : List ℕ) (b : ℕ)
    → IsRanked c (ls ++ b ∷ [])
    → Unlinked c b ls c1
    → c1.mfu_node ≡ first_or ls none
    → Evicted c ls b (delete_key c1 (c1.memory b).key)
unfolding delete_key has
delete_key-Evicted c c1 ls b v u mfu =
    let key = (c1.memory b).key in
    let at : c1.node_cache key ≡ some b =
      ap (λ f. f key) u.same_map ∙ ap c.node_cache (u.kept b).0 ∙ v.found b (has_last ls b) in
    record {
      ranked = record {
        linked = u.linked;
        distinct = Distinct-left ls (b ∷ []) v.distinct;
        mfu = mfu;
        lru = u.lru;
        listed = λ k a e.
            let (other, still) = not_deleted (str_eq key k) (c1.node_cache k) a e in
            let (m, named) = v.listed k a (sym (ap (λ f. f k) u.same_map) ∙ still) in
            let name : (c1.memory a).key ≡ k = (u.kept a).0 ∙ named in
            let unlike : a ≢ b = λ s.
              ground
                (arith, other, (str_eq_iff key k).1 (ap (λ x. (c1.memory x).key) (sym s) ∙ name)) in
            (has_other a ls b m unlike, name);
        found = λ a m.
            let inside = has_left a ls (b ∷ []) m in
            let still : c1.node_cache (c1.memory a).key ≡ some a =
              ap (λ f. f (c1.memory a).key) u.same_map
              ∙ ap c.node_cache (u.kept a).0
              ∙ v.found a inside in
            if_cases (λ o. o ≡ some a) (str_eq key (c1.memory a).key)
              (λ same.
                let s : some b ≡ some a =
                  sym at ∙ ap c1.node_cache ((str_eq_iff key (c1.memory a).key).0 same) ∙ still in
                let off : has a ls ≡ false =
                  subst (λ x. has x ls ≡ false) (ap (λ o. elim o [ none ↦ b | some x ↦ x ]) s)
                    (last_off ls b v.distinct) in
                ground (arith, m, off))
              λ other. still;
        made = λ a m. subst (λ n. a < n) (sym u.same_next) (v.made a (has_left a ls (b ∷ []) m));
        counted = rw at (omega (arith, u.same_count, v.counted, length-append ls (b ∷ [])));
      };
      kept = u.kept;
      same_capacity = u.same_capacity;
      fewer = λ k e.
          if_cases (λ o. o ≡ none) (str_eq key k) (λ _. refl) λ _. ap (λ f. f k) u.same_map ∙ e;
    }

first_fixed :
    (ls : List ℕ) (p : ℕ) (q r : Option ℕ) → first_or (ls ++ p ∷ []) q ≡ first_or (ls ++ p ∷ []) r
first_fixed [] p q r = refl
first_fixed (x ∷ ls) p q r = refl

-- The only node.
evict_only : (c : LruCache) (b : ℕ) → IsRanked c (b ∷ []) → Returns (Evicted c [] b) (evict c)
unfolding evict
evict_only c b v =
    let before : (c.memory b).prev_block ≡ none = v.linked.0 in
    let alone : Unlinked c b [] (record c { lru_node = none; mfu_node = none }) = record {
      linked = _;
      free = before;
      lru = refl;
      mfu = λ h. elim h [ ];
      kept = λ a. (refl, refl);
      same_map = refl;
      same_next = refl;
      same_count = refl;
      same_capacity = refl;
    } in
    simp (v.lru, before)
      (returns
        (delete_key-Evicted c (record c { lru_node = none; mfu_node = none }) [] b v alone refl))

evict_of_more :
    (c : LruCache) (ls : List ℕ) (p b : ℕ)
    → IsRanked c ((ls ++ p ∷ []) ++ b ∷ [])
    → Returns (Evicted c (ls ++ p ∷ []) b) (evict c)
unfolding evict
evict_of_more c ls p b v =
    let (left, links) = Linked-split c.memory none none (ls ++ p ∷ []) (b ∷ []) v.linked in
    let before : (c.memory b).prev_block ≡ some p = links.0 ∙ last_or-append ls (p ∷ []) none in
    let lru : c.lru_node ≡ some b = v.lru ∙ last_or-append (ls ++ p ∷ []) (b ∷ []) none in
    let cut_off =
      cut_last-Unlinked c ls p b (last_off ls p (Distinct-left (ls ++ p ∷ []) (b ∷ []) v.distinct))
        (last_off (ls ++ p ∷ []) b v.distinct) left in
    let mfu : c.mfu_node ≡ first_or (ls ++ p ∷ []) none =
      v.mfu ∙ first_or-append (ls ++ p ∷ []) (b ∷ []) none ∙ first_fixed ls p (some b) none in
    simp (lru, before)
      (returns (delete_key-Evicted c (cut_last c b p) (ls ++ p ∷ []) b v cut_off mfu))

-- A cache that is not empty loses its last node, and keeps the others in their order.
pub evict-Evicted :
    (c : LruCache) (ls : List ℕ) (b : ℕ)
    → IsRanked c (ls ++ b ∷ [])
    → Returns (Evicted c ls b) (evict c)
evict-Evicted c [] b v = evict_only c b v
evict-Evicted c (x ∷ ls) b v =
    let (zs, p, e) = snoc x ls in
    subst (λ zs. IsRanked c (zs ++ b ∷ []) → Returns (Evicted c zs b) (evict c)) (sym e)
      (evict_of_more c zs p b) v
