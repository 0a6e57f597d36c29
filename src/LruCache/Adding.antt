-- ===== src/LruCache/Adding.antt =====
-- `Put` of LRU cache/main.go for a key that is not in the cache: a new node becomes the first one.
use low_level_design_in_go.Base.{
  ℕ, suc, ◌≡◌, ◌⊎◌, refl, sym, ap, subst, ◌∙◌, String, Bool, true, false, Option, none, some, List,
  [], ◌∷◌, arith, ==_iff, ◌==◌, has, Bool-cases, inl, inr, str_eq, str_eq_iff, if◌then◌else◌,
  if_cases,
}
use low_level_design_in_go.LruCache.{
  LruNode, LruCache, write, set_prev, insert_key, add_first, link_first,
}
use low_level_design_in_go.LruCache.Chains.{
  eq_address, last_or, Linked, Linked-write, write_self, write-other,
}
use low_level_design_in_go.LruCache.Unlinking.{Kept, Kept-trans, Kept-write}
use low_level_design_in_go.LruCache.Ranks.{IsRanked, put_before}

abbrev new_node : String → String → LruNode
new_node key value = record { key = key; data_ = value; next_block = none; prev_block = none }

-- `c'` is `c` with a new node in front.
pub record Added (c : LruCache) (ys : List ℕ) (key value : String) (c' : LruCache) : Type 0 where
  pub ranked : IsRanked c' (c.next ∷ ys)
  pub first_key : (c'.memory c.next).key ≡ key
  pub first_data : (c'.memory c.next).data_ ≡ value
  pub others :
      (b : ℕ)
      → has b ys ≡ true
      → ((c'.memory b).key ≡ (c.memory b).key) × ((c'.memory b).data_ ≡ (c.memory b).data_)
  pub same_capacity : c'.capacity ≡ c.capacity

fresh : (c : LruCache) (ys : List ℕ) → IsRanked c ys → has c.next ys ≡ false
fresh c ys v = elim (Bool-cases (has c.next ys)) [
  | inl m ↦ ground (arith, v.made c.next m)
  | inr off ↦ off
]

-- The address of a new node is none of the nodes.
unlike :
    (c : LruCache) (ys : List ℕ) → IsRanked c ys → (b : ℕ) → has b ys ≡ true → (c.next == b) ≡ false
unlike c ys v b m = let below = v.made b m in ground (arith, below)

-- What a map with one more entry has.
hit :
    (t : Bool) (o : Option ℕ) (a b : ℕ)
    → (if t then some a else o) ≡ some b
    → ((t ≡ true) × (a ≡ b)) ⊎ ((t ≡ false) × (o ≡ some b))
hit true o a b e = inl (refl, ap (λ o. elim o [ none ↦ a | some x ↦ x ]) e)
hit false o a b e = inr (refl, e)

inserted :
    (c c' : LruCache) (ys : List ℕ) (key value : String)
    → IsRanked c ys
    → c.node_cache key ≡ none
    → Linked c'.memory none (c.next ∷ ys) none
    → c'.mfu_node ≡ some c.next
    → c'.lru_node ≡ last_or ys (some c.next)
    → Kept (write c.memory c.next (new_node key value)) c'.memory
    → ((k : String) → c'.node_cache k ≡ (if str_eq key k then some c.next else c.node_cache k))
    → c'.cached ≡ suc c.cached
    → c'.next ≡ suc c.next
    → c'.capacity ≡ c.capacity
    → Added c ys key value c'
unfolding has
inserted c c' ys key value v absent l mfu lru kept map count next capacity =
    let a = c.next in
    let n = new_node key value in
    let named : (c'.memory a).key ≡ key = (kept a).0 ∙ ap (λ r. r.key) (write_self c.memory a n) in
    let old : (b : ℕ) → has b ys ≡ true → write c.memory a n b ≡ c.memory b =
      λ b m. write-other c.memory a b n (unlike c ys v b m) in
    let old_key : (b : ℕ) → has b ys ≡ true → (c'.memory b).key ≡ (c.memory b).key =
      λ b m. (kept b).0 ∙ ap (λ r. r.key) (old b m) in
    record {
      ranked = record {
        linked = l;
        distinct = (fresh c ys v, v.distinct);
        mfu = mfu;
        lru = lru;
        listed = λ k b e. elim (hit (str_eq key k) (c.node_cache k) a b (sym (map k) ∙ e)) [
          | inl (same, s) ↦ (
            ground (arith, ==_iff b a, sym s),
            ap (λ x. (c'.memory x).key) (sym s) ∙ named ∙ (str_eq_iff key k).0 same,
          )
          | inr (other, e') ↦
              let (m, name) = v.listed k b e' in (ground (arith, m), old_key b m ∙ name)
        ];
        found = λ b m. elim (Bool-cases (b == a)) [
          | inl e ↦
              let name : (c'.memory b).key ≡ key =
                ap (λ x. (c'.memory x).key) ((==_iff b a).0 e) ∙ named in
              let same : str_eq key (c'.memory b).key ≡ true =
                (str_eq_iff key (c'.memory b).key).1 (sym name) in
              map (c'.memory b).key
              ∙ ap (λ t. if t then some a else c.node_cache (c'.memory b).key) same
              ∙ ap some (sym ((==_iff b a).0 e))
          | inr e ↦
              let inside : has b ys ≡ true = ground (arith, m, e) in
              let still : c.node_cache (c'.memory b).key ≡ some b =
                ap c.node_cache (old_key b inside) ∙ v.found b inside in
              map (c'.memory b).key
              ∙ if_cases (λ o. o ≡ some b) (str_eq key (c'.memory b).key)
                  (λ same.
                    let none_some : none ≡ some b =
                      sym absent
                      ∙ ap c.node_cache ((str_eq_iff key (c'.memory b).key).0 same)
                      ∙ still in
                    ground (arith, none_some))
                  λ _. still
        ];
        made = λ b m. elim (Bool-cases (b == a)) [
          | inl e ↦ omega (arith, (==_iff b a).0 e, next)
          | inr e ↦
              let inside : has b ys ≡ true = ground (arith, m, e) in
              omega (arith, v.made b inside, next)
        ];
        counted = count ∙ ap suc v.counted;
      };
      first_key = named;
      first_data = (kept a).1 ∙ ap (λ r. r.data_) (write_self c.memory a n);
      others = λ b m. (old_key b m, (kept b).1 ∙ ap (λ r. r.data_) (old b m));
      same_capacity = capacity;
    }

pub add_first-Added :
    (c : LruCache) (ys : List ℕ) (key value : String)
    → IsRanked c ys
    → c.node_cache key ≡ none
    → Added c ys key value (add_first c key value)
unfolding add_first insert_key
add_first-Added c [] key value v absent =
    let n = new_node key value in
    let self = write_self c.memory c.next n in
    let made =
      insert_key (record c { memory = write c.memory c.next n; next = suc c.next }) key c.next in
    let done : Added c [] key value (link_first made c.next none) =
      inserted c (link_first made c.next none) [] key value v absent
        (ap (λ r. r.prev_block) self, ap (λ r. r.next_block) self, _) refl refl (λ b. (refl, refl))
        (λ k. refl) (rw absent refl) refl refl in
    subst (λ o. Added c [] key value (link_first made c.next o)) (sym v.mfu) done
add_first-Added c (f ∷ fs) key value v absent =
    let a = c.next in
    let n = new_node key value in
    let m0 = write c.memory a n in
    let self = write_self c.memory a n in
    let n1 = record (m0 a) { next_block = some f } in
    let m1 = write m0 a n1 in
    let m2 = set_prev m1 f (some a) in
    let made = insert_key (record c { memory = m0; next = suc a }) key a in
    let done : Added c (f ∷ fs) key value (link_first made a (some f)) =
      inserted c (link_first made a (some f)) (f ∷ fs) key value v absent
        (put_before m0 a f fs (fresh c (f ∷ fs) v) v.distinct.0 (ap (λ r. r.prev_block) self)
          (Linked-write c.memory none none a n (f ∷ fs) (fresh c (f ∷ fs) v) v.linked))
        refl v.lru
        (Kept-trans m0 m1 m2 (Kept-write m0 a n1 refl refl)
          (Kept-write m1 f (record (m1 f) { prev_block = some a }) refl refl))
        (λ k. refl) (rw absent refl) refl refl in
    subst (λ o. Added c (f ∷ fs) key value (link_first made a o)) (sym v.mfu) done
