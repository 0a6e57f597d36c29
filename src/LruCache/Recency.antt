-- ===== src/LruCache/Recency.antt =====
-- What the cache of LRU cache/main.go promises: the keys with their values, the most recently used one
-- first, and what the nodes in their order stand for.
use low_level_design_in_go.Base.{
  ℕ, suc, ◌≡◌, refl, sym, ap, String, true, false, Option, none, some, List, [], ◌∷◌, ◌++◌, arith,
  ==_iff, ◌==◌, has, length, Bool-cases, inl, inr, str_eq, str_eq_iff, if◌then◌else◌,
}
use low_level_design_in_go.LruCache.{LruNode}
use low_level_design_in_go.LruCache.Chains.{eq_address}

abbrev pub lookup : List (String × String) → String → Option String
lookup [] key = none
lookup ((k, v) ∷ rest) key = let later = lookup rest key in if str_eq k key then some v else later

abbrev pub forget : List (String × String) → String → List (String × String)
forget [] key = []
forget ((k, v) ∷ rest) key =
    let others = forget rest key in if str_eq k key then others else (k, v) ∷ others

abbrev pub drop_last : List (String × String) → List (String × String)
drop_last [] = []
drop_last (x ∷ []) = []
drop_last (x ∷ y ∷ rest) = x ∷ drop_last (y ∷ rest)

-- A new key puts out the last one of a full cache.
unfoldable pub put_model : ℕ → List (String × String) → String → String → List (String × String)
put_model capacity l key value =
    let room = if length l == capacity then drop_last l else l in
    elim (lookup l key) [ none ↦ (key, value) ∷ room | some v ↦ (key, value) ∷ forget l key ]

unfoldable pub get_model : List (String × String) → String → List (String × String) × String
get_model l key = elim (lookup l key) [
  | none ↦ (l, "NOT FOUND")
  | some v ↦ ((key, v) ∷ forget l key, v)
]

-- What the nodes stand for.
abbrev pub entries : (ℕ → LruNode) → List ℕ → List (String × String)
entries m [] = []
entries m (a ∷ xs) = ((m a).key, (m a).data_) ∷ entries m xs

pub length-entries : (m : ℕ → LruNode) (xs : List ℕ) → length (entries m xs) ≡ length xs
length-entries m [] = refl
length-entries m (x ∷ xs) = ap suc (length-entries m xs)

-- The nodes have the same keys and data in both memories.
pub entries-same :
    (m m' : ℕ → LruNode) (xs : List ℕ)
    → ((b : ℕ) → has b xs ≡ true → ((m' b).key ≡ (m b).key) × ((m' b).data_ ≡ (m b).data_))
    → entries m' xs ≡ entries m xs
unfolding has
entries-same m m' [] same = refl
entries-same m m' (x ∷ xs) same =
    let here = same x (ground (arith, ==_iff x x)) in
    let rest = entries-same m m' xs λ b h. same b (ground (arith, h)) in
    rw (here.0, here.1, rest) refl

pub drop_last-entries :
    (m : ℕ → LruNode) (ls : List ℕ) (b : ℕ) → drop_last (entries m (ls ++ b ∷ [])) ≡ entries m ls
drop_last-entries m [] b = refl
drop_last-entries m (x ∷ []) b = refl
drop_last-entries m (x ∷ y ∷ ls) b =
    ap (λ l. ((m x).key, (m x).data_) ∷ l) (drop_last-entries m (y ∷ ls) b)

-- None of the nodes has the key.
abbrev pub IsWithout : (ℕ → LruNode) → String → List ℕ → Type 0
IsWithout m key xs = (b : ℕ) → has b xs ≡ true → str_eq (m b).key key ≡ false

pub lookup-without :
    (m : ℕ → LruNode) (key : String) (xs : List ℕ)
    → IsWithout m key xs
    → lookup (entries m xs) key ≡ none
unfolding has
lookup-without m key [] apart = refl
lookup-without m key (x ∷ xs) apart =
    rw (apart x (ground (arith, ==_iff x x)))
      (lookup-without m key xs λ b h. apart b (ground (arith, h)))

pub forget-without :
    (m : ℕ → LruNode) (key : String) (xs : List ℕ)
    → IsWithout m key xs
    → forget (entries m xs) key ≡ entries m xs
unfolding has
forget-without m key [] apart = refl
forget-without m key (x ∷ xs) apart = rw (apart x (ground (arith, ==_iff x x))) (
    ap (λ l. ((m x).key, (m x).data_) ∷ l)
      (forget-without m key xs λ b h. apart b (ground (arith, h))))

-- The node `a` alone has the key.
pub lookup-at :
    (m : ℕ → LruNode) (key : String) (ls : List ℕ) (a : ℕ) (rs : List ℕ)
    → IsWithout m key (ls ++ rs)
    → (m a).key ≡ key
    → lookup (entries m (ls ++ a ∷ rs)) key ≡ some (m a).data_
unfolding has
lookup-at m key [] a rs apart e = rw ((str_eq_iff (m a).key key).1 e) refl
lookup-at m key (x ∷ ls) a rs apart e =
    rw (apart x (ground (arith, ==_iff x x)))
      (lookup-at m key ls a rs (λ b h. apart b (ground (arith, h))) e)

pub forget-at :
    (m : ℕ → LruNode) (key : String) (ls : List ℕ) (a : ℕ) (rs : List ℕ)
    → IsWithout m key (ls ++ rs)
    → (m a).key ≡ key
    → forget (entries m (ls ++ a ∷ rs)) key ≡ entries m (ls ++ rs)
unfolding has
forget-at m key [] a rs apart e =
    rw ((str_eq_iff (m a).key key).1 e) (forget-without m key rs apart)
forget-at m key (x ∷ ls) a rs apart e = rw (apart x (ground (arith, ==_iff x x))) (
    ap (λ l. ((m x).key, (m x).data_) ∷ l)
      (forget-at m key ls a rs (λ b h. apart b (ground (arith, h))) e))

-- A node of a list, and what is before and after it.
pub has-split :
    (a : ℕ) (xs : List ℕ) → has a xs ≡ true → (ls : List ℕ) × (rs : List ℕ) × (xs ≡ ls ++ a ∷ rs)
unfolding has
has-split a [] h = ground (arith, h)
has-split a (x ∷ xs) h = elim (Bool-cases (a == x)) [
  | inl e ↦ ([], xs, ap (λ y. y ∷ xs) (sym ((==_iff a x).0 e)))
  | inr e ↦
      let (ls, rs, s) = has-split a xs (ground (arith, h, e)) in (x ∷ ls, rs, ap (λ zs. x ∷ zs) s)
]
