-- ===== src/LruCache/Chains.antt =====
-- The nodes of LRU cache/main.go in a list with links in both directions.
use low_level_design_in_go.Base.{
  ℕ, ◌≡◌, refl, sym, ap, ◌∙◌, true, false, Option, some, List, [], ◌∷◌, ◌++◌, arith, ==_iff, ◌==◌,
  Eq, has, Bool-cases, inl, inr,
}
use low_level_design_in_go.LruCache.{LruNode, write, set_next, set_prev}

instance abbrev pub eq_address : Eq ℕ
eq_address = record { beq = λ p q. p == q; beq_iff = ==_iff }

abbrev pub first_or : List ℕ → Option ℕ → Option ℕ
first_or [] q = q
first_or (a ∷ xs) q = some a

abbrev pub last_or : List ℕ → Option ℕ → Option ℕ
last_or [] p = p
last_or (a ∷ xs) p = last_or xs (some a)

-- The nodes `xs` are linked in this order, after `p` and before `q`.
abbrev pub Linked : (ℕ → LruNode) → Option ℕ → List ℕ → Option ℕ → Type 0
Linked m p [] q = Unit {0}
Linked m p (a ∷ xs) q =
    ((m a).prev_block ≡ p) × ((m a).next_block ≡ first_or xs q) × Linked m (some a) xs q

pub first_or-append :
    (xs ys : List ℕ) (q : Option ℕ) → first_or (xs ++ ys) q ≡ first_or xs (first_or ys q)
first_or-append [] ys q = refl
first_or-append (x ∷ xs) ys q = refl

pub last_or-append :
    (xs ys : List ℕ) (p : Option ℕ) → last_or (xs ++ ys) p ≡ last_or ys (last_or xs p)
last_or-append [] ys p = refl
last_or-append (x ∷ xs) ys p = last_or-append xs ys (some x)

pub Linked-append :
    (m : ℕ → LruNode) (p q : Option ℕ) (xs ys : List ℕ)
    → Linked m p xs (first_or ys q)
    → Linked m (last_or xs p) ys q
    → Linked m p (xs ++ ys) q
Linked-append m p q [] ys l r = r
Linked-append m p q (x ∷ xs) ys (before, after, l) r =
    (before, after ∙ sym (first_or-append xs ys q), Linked-append m (some x) q xs ys l r)

pub Linked-split :
    (m : ℕ → LruNode) (p q : Option ℕ) (xs ys : List ℕ)
    → Linked m p (xs ++ ys) q
    → Linked m p xs (first_or ys q) × Linked m (last_or xs p) ys q
Linked-split m p q [] ys l = (_, l)
Linked-split m p q (x ∷ xs) ys (before, after, l) =
    let (left, right) = Linked-split m (some x) q xs ys l in
    ((before, after ∙ first_or-append xs ys q, left), right)

pub write-other : (m : ℕ → LruNode) (a b : ℕ) (n : LruNode) → (a == b) ≡ false → write m a n b ≡ m b
unfolding write
write-other m a b n e = rw e refl

pub write_self : (m : ℕ → LruNode) (a : ℕ) (n : LruNode) → write m a n a ≡ n
unfolding write
write_self m a n = let e : (a == a) ≡ true = (==_iff a a).1 refl in rw e refl

-- A field that a write leaves at its address.
pub write-field :
    {X : Type 0} (field : LruNode → X) (m : ℕ → LruNode) (a : ℕ) (n : LruNode)
    → field n ≡ field (m a)
    → (b : ℕ) → field (write m a n b) ≡ field (m b)
write-field field m a n same b = elim (Bool-cases (a == b)) [
  | inl e ↦
      let s : a ≡ b = (==_iff a b).0 e in
      ap (λ c. field (write m a n c)) (sym s)
      ∙ ap field (write_self m a n)
      ∙ same
      ∙ ap (λ c. field (m c)) s
  | inr e ↦ ap field (write-other m a b n e)
]

-- A write off the list.
pub Linked-write :
    (m : ℕ → LruNode) (p q : Option ℕ) (a : ℕ) (n : LruNode) (xs : List ℕ)
    → has a xs ≡ false
    → Linked m p xs q
    → Linked (write m a n) p xs q
unfolding has
Linked-write m p q a n [] off l = l
Linked-write m p q a n (x ∷ xs) off (before, after, l) =
    let same : write m a n x ≡ m x = write-other m a x n (ground (arith, off)) in
    (
      ap (λ r. r.prev_block) same ∙ before,
      ap (λ r. r.next_block) same ∙ after,
      Linked-write m (some x) q a n xs (ground (arith, off)) l,
    )

-- The link after the last node.
pub Linked-set_next :
    (m : ℕ → LruNode) (p q r : Option ℕ) (xs : List ℕ) (a : ℕ)
    → has a xs ≡ false
    → Linked m p (xs ++ a ∷ []) q
    → Linked (set_next m a r) p (xs ++ a ∷ []) r
unfolding has
Linked-set_next m p q r [] a off (before, after, l) =
    let same = write_self m a (record (m a) { next_block = r }) in
    (ap (λ n. n.prev_block) same ∙ before, ap (λ n. n.next_block) same, l)
Linked-set_next m p q r (x ∷ xs) a off (before, after, l) =
    let same : set_next m a r x ≡ m x = write-other m a x _ (ground (arith, off)) in
    (
      ap (λ n. n.prev_block) same ∙ before,
      ap (λ n. n.next_block) same
          ∙ after
          ∙ first_or-append xs (a ∷ []) q
          ∙ sym (first_or-append xs (a ∷ []) r),
      Linked-set_next m (some x) q r xs a (ground (arith, off)) l,
    )

-- The link before the first node.
pub Linked-set_prev :
    (m : ℕ → LruNode) (p q r : Option ℕ) (a : ℕ) (xs : List ℕ)
    → has a xs ≡ false
    → Linked m p (a ∷ xs) q
    → Linked (set_prev m a r) r (a ∷ xs) q
Linked-set_prev m p q r a xs off (before, after, l) =
    let n = record (m a) { prev_block = r } in
    let same = write_self m a n in
    (
      ap (λ n. n.prev_block) same,
      ap (λ n. n.next_block) same ∙ after,
      Linked-write m (some a) q a n xs off l,
    )

-- The same links.
pub Linked-ext :
    (m m' : ℕ → LruNode) (p q : Option ℕ) (xs : List ℕ)
    → ((b : ℕ) → ((m' b).prev_block ≡ (m b).prev_block) × ((m' b).next_block ≡ (m b).next_block))
    → Linked m p xs q
    → Linked m' p xs q
Linked-ext m m' p q [] same l = l
Linked-ext m m' p q (x ∷ xs) same (before, after, l) =
    ((same x).0 ∙ before, (same x).1 ∙ after, Linked-ext m m' (some x) q xs same l)
