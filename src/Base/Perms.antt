-- ===== src/Base/Perms.antt =====
-- Exchanging two entries of a slice, and what it keeps.
use mathlib.Core.Path.{◌≡◌, refl, ap}
use mathlib.Core.Logic.{∥∥₁_elim}
use mathlib.Core.List.{List, [], ◌∷◌, ◌++◌, Perm, Permᴰ, perm_middle, append-nil}
use mathlib.Core.List.Perm
use native.Mathlib.Nat.{ℕ_set}
use native.Mathlib.Omega.{arith}
use Prim.Native.Nat.{ℕ, zero, suc, ◌<◌}
use low_level_design_in_go.Base.Tests.{◌==◌, if◌then◌else◌}
use low_level_design_in_go.Base.Lists.{length, get_or, set, take, length-set, get_or-set}

module _ {ℓ} {A : Type ℓ} where
  length_of_permᴰ : {xs ys : List A} → Permᴰ xs ys → length xs ≡ length ys
  length_of_permᴰ (Permᴰ.swap x y) = refl
  length_of_permᴰ (Permᴰ.cons x rest) = omega (arith, length_of_permᴰ rest)
  length_of_permᴰ (Permᴰ.trans first second) =
      omega (arith, length_of_permᴰ first, length_of_permᴰ second)
  length_of_permᴰ Permᴰ.nil = refl

  pub length-perm : {xs ys : List A} → Perm xs ys → length xs ≡ length ys
  length-perm same = ∥∥₁_elim same (ℕ_set _ _) length_of_permᴰ

  -- An entry at the end, or at the front.
  pub concat-perm : (xs : List A) (last : A) → Perm (xs ++ last ∷ []) (last ∷ xs)
  concat-perm xs last = rw (append-nil xs) at (perm_middle {a = last} xs [])

  -- Writing an entry trades its old value for the new one.
  pub set-perm :
      (xs : List A) (i : ℕ) (v d : A) → i < length xs → Perm (get_or xs i d ∷ set xs i v) (v ∷ xs)
  set-perm [] i v d h = elim h [ ]
  set-perm (x ∷ xs) zero v d h = Perm.swap v x xs
  set-perm (x ∷ xs) (suc i) v d h =
      Perm.trans (Perm.swap x (get_or xs i d) (set xs i v))
        (Perm.trans (Perm.cons x (set-perm xs i v d (omega arith))) (Perm.swap v x xs))

  -- `xs[i], xs[j] = xs[j], xs[i]`, with `d` for what lies out of range.
  unfoldable pub exchange : A → List A → ℕ → ℕ → List A
  exchange d xs i j = set (set xs i (get_or xs j d)) j (get_or xs i d)

  pub length-exchange : (d : A) (xs : List A) (i j : ℕ) → length (exchange d xs i j) ≡ length xs
  unfolding exchange
  length-exchange d xs i j = simp length-set

  module _ (d : A) (xs : List A) (i j : ℕ) (hi : i < length xs) (hj : j < length xs) where
    pub get_or-exchange :
        (c : ℕ)
        → get_or (exchange d xs i j) c d
          ≡ (if j == c then get_or xs i d else if i == c then get_or xs j d else get_or xs c d)
    unfolding exchange
    get_or-exchange c =
        let once = set xs i (get_or xs j d) in
        rw (get_or-set once j c (get_or xs i d) d (rw length-set hj))
          (rw (get_or-set xs i c (get_or xs j d) d hi))

    pub exchange-perm : Perm (exchange d xs i j) xs
    unfolding exchange
    exchange-perm =
        let once = set xs i (get_or xs j d) in
        let same : get_or once j d ≡ get_or xs j d =
          ground (arith, get_or-set xs i j (get_or xs j d) d hi) in
        let back = rw same at (set-perm once j (get_or xs i d) d (rw length-set hj)) in
        Perm.cons_inv (Perm.trans back (set-perm xs i (get_or xs j d) d hi))

  pub get_or-take : (n i : ℕ) (xs : List A) (d : A) → i < n → get_or (take n xs) i d ≡ get_or xs i d
  get_or-take zero i xs d h = elim h [ ]
  get_or-take (suc n) i [] d h = refl
  get_or-take (suc n) zero (x ∷ xs) d h = refl
  get_or-take (suc n) (suc i) (x ∷ xs) d h = get_or-take n i xs d (omega arith)

  pub get_or-append :
      (xs ys : List A) (i : ℕ) (d : A) → i < length xs → get_or (xs ++ ys) i d ≡ get_or xs i d
  get_or-append [] ys i d h = elim h [ ]
  get_or-append (x ∷ xs) ys zero d h = refl
  get_or-append (x ∷ xs) ys (suc i) d h = get_or-append xs ys i d (omega arith)

  pub get_or-append_last : (xs : List A) (x d : A) → get_or (xs ++ x ∷ []) (length xs) d ≡ x
  get_or-append_last [] x d = refl
  get_or-append_last (y ∷ xs) x d = get_or-append_last xs x d

  -- A slice is its entries but the last, and the last.
  pub take-append-last :
      (n : ℕ) (xs : List A) (d : A) → length xs ≡ suc n → take n xs ++ get_or xs n d ∷ [] ≡ xs
  take-append-last zero [] d h = absurd (omega arith)
  take-append-last zero (x ∷ []) d h = refl
  take-append-last zero (x ∷ y ∷ xs) d h = absurd (omega arith)
  take-append-last (suc n) [] d h = absurd (omega arith)
  take-append-last (suc n) (x ∷ xs) d h = ap (◌∷◌ x) (take-append-last n xs d (omega arith))
