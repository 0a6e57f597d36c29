-- ===== src/Base/Sets.antt =====
-- Go maps used as sets, and lists without repeated entries: a set is the list of its keys.
use mathlib.Core.Path.{◌≡◌, refl, sym, ◌∙◌}
use mathlib.Core.Logic.{◌↔◌, ∥∥₁_elim, inl, inr}
use mathlib.Core.Bool.{Bool, true, false, ◌||◌, Bool-set}
use mathlib.Core.List.{List, [], ◌∷◌, ◌++◌, Perm, Permᴰ}
use mathlib.Core.List.Perm
use native.Mathlib.Omega.{arith}
use Prim.Native.Nat.{ℕ, suc, ◌<◌}
use low_level_design_in_go.Base.Tests.{if◌then◌else◌, Bool-cases}
use low_level_design_in_go.Base.Lists.{length, get_or}

-- `==` on a comparable type.
pub record Eq {ℓ} (A : Type ℓ) : Type ℓ where
  pub beq : A → A → Bool
  pub beq_iff : (a b : A) → (beq a b ≡ true) ↔ (a ≡ b)

module _ {ℓ} {A : Type ℓ} ⦃e : Eq A⦄ where
  -- `_, ok := m[x]`
  unfoldable pub has : A → List A → Bool
  has x [] = false
  has x (y ∷ ys) = e.beq x y || has x ys

  -- `delete(m, x)`
  unfoldable pub delete : A → List A → List A
  delete x [] = []
  delete x (y ∷ ys) = let rest = delete x ys in if e.beq x y then rest else y ∷ rest

  -- `m[x] = struct{}{}`
  unfoldable pub insert : A → List A → List A
  insert x ys = if has x ys then ys else x ∷ ys

  -- No entry twice, as the keys of a map.
  abbrev pub Distinct : List A → Type 0
  Distinct [] = Unit {0}
  Distinct (x ∷ xs) = (has x xs ≡ false) × Distinct xs

  pub has_permᴰ : (x : A) {xs ys : List A} → Permᴰ xs ys → has x xs ≡ has x ys
  unfolding has
  has_permᴰ x Permᴰ.nil = refl
  has_permᴰ x (Permᴰ.cons same p) = ground (arith, has_permᴰ x p)
  has_permᴰ x (Permᴰ.swap p q) = ground arith
  has_permᴰ x (Permᴰ.trans p q) = has_permᴰ x p ∙ has_permᴰ x q

  pub has-perm : (x : A) {xs ys : List A} → Perm xs ys → has x xs ≡ has x ys
  has-perm x p = ∥∥₁_elim p (Bool-set _ _) (has_permᴰ x)

  pub has-append : (x : A) (xs ys : List A) → has x (xs ++ ys) ≡ (has x xs || has x ys)
  unfolding has
  has-append x [] ys = refl
  has-append x (z ∷ xs) ys = ground (arith, has-append x xs ys)

  pub delete-absent : (x : A) (xs : List A) → has x xs ≡ false → delete x xs ≡ xs
  unfolding has delete
  delete-absent x [] h = refl
  delete-absent x (y ∷ ys) h = ground (arith, delete-absent x ys)

  -- Deleting a key takes out exactly that key.
  pub delete-perm :
      (x : A) (xs : List A) → Distinct xs → has x xs ≡ true → Perm (x ∷ delete x xs) xs
  unfolding has delete
  delete-perm x [] n h = cc
  delete-perm x (y ∷ ys) n h = elim (Bool-cases (e.beq x y)) [
    | inl same ↦
        let gone : delete x ys ≡ ys = delete-absent x ys (rw ((e.beq_iff x y).0 same) n.0) in
        rw (same, gone) (Perm.cons' ((e.beq_iff x y).0 same) (Perm.refl ys))
    | inr other ↦ rw other (
        Perm.trans (Perm.swap y x (delete x ys))
          (Perm.cons y (delete-perm x ys n.1 (ground arith))))
  ]

  pub has-get_or :
      (x d : A) (xs : List A) → has x xs ≡ true → (i : ℕ) × (i < length xs) × (get_or xs i d ≡ x)
  unfolding has
  has-get_or x d [] h = cc
  has-get_or x d (y ∷ ys) h = elim (Bool-cases (e.beq x y)) [
    | inl same ↦ (0, omega arith, sym ((e.beq_iff x y).0 same))
    | inr other ↦ let (i, inside, at) = has-get_or x d ys (ground arith) in (suc i, omega arith, at)
  ]

  pub has-delete :
      (x y : A) (xs : List A) → has y (delete x xs) ≡ (if e.beq x y then false else has y xs)
  unfolding has delete
  has-delete x y [] = ground arith
  has-delete x y (z ∷ zs) =
      ground (arith, has-delete x y zs, e.beq_iff x y, e.beq_iff x z, e.beq_iff y z)

  pub delete-Distinct : (x : A) (xs : List A) → Distinct xs → Distinct (delete x xs)
  unfolding delete
  delete-Distinct x [] n = tt
  delete-Distinct x (y ∷ ys) n = ground (arith, delete-Distinct x ys n.1, has-delete x y ys)

  Distinct-permᴰ : {xs ys : List A} → Permᴰ xs ys → Distinct xs → Distinct ys
  unfolding has
  Distinct-permᴰ Permᴰ.nil u = u
  Distinct-permᴰ (Permᴰ.cons same p) u =
      (rw same at (sym (has_permᴰ _ p) ∙ u.0), Distinct-permᴰ p u.1)
  Distinct-permᴰ (Permᴰ.swap {a = a} {b = b} p q) u =
      ground (arith, u, e.beq_iff a b, e.beq_iff b a)
  Distinct-permᴰ (Permᴰ.trans p q) u = Distinct-permᴰ q (Distinct-permᴰ p u)

  -- What is taken out of a list without repeated entries is not left in it.
  pub taken-absent : {xs ys : List A} (x : A) → Perm (x ∷ ys) xs → Distinct xs → has x ys ≡ false
  taken-absent x same u = ∥∥₁_elim (Perm.symm same) (Bool-set _ _) λ back. (Distinct-permᴰ back u).0

  -- Every key of the list satisfies `P`.
  abbrev pub Every {κ} : (A → Type κ) → List A → Type (ℓ ⊔ κ)
  Every P xs = (x : A) → has x xs ≡ true → P x

  module _ {κ} (P : A → Type κ) where
    pub Every-nil : (xs : List A) → length xs ≡ 0 → Every P xs
    unfolding has
    Every-nil [] n x m = cc
    Every-nil (y ∷ ys) n x m = absurd (omega arith)

    pub Every-cons : (x : A) (xs : List A) → P x → Every P xs → Every P (x ∷ xs)
    unfolding has
    Every-cons x xs h all y m = elim (Bool-cases (e.beq y x)) [
      | inl same ↦ rw ((e.beq_iff y x).0 same) h
      | inr other ↦ all y (ground arith)
    ]

    pub Every-tail : (x : A) (xs : List A) → Every P (x ∷ xs) → Every P xs
    unfolding has
    Every-tail x xs all y m = all y (ground arith)

    pub Every-head : (x : A) (xs : List A) → Every P (x ∷ xs) → P x
    unfolding has
    Every-head x xs all = all x (rw ((e.beq_iff x x).1 refl))

    pub Every-perm : {xs ys : List A} → Perm xs ys → Every P ys → Every P xs
    Every-perm p all x m = all x (sym (has-perm x p) ∙ m)

    pub Every-append : (xs ys : List A) → Every P xs → Every P ys → Every P (xs ++ ys)
    Every-append xs ys hx hy x m = elim (Bool-cases (has x xs)) [
      | inl here ↦ hx x here
      | inr there ↦ hy x (ground (arith, has-append x xs ys))
    ]

  pub has_self : (x : A) (xs : List A) → has x (x ∷ xs) ≡ true
  unfolding has
  has_self x xs = rw ((e.beq_iff x x).1 refl)
