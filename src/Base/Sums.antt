-- ===== src/Base/Sums.antt =====
-- Weights of lists: what a list holds, counted.
use Prim.Native.Nat.{ℕ, zero, suc, ◌+◌, ◌<◌}
use mathlib.Core.Path.{subst}
use mathlib.Core.Path.{◌≡◌, refl}
use mathlib.Core.List.{List, [], ◌∷◌, ◌++◌}
use mathlib.Core.Option.{some}
use native.Mathlib.Omega.{arith}
use low_level_design_in_go.Base.Lists.{length, get_elem?, set, All}

module _ {A : Type 0} where
  -- The list without the entry at a place.
  abbrev pub without : ℕ → List A → List A
  without i [] = []
  without zero (x ∷ xs) = xs
  without (suc i) (x ∷ xs) = x ∷ without i xs

  abbrev pub sum_by : (A → ℕ) → List A → ℕ
  sum_by f [] = 0
  sum_by f (x ∷ xs) = f x + sum_by f xs

  pub sum_by-append : (f : A → ℕ) (xs ys : List A) → sum_by f (xs ++ ys) ≡ sum_by f xs + sum_by f ys
  sum_by-append f [] ys = omega arith
  sum_by-append f (x ∷ xs) ys = omega (arith, sum_by-append f xs ys)

  pub sum_by-set :
      (f : A → ℕ) (xs : List A) (i : ℕ) (x v : A)
      → get_elem? xs i ≡ some x
      → sum_by f (set xs i v) + f x ≡ sum_by f xs + f v
  sum_by-set f [] i x v e = absurd (ground (arith, e))
  sum_by-set f (y ∷ xs) zero x v e = ground (arith, e)
  sum_by-set f (y ∷ xs) (suc i) x v e = omega (arith, sum_by-set f xs i x v e)

  pub sum_by-without :
      (f : A → ℕ) (xs : List A) (i : ℕ) (x : A)
      → get_elem? xs i ≡ some x
      → sum_by f (without i xs) + f x ≡ sum_by f xs
  sum_by-without f [] i x e = absurd (ground (arith, e))
  sum_by-without f (y ∷ xs) zero x e = ground (arith, e)
  sum_by-without f (y ∷ xs) (suc i) x e = omega (arith, sum_by-without f xs i x e)

  pub All-set : (Q : A → Type 0) (xs : List A) (i : ℕ) (v : A) → All Q xs → Q v → All Q (set xs i v)
  All-set Q [] i v all q = tt
  All-set Q (x ∷ xs) zero v all q = (q, all.1)
  All-set Q (x ∷ xs) (suc i) v all q = (all.0, All-set Q xs i v all.1 q)

  pub All-at :
      (Q : A → Type 0) (xs : List A) (i : ℕ) (x : A) → get_elem? xs i ≡ some x → All Q xs → Q x
  All-at Q [] i x e all = absurd (ground (arith, e))
  All-at Q (y ∷ xs) zero x e all = subst Q (ground (arith, e)) all.0
  All-at Q (y ∷ xs) (suc i) x e all = All-at Q xs i x e all.1

  -- Who is at a place makes the list longer than that.
  pub inside-at : (xs : List A) (i : ℕ) (x : A) → get_elem? xs i ≡ some x → i < length xs
  inside-at [] i x e = absurd (ground (arith, e))
  inside-at (y ∷ xs) zero x e = omega arith
  inside-at (y ∷ xs) (suc i) x e = omega (arith, inside-at xs i x e)

  pub get_elem?-append_last : (xs : List A) (x : A) → get_elem? (xs ++ x ∷ []) (length xs) ≡ some x
  get_elem?-append_last [] x = refl
  get_elem?-append_last (y ∷ xs) x = get_elem?-append_last xs x

-- Lists of no entries, and of some.
pub nothing_left : {A : Type 0} (xs : List A) → length xs ≡ 0 → xs ≡ []
nothing_left [] e = refl
nothing_left (x ∷ xs) e = absurd (omega (arith, e))

pub one_left :
    {A : Type 0} (xs : List A) (n : ℕ)
    → length xs ≡ suc n
    → (x : A) × (ys : List A) × (xs ≡ x ∷ ys) × (length ys ≡ n)
one_left [] n e = absurd (omega (arith, e))
one_left (x ∷ xs) n e = (x, xs, refl, omega (arith, e))
