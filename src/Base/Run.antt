-- ===== src/Base/Run.antt =====
-- How a Go call ends: it returns, or it panics (an index out of range), or the model's fuel runs
-- out. A returned `error` is part of the value, as in the source.
use mathlib.Core.Path.{◌≡◌, refl}
use mathlib.Core.Option.{some}
use mathlib.Core.Bool.{Bool, true, false}
use mathlib.Core.List.{List, [], ◌∷◌}
use Prim.Native.Nat.{ℕ, zero, suc, ◌<◌}
use low_level_design_in_go.Base.Tests.{if◌then◌else◌}
use low_level_design_in_go.Base.Lists.{get_elem?, get_or, length, set}
use native.Mathlib.Omega.{arith}

pub data Run {ℓ} (A : Type ℓ) : Type ℓ where
  ok : A → Run A
  panic out_of_fuel : Run A

infixl 5 ◌>>=◌
abbrev pub ◌>>=◌ {ℓ κ} : {A : Type ℓ} {B : Type κ} → Run A → (A → Run B) → Run B
ok a >>= f = f a
panic >>= f = panic
out_of_fuel >>= f = out_of_fuel

-- `xs[i]`
abbrev pub index {ℓ} : {A : Type ℓ} → List A → ℕ → Run A
index [] i = panic
index (x ∷ xs) zero = ok x
index (x ∷ xs) (suc i) = index xs i

-- `xs[i] = v`
abbrev pub assign {ℓ} : {A : Type ℓ} → List A → ℕ → A → Run (List A)
assign xs i v = index xs i >>= λ _. ok (set xs i v)

-- The call returns, with a value that satisfies `P`.
pub data Returns {ℓ κ} {A : Type ℓ} (P : A → Type κ) : Run A → Type (ℓ ⊔ κ) where
  returns : {a : A} → P a → Returns P (ok a)

-- What a call that returns gives back.
pub Returns-inv {ℓ κ} :
    {A : Type ℓ} {P : A → Type κ} {call : Run A} → Returns P call → (a : A) × (call ≡ ok a) × P a
Returns-inv (returns holds) = (_, refl, holds)

-- Both branches of a test return.
pub Returns-if {ℓ κ} :
    {A : Type ℓ} {P : A → Type κ} {then_call else_call : Run A} (test : Bool)
    → (test ≡ true → Returns P then_call)
    → (test ≡ false → Returns P else_call)
    → Returns P (if test then then_call else else_call)
Returns-if true passes fails = passes refl
Returns-if false passes fails = fails refl

-- An index in range does not panic.
pub index-total {ℓ} :
    {A : Type ℓ} (xs : List A) (i : ℕ)
    → i < length xs
    → (x : A) × (index xs i ≡ ok x) × (get_elem? xs i ≡ some x)
index-total [] i h = elim h [ ]
index-total (x ∷ xs) zero h = (x, refl, refl)
index-total (x ∷ xs) (suc i) h = index-total xs i (omega arith)

pub index-get_or {ℓ} :
    {A : Type ℓ} (xs : List A) (i : ℕ) (d : A) → i < length xs → index xs i ≡ ok (get_or xs i d)
index-get_or [] i d h = elim h [ ]
index-get_or (x ∷ xs) zero d h = refl
index-get_or (x ∷ xs) (suc i) d h = index-get_or xs i d (omega arith)

pub assign-set {ℓ} :
    {A : Type ℓ} (xs : List A) (i : ℕ) (v : A) → i < length xs → assign xs i v ≡ ok (set xs i v)
assign-set xs i v h = let (x, e, _) = index-total xs i h in rw e

-- A call, and then another one with what the first gave back.
pub Returns-bind {ℓ κ ι υ} :
    {A : Type ℓ} {B : Type ι} {P : A → Type κ} {Q : B → Type υ} {call : Run A} {after : A → Run B}
    → Returns P call
    → ((a : A) → P a → Returns Q (after a))
    → Returns Q (call >>= after)
Returns-bind (returns holds) continue = continue _ holds

-- A weaker predicate of the same call.
pub Returns-map {ℓ κ υ} :
    {A : Type ℓ} {P : A → Type κ} {Q : A → Type υ} {call : Run A}
    → Returns P call
    → ((a : A) → P a → Q a)
    → Returns Q call
Returns-map (returns holds) weaken = returns (weaken _ holds)
