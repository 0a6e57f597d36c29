-- ===== src/ConnectionPool/Sums.antt =====
-- Sums over the keys of a map.
use low_level_design_in_go.Base.{
  ℕ, suc, ◌+◌, ◌≡◌, ◌≢◌, refl, sym, ◌∙◌, true, false, List, [], ◌∷◌, arith, inl, inr, Bool-cases,
  Eq, has, delete, Distinct, delete-perm, delete-absent, has-delete, length, length-perm, sum_by,
}

-- The same weights.
pub sum_by-ext :
    {A : Type 0} (f g : A → ℕ) (xs : List A) → ((x : A) → g x ≡ f x) → sum_by g xs ≡ sum_by f xs
sum_by-ext f g [] same = refl
sum_by-ext f g (x ∷ xs) same = omega (arith, same x, sum_by-ext f g xs same)

module _ {A : Type 0} ⦃e : Eq A⦄ where
  pub length-delete :
      (x : A) (xs : List A) → Distinct xs → has x xs ≡ true → suc (length (delete x xs)) ≡ length xs
  length-delete x xs u m = length-perm (delete-perm x xs u m)

  pub sum_by-delete :
      (f : A → ℕ) (x : A) (xs : List A)
      → Distinct xs
      → has x xs ≡ true
      → sum_by f (delete x xs) + f x ≡ sum_by f xs
  unfolding has delete
  sum_by-delete f x [] u m = absurd (ground (arith, m))
  sum_by-delete f x (y ∷ ys) u m = elim (Bool-cases (e.beq x y)) [
    | inl same ↦
        let is : x ≡ y = (e.beq_iff x y).0 same in
        let gone : delete x ys ≡ ys = delete-absent x ys (rw is u.0) in
        rw (same, gone, is) (omega arith)
    | inr apart ↦ rw apart (omega (arith, sum_by-delete f x ys u.1 (ground (arith, m, apart))))
  ]

  -- A weight that changes at one key only.
  pub sum_by-except :
      (f g : A → ℕ) (x : A) (xs : List A)
      → ((y : A) → x ≢ y → g y ≡ f y)
      → has x xs ≡ false
      → sum_by g xs ≡ sum_by f xs
  unfolding has
  sum_by-except f g x [] same m = refl
  sum_by-except f g x (y ∷ ys) same m =
      let apart : x ≢ y = λ i. true-false (sym ((e.beq_iff x y).1 i) ∙ ground (arith, m)) in
      omega (arith, same y apart, sum_by-except f g x ys same (ground (arith, m)))
    where
      true-false : true ≢ false
      true-false t = ground (arith, t)

  pub sum_by-change :
      (f g : A → ℕ) (x : A) (xs : List A)
      → ((y : A) → x ≢ y → g y ≡ f y)
      → Distinct xs
      → has x xs ≡ true
      → sum_by g xs + f x ≡ sum_by f xs + g x
  sum_by-change f g x xs same u m =
      let left = sum_by-except f g x (delete x xs) same (deleted x xs) in
      omega (arith, left, sum_by-delete f x xs u m, sum_by-delete g x xs u m)
    where
      deleted : (x : A) (xs : List A) → has x (delete x xs) ≡ false
      deleted x xs = has-delete x x xs ∙ ground (arith, (e.beq_iff x x).1 refl)
