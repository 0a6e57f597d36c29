-- ===== src/KeyValueStore/Indexed.antt =====
-- The expiry heap and the expiry index of KeyValueStore/main.go agree: who the heap holds, the
-- index names, and the reverse.
use mathlib.Core.List.Perm
use low_level_design_in_go.Base.{
  ℕ, zero, suc, ◌+◌, ◌<◌, ◌≡◌, ◌≢◌, refl, sym, ap, subst, ◌∙◌, String, true, false, ◌||◌, Option,
  none, some, List, [], ◌∷◌, ◌==◌, ==_iff, str_eq, str_eq_iff, arith, length, get_or, Perm,
  Bool-cases, inl, inr, Eq, has, Distinct, taken-absent, has-perm, has-get_or, has_self,
}
use low_level_design_in_go.Base.Int.{pos}
use low_level_design_in_go.ContainerHeap.{parent}
use low_level_design_in_go.ContainerHeap.Operations.{IsHeaped}
use low_level_design_in_go.KeyValueStore.Expiry.{ExpiryItem, ExpiryHeap, expiry_heap}
use low_level_design_in_go.KeyValueStore.Lawful.{by_due, SameItem, IsPlaced, expiry_lawful}
use low_level_design_in_go.KeyValueStore.{update}

-- Addresses are compared as numbers.
instance pub eq_address : Eq ℕ
eq_address = record { beq = λ p q. p == q; beq_iff = ==_iff }

-- In heap order by the items of `g`.
abbrev pub IsOrdered : (ℕ → ExpiryItem) → ℕ → ExpiryHeap → Type 0
IsOrdered g n h = IsHeaped expiry_heap (by_due g) 0 (expiry_lawful g n) h

-- `index` is exactly the keys of the items in the heap.
pub record IsIndexed (h : ExpiryHeap) (index : String → Option ℕ) : Type 0 where
  pub ordered : IsOrdered h.memory h.next h
  pub made : (p : ℕ) → has p h.store ≡ true → p < h.next
  pub listed :
      (k : String) (p : ℕ) → index k ≡ some p → (has p h.store ≡ true) × ((h.memory p).key ≡ k)
  pub found : (p : ℕ) → has p h.store ≡ true → index (h.memory p).key ≡ some p

-- Where an item of the heap is.
pub place_of :
    {g : ℕ → ExpiryItem} {n : ℕ} {h : ExpiryHeap}
    → IsPlaced g n h
    → (p : ℕ) → has p h.store ≡ true
    → (i : ℕ) × (i < length h.store) × (get_or h.store i 0 ≡ p) × ((h.memory p).position ≡ pos i)
place_of {g} {n} {h} v p m =
    let (i, inside, at) = has-get_or p 0 h.store m in
    (i, inside, at, subst (λ q. (h.memory q).position ≡ pos i) at (v.placed i inside))

pub has-at : (xs : List ℕ) (i : ℕ) → i < length xs → has (get_or xs i 0) xs ≡ true
unfolding has
has-at [] i inside = elim inside [ ]
has-at (x ∷ xs) zero inside = has_self x xs
has-at (x ∷ xs) (suc i) inside = ground (arith, has-at xs i (omega arith))

module _ (m : ℕ → ExpiryItem) where
  Distinct-of_places :
      (xs : List ℕ) (start : ℕ)
      → ((i : ℕ) → i < length xs → (m (get_or xs i 0)).position ≡ pos (start + i))
      → Distinct xs
  Distinct-of_places [] start at = tt
  Distinct-of_places (x ∷ xs) start at = (
    elim (Bool-cases (has x xs)) [
      | inl twice ↦
          let (i, inside, there) = has-get_or x 0 xs twice in
          ground (arith, at 0 (omega arith), at (suc i) (omega arith))
      | inr once ↦ once
    ],
    Distinct-of_places xs (suc start) λ i inside. at (suc i) (omega arith) ∙ ap pos (omega arith),
  )

Distinct-of_IsPlaced :
    {g : ℕ → ExpiryItem} {n : ℕ} {h : ExpiryHeap} → IsPlaced g n h → Distinct h.store
Distinct-of_IsPlaced {h = h} v =
    Distinct-of_places h.memory h.store 0 λ i inside. v.placed i inside ∙ ap pos (omega arith)

-- An order that keeps the times of what is in the heap.
pub rebase :
    (g g' : ℕ → ExpiryItem) (n : ℕ) (h : ExpiryHeap)
    → IsOrdered g n h
    → ((p : ℕ) → SameItem (h.memory p) (g' p))
    → IsOrdered g' n h
rebase g g' n h v same =
    let due = λ (p : ℕ). sym (same p).1 ∙ (v.good.same p).1 in
    record {
      good = record { placed = v.good.placed; same = same; same_next = v.good.same_next };
      heap =
          λ c p q. rw (due (get_or h.store c 0), due (get_or h.store (parent c) 0)) (v.heap c p q);
    }

-- Who is in a list that has the entries of another one and `p`.
pub has-taken :
    {xs ys : List ℕ} {p : ℕ} (q : ℕ) → Perm xs (p ∷ ys) → has q xs ≡ ((q == p) || has q ys)
unfolding has eq_address
has-taken q same = has-perm q same

pub str_eq-ne : {a b : String} → str_eq a b ≡ false → a ≢ b
str_eq-ne {a} {b} e same = ground (arith, e, (str_eq_iff a b).1 same)

pub update-ne :
    {X : Type 0} (m : String → Option X) (x : Option X) (key k : String)
    → key ≢ k
    → update m key x k ≡ m k
unfolding update
update-ne m x key k apart = ground (arith, apart, str_eq_iff key k)

true-not-false : true ≢ false
true-not-false e = ground (arith, e)

-- Two items of the heap have two keys.
pub same_key :
    {h : ExpiryHeap} {index : String → Option ℕ} {p q : ℕ}
    → IsIndexed h index
    → has p h.store ≡ true
    → has q h.store ≡ true
    → (h.memory p).key ≡ (h.memory q).key
    → p ≡ q
same_key {index = index} {p} {q} v mp mq e =
    let both : some p ≡ some q = sym (v.found p mp) ∙ ap index e ∙ v.found q mq in
    ground (arith, both)

-- A heap that lost one item, when the index loses its key.
pub lost-IsIndexed :
    {h h' : ExpiryHeap} {index : String → Option ℕ} (p : ℕ)
    → IsIndexed h index
    → IsOrdered h.memory h.next h'
    → Perm (p ∷ h'.store) h.store
    → IsIndexed h' (update index (h.memory p).key none)
unfolding update
lost-IsIndexed {h} {h'} {index} p v ordered' rest =
    let held = λ (q : ℕ). has-taken q (Perm.symm rest) in
    let gone : has p h'.store ≡ false = taken-absent p rest (Distinct-of_IsPlaced v.ordered.good) in
    let same = ordered'.good.same in
    let next = ordered'.good.same_next in
    let mine : has p h.store ≡ true = ground (arith, held p) in
    record {
      ordered =
          rebase h.memory h'.memory h'.next h'
            (subst (λ m. IsOrdered h.memory m h') (sym next) ordered') λ p. (refl, refl);
      made = λ q m. rw next (v.made q (ground (arith, held q)));
      listed = λ k q e.
          let kept : (str_eq (h.memory p).key k ≡ false) × (index k ≡ some q) = ground (arith, e) in
          let (m, named) = v.listed k q kept.1 in
          let apart : q ≢ p = λ s. str_eq-ne kept.0 (ap (λ r. (h.memory r).key) (sym s) ∙ named) in
          (ground (arith, held q, m, apart), (same q).0 ∙ named);
      found = λ q m.
          let still : has q h.store ≡ true = ground (arith, held q) in
          let apart : (h.memory p).key ≢ (h.memory q).key = λ s.
            true-not-false
              (sym m ∙ ap (λ r. has r h'.store) (sym (same_key v mine still s)) ∙ gone) in
          rw (same q).0
            (update-ne index none (h.memory p).key (h.memory q).key apart ∙ v.found q still);
    }
