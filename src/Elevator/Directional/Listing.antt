-- ===== src/Elevator/Directional/Listing.antt =====
-- Pending of the Directional strategy in Elevator_System/elevator.go, and the strategy's laws.
use mathlib.Core.List.{perm_middle, append-nil}
use mathlib.Core.List.Perm
use low_level_design_in_go.Base.{
  ℕ, sym, subst, Bool, List, [], ◌∷◌, ◌++◌, Perm, Option, leb, if_cases, insert, delete-perm,
  has-perm, has_self, Distinct, ◌∙◌, ◌≤◌, ◌≡◌, refl, true, false, All, All-map, arith,
}
use low_level_design_in_go.Base.Run.{Returns, Returns-map}
use low_level_design_in_go.Elevator.{up, down, Request, ElevatorState, direction_eq}
use low_level_design_in_go.Elevator.Requests.{request_eq}
use low_level_design_in_go.Elevator.Strategy.{Answer, next, done, LawfulStrategy}
use low_level_design_in_go.Elevator.Directional.{
  Directional, insert_sorted, sort_func, pending, directional, next_request, add_request,
}
use low_level_design_in_go.Elevator.Directional.Rebucket.{contents}
use low_level_design_in_go.Elevator.Directional.Invariant.{IsValid, add_request-Added}
use low_level_design_in_go.Elevator.Directional.Next.{NextSpec, serves, rests, next_request_serves}

module _ (le : Request → Request → Bool) where
  insert_sorted-perm : (r : Request) (qs : List Request) → Perm (insert_sorted le r qs) (r ∷ qs)
  unfolding insert_sorted
  insert_sorted-perm r [] = Perm.refl _
  insert_sorted-perm r (q ∷ qs) =
      if_cases (λ rs. Perm rs (r ∷ q ∷ qs)) (le r q) (λ _. Perm.refl _)
        λ _. Perm.trans (Perm.cons q (insert_sorted-perm r qs)) (Perm.swap r q qs)

  pub sort_func-perm : (rs : List Request) → Perm (sort_func le rs) rs
  unfolding sort_func
  sort_func-perm [] = Perm.refl []
  sort_func-perm (r ∷ rs) =
      Perm.trans (insert_sorted-perm r (sort_func le rs)) (Perm.cons r (sort_func-perm rs))

-- No later entry has to stand before an earlier one.
abbrev pub Sorted : (Request → Request → Type 0) → List Request → Type 0
Sorted Before [] = Unit
Sorted Before (r ∷ rs) = All (Before r) rs × Sorted Before rs

module _ (le : Request → Request → Bool) (Before : Request → Request → Type 0)
    (yes_before : (a b : Request) → le a b ≡ true → Before a b)
    (no_before : (a b : Request) → le a b ≡ false → Before b a)
    (trans : (a b c : Request) → Before a b → Before b c → Before a c) where
  insert_sorted-All :
      (q r : Request) (rs : List Request)
      → Before q r
      → All (Before q) rs
      → All (Before q) (insert_sorted le r rs)
  unfolding insert_sorted
  insert_sorted-All q r [] first all = (first, tt)
  insert_sorted-All q r (s ∷ rs) first (here, all) =
      if_cases (All (Before q)) (le r s) (λ _. (first, (here, all)))
        λ _. (here, insert_sorted-All q r rs first all)

  insert_sorted-Sorted :
      (r : Request) (rs : List Request) → Sorted Before rs → Sorted Before (insert_sorted le r rs)
  unfolding insert_sorted
  insert_sorted-Sorted r [] sorted = (tt, tt)
  insert_sorted-Sorted r (s ∷ rs) (low, sorted) =
      if_cases (Sorted Before) (le r s)
        (λ first.
          let r_s = yes_before r s first in
          ((r_s, All-map _ _ (λ x s_x. trans r s x r_s s_x) rs low), (low, sorted)))
        λ later.
          (insert_sorted-All s r rs (no_before r s later) low, insert_sorted-Sorted r rs sorted)

  sort_func-Sorted : (rs : List Request) → Sorted Before (sort_func le rs)
  unfolding sort_func
  sort_func-Sorted [] = tt
  sort_func-Sorted (r ∷ rs) = insert_sorted-Sorted r (sort_func le rs) (sort_func-Sorted rs)

append_comm_perm : (xs ys : List Request) → Perm (xs ++ ys) (ys ++ xs)
append_comm_perm [] ys = rw (append-nil ys) (Perm.refl ys)
append_comm_perm (x ∷ xs) ys =
    Perm.trans (Perm.cons x (append_comm_perm xs ys)) (Perm.symm (perm_middle ys xs))

abbrev pub Rises : Request → Request → Type 0
Rises a b = a.floor ≤ b.floor

abbrev pub Falls : Request → Request → Type 0
Falls a b = b.floor ≤ a.floor

-- What `Pending` lists: `ups` and `downs` are the requests of the two heaps from the lowest floor up
-- and from the highest floor down, those of the sweep's direction first.
pub record Listed (s : Directional) (rs : List Request) : Type 0 where
  pub ups : List Request
  pub downs : List Request
  pub all_ups : Perm ups s.up_heap
  pub all_downs : Perm downs s.down_heap
  pub rising : Sorted Rises ups
  pub falling : Sorted Falls downs
  pub downwards : s.sweep ≡ down → rs ≡ downs ++ ups
  pub upwards : s.sweep ≡ up → rs ≡ ups ++ downs

-- Pending of the Directional strategy lists the requests of the two heaps, each exactly once: those
-- going up in the order of their floors, those going down in the opposite order, and first those of
-- the direction of the sweep.
pub pending-Listed : (s : Directional) → Listed s (pending s)
unfolding pending
pending-Listed s =
    let rise = λ (a b : Request). leb a.floor b.floor in
    let fall = λ (a b : Request). leb b.floor a.floor in
    record {
      ups = sort_func rise s.up_heap;
      downs = sort_func fall s.down_heap;
      all_ups = sort_func-perm rise s.up_heap;
      all_downs = sort_func-perm fall s.down_heap;
      rising =
          sort_func-Sorted rise Rises (λ a b e. ground (arith, e)) (λ a b e. ground (arith, e))
            (λ a b c l m. omega (arith, l, m)) s.up_heap;
      falling =
          sort_func-Sorted fall Falls (λ a b e. ground (arith, e)) (λ a b e. ground (arith, e))
            (λ a b c l m. omega (arith, l, m)) s.down_heap;
      downwards = λ e. rw e refl;
      upwards = λ e. rw e refl;
    }

-- Each request of the two heaps is listed once.
pub pending-perm : (s : Directional) → Perm (pending s) (contents s)
unfolding pending
pending-perm s =
    let ups = sort_func-perm (λ a b. leb a.floor b.floor) s.up_heap in
    let downs = sort_func-perm (λ a b. leb b.floor a.floor) s.down_heap in
    if_cases (λ rs. Perm rs (contents s)) (direction_eq s.sweep down)
      (λ _. Perm.trans (Perm.append downs ups) (append_comm_perm s.down_heap s.up_heap))
      (λ _. Perm.append ups downs)

pub Answer-of_spec :
    (s : Directional) (floor : ℕ) (a : Option Request × Directional)
    → IsValid s
    → NextSpec s floor a
    → Answer s.pending a.1.pending a.0
Answer-of_spec s floor a v (serves {r} {s'} same gone why) = next (
    subst (λ p. Perm (r ∷ p) s.pending) (sym gone)
      (delete-perm r s.pending v.distinct
        (has-perm r v.kept ∙ sym (has-perm r same) ∙ has_self r (contents s'))))
Answer-of_spec s floor a v (rests e e' _) = done e e'

pub directional-adds :
    (s : Directional) (r : Request)
    → IsValid s
    → Returns (λ s'. IsValid s' × Perm s'.pending (insert r s.pending)) (add_request s r)
directional-adds s r v =
    Returns-map (add_request-Added s r v) λ s' a. (a.valid, rw a.pending (Perm.refl _))

pub directional-nexts :
    (s : Directional) (current : ElevatorState)
    → IsValid s
    → Returns (λ (o, s'). IsValid s' × Answer s.pending s'.pending o) (next_request s current)
directional-nexts s current v =
    Returns-map (next_request_serves s current v)
      λ a (v', spec). (v', Answer-of_spec s current.current_floor a v spec)

pub directional-Distinct : (s : Directional) → IsValid s → Distinct s.pending
directional-Distinct s v = v.distinct

pub directional-lists : (s : Directional) → IsValid s → Perm (pending s) s.pending
directional-lists s v = Perm.trans (pending-perm s) (Perm.symm v.kept)

-- Directional is a lawful strategy, with the keys of `pending` as its waiting requests.
abbrev pub directional_lawful : LawfulStrategy directional
directional_lawful = record {
  Good = IsValid;
  waiting = λ s. s.pending;
  distinct = directional-Distinct;
  adds = directional-adds;
  nexts = directional-nexts;
  lists = directional-lists;
}
