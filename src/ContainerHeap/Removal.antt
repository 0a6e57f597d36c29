-- ===== src/ContainerHeap/Removal.antt =====
-- Pop, Remove and Fix of container/heap, over any lawful implementation of `heap.Interface`.
use mathlib.Core.List.Perm
use low_level_design_in_go.Base.{
  ℕ, suc, ◌-◌, ◌≤◌, ◌<◌, ◌≡◌, refl, sym, ap, subst, ◌∙◌, Bool, false, List, [], ◌∷◌, ◌++◌, arith,
  ◌==◌, inl, inr, Perm, length, get_or, set, length-set, get_or-set, take, exchange,
  length-exchange, get_or-exchange, exchange-perm, length-perm, get_or-take, concat-perm,
  take-append-last, length-take, Bool-cases,
}
use low_level_design_in_go.Base.Run.{Returns, Returns-map, Returns-bind}
use low_level_design_in_go.ContainerHeap.{Interface, parent, pop, remove, fix}
use low_level_design_in_go.ContainerHeap.Order.{WeakOrder, IsHeap, Touched, root_first}
use low_level_design_in_go.ContainerHeap.Lawful.{Lawful}
use low_level_design_in_go.ContainerHeap.Up.{Restored}
use low_level_design_in_go.ContainerHeap.Down.{Sank, down-Sank}
use low_level_design_in_go.ContainerHeap.Operations.{
  IsHeaped, Holds, Holds-of_Restored, settle-Restored,
}

module _ {H A B : Type 0} (I : Interface H A) (o : WeakOrder B) (d : B) (L : Lawful I o d) where
  open L use {view, Good, shown}

  -- What a call that takes out entry `i` returns: that entry, and a container of the others.
  pub record Taken (a : List B) (i : ℕ) (r : A × H) : Type 0 where
    pub heaped : IsHeaped I o d L r.1
    pub entry : shown r.0 ≡ get_or a i d
    pub rest : Perm (shown r.0 ∷ view r.1) a

  -- The container's own `Pop`, once the last entry is the one to take out.
  take_last :
      (n : ℕ) (h : H) (a : List B)
      → length a ≡ suc n
      → Restored I o d L n a h
      → Returns
          (λ r. IsHeaped I o d L r.1 × (shown r.0 ≡ get_or a n d) × Perm (shown r.0 ∷ view r.1) a)
          (I.pop h)
  take_last n h a size r =
      let whole : length (view h) ≡ suc n = length-perm r.same ∙ size in
      Returns-map (L.pop-view h n r.good whole) λ (x, h') (good, last, rest).
        let short : length (view h') ≡ n = omega (arith, ap length rest, length-take n (view h)) in
        (
          record {
            good = good;
            heap = λ c p q.
                rw
                  (
                    rest,
                    get_or-take n c (view h) d (omega arith),
                    get_or-take n (parent c) (view h) d (omega arith),
                  )
                  (r.heap c p (omega arith));
          },
          last ∙ r.beyond n (omega arith),
          Perm.trans (Perm.symm (concat-perm (view h') (shown x)))
              (subst (λ b. Perm b a) (sym (rejoined x h' last rest whole)) r.same),
        )
    where
      rejoined :
          (x : A) (h' : H)
          → shown x ≡ get_or (view h) n d
          → view h' ≡ take n (view h)
          → length (view h) ≡ suc n
          → view h' ++ shown x ∷ [] ≡ view h
      rejoined x h' last rest whole = rw (last, rest) (take-append-last n (view h) d whole)

  -- Entry `i` of a heap traded for the last one: only the edges at `i` are in doubt.
  exchanged-Touched :
      (n : ℕ) (a : List B) (i : ℕ)
      → length a ≡ suc n
      → i ≤ n
      → IsHeap o d (length a) a
      → Touched o d n (exchange d a i n) i
  exchanged-Touched n a i size inside heap =
      let at = get_or-exchange d a i n (omega arith) (omega arith) in
      record {
        edges = λ c p q r s. ground (arith, at c, at (parent c), heap c);
        bridged = λ c p q r s. ground (
          arith,
          at c,
          at (parent i),
          heap c,
          heap i,
          o.trans (get_or a (parent i) d) (get_or a i d) (get_or a c d),
        );
      }

  -- Taking out entry `i` of a heap, once it was traded for the last entry and the rest put right.
  take_traded :
      (a : List B) (n i : ℕ) (h2 : H)
      → length a ≡ suc n
      → i ≤ n
      → Restored I o d L n (exchange d a i n) h2
      → Returns (Taken a i) (I.pop h2)
  take_traded a n i h2 size inside r =
      let at = get_or-exchange d a i n (omega arith) (omega arith) n in
      Returns-map (take_last n h2 (exchange d a i n) (length-exchange d a i n ∙ size) r)
        λ t (heaped, entry, rest). record {
          heaped = heaped;
          entry = entry ∙ ground (arith, at);
          rest = Perm.trans rest (exchange-perm d a i n (omega arith) (omega arith));
        }

  -- Remove takes out entry `i`.
  pub remove-Taken :
      (h : H) (i : ℕ)
      → IsHeaped I o d L h
      → i < length (view h)
      → Returns (Taken (view h) i) (remove I h i)
  unfolding remove
  remove-Taken h i v inside =
      let n = length (view h) - 1 in
      let size : length (view h) ≡ suc n = omega arith in
      rw (L.len-view h) (elim (Bool-cases (n == i)) [
        | inl last ↦ rw last (
            let e : n ≡ i = ground arith in
            Returns-map
              (take_last n h (view h) size (record {
                good = v.good;
                heap = λ c p q. v.heap c p (omega arith);
                same = Perm.refl _;
                beyond = λ c out. refl;
              }))
              λ t (heaped, entry, rest). record {
                heaped = heaped;
                entry = entry ∙ ap (λ j. get_or (view h) j d) e;
                rest = rest;
              })
        | inr inner ↦ rw inner (
            Returns-bind
              (Returns-bind (L.swap-view h i n v.good inside (omega arith)) λ h1 (good, e).
                Returns-map
                  (settle-Restored I o d L n h1 i good
                    (omega (arith, ap length e, length-exchange d (view h) i n)) (ground arith)
                    (subst (λ a. Touched o d n a i) (sym e)
                      (exchanged-Touched n (view h) i size (omega arith) v.heap)))
                  λ h2 r. subst (λ a. Restored I o d L n a h2) e r)
              λ h2 r. take_traded (view h) n i h2 size (omega arith) r)
      ])

  -- What Pop returns: an entry that no entry is before, and a container of the others.
  pub record Popped (a : List B) (r : A × H) : Type 0 where
    pub heaped : IsHeaped I o d L r.1
    pub rest : Perm (shown r.0 ∷ view r.1) a
    pub first : (i : ℕ) → i < length a → o.before (get_or a i d) (shown r.0) ≡ false

  Restored-of_root :
      {n : ℕ} {h : H} {r : H × Bool} → Sank I o d L n h 0 r → Restored I o d L n (view h) r.0
  Restored-of_root (inl (r, moved)) = r
  Restored-of_root (inr (good, same, moved, up_inv)) = record {
    good = good;
    heap = λ c p q. rw same (up_inv.edges c p q (omega arith));
    same = rw same (Perm.refl _);
    beyond = λ c out. rw same refl;
  }

  -- Pop on a container that is not empty takes out an entry that no entry is before.
  pub pop-Popped :
      (h : H) → IsHeaped I o d L h → 0 < length (view h) → Returns (Popped (view h)) (pop I h)
  unfolding pop
  pop-Popped h v some_left =
      let a = view h in
      let n = length a - 1 in
      let size : length a ≡ suc n = omega arith in
      rw (L.len-view h) (
        Returns-bind (L.swap-view h 0 n v.good some_left (omega arith)) λ h1 (good, e).
          Returns-bind
            (down-Sank I o d L n h1 0 good (omega (arith, ap length e, length-exchange d a 0 n)) (
              subst (λ b. Touched o d n b 0) (sym e)
                (exchanged-Touched n a 0 size (omega arith) v.heap)))
            λ r sank.
              Returns-map
                (take_traded a n 0 r.0 size (omega arith)
                  (subst (λ b. Restored I o d L n b r.0) e (Restored-of_root sank)))
                λ t taken. record {
                  heaped = taken.heaped;
                  rest = taken.rest;
                  first = λ i p. rw (taken.entry) (root_first o d (length a) a i v.heap p);
                })

  -- Fix restores the order where only the edges at entry `i` are in doubt.
  pub fix-Restored :
      (h : H) (i : ℕ)
      → Good h
      → i < length (view h)
      → Touched o d (length (view h)) (view h) i
      → Returns (Holds I o d L (view h)) (fix I h i)
  unfolding fix
  fix-Restored h i good inside touched = rw (L.len-view h) (
      Returns-map (settle-Restored I o d L (length (view h)) h i good (omega arith) inside touched)
        λ h' r. Holds-of_Restored I o d L refl r)

  -- Fix restores the order of a heap in which only entry `i` has changed.
  pub fix-Holds :
      (h : H) (i : ℕ) (a : List B) (x : B)
      → Good h
      → IsHeap o d (length a) a
      → view h ≡ set a i x
      → i < length a
      → Returns (Holds I o d L (view h)) (fix I h i)
  fix-Holds h i a x good heap e inside =
      let size : length (view h) ≡ length a = ap length e ∙ length-set a i x in
      let at = λ (c : ℕ). get_or-set a i c x d inside in
      let touched : Touched o d (length a) (set a i x) i = record {
        edges = λ c p q r s. ground (arith, at c, at (parent c), heap c);
        bridged = λ c p q r s. ground (
          arith,
          at c,
          at (parent i),
          heap c,
          heap i,
          o.trans (get_or a (parent i) d) (get_or a i d) (get_or a c d),
        );
      } in
      fix-Restored h i good (omega arith)
        (rw size (subst (λ b. Touched o d (length a) b i) (sym e) touched))
