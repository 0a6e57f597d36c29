-- ===== src/ContainerHeap/Operations.antt =====
-- Push of container/heap, over any lawful implementation of `heap.Interface`.
use mathlib.Core.List.Perm
use low_level_design_in_go.Base.{
  ℕ, ◌+◌, ◌-◌, ◌≤◌, ◌<◌, ◌≡◌, refl, sym, ap, subst, ◌∙◌, Bool, not, List, [], ◌∷◌, ◌++◌, arith, inl,
  inr, Perm, length, length-perm, length-append, get_or-append, concat-perm, if◌then◌else◌,
}
use low_level_design_in_go.Base.Run.{ok, Returns, returns, Returns-map, Returns-bind}
use low_level_design_in_go.ContainerHeap.{Interface, parent, up, settle, push}
use low_level_design_in_go.ContainerHeap.Order.{WeakOrder, IsHeap, UpInv, Touched}
use low_level_design_in_go.ContainerHeap.Lawful.{Lawful}
use low_level_design_in_go.ContainerHeap.Up.{Restored, up-Restored}
use low_level_design_in_go.ContainerHeap.Down.{Sank, down-Sank}

module _ {H A B : Type 0} (I : Interface H A) (o : WeakOrder B) (d : B) (L : Lawful I o d) where
  open L use {view, Good, shown}

  -- A good container whose slice is in heap order.
  pub record IsHeaped (h : H) : Type 0 where
    pub good : Good h
    pub heap : IsHeap o d (length (view h)) (view h)

  -- `h'` holds the entries `a`, in heap order.
  abbrev pub Holds : List B → H → Type 0
  Holds a h' = IsHeaped h' × Perm (view h') a

  pub Holds-of_Restored :
      {n : ℕ} {a : List B} {h : H} → length a ≡ n → Restored I o d L n a h → Holds a h
  Holds-of_Restored {n} {a} {h} size r = (
    record {
      good = r.good;
      heap = subst (λ m. IsHeap o d m (view h)) (sym (length-perm r.same ∙ size)) r.heap;
    },
    r.same,
  )

  pub settle-Restored :
      (n : ℕ) (h : H) (i : ℕ)
      → Good h
      → n ≤ length (view h)
      → i < n
      → Touched o d n (view h) i
      → Returns (Restored I o d L n (view h)) (settle I h i n)
  unfolding settle
  settle-Restored n h i good size inside v =
      Returns-bind (down-Sank I o d L n h i good size v) λ (h', moved) sank. finish h' moved sank
    where
      finish :
          (h' : H) (moved : Bool)
          → Sank I o d L n h i (h', moved)
          → Returns (Restored I o d L n (view h)) (if not moved then up I h' i else ok h')
      finish h' moved (inl (r, e)) = rw e (returns r)
      finish h' moved (inr (good', same, e, up_inv)) = rw e (
          Returns-map
            (up-Restored I o d L n h' i good' (omega (arith, ap length same)) inside
              (subst (λ a. UpInv o d n a i) (sym same) up_inv))
            λ h'' r. subst (λ a. Restored I o d L n a h'') same r)

  -- A new last entry: only the edge above it is in doubt.
  appended-UpInv :
      (a : List B) (x : B) (n : ℕ)
      → n ≡ length a + 1
      → IsHeap o d (length a) a
      → UpInv o d n (a ++ x ∷ []) (n - 1)
  appended-UpInv a x n e heap = record {
    edges = λ c p q r.
        rw
          (
            get_or-append a (x ∷ []) c d (omega arith),
            get_or-append a (x ∷ []) (parent c) d (omega arith),
          )
          (heap c p (omega arith));
    bridged = λ c p q r s. absurd (omega arith);
  }

  -- Push adds exactly the value.
  pub push-Holds :
      (h : H) (x : A) → IsHeaped h → L.Fresh h x → Returns (Holds (shown x ∷ view h)) (push I h x)
  unfolding push
  push-Holds h x v fresh =
      let h1 = I.push h x in
      let n = length (view h1) in
      let (good, e) = L.push-view h x v.good fresh in
      let size : n ≡ length (view h) + 1 = ap length e ∙ length-append (view h) (shown x ∷ []) in
      let up_inv =
        subst (λ a. UpInv o d n a (n - 1)) (sym e)
          (appended-UpInv (view h) (shown x) n size v.heap) in
      rw (L.len-view h1) (
        Returns-map (up-Restored I o d L n h1 (n - 1) good (omega arith) (omega arith) up_inv)
          λ h' r.
            let (heaped, same) = Holds-of_Restored refl r in
            (
              heaped,
              Perm.trans same
                  (subst (λ a. Perm a (shown x ∷ view h)) (sym e) (concat-perm (view h) (shown x))),
            ))
