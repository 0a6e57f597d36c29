-- ===== src/ContainerHeap/Up.antt =====
-- `up` of container/heap restores the heap order.
use mathlib.Core.List.Perm
use low_level_design_in_go.Base.{
  ℕ, zero, suc, ◌+◌, ◌≤◌, ◌<◌, ◌≡◌, refl, sym, ap, subst, not, List, arith, ◌==◌, length, get_or,
  exchange, get_or-exchange, length-exchange, exchange-perm, Perm,
}
use low_level_design_in_go.Base.Run.{
  Run, ◌>>=◌, Returns, returns, Returns-map, Returns-bind, Returns-if,
}
use low_level_design_in_go.ContainerHeap.{Interface, parent, up_loop, up}
use low_level_design_in_go.ContainerHeap.Order.{WeakOrder, IsHeap, UpInv, rise-UpInv}
use low_level_design_in_go.ContainerHeap.Lawful.{Lawful}

module _ {H A B : Type 0} (I : Interface H A) (o : WeakOrder B) (d : B) (L : Lawful I o d) where
  open L use {view, Good}

  -- `h'` is a good container with the entries of `a` in which the first `n` are in heap order, and
  -- the entries from `n` on are those of `a`.
  pub record Restored (n : ℕ) (a : List B) (h' : H) : Type 0 where
    pub good : Good h'
    pub heap : IsHeap o d n (view h')
    pub same : Perm (view h') a
    pub beyond : (c : ℕ) → n ≤ c → get_or (view h') c d ≡ get_or a c d

  -- The same for a slice in which two of the first `n` entries were exchanged before.
  pub Restored-exchange :
      (n : ℕ) (a : List B) (i j : ℕ) {h' : H}
      → n ≤ length a
      → i < n
      → j < n
      → Restored n (exchange d a i j) h'
      → Restored n a h'
  Restored-exchange n a i j size hi hj r = record {
    good = r.good;
    heap = r.heap;
    same = Perm.trans r.same (exchange-perm d a i j (omega arith) (omega arith));
    beyond =
        λ c out. ground (arith, r.beyond c, get_or-exchange d a i j (omega arith) (omega arith) c);
  }

  module _ (n : ℕ) (h : H) (j : ℕ) (good : Good h) (size : n ≤ length (view h))
      (inside : j < n) where
    -- The loop ends: the heap order holds already.
    settled : IsHeap o d n (view h) → Restored n (view h) h
    settled heap = record { good = good; heap = heap; same = Perm.refl _; beyond = λ c out. refl }

    -- One exchange, and what is left to do after it.
    risen :
        {r : H → Run H}
        → 0 < j
        → ((h' : H)
            → Good h'
            → view h' ≡ exchange d (view h) (parent j) j
            → Returns (Restored n (view h')) (r h'))
        → Returns (Restored n (view h)) (I.swap h (parent j) j >>= r)
    risen pos next =
        Returns-bind (L.swap-view h (parent j) j good (omega arith) (omega arith)) λ h' (good', e).
          Returns-map (next h' good' e) λ h'' r.
            Restored-exchange n (view h) (parent j) j size (omega arith) inside
              (subst (λ a. Restored n a h'') e r)

  up_loop-Restored :
      (fuel n : ℕ) (h : H) (j : ℕ)
      → Good h
      → n ≤ length (view h)
      → j < n
      → j < fuel
      → UpInv o d n (view h) j
      → Returns (Restored n (view h)) (up_loop I fuel h j)
  unfolding up_loop
  up_loop-Restored zero n h j good size inside f v = absurd (omega arith)
  up_loop-Restored (suc fuel) n h j good size inside f v =
      Returns-if (parent j == j)
        (λ root. returns (settled n h j good size inside (λ c p q. v.edges c p q (ground arith))))
        λ inner. rw (L.less-view h j (parent j) good (omega arith) (omega arith)) (
          Returns-if (not (o.before (get_or (view h) j d) (get_or (view h) (parent j) d)))
            (λ fits. returns (settled n h j good size inside (λ c p q. ground (arith, v.edges c))))
            λ below.
              let pos : 0 < j = ground arith in
              let up_inv = rise-UpInv o d n (view h) j size inside pos v (ground arith) in
              risen n h j good size inside pos λ h' good' e.
                up_loop-Restored fuel n h' (parent j) good'
                  (omega (arith, ap length e, length-exchange d (view h) (parent j) j))
                  (omega arith) (omega arith)
                  (subst (λ a. UpInv o d n a (parent j)) (sym e) up_inv))

  -- `up` restores the heap order of the first `n` entries, where only the edge above `j` was out of
  -- order, and keeps the entries.
  pub up-Restored :
      (n : ℕ) (h : H) (j : ℕ)
      → Good h
      → n ≤ length (view h)
      → j < n
      → UpInv o d n (view h) j
      → Returns (Restored n (view h)) (up I h j)
  unfolding up
  up-Restored n h j good size inside v =
      up_loop-Restored (j + 1) n h j good size inside (omega arith) v
