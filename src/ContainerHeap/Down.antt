-- ===== src/ContainerHeap/Down.antt =====
-- `down` of container/heap restores the heap order, or reports that the entry stayed.
use mathlib.Core.List.Perm
use low_level_design_in_go.Base.{
  ℕ, zero, suc, ◌+◌, ◌-◌, ◌*◌, ◌≤◌, ◌<◌, ◌≡◌, refl, sym, ap, subst, Bool, true, false, not, List,
  arith, ltb, leb, ◌⊎◌, inl, inr, length, get_or, exchange, length-exchange, if_cases,
}
use low_level_design_in_go.Base.Run.{Returns, returns, Returns-map, Returns-bind, Returns-if}
use low_level_design_in_go.ContainerHeap.{Interface, parent, lesser_child, down_loop, down}
use low_level_design_in_go.ContainerHeap.Order.{
  WeakOrder, InOrder, UpInv, DownInv, Touched, sink-DownInv, before_irrefl,
}
use low_level_design_in_go.ContainerHeap.Lawful.{Lawful}
use low_level_design_in_go.ContainerHeap.Up.{Restored, Restored-exchange}

children : (i c : ℕ) → 0 < c → parent c ≡ i → (c ≡ 2 * i + 1) ⊎ (c ≡ 2 * i + 1 + 1)
children i c pos e = grind arith

module _ {H A B : Type 0} (I : Interface H A) (o : WeakOrder B) (d : B) (L : Lawful I o d) where
  open L use {view, Good}

  -- `m` is a child of `i` that no child of `i` is before.
  record IsLesser (n : ℕ) (a : List B) (i m : ℕ) : Type 0 where
    inside : m < n
    pos : 0 < m
    child : parent m ≡ i
    least : (c : ℕ) → 0 < c → c < n → parent c ≡ i → InOrder o d a m c

  lesser_child-IsLesser :
      (n : ℕ) (h : H) (i : ℕ)
      → Good h
      → n ≤ length (view h)
      → 2 * i + 1 < n
      → Returns (IsLesser n (view h) i) (lesser_child I h i n)
  unfolding lesser_child
  lesser_child-IsLesser n h i good size room =
      let l = 2 * i + 1 in
      let left = get_or (view h) l d in
      let right = get_or (view h) (l + 1) d in
      Returns-if (ltb (l + 1) n)
        (λ two. rw (L.less-view h (l + 1) l good (ground arith) (omega arith)) (
          returns (
            if_cases (IsLesser n (view h) i) (o.before right left)
              (λ less. record {
                inside = ground arith;
                pos = omega arith;
                child = omega arith;
                least = λ c p q r.
                    ground (arith, children i c p r, o.asym _ _ less, before_irrefl o d right);
              })
              (λ more. record {
                inside = omega arith;
                pos = omega arith;
                child = omega arith;
                least = λ c p q r. ground (arith, children i c p r, before_irrefl o d left);
              }))))
        (λ one. returns (record {
          inside = omega arith;
          pos = omega arith;
          child = omega arith;
          least = λ c p q r. ground (arith, children i c p r, before_irrefl o d left);
        }))

  -- How `down` leaves entry `i`: sunk to `last`, or in place with only the edge above it in doubt.
  abbrev pub Sunk : ℕ → H → ℕ → H × ℕ → Type 0
  Sunk n h i (h', last) =
      (Restored I o d L n (view h) h' × (i < last))
      ⊎ (Good h' × (view h' ≡ view h) × (last ≡ i) × UpInv o d n (view h) i)

  Touched-of_DownInv : {n : ℕ} {a : List B} {i : ℕ} → DownInv o d n a i → Touched o d n a i
  Touched-of_DownInv v = record { edges = λ c p q r s. v.edges c p q s; bridged = v.bridged }

  -- Where the edge above `m` was never in doubt, an entry that stays leaves a heap.
  Restored-of_Sunk :
      (n : ℕ) (h : H) (m : ℕ) (r : H × ℕ)
      → DownInv o d n (view h) m
      → parent m < m
      → Sunk n h m r
      → Restored I o d L n (view h) r.0 × (m ≤ r.1)
  Restored-of_Sunk n h m (h', last) v inner (inl (restored, moved)) = (restored, omega arith)
  Restored-of_Sunk n h m (h', last) v inner (inr (good, same, stays, up_inv)) = (
    record {
      good = good;
      heap = λ c p q. rw same (ground (arith, up_inv.edges c, v.edges c));
      same = rw same (Perm.refl _);
      beyond = λ c out. rw same refl;
    },
    omega arith,
  )

  leaf_UpInv : {n : ℕ} {a : List B} {i : ℕ} → n ≤ 2 * i + 1 → Touched o d n a i → UpInv o d n a i
  leaf_UpInv leaf v = record {
    edges = λ c p q r. v.edges c p q r (omega arith);
    bridged = v.bridged;
  }

  stays_UpInv :
      {n : ℕ} {a : List B} {i m : ℕ}
      → IsLesser n a i m
      → o.before (get_or a m d) (get_or a i d) ≡ false
      → Touched o d n a i
      → UpInv o d n a i
  stays_UpInv {a} {i} {m} lesser fits v = record {
    edges = λ c p q r.
        ground
          (arith, v.edges c, lesser.least c, o.trans (get_or a i d) (get_or a m d) (get_or a c d));
    bridged = v.bridged;
  }

  sink_lesser :
      {n : ℕ} {a : List B} {i m : ℕ}
      → n ≤ length a
      → IsLesser n a i m
      → o.before (get_or a m d) (get_or a i d) ≡ true
      → Touched o d n a i
      → DownInv o d n (exchange d a i m) m
  sink_lesser {n} {a} {i} {m} size lesser below v =
      sink-DownInv o d n a i m size lesser.inside lesser.child lesser.pos v lesser.least below

  down_loop-Sunk :
      (fuel n : ℕ) (h : H) (i : ℕ)
      → Good h
      → n ≤ length (view h)
      → n - i < fuel
      → Touched o d n (view h) i
      → Returns (Sunk n h i) (down_loop I fuel h i n)
  unfolding down_loop
  down_loop-Sunk zero n h i good size f v = absurd (omega arith)
  down_loop-Sunk (suc fuel) n h i good size f v =
      Returns-if (leb n (2 * i + 1))
        (λ leaf. returns (inr (good, refl, refl, leaf_UpInv (ground arith) v)))
        λ node. Returns-bind (lesser_child-IsLesser n h i good size (ground arith)) λ m lesser.
          rw (L.less-view h m i good (omega (arith, lesser.inside)) (omega arith)) (
            Returns-if (not (o.before (get_or (view h) m d) (get_or (view h) i d)))
              (λ fits. returns (inr (good, refl, refl, stays_UpInv lesser (ground arith) v)))
              λ below.
                let sunk = sink_lesser size lesser (ground arith) v in
                Returns-bind (L.swap-view h i m good (omega arith) (omega (arith, lesser.inside)))
                  λ h' (good', e).
                    let down_inv = subst (λ a. DownInv o d n a m) (sym e) sunk in
                    Returns-map
                      (down_loop-Sunk fuel n h' m good'
                        (omega (arith, ap length e, length-exchange d (view h) i m))
                        (omega (arith, lesser.child, lesser.pos)) (Touched-of_DownInv down_inv))
                      λ r sunk_m.
                        let (restored, further) =
                          Restored-of_Sunk n h' m r down_inv (omega (arith, lesser.pos)) sunk_m in
                        inl (
                          Restored-exchange I o d L n (view h) i m size (omega arith) lesser.inside
                              (subst (λ a. Restored I o d L n a r.0) e restored),
                          omega (arith, lesser.child, lesser.pos),
                        ))

  -- How a call of `down` ends: the heap order is restored and entry `i` moved, or the entry stayed
  -- and only the edge above it is in doubt.
  abbrev pub Sank : ℕ → H → ℕ → H × Bool → Type 0
  Sank n h i (h', moved) =
      (Restored I o d L n (view h) h' × (moved ≡ true))
      ⊎ (Good h' × (view h' ≡ view h) × (moved ≡ false) × UpInv o d n (view h) i)

  report : (n : ℕ) (h : H) (i : ℕ) (r : H × ℕ) → Sunk n h i r → Sank n h i (r.0, ltb i r.1)
  report n h i (h', last) (inl (restored, moved)) = inl (restored, ground arith)
  report n h i (h', last) (inr (good, same, stays, up_inv)) = inr (good, same, ground arith, up_inv)

  pub down-Sank :
      (n : ℕ) (h : H) (i : ℕ)
      → Good h
      → n ≤ length (view h)
      → Touched o d n (view h) i
      → Returns (Sank n h i) (down I h i n)
  unfolding down
  down-Sank n h i good size v =
      Returns-bind (down_loop-Sunk (n + 1) n h i good size (omega arith) v)
        λ r sunk. returns (report n h i r sunk)
