-- ===== src/KeyValueStore/Lawful.antt =====
-- The heap of KeyValueStore/heap.go as container/heap asks: every item knows its position, and
-- nothing else of an item changes.
use low_level_design_in_go.Base.{
  ℕ, suc, ◌-◌, ◌<◌, ◌≡◌, ◌≢◌, refl, true, false, [], ◌∷◌, ◌++◌, ltb, ◌==◌, arith, length, get_or,
  take, exchange, set, length-set, length-exchange, get_or-exchange, get_or-append,
  get_or-append_last, inl, inr, Bool-cases, ==_iff, get_or-take, length-append, length-take,
}
use low_level_design_in_go.Base.Int.{pos, negsuc}
use low_level_design_in_go.Base.Run.{ok, index-get_or, Returns, returns}
use low_level_design_in_go.ContainerHeap.Order.{WeakOrder}
use low_level_design_in_go.ContainerHeap.Lawful.{Lawful}
use low_level_design_in_go.KeyValueStore.Expiry.{
  ExpiryItem, ExpiryHeap, write, heap_len, less, move_to, swap, push, pop, expiry_heap,
}

pub asym_due : (a b : ℕ) → ltb a b ≡ true → ltb b a ≡ false
asym_due a b h = ground arith

pub trans_due : (a b c : ℕ) → ltb b a ≡ false → ltb c b ≡ false → ltb c a ≡ false
trans_due a b c h k = ground arith

-- The item that expires first, by the memory `g`.
abbrev pub by_due : (ℕ → ExpiryItem) → WeakOrder ℕ
by_due g = record {
  before = λ p q. ltb (g p).expires_at (g q).expires_at;
  asym = λ p q. asym_due (g p).expires_at (g q).expires_at;
  trans = λ p q r. trans_due (g p).expires_at (g q).expires_at (g r).expires_at;
}

-- Two items but for their position.
abbrev pub SameItem : ExpiryItem → ExpiryItem → Type 0
SameItem a b = (a.key ≡ b.key) × (a.expires_at ≡ b.expires_at)

-- The items of `g`, each at the position that it tells.
pub record IsPlaced (g : ℕ → ExpiryItem) (n : ℕ) (h : ExpiryHeap) : Type 0 where
  pub placed : (i : ℕ) → i < length h.store → (h.memory (get_or h.store i 0)).position ≡ pos i
  pub same : (p : ℕ) → SameItem (h.memory p) (g p)
  pub same_next : h.next ≡ n

-- The address is in no place of the slice.
abbrev pub IsOutside : ExpiryHeap → ℕ → Type 0
IsOutside h p = (i : ℕ) → i < length h.store → get_or h.store i 0 ≢ p

==→≡ : {a b : ℕ} → (a == b) ≡ true → a ≡ b
==→≡ e = (==_iff _ _).0 e

module _ (g : ℕ → ExpiryItem) (n : ℕ) where
  pub swap-IsPlaced :
      (h : ExpiryHeap) (i j : ℕ)
      → IsPlaced g n h
      → i < length h.store
      → j < length h.store
      → Returns (λ h'. IsPlaced g n h' × (h'.store ≡ exchange 0 h.store i j)) (swap h i j)
  unfolding swap exchange move_to write
  swap-IsPlaced h i j v hi hj =
      let once = set h.store i (get_or h.store j 0) in
      let both = exchange 0 h.store i j in
      let at = get_or-exchange 0 h.store i j hi hj in
      let size = length-exchange 0 h.store i j in
      rw
        (
          index-get_or h.store j 0 hj,
          index-get_or h.store i 0 hi,
          index-get_or once j 0 (rw length-set hj),
          index-get_or both i 0 (omega (arith, size)),
          index-get_or both j 0 (omega (arith, size)),
        )
        (returns (
          record {
            placed = λ c inside.
                ground (arith, at c, at i, at j, v.placed c, v.placed i hi, v.placed j hj, size);
            same = λ p. ground (arith, v.same p);
            same_next = v.same_next;
          },
          refl,
        ))

  pub push-IsPlaced :
      (h : ExpiryHeap) (x : ℕ)
      → IsPlaced g n h
      → IsOutside h x
      → IsPlaced g n (push h x) × ((push h x).store ≡ h.store ++ x ∷ [])
  unfolding push move_to write
  push-IsPlaced h x v out = (
    record {
      placed = λ i inside. elim (Bool-cases (i == length h.store)) [
        | inl last ↦ rw (==→≡ last, get_or-append_last h.store x 0) (ground arith)
        | inr inner ↦
            let low : i < length h.store = ground (arith, length-append h.store (x ∷ [])) in
            rw (get_or-append h.store (x ∷ []) i 0 low) (ground (arith, v.placed i low, out i low))
      ];
      same = λ p. ground (arith, v.same p);
      same_next = v.same_next;
    },
    refl,
  )

  pub pop-IsPlaced :
      (h : ExpiryHeap) (m : ℕ)
      → IsPlaced g n h
      → length h.store ≡ suc m
      → Returns
          (λ (x, h'). IsPlaced g n h' × (x ≡ get_or h.store m 0) × (h'.store ≡ take m h.store))
          (pop h)
  unfolding pop move_to write
  pop-IsPlaced h m v size =
      let p = get_or h.store m 0 in
      let e : length h.store - 1 ≡ m = omega arith in
      let low : (i : ℕ) → i < length (take m h.store) → i < m =
        λ i inside. omega (arith, length-take m h.store) in
      let popped : ExpiryHeap = move_to (record h { store = take m h.store }) p (negsuc 0) in
      let good : IsPlaced g n popped = record {
        placed = λ i inside. rw (get_or-take m i h.store 0 (low i inside)) (
            ground (
              arith,
              low i inside,
              v.placed i (omega (arith, low i inside)),
              v.placed m (omega arith),
            ));
        same = λ q. ground (arith, v.same q);
        same_next = v.same_next;
      } in
      rw (e, index-get_or h.store m 0 (omega arith)) (returns (good, refl, refl))

  pub less-before :
      (h : ExpiryHeap) (i j : ℕ)
      → IsPlaced g n h
      → i < length h.store
      → j < length h.store
      → less h i j ≡ ok ((by_due g).before (get_or h.store i 0) (get_or h.store j 0))
  unfolding less
  less-before h i j v hi hj = rw (
    index-get_or h.store i 0 hi,
    index-get_or h.store j 0 hj,
    (v.same (get_or h.store i 0)).1,
    (v.same (get_or h.store j 0)).1,
  )

  pub heap_len-length : (h : ExpiryHeap) → heap_len h ≡ length h.store
  unfolding heap_len
  heap_len-length h = refl

  abbrev pub expiry_lawful : Lawful expiry_heap (by_due g) 0
  expiry_lawful = record {
    view = λ h. h.store;
    shown = λ p. p;
    Good = IsPlaced g n;
    Fresh = IsOutside;
    len-view = heap_len-length;
    less-view = less-before;
    swap-view = swap-IsPlaced;
    push-view = push-IsPlaced;
    pop-view = pop-IsPlaced;
  }
