-- ===== src/ContainerHeap/Order.antt =====
-- The order that `Less` stands for, and slices in heap order.
use low_level_design_in_go.Base.{
  ℕ, zero, suc, ◌≤◌, ◌<◌, ◌≡◌, ◌≢◌, Bool, true, false, List, arith, length, get_or, exchange,
  get_or-exchange,
}
use low_level_design_in_go.ContainerHeap.{parent}

-- A strict weak order, by its test.
pub record WeakOrder (A : Type 0) : Type 0 where
  pub before : A → A → Bool
  pub asym : (a b : A) → before a b ≡ true → before b a ≡ false
  pub trans : (a b c : A) → before b a ≡ false → before c b ≡ false → before c a ≡ false

module _ {A : Type 0} (o : WeakOrder A) (d : A) where
  -- The entry at `i` is not after the entry at `j`.
  abbrev pub InOrder : List A → ℕ → ℕ → Type 0
  InOrder a i j = o.before (get_or a j d) (get_or a i d) ≡ false

  -- Among the first `n` entries no child is before its parent.
  abbrev pub IsHeap : ℕ → List A → Type 0
  IsHeap n a = (c : ℕ) → 0 < c → c < n → InOrder a (parent c) c

  -- The children of `i` are not before the parent of `i`.
  abbrev pub IsBridged : ℕ → List A → ℕ → Type 0
  IsBridged n a i = (c : ℕ) → 0 < c → c < n → parent c ≡ i → 0 < i → InOrder a (parent i) c

  -- Only the edge above `i` may be out of order.
  pub record UpInv (n : ℕ) (a : List A) (i : ℕ) : Type 0 where
    pub edges : (c : ℕ) → 0 < c → c < n → c ≢ i → InOrder a (parent c) c
    pub bridged : IsBridged n a i

  -- Only the edges below `i` may be out of order.
  pub record DownInv (n : ℕ) (a : List A) (i : ℕ) : Type 0 where
    pub edges : (c : ℕ) → 0 < c → c < n → parent c ≢ i → InOrder a (parent c) c
    pub bridged : IsBridged n a i

  -- The edges above and below `i` may be out of order.
  pub record Touched (n : ℕ) (a : List A) (i : ℕ) : Type 0 where
    pub edges : (c : ℕ) → 0 < c → c < n → c ≢ i → parent c ≢ i → InOrder a (parent c) c
    pub bridged : IsBridged n a i

  pub before_irrefl : (x : A) → o.before x x ≡ false
  before_irrefl x = ground (arith, o.asym x x)

  root_first_below :
      (fuel n : ℕ) (a : List A) (i : ℕ) → IsHeap n a → i < fuel → i < n → InOrder a 0 i
  root_first_below zero n a i h f p = absurd (omega arith)
  root_first_below (suc fuel) n a zero h f p = before_irrefl _
  root_first_below (suc fuel) n a (suc i) h f p =
      o.trans _ _ _ (root_first_below fuel n a (parent (suc i)) h (omega arith) (omega arith))
        (h (suc i) (omega arith) p)

  -- No entry of a slice in heap order is before the first one.
  pub root_first : (n : ℕ) (a : List A) (i : ℕ) → IsHeap n a → i < n → InOrder a 0 i
  root_first n a i h p = root_first_below (suc i) n a i h (omega arith) p

  -- After an exchange of a child with its parent, which it is before, the edge above the parent
  -- is the only one in doubt.
  module _ (n : ℕ) (a : List A) (i : ℕ) (size : n ≤ length a) (hi : i < n) (pos : 0 < i) where
    pub rise-UpInv :
        UpInv n a i
        → o.before (get_or a i d) (get_or a (parent i) d) ≡ true
        → UpInv n (exchange d a (parent i) i) (parent i)
    rise-UpInv v below =
        let at = get_or-exchange d a (parent i) i (omega arith) (omega arith) in
        record {
          edges = λ c p q r. ground (
            arith,
            at c,
            at (parent c),
            v.edges c,
            v.bridged c,
            o.asym _ _ below,
            o.trans (get_or a i d) (get_or a (parent i) d) (get_or a c d),
          );
          bridged = λ c p q r s. ground (
            arith,
            at c,
            at (parent (parent i)),
            v.edges c,
            v.edges (parent i),
            o.trans (get_or a (parent (parent i)) d) (get_or a (parent i) d) (get_or a c d),
          );
        }

  -- After an exchange of a parent with its first child, the edges below the child are in doubt.
  module _ (n : ℕ) (a : List A) (i m : ℕ) (size : n ≤ length a) (hm : m < n) (up_m : parent m ≡ i)
      (pos : 0 < m) where
    pub sink-DownInv :
        Touched n a i
        → ((c : ℕ) → 0 < c → c < n → parent c ≡ i → InOrder a m c)
        → o.before (get_or a m d) (get_or a i d) ≡ true
        → DownInv n (exchange d a i m) m
    sink-DownInv v least below =
        let at = get_or-exchange d a i m (omega arith) (omega arith) in
        record {
          edges = λ c p q r.
              ground
                (arith, at c, at (parent c), v.edges c, v.bridged m, least c, o.asym _ _ below);
          bridged = λ c p q r s. ground (arith, at c, at (parent m), v.edges c);
        }
