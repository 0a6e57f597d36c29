-- ===== src/ContainerHeap/Lawful.antt =====
-- What container/heap asks of an implementation of `heap.Interface`: its calls act on a slice that
-- the container shows, and keep what the container promises of itself.
use low_level_design_in_go.Base.{
  ℕ, suc, ◌<◌, ◌≡◌, List, [], ◌∷◌, ◌++◌, length, get_or, take, exchange,
}
use low_level_design_in_go.Base.Run.{ok, Returns}
use low_level_design_in_go.ContainerHeap.{Interface}
use low_level_design_in_go.ContainerHeap.Order.{WeakOrder}

-- `view` is the slice of entries, `Good` the container's own promise, `Fresh` what it asks of a value
-- that is pushed, `shown` the entry that a pushed value becomes, and `default` stands for what lies out of range.
pub record Lawful {H A B : Type 0} (I : Interface H A) (o : WeakOrder B) (default : B)
    : Type 1 where
  pub view : H → List B
  pub shown : A → B
  pub Good : H → Type 0
  pub Fresh : H → A → Type 0
  pub len-view : (h : H) → I.len h ≡ length (view h)
  pub less-view :
      (h : H) (i j : ℕ)
      → Good h
      → i < length (view h)
      → j < length (view h)
      → I.less h i j ≡ ok (o.before (get_or (view h) i default) (get_or (view h) j default))
  pub swap-view :
      (h : H) (i j : ℕ)
      → Good h
      → i < length (view h)
      → j < length (view h)
      → Returns (λ h'. Good h' × (view h' ≡ exchange default (view h) i j)) (I.swap h i j)
  pub push-view :
      (h : H) (x : A)
      → Good h
      → Fresh h x
      → Good (I.push h x) × (view (I.push h x) ≡ view h ++ shown x ∷ [])
  pub pop-view :
      (h : H) (n : ℕ)
      → Good h
      → length (view h) ≡ suc n
      → Returns
          (λ (x, h'). Good h' × (shown x ≡ get_or (view h) n default) × (view h' ≡ take n (view h)))
          (I.pop h)
