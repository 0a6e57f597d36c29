-- ===== src/ConnectionPool/Runs.antt =====
-- Interleavings of the goroutines in Connection Pool/main.go.
use low_level_design_in_go.Base.{
  ℕ, ◌≡◌, refl, Option, none, some, List, [], ◌∷◌, has, get_elem?, arith,
}
use low_level_design_in_go.Base.Int.{ℤ, pos}
use low_level_design_in_go.Base.Run.{ok, Returns, returns, Returns-bind}
use low_level_design_in_go.ConnectionPool.{Pool, eq_address}
use low_level_design_in_go.ConnectionPool.Steps.{
  System, receive, give_up, default, settle, try_create, wait, drain, discard_drained,
}
use low_level_design_in_go.ConnectionPool.{new_connection_pool, empty_pool}
use low_level_design_in_go.ConnectionPool.Steps.{
  Step, acquires, shuts_down, gives_up, receives, defaults, settles, creates, releases, marks,
  waits, drains, discards, take_step, take_steps,
}
use low_level_design_in_go.ConnectionPool.Sections.{
  IsValid, give_up-IsValid, default-IsValid, receive-IsValid, settle-IsValid, try_create-IsValid,
}
use low_level_design_in_go.ConnectionPool.Releasing.{
  wait-IsValid, drain-IsValid, discard_drained-IsValid, mark-IsValid, release-IsValid,
  acquire-IsValid, begin_shutdown-IsValid,
}

-- What is done with the goroutine at a place keeps a system valid, if it does for every one there.
at_place :
    {A : Type 0} (s : System) (o : Option A) (act : A → System)
    → IsValid s
    → ((x : A) → o ≡ some x → IsValid (act x))
    → Returns IsValid (elim o [ none ↦ ok s | some x ↦ ok (act x) ])
at_place s none act v keeps = returns v
at_place s (some x) act v keeps = returns (keeps x refl)

take_step-IsValid : (s : System) (t : Step) → IsValid s → Returns IsValid (take_step s t)
unfolding take_step
take_step-IsValid s acquires v = returns (acquire-IsValid s v)
take_step-IsValid s shuts_down v = returns (begin_shutdown-IsValid s v)
take_step-IsValid s (gives_up i) v =
    at_place s (get_elem? s.acquirers i) (give_up s i) v λ x at. give_up-IsValid s i x at v
take_step-IsValid s (receives i) v =
    at_place s (get_elem? s.acquirers i) (receive s i) v λ x at. receive-IsValid s i x at v
take_step-IsValid s (defaults i) v =
    at_place s (get_elem? s.acquirers i) (default s i) v λ x at. default-IsValid s i x at v
take_step-IsValid s (settles i now) v =
    at_place s (get_elem? s.acquirers i) (λ x. settle s i x now) v
      λ x at. settle-IsValid s i x now at v
take_step-IsValid s (creates i id now) v =
    at_place s (get_elem? s.acquirers i) (λ x. try_create s i x id now) v
      λ x at. try_create-IsValid s i x id now at v
take_step-IsValid s (releases conn now) v =
    Returns-bind (release-IsValid s conn now v) λ (p, e) valid. returns valid
take_step-IsValid s (marks a h) v = returns (mark-IsValid s a h v)
take_step-IsValid s (waits i) v =
    at_place s (get_elem? s.closers i) (wait s i) v λ x at. wait-IsValid s i x at v
take_step-IsValid s (drains i) v =
    at_place s (get_elem? s.closers i) (drain s i) v λ x at. drain-IsValid s i x at v
take_step-IsValid s (discards i) v =
    at_place s (get_elem? s.closers i) (discard_drained s i) v
      λ x at. discard_drained-IsValid s i x at v

-- From a valid pool with its goroutines no interleaving of steps of Acquire, Release and Shutdown
-- panics or waits for good under the lock, and the pool stays valid: totalConnections counts the
-- connections, which are at most the maximum; the channel holds no more idle connections than its
-- buffer; each connection is in exactly one place (in the channel, in a goroutine's hand, given up
-- by an Acquire that found the pool closed, or with a caller), and the wait group counts those in
-- use.
pub pool_steps-IsValid :
    (s : System) (ts : List Step) → IsValid s → Returns IsValid (take_steps s ts)
unfolding take_steps
pool_steps-IsValid s [] v = returns v
pool_steps-IsValid s (t ∷ ts) v =
    Returns-bind (take_step-IsValid s t v) λ s' v'. pool_steps-IsValid s' ts v'

-- A new pool with nobody at it.
abbrev pub new_system : Pool → System
new_system p = record { pool = p; acquirers = []; closers = []; given_up = [] }

pub empty_pool-IsValid :
    (max_connections idle_timeout : ℤ) (idle_connections : ℕ)
    → IsValid (new_system (empty_pool max_connections idle_timeout idle_connections))
unfolding has
empty_pool-IsValid max_connections idle_timeout idle_connections = record {
  sound = record {
    distinct = tt;
    total = refl;
    capped = omega arith;
    fresh = λ a there. absurd (ground (arith, there));
    placed = λ a. refl;
    counted = refl;
  };
  room = omega arith;
}

-- A new pool for a number of idle connections that is not negative is valid.
pub new_connection_pool-IsValid :
    (max_connections idle_timeout : ℤ) (idle_connections : ℕ)
    → Returns
        (λ p. IsValid (new_system p))
        (new_connection_pool max_connections idle_timeout (pos idle_connections))
unfolding new_connection_pool
new_connection_pool-IsValid max_connections idle_timeout idle_connections =
    returns (empty_pool-IsValid max_connections idle_timeout idle_connections)
