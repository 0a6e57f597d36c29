-- ===== src/ConnectionPool/Tests.antt =====
-- The pool of Connection Pool/main.go on concrete calls.
use low_level_design_in_go.Base.{ℕ, ◌≡◌, refl, true, some, List, [], ◌∷◌, has, insert, delete}
use low_level_design_in_go.Base.Int.{ℤ, pos, ◌+ℤ◌}
use low_level_design_in_go.Base.Run.{Run, ok, ◌>>=◌, Returns}
use low_level_design_in_go.ConnectionPool.{Pool, empty_pool, eq_address}
use low_level_design_in_go.ConnectionPool.Steps.{
  System, Step, acquires, defaults, creates, releases, receives, settles, shuts_down, waits, drains,
  take_steps, draining,
}
use low_level_design_in_go.ConnectionPool.Sections.{IsValid}
use low_level_design_in_go.ConnectionPool.Closing.{turns, Emptied, turns-Emptied}
use low_level_design_in_go.ConnectionPool.Runs.{new_system, empty_pool-IsValid, pool_steps-IsValid}

-- Room for two connections, one of them idle.
abbrev quiet : System
quiet = new_system (empty_pool (pos 2) (pos 100) 1)

quiet-IsValid : IsValid quiet
quiet-IsValid = empty_pool-IsValid (pos 2) (pos 100) 1

-- Two connections are made and given back; the second one does not fit into the channel. A third
-- caller gets the first one and finds the pool open, a fourth one gets nothing more.
abbrev traffic : List Step
traffic =
    acquires
    ∷ defaults 0
    ∷ creates 0 "A" 1
    ∷ acquires
    ∷ defaults 1
    ∷ creates 1 "B" 2
    ∷ releases (some 0) 3
    ∷ releases (some 1) 4
    ∷ acquires
    ∷ receives 2
    ∷ settles 2 5
    ∷ []

abbrev ends : System → Run (List ℕ × ℕ)
ends s = ok (s.pool.connections, s.pool.wg)

traffic_run : (take_steps quiet traffic >>= ends) ≡ ok (0 ∷ [], 1)
unfolding take_steps has ◌+ℤ◌ insert delete
traffic_run = refl

-- The pool is closed between the receive of an idle connection and the test on it: the connection is
-- given up, and the pool keeps counting it after the shutdown.
abbrev leak : List Step
leak =
    acquires
    ∷ defaults 0
    ∷ creates 0 "A" 1
    ∷ releases (some 0) 2
    ∷ acquires
    ∷ receives 1
    ∷ shuts_down
    ∷ settles 1 3
    ∷ waits 0
    ∷ drains 0
    ∷ []

abbrev left : System → Run (List ℕ × List ℕ × ℤ)
left s = ok (s.given_up, s.pool.connections, s.pool.total_connections)

leak_run : (take_steps quiet leak >>= left) ≡ ok (0 ∷ [], 0 ∷ [], pos 1)
unfolding take_steps has ◌+ℤ◌ insert
leak_run = refl

pool_steps-IsValid_example : Returns IsValid (take_steps quiet leak)
pool_steps-IsValid_example = pool_steps-IsValid quiet leak quiet-IsValid

-- A pool that is closed, with one connection in the channel and nobody else at it.
abbrev idle_pool : Pool
idle_pool = record (empty_pool (pos 2) (pos 100) 1) {
  total_connections = pos 1;
  next = 1;
  idle_conns = 0 ∷ [];
  connections = 0 ∷ [];
  closed = true;
}

abbrev shutting : System
shutting = record { pool = idle_pool; acquirers = []; closers = draining ∷ []; given_up = [] }

turns-Emptied_example : Returns (Emptied shutting 0) (take_steps shutting (turns 0 1))
turns-Emptied_example = turns-Emptied 1 shutting 0 refl refl
