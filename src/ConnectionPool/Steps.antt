-- ===== src/ConnectionPool/Steps.antt =====
-- The goroutines in Connection Pool/main.go, and the steps that they take between two points where
-- another one may run.
use low_level_design_in_go.Base.{
  ℕ, String, Bool, true, false, not, ◌&&◌, Option, none, some, List, [], ◌∷◌, ◌++◌, ◌==◌, get_elem?,
  set, if◌then◌else◌,
}
use low_level_design_in_go.Base.Run.{Run, ok, ◌>>=◌}
use low_level_design_in_go.ConnectionPool.{
  Pool, HealthStatus, Verdict, refused, taken, dropped, take_idle, create, release, discard,
  begin_shutdown, write,
}

-- Where a call of `Acquire` is: at its first select, with a connection that it received in one of the
-- selects, at the section that makes a connection, at its second select, or returned.
pub data Acquirer : Type 0 where
  at_first at_create at_second failed : Acquirer
  holds_first holds_second got : ℕ → Acquirer

-- Where a call of `Shutdown` is.
pub data Closer : Type 0 where
  waiting draining finished : Closer
  drained : ℕ → Closer

-- The pool and its goroutines. `given_up` is no state of the program: it notes the connections that
-- `Acquire` received and, finding the pool closed, left.
pub record System : Type 0 where
  pub pool : Pool
  pub acquirers : List Acquirer
  pub closers : List Closer
  pub given_up : List ℕ

pub data Step : Type 0 where
  acquires shuts_down : Step
  gives_up receives defaults : ℕ → Step
  settles : ℕ → ℕ → Step
  creates : ℕ → String → ℕ → Step
  releases : Option ℕ → ℕ → Step
  marks : ℕ → HealthStatus → Step
  waits drains discards : ℕ → Step

abbrev pub set_acquirer : System → ℕ → Acquirer → System
set_acquirer s i x = record s { acquirers = set s.acquirers i x }

abbrev pub set_closer : System → ℕ → Closer → System
set_closer s i x = record s { closers = set s.closers i x }

-- A receive from `idleConnChan`, if there is a connection: what is left, and where the receiver goes.
abbrev pub pull : System → List ℕ → (ℕ → System → System) → System
pull s [] next = s
pull s (a ∷ rest) next = next a (record s { pool = record s.pool { idle_conns = rest } })

unfoldable pub receive : System → ℕ → Acquirer → System
receive s i at_first = pull s s.pool.idle_conns λ a s'. set_acquirer s' i (holds_first a)
receive s i at_second = pull s s.pool.idle_conns λ a s'. set_acquirer s' i (holds_second a)
receive s i x = s

-- A context that is done.
unfoldable pub give_up : System → ℕ → Acquirer → System
give_up s i at_first = set_acquirer s i failed
give_up s i at_second = set_acquirer s i failed
give_up s i x = s

-- The default of the first select, when no case is ready.
unfoldable pub default : System → ℕ → Acquirer → System
default s i at_first =
    let none_idle : Bool = elim s.pool.idle_conns [ [] ↦ true | a ∷ rest ↦ false ] in
    if none_idle && not s.pool.cancelled then set_acquirer s i at_create else s
default s i x = s

-- After the section on a connection that was received.
abbrev pub after_verdict : System → ℕ → ℕ → Acquirer → Pool × Verdict → System
after_verdict s i a next (p, refused) = record (set_acquirer s i failed) {
  pool = p;
  given_up = a ∷ s.given_up;
}
after_verdict s i a next (p, taken) = record (set_acquirer s i (got a)) { pool = p }
after_verdict s i a next (p, dropped) = record (set_acquirer s i next) { pool = p }

unfoldable pub settle : System → ℕ → Acquirer → ℕ → System
unfolding take_idle
settle s i (holds_first a) now = after_verdict s i a at_create (take_idle s.pool a now)
settle s i (holds_second a) now = after_verdict s i a at_first (take_idle s.pool a now)
settle s i x now = s

abbrev pub after_create : System → ℕ → Pool × Option ℕ → System
after_create s i (p, some a) = record (set_acquirer s i (got a)) { pool = p }
after_create s i (p, none) = record (set_acquirer s i at_second) { pool = p }

unfoldable pub try_create : System → ℕ → Acquirer → String → ℕ → System
unfolding create
try_create s i at_create id now = after_create s i (create s.pool id now)
try_create s i x id now = s

-- `p.connWG.Wait()`
unfoldable pub wait : System → ℕ → Closer → System
wait s i waiting = if s.pool.wg == 0 then set_closer s i draining else s
wait s i x = s

-- The loop of `Shutdown` up to its lock.
unfoldable pub drain : System → ℕ → Closer → System
drain s i draining = elim s.pool.idle_conns [
  | [] ↦ set_closer s i finished
  | a ∷ rest ↦ set_closer (record s { pool = record s.pool { idle_conns = rest } }) i (drained a)
]
drain s i x = s

unfoldable pub discard_drained : System → ℕ → Closer → System
unfolding discard
discard_drained s i (drained a) = record (set_closer s i draining) { pool = discard s.pool a }
discard_drained s i x = s

-- A holder of a connection changes its health.
unfoldable pub mark : Pool → ℕ → HealthStatus → Pool
unfolding write
mark p a h = record p { memory = write p.memory a (record (p.memory a) { health = h }) }

abbrev pub with_acquirer : System → ℕ → (Acquirer → System) → Run System
with_acquirer s i act = elim (get_elem? s.acquirers i) [ none ↦ ok s | some x ↦ ok (act x) ]

abbrev pub with_closer : System → ℕ → (Closer → System) → Run System
with_closer s i act = elim (get_elem? s.closers i) [ none ↦ ok s | some x ↦ ok (act x) ]

-- A step that is not possible changes nothing.
unfoldable pub take_step : System → Step → Run System
unfolding receive give_up default settle try_create release begin_shutdown wait drain
    discard_drained mark
take_step s acquires = ok (record s { acquirers = s.acquirers ++ at_first ∷ [] })
take_step s (gives_up i) = with_acquirer s i (give_up s i)
take_step s (receives i) = with_acquirer s i (receive s i)
take_step s (defaults i) = with_acquirer s i (default s i)
take_step s (settles i now) = with_acquirer s i λ x. settle s i x now
take_step s (creates i id now) = with_acquirer s i λ x. try_create s i x id now
take_step s (releases conn now) = release s.pool conn now >>= λ (p, e). ok (record s { pool = p })
take_step s (marks a h) = ok (record s { pool = mark s.pool a h })
take_step s shuts_down =
    ok (record s { pool = begin_shutdown s.pool; closers = s.closers ++ waiting ∷ [] })
take_step s (waits i) = with_closer s i (wait s i)
take_step s (drains i) = with_closer s i (drain s i)
take_step s (discards i) = with_closer s i (discard_drained s i)

unfoldable pub take_steps : System → List Step → Run System
unfolding take_step
take_steps s [] = ok s
take_steps s (t ∷ ts) = take_step s t >>= λ s'. take_steps s' ts
