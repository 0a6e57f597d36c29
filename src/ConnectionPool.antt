-- ===== src/ConnectionPool.antt =====
-- Connection Pool/main.go: the critical sections of a pool of connections. A pointer to a connection
-- is an address of the memory in which the connections lie.
pub mod Steps
pub mod Sums
pub mod Validity
pub mod Sections
pub mod Releasing
pub mod Runs
pub mod Closing
pub mod Tests
use low_level_design_in_go.Base.{
  ℕ, zero, suc, ◌+◌, ◌-◌, String, Bool, true, false, not, ◌&&◌, Option, none, some, List, [], ◌∷◌,
  ◌++◌, ltb, ◌==◌, ==_iff, length, Eq, has, insert, delete, if◌then◌else◌,
}
use low_level_design_in_go.Base.Int.{ℤ, pos, negsuc, sub_ℕ, ltb_ℤ, ◌+ℤ◌, ◌-ℤ◌}
use low_level_design_in_go.Base.Run.{Run, ok, panic, out_of_fuel, ◌>>=◌}

pub data ConnStatus : Type 0 where
  idle in_use : ConnStatus

pub data HealthStatus : Type 0 where
  healthy unhealthy : HealthStatus

pub record Connection : Type 0 where
  pub id : String
  pub health : HealthStatus
  pub status : ConnStatus
  pub last_used : ℕ

-- `idle_conns` is the buffer of `idleConnChan`, `wg` the counter of `connWG`, `cancelled` whether the
-- pool's context is done. The connections at addresses from `next` on are not yet made.
pub record Pool : Type 0 where
  pub cancelled : Bool
  pub max_connections : ℤ
  pub idle_connections : ℕ
  pub total_connections : ℤ
  pub idle_timeout : ℤ
  pub memory : ℕ → Connection
  pub next : ℕ
  pub idle_conns : List ℕ
  pub connections : List ℕ
  pub wg : ℕ
  pub closed : Bool

pub data Error : Type 0 where
  connection_is_nil not_of_this_pool not_in_use : Error

instance abbrev pub eq_address : Eq ℕ
eq_address = record { beq = λ p q. p == q; beq_iff = ==_iff }

abbrev pub is_healthy : HealthStatus → Bool
is_healthy healthy = true
is_healthy unhealthy = false

abbrev pub is_in_use : ConnStatus → Bool
is_in_use in_use = true
is_in_use idle = false

abbrev pub nothing_yet : Connection
nothing_yet = record { id = ""; health = healthy; status = idle; last_used = 0 }

abbrev pub empty_pool : ℤ → ℤ → ℕ → Pool
empty_pool max_connections idle_timeout idle_connections = record {
  cancelled = false;
  max_connections = max_connections;
  idle_connections = idle_connections;
  total_connections = pos 0;
  idle_timeout = idle_timeout;
  memory = λ a. nothing_yet;
  next = 0;
  idle_conns = [];
  connections = [];
  wg = 0;
  closed = false;
}

-- `make` panics for a negative buffer.
unfoldable pub new_connection_pool : ℤ → ℤ → ℤ → Run Pool
new_connection_pool max_connections idle_timeout (negsuc n) = panic
new_connection_pool max_connections idle_timeout (pos n) =
    ok (empty_pool max_connections idle_timeout n)

-- `*conn = c`
unfoldable pub write : (ℕ → Connection) → ℕ → Connection → ℕ → Connection
write m a c b = if a == b then c else m b

abbrev pub set_status : Pool → ℕ → ConnStatus → Pool
set_status p a s = record p { memory = write p.memory a (record (p.memory a) { status = s }) }

-- `delete(p.connections, conn)` and `p.totalConnections--`
unfoldable pub discard : Pool → ℕ → Pool
discard p a = record p {
  connections = delete a p.connections;
  total_connections = p.total_connections -ℤ pos 1;
}

-- The test of `Acquire` on a connection that it received.
unfoldable pub usable : Pool → ℕ → ℕ → Bool
usable p a now =
    let c = p.memory a in
    is_healthy c.health
    && not (ltb_ℤ p.idle_timeout (sub_ℕ now c.last_used))
    && not (is_in_use c.status)

-- What `Acquire` does with a connection that it received.
pub data Verdict : Type 0 where
  refused taken dropped : Verdict

unfoldable pub take_idle : Pool → ℕ → ℕ → Pool × Verdict
unfolding discard usable write
take_idle p a now =
    if p.closed
    then (p, refused)
    else if usable p a now
    then (record (set_status p a in_use) { wg = suc p.wg }, taken)
    else (discard p a, dropped)

-- The section of `Acquire` that makes a connection.
unfoldable pub create : Pool → String → ℕ → Pool × Option ℕ
unfolding write
create p id now =
    let conn : Connection = record {
      id = id;
      health = healthy;
      status = in_use;
      last_used = now;
    } in
    let made = record p {
      memory = write p.memory p.next conn;
      next = suc p.next;
      total_connections = p.total_connections +ℤ pos 1;
      wg = suc p.wg;
      connections = insert p.next p.connections;
    } in
    if ltb_ℤ p.total_connections p.max_connections && not p.closed
    then (made, some p.next)
    else (p, none)

-- `Release` once the connection is known to be in use. `connWG.Done()` below zero panics; a send into a
-- full channel would wait for good under the lock, which is `out_of_fuel`.
unfoldable pub put_back : Pool → ℕ → ℕ → Run Pool
unfolding discard write
put_back p a now =
    let p1 = record (set_status p a idle) { wg = p.wg - 1 } in
    let used = record (p1.memory a) { last_used = now } in
    let p2 = record p1 { memory = write p1.memory a used } in
    let kept = record p2 { idle_conns = p2.idle_conns ++ a ∷ [] } in
    let send = if ltb (length p2.idle_conns) p2.idle_connections then ok kept else out_of_fuel in
    let open_ = if length p2.idle_conns == p2.idle_connections then ok (discard p2 a) else send in
    if p.wg == 0 then panic else if p.closed then ok (discard p1 a) else open_

unfoldable pub release : Pool → Option ℕ → ℕ → Run (Pool × Option Error)
unfolding put_back
release p none now = ok (p, some connection_is_nil)
release p (some a) now =
    let back = put_back p a now >>= λ p'. ok (p', none) in
    if not (has a p.connections)
    then ok (p, some not_of_this_pool)
    else if not (is_in_use (p.memory a).status)
    then ok (p, some not_in_use)
    else back

-- `Shutdown` up to its wait.
unfoldable pub begin_shutdown : Pool → Pool
begin_shutdown p = record p { closed = true; cancelled = true }
