-- ===== src/ConnectionPool/Sections.antt =====
-- The steps of the goroutines in Connection Pool/main.go keep the pool sound.
use low_level_design_in_go.Base.{
  ℕ, suc, ◌+◌, ◌≤◌, ◌≡◌, refl, ap, String, Option, none, some, List, [], ◌∷◌, length, sum_by,
  sum_by-set, get_elem?, arith, if_cases,
}
use low_level_design_in_go.ConnectionPool.{
  in_use, Pool, eq_address, set_status, discard, usable, create, refused, taken, dropped, take_idle,
}
use low_level_design_in_go.ConnectionPool.Steps.{
  Acquirer, at_first, at_create, at_second, failed, holds_first, holds_second, got, Closer, drained,
  System, set_acquirer, pull, receive, give_up, default, after_verdict, settle, after_create,
  try_create,
}
use low_level_design_in_go.ConnectionPool.Validity.{
  same, IsSound, reweigh, lend-IsSound, discard-IsSound, create-IsSound,
}

-- 1 for a goroutine that has the connection in hand.
abbrev pub hand : ℕ → Acquirer → ℕ
hand a (holds_first b) = same a b
hand a (holds_second b) = same a b
hand a x = 0

abbrev pub closing_hand : ℕ → Closer → ℕ
closing_hand a (drained b) = same a b
closing_hand a x = 0

-- How often a connection is in the channel, in a goroutine's hand, or given up.
abbrev pub loose : System → ℕ → ℕ
loose s a =
    sum_by (same a) s.pool.idle_conns
    + sum_by (hand a) s.acquirers
    + sum_by (closing_hand a) s.closers
    + sum_by (same a) s.given_up

pub record IsValid (s : System) : Type 0 where
  pub sound : IsSound s.pool (loose s)
  pub room : length s.pool.idle_conns ≤ s.pool.idle_connections

pub with_idle :
    {p : Pool} {l : ℕ → ℕ} (ids : List ℕ) → IsSound p l → IsSound (record p { idle_conns = ids }) l
with_idle ids v = record {
  distinct = v.distinct;
  total = v.total;
  capped = v.capped;
  fresh = v.fresh;
  placed = v.placed;
  counted = v.counted;
}

-- A goroutine that moves on with nothing in hand.
move-IsValid :
    (s : System) (i : ℕ) (x y : Acquirer)
    → get_elem? s.acquirers i ≡ some x
    → ((a : ℕ) → hand a y ≡ hand a x)
    → IsValid s
    → IsValid (set_acquirer s i y)
move-IsValid s i x y at light v = record {
  sound = reweigh (λ a. omega (arith, light a, sum_by-set (hand a) s.acquirers i x y at)) v.sound;
  room = v.room;
}

pub give_up-IsValid :
    (s : System) (i : ℕ) (x : Acquirer)
    → get_elem? s.acquirers i ≡ some x
    → IsValid s
    → IsValid (give_up s i x)
unfolding give_up
give_up-IsValid s i at_first at v = move-IsValid s i at_first failed at (λ a. refl) v
give_up-IsValid s i at_second at v = move-IsValid s i at_second failed at (λ a. refl) v
give_up-IsValid s i at_create at v = v
give_up-IsValid s i failed at v = v
give_up-IsValid s i (holds_first a) at v = v
give_up-IsValid s i (holds_second a) at v = v
give_up-IsValid s i (got a) at v = v

pub default-IsValid :
    (s : System) (i : ℕ) (x : Acquirer)
    → get_elem? s.acquirers i ≡ some x
    → IsValid s
    → IsValid (default s i x)
unfolding default
default-IsValid s i at_first at v =
    if_cases IsValid _ (λ _. move-IsValid s i at_first at_create at (λ a. refl) v) λ _. v
default-IsValid s i at_second at v = v
default-IsValid s i at_create at v = v
default-IsValid s i failed at v = v
default-IsValid s i (holds_first a) at v = v
default-IsValid s i (holds_second a) at v = v
default-IsValid s i (got a) at v = v

-- A connection goes from the channel into a hand.
pull-IsValid :
    (s : System) (i : ℕ) (x : Acquirer) (holds : ℕ → Acquirer)
    → get_elem? s.acquirers i ≡ some x
    → ((a b : ℕ) → hand a (holds b) ≡ hand a x + same a b)
    → IsValid s
    → IsValid (pull s s.pool.idle_conns λ a s'. set_acquirer s' i (holds a))
pull-IsValid s i x holds at heavy v = go s.pool.idle_conns refl
  where
    go :
        (ids : List ℕ)
        → s.pool.idle_conns ≡ ids
        → IsValid (pull s ids λ a s'. set_acquirer s' i (holds a))
    go [] e = v
    go (b ∷ rest) e = record {
      sound =
          reweigh
            (λ a. omega (
              arith,
              heavy a b,
              ap (sum_by (same a)) e,
              sum_by-set (hand a) s.acquirers i x (holds b) at,
            ))
            (with_idle rest v.sound);
      room = omega (arith, v.room, ap length e);
    }

pub receive-IsValid :
    (s : System) (i : ℕ) (x : Acquirer)
    → get_elem? s.acquirers i ≡ some x
    → IsValid s
    → IsValid (receive s i x)
unfolding receive
receive-IsValid s i at_first at v = pull-IsValid s i at_first holds_first at (λ a b. omega arith) v
receive-IsValid s i at_second at v =
    pull-IsValid s i at_second holds_second at (λ a b. omega arith) v
receive-IsValid s i at_create at v = v
receive-IsValid s i failed at v = v
receive-IsValid s i (holds_first a) at v = v
receive-IsValid s i (holds_second a) at v = v
receive-IsValid s i (got a) at v = v

-- The section on a connection in hand.
verdict-IsValid :
    (s : System) (i : ℕ) (x : Acquirer) (a : ℕ) (next : Acquirer) (now : ℕ)
    → get_elem? s.acquirers i ≡ some x
    → ((b : ℕ) → hand b x ≡ hand b next + same b a)
    → ((b : ℕ) → hand b next ≡ 0)
    → IsValid s
    → IsValid (after_verdict s i a next (take_idle s.pool a now))
unfolding take_idle
verdict-IsValid s i x a next now at heavy light v =
    if_cases (λ r. IsValid (after_verdict s i a next r)) s.pool.closed {x = (s.pool, refused)}
      (λ closed. record {
        sound =
            reweigh
              (λ b. omega (arith, heavy b, light b, sum_by-set (hand b) s.acquirers i x failed at))
              v.sound;
        room = v.room;
      })
      λ open_.
        if_cases (λ r. IsValid (after_verdict s i a next r)) (usable s.pool a now)
          {x = (record (set_status s.pool a in_use) { wg = suc s.pool.wg }, taken)}
          {y = (discard s.pool a, dropped)}
          (λ good. record {
            sound = lend-IsSound s.pool (loose s) _ a v.sound λ b.
                omega (arith, heavy b, light b, sum_by-set (hand b) s.acquirers i x (got a) at);
            room = v.room;
          })
          λ bad. record {
            sound =
                discard-IsSound s.pool (loose s) _ a v.sound
                  λ b. omega (arith, heavy b, light b, sum_by-set (hand b) s.acquirers i x next at);
            room = v.room;
          }

pub settle-IsValid :
    (s : System) (i : ℕ) (x : Acquirer) (now : ℕ)
    → get_elem? s.acquirers i ≡ some x
    → IsValid s
    → IsValid (settle s i x now)
unfolding settle
settle-IsValid s i (holds_first a) now at v =
    verdict-IsValid s i (holds_first a) a at_create now at (λ b. omega arith) (λ b. refl) v
settle-IsValid s i (holds_second a) now at v =
    verdict-IsValid s i (holds_second a) a at_first now at (λ b. omega arith) (λ b. refl) v
settle-IsValid s i at_first now at v = v
settle-IsValid s i at_create now at v = v
settle-IsValid s i at_second now at v = v
settle-IsValid s i failed now at v = v
settle-IsValid s i (got a) now at v = v

create-room :
    (p : Pool) (id : String) (now : ℕ)
    → length p.idle_conns ≤ p.idle_connections
    → let p' = (create p id now).0 in length p'.idle_conns ≤ p'.idle_connections
unfolding create
create-room p id now room =
    if_cases (λ (r : Pool × Option ℕ). length r.0.idle_conns ≤ r.0.idle_connections) _ (λ _. room)
      λ _. room

create-idle : (p : Pool) (id : String) (now : ℕ) → (create p id now).0.idle_conns ≡ p.idle_conns
unfolding create
create-idle p id now =
    if_cases (λ (r : Pool × Option ℕ). r.0.idle_conns ≡ p.idle_conns) _ (λ _. refl) λ _. refl

pub try_create-IsValid :
    (s : System) (i : ℕ) (x : Acquirer) (id : String) (now : ℕ)
    → get_elem? s.acquirers i ≡ some x
    → IsValid s
    → IsValid (try_create s i x id now)
unfolding try_create
try_create-IsValid s i at_create id now at v =
    go (create s.pool id now) (create-IsSound s.pool (loose s) v.sound id now)
      (create-room s.pool id now v.room) (create-idle s.pool id now)
  where
    go :
        (r : Pool × Option ℕ)
        → IsSound r.0 (loose s)
        → length r.0.idle_conns ≤ r.0.idle_connections
        → r.0.idle_conns ≡ s.pool.idle_conns
        → IsValid (after_create s i r)
    go (p, some a) sound room e = record {
      sound =
          reweigh
            (λ b. omega (
              arith,
              ap (sum_by (same b)) e,
              sum_by-set (hand b) s.acquirers i at_create (got a) at,
            ))
            sound;
      room = room;
    }
    go (p, none) sound room e = record {
      sound =
          reweigh
            (λ b. omega (
              arith,
              ap (sum_by (same b)) e,
              sum_by-set (hand b) s.acquirers i at_create at_second at,
            ))
            sound;
      room = room;
    }
try_create-IsValid s i at_first id now at v = v
try_create-IsValid s i at_second id now at v = v
try_create-IsValid s i failed id now at v = v
try_create-IsValid s i (holds_first a) id now at v = v
try_create-IsValid s i (holds_second a) id now at v = v
try_create-IsValid s i (got a) id now at v = v
