-- ===== src/ConnectionPool/Releasing.antt =====
-- What Release, Shutdown and a change of health in Connection Pool/main.go leave.
use low_level_design_in_go.Base.{
  ℕ, ◌+◌, ◌-◌, ◌≡◌, ◌≢◌, refl, sym, ap, ◌∙◌, true, not, Option, none, some, List, [], ◌∷◌, ◌++◌,
  ltb, ◌==◌, ==_iff, length, length-append, has, sum_by, sum_by-append, sum_by-set, get_elem?,
  arith, if_cases, Bool-cases, inl, inr,
}
use low_level_design_in_go.Base.Run.{Returns, returns, Returns-bind, Returns-if}
use low_level_design_in_go.ConnectionPool.{
  idle, Pool, HealthStatus, eq_address, is_in_use, write, discard, put_back, release,
  begin_shutdown,
}
use low_level_design_in_go.ConnectionPool.Steps.{
  at_first, Closer, waiting, draining, finished, drained, System, set_closer, wait, drain,
  discard_drained, mark,
}
use low_level_design_in_go.ConnectionPool.Sums.{sum_by-ext}
use low_level_design_in_go.ConnectionPool.Validity.{
  same, lent_at, IsSound, reweigh, discard-IsSound, put_down-IsSound, lent-wg,
}
use low_level_design_in_go.ConnectionPool.Sections.{hand, closing_hand, loose, IsValid, with_idle}

pub wait-IsValid :
    (s : System) (i : ℕ) (x : Closer)
    → get_elem? s.closers i ≡ some x
    → IsValid s
    → IsValid (wait s i x)
unfolding wait
wait-IsValid s i waiting at v =
    if_cases IsValid (s.pool.wg == 0)
      (λ _. record {
        sound =
            reweigh
              (λ a. omega (arith, sum_by-set (closing_hand a) s.closers i waiting draining at))
              v.sound;
        room = v.room;
      })
      λ _. v
wait-IsValid s i draining at v = v
wait-IsValid s i finished at v = v
wait-IsValid s i (drained a) at v = v

pub drain-IsValid :
    (s : System) (i : ℕ) (x : Closer)
    → get_elem? s.closers i ≡ some x
    → IsValid s
    → IsValid (drain s i x)
unfolding drain
drain-IsValid s i draining at v = go s.pool.idle_conns refl
  where
    go :
        (ids : List ℕ)
        → s.pool.idle_conns ≡ ids
        → IsValid (elim ids [
          | [] ↦ set_closer s i finished
          | a ∷ rest ↦
              set_closer (record s { pool = record s.pool { idle_conns = rest } }) i (drained a)
        ])
    go [] e = record {
      sound =
          reweigh (λ a. omega (arith, sum_by-set (closing_hand a) s.closers i draining finished at))
            v.sound;
      room = v.room;
    }
    go (b ∷ rest) e = record {
      sound =
          reweigh
            (λ a. omega (
              arith,
              ap (sum_by (same a)) e,
              sum_by-set (closing_hand a) s.closers i draining (drained b) at,
            ))
            (with_idle rest v.sound);
      room = omega (arith, v.room, ap length e);
    }
drain-IsValid s i waiting at v = v
drain-IsValid s i finished at v = v
drain-IsValid s i (drained a) at v = v

pub discard_drained-IsValid :
    (s : System) (i : ℕ) (x : Closer)
    → get_elem? s.closers i ≡ some x
    → IsValid s
    → IsValid (discard_drained s i x)
unfolding discard_drained discard
discard_drained-IsValid s i (drained a) at v = record {
  sound =
      discard-IsSound s.pool (loose s) _ a v.sound
        λ b. omega (arith, sum_by-set (closing_hand b) s.closers i (drained a) draining at);
  room = v.room;
}
discard_drained-IsValid s i waiting at v = v
discard_drained-IsValid s i draining at v = v
discard_drained-IsValid s i finished at v = v

pub mark-IsValid :
    (s : System) (a : ℕ) (h : HealthStatus)
    → IsValid s
    → IsValid (record s { pool = mark s.pool a h })
unfolding mark write
mark-IsValid s a h v =
    let m = s.pool.memory in
    let m' = write m a (record (m a) { health = h }) in
    let light : (b : ℕ) → lent_at m' b ≡ lent_at m b = λ b. elim (Bool-cases (a == b)) [
      | inl is ↦ rw is (ap (lent_at m) ((==_iff a b).0 is))
      | inr apart ↦ rw apart refl
    ] in
    let w = v.sound in
    record {
      sound = record {
        distinct = w.distinct;
        total = w.total;
        capped = w.capped;
        fresh = w.fresh;
        placed = λ b. rw (light b) (w.placed b);
        counted = w.counted ∙ sym (sum_by-ext (lent_at m) (lent_at m') s.pool.connections light);
      };
      room = v.room;
    }

-- What a release leaves: the connection is in the channel, or is not of the pool any more.
put_back-IsValid :
    (s : System) (a now : ℕ)
    → has a s.pool.connections ≡ true
    → is_in_use (s.pool.memory a).status ≡ true
    → IsValid s
    → Returns (λ p. IsValid (record s { pool = p })) (put_back s.pool a now)
unfolding put_back write discard
put_back-IsValid s a now m used v =
    let old = s.pool.memory in
    let m1 = write old a (record (old a) { status = idle }) in
    let m2 = write m1 a (record (m1 a) { last_used = now }) in
    let own1 : lent_at m1 a ≡ 0 = ground (arith, ==_iff a a) in
    let own2 : lent_at m2 a ≡ 0 = ground (arith, ==_iff a a) in
    let others1 : (b : ℕ) → a ≢ b → lent_at m1 b ≡ lent_at old b =
      λ b apart. ground (arith, apart) in
    let others2 : (b : ℕ) → a ≢ b → lent_at m2 b ≡ lent_at old b =
      λ b apart. ground (arith, apart) in
    let more = λ (b : ℕ). loose s b + same b a in
    let p1 : Pool = record s.pool { memory = m1; wg = s.pool.wg - 1 } in
    let p2 : Pool = record s.pool { memory = m2; wg = s.pool.wg - 1 } in
    let sound1 : IsSound p1 more =
      put_down-IsSound s.pool (loose s) more a v.sound m1 m used own1 others1 λ b. refl in
    let sound2 : IsSound p2 more =
      put_down-IsSound s.pool (loose s) more a v.sound m2 m used own2 others2 λ b. refl in
    let counted = lent-wg s.pool (loose s) (loose s) a v.sound m used in
    Returns-if (s.pool.wg == 0) (λ none_out. absurd (ground (arith, none_out, counted)))
      λ _.
        Returns-if s.pool.closed
          (λ closed. returns (record {
            sound = discard-IsSound p1 more (loose s) a sound1 λ b. refl;
            room = v.room;
          }))
          λ open_.
            Returns-if (length s.pool.idle_conns == s.pool.idle_connections)
              (λ full. returns (record {
                sound = discard-IsSound p2 more (loose s) a sound2 λ b. refl;
                room = v.room;
              }))
              λ not_full.
                Returns-if (ltb (length s.pool.idle_conns) s.pool.idle_connections)
                  (λ fits. returns (record {
                    sound =
                        reweigh
                          (λ b. omega (arith, sum_by-append (same b) s.pool.idle_conns (a ∷ [])))
                          (with_idle (s.pool.idle_conns ++ a ∷ []) sound2);
                    room = ground (arith, fits, length-append s.pool.idle_conns (a ∷ []));
                  }))
                  λ stuck. absurd (ground (arith, not_full, stuck, v.room))

pub release-IsValid :
    (s : System) (conn : Option ℕ) (now : ℕ)
    → IsValid s
    → Returns (λ (p, e). IsValid (record s { pool = p })) (release s.pool conn now)
unfolding release
release-IsValid s none now v = returns v
release-IsValid s (some a) now v =
    Returns-if (not (has a s.pool.connections)) (λ _. returns v)
      λ mine.
        Returns-if (not (is_in_use (s.pool.memory a).status)) (λ _. returns v)
          λ used.
            Returns-bind (put_back-IsValid s a now (ground (arith, mine)) (ground (arith, used)) v)
              λ p valid. returns valid

pub acquire-IsValid :
    (s : System) → IsValid s → IsValid (record s { acquirers = s.acquirers ++ at_first ∷ [] })
acquire-IsValid s v = record {
  sound = reweigh (λ a. omega (arith, sum_by-append (hand a) s.acquirers (at_first ∷ []))) v.sound;
  room = v.room;
}

pub begin_shutdown-IsValid :
    (s : System)
    → IsValid s
    → IsValid (record s { pool = begin_shutdown s.pool; closers = s.closers ++ waiting ∷ [] })
unfolding begin_shutdown
begin_shutdown-IsValid s v = record {
  sound =
      let w = v.sound in
      reweigh (λ a. omega (arith, sum_by-append (closing_hand a) s.closers (waiting ∷ [])))
        (record {
          distinct = w.distinct;
          total = w.total;
          capped = w.capped;
          fresh = w.fresh;
          placed = w.placed;
          counted = w.counted;
        });
  room = v.room;
}
