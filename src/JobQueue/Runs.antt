-- ===== src/JobQueue/Runs.antt =====
-- Interleavings of the goroutines of Job Queue/main.go.
use low_level_design_in_go.Base.{
  ℕ, zero, suc, ◌+◌, ◌<◌, ◌==◌, ◌⊎◌, inl, inr, subst, if◌then◌else◌, ◌≤◌, ◌≡◌, refl, sym, ap, ◌∙◌,
  Bool, true, false, not, Option, none, some, List, [], ◌∷◌, ◌++◌, length, get_elem?, sum_by-append,
  sum_by-set, length-append, length-set, arith, All-append, All-set, All-at, get_elem?-append_last,
  if_cases,
}
use low_level_design_in_go.Base.Int.{ℤ}
use low_level_design_in_go.Base.Run.{
  Run, ok, ◌>>=◌, Returns, returns, Returns-bind, Returns-if, Returns-inv, panic,
}
use low_level_design_in_go.JobQueue.{
  Channel, InMemoryJobQueue, receive, shut_down, start, empty_channel,
}
use low_level_design_in_go.JobQueue.Steps.{
  Worker, starting, stopped, ranging, busy, Sender, System, Step, finish_send, take_received, work,
  lock_shutdown, lock_start, drive, hand, take_step, take_steps, submits, sends, hands_over,
  shuts_down, waits, wakes, wait, wake, starts, spawns, redrives, copies, drives, works,
}
use low_level_design_in_go.JobQueue.{new_in_memory_job_queue}
use low_level_design_in_go.JobQueue.Validity.{
  in_channel, in_worker, alive, IsValid, submit-IsValid, spawn-IsValid, copy_dlq-IsValid,
  redrive_dlq-IsValid, drive-IsValid,
}
use low_level_design_in_go.JobQueue.Conservation.{
  current-Returns, closed_open, finish_send-IsValid, hand_over-IsValid, take_received-IsValid,
  after_job-IsValid, receive-Gives,
}

module _ {P : Type 0} where
  -- A new queue, before `Start`.
  abbrev pub new_system : ℕ → ℕ → System P
  new_system queue_buffer worker_count = record {
    queue = new_in_memory_job_queue queue_buffer worker_count;
    workers = [];
    senders = [];
    redrives = [];
    to_spawn = 0;
    to_copy = 0;
    to_wait = 0;
    waiting = 0;
    woken = 0;
    accepted = [];
    succeeded = [];
    lost = [];
  }

  pub new_system-IsValid :
      (queue_buffer worker_count : ℕ) → IsValid (new_system queue_buffer worker_count)
  unfolding new_in_memory_job_queue
  new_system-IsValid queue_buffer worker_count = record {
    made = omega arith;
    is_open = λ ch e going. absurd (ground (arith, going));
    awaits = λ some_wait. absurd (omega (arith, some_wait));
    locked = λ some_left. absurd (omega arith);
    counted = refl;
    room = (omega arith, tt);
    balance = λ p. refl;
  }

  -- The calls of `Shutdown` that wait are in no other part of the queue's validity.
  any_waits :
      (s : System P) (to_wait waiting woken : ℕ)
      → IsValid s
      → (0 < waiting → 0 < s.queue.wg)
      → IsValid (record s { to_wait = to_wait; waiting = waiting; woken = woken })
  any_waits s to_wait waiting woken v awaits = record {
    made = v.made;
    is_open = v.is_open;
    awaits = awaits;
    locked = v.locked;
    counted = v.counted;
    room = v.room;
    balance = v.balance;
  }

  wait-IsValid : (s : System P) → IsValid s → IsValid (wait s)
  unfolding wait
  wait-IsValid s v = go s.to_wait
    where
      go :
          (n : ℕ)
          → IsValid (elim n [
            | zero ↦ s
            | suc m ↦ record s {
              to_wait = m;
              waiting = if s.queue.wg == 0 then s.waiting else suc s.waiting;
            }
          ])
      go zero = v
      go (suc m) = any_waits s m (if s.queue.wg == 0 then s.waiting else suc s.waiting) s.woken v (
          if_cases (λ n. 0 < n → 0 < s.queue.wg) (s.queue.wg == 0) (λ _. v.awaits)
            λ counts _. ground (arith, counts))

  -- A `Wait` that was released returns, unless the wait group counts workers again.
  data Woken (s : System P) : Run (System P) → Type 0 where
    returns_ok : {s' : System P} → IsValid s' → Woken s (ok s')
    reuse : 0 < s.woken → 0 < s.queue.wg → Woken s panic

  wake-Woken : (s : System P) → IsValid s → Woken s (wake s)
  unfolding wake
  wake-Woken s v = go s.woken refl
    where
      go :
          (n : ℕ)
          → s.woken ≡ n
          → Woken s (elim n [
            | zero ↦ ok s
            | suc m ↦ if s.queue.wg == 0 then ok (record s { woken = m }) else panic
          ])
      go zero e = returns_ok v
      go (suc m) e =
          if_cases (Woken s) (s.queue.wg == 0)
            (λ _. returns_ok (any_waits s s.to_wait s.waiting m v v.awaits))
            λ counts. reuse (omega (arith, e)) (ground (arith, counts))

  shut_down-IsValid :
      (s : System P)
      → length s.senders ≡ 0
      → IsValid s
      → Returns (λ q. IsValid (record s { queue = q })) (shut_down s.queue)
  unfolding shut_down
  shut_down-IsValid s free v =
      Returns-if s.queue.shutdown (λ _. returns v)
        λ going. Returns-bind (current-Returns s v) λ ch e.
          let closed : Channel P = record ch { is_closed = true } in
          Returns-if ch.is_closed (λ twice. closed_open twice (v.is_open ch e going))
            λ _. returns (record {
              made = rw (length-set s.queue.channels s.queue.jobs closed) v.made;
              is_open = λ d at open_. absurd (ground (arith, open_));
              awaits = v.awaits;
              locked = λ some_left. absurd (omega (arith, free));
              counted = v.counted;
              room =
                  All-set (λ c. length c.buffer ≤ s.queue.buffer_size) s.queue.channels s.queue.jobs
                    closed v.room
                    (All-at (λ c. length c.buffer ≤ s.queue.buffer_size) s.queue.channels
                      s.queue.jobs ch e v.room);
              balance = λ p. omega (
                arith,
                v.balance p,
                sum_by-set (in_channel p) s.queue.channels s.queue.jobs ch closed e,
              );
            })

  lock_shutdown-IsValid : (s : System P) → IsValid s → Returns IsValid (lock_shutdown s)
  unfolding lock_shutdown
  lock_shutdown-IsValid s v = go s.senders refl
    where
      go :
          (xs : List (Sender P))
          → s.senders ≡ xs
          → Returns IsValid (elim xs [
            | [] ↦ shut_down s.queue >>= λ q. ok (record s {
              queue = q;
              to_wait = if s.queue.shutdown then s.to_wait else suc s.to_wait;
            })
            | x ∷ rest ↦ ok s
          ])
      go [] e = Returns-bind (shut_down-IsValid s (ap length e) v) λ q valid.
          returns (any_waits (record s { queue = q }) _ s.waiting s.woken valid valid.awaits)
      go (x ∷ rest) e = returns v

  start-IsValid :
      (s : System P)
      → IsValid s
      → let (q, n) = start s.queue in IsValid (record s { queue = q; to_spawn = s.to_spawn + n })
  unfolding start
  start-IsValid s v =
      if_cases
        (λ (r : InMemoryJobQueue P × ℕ).
          IsValid (record s { queue = r.0; to_spawn = s.to_spawn + r.1 }))
        (not s.queue.shutdown) {x = (s.queue, 0)}
        {y = (
          record s.queue {
            shutdown = false;
            channels = s.queue.channels ++ empty_channel ∷ [];
            jobs = length s.queue.channels;
          },
          s.queue.worker_count,
        )}
        (λ going. record {
          made = v.made;
          is_open = v.is_open;
          awaits = v.awaits;
          locked = v.locked;
          counted = v.counted;
          room = v.room;
          balance = v.balance;
        })
        λ stop. record {
          made = omega (arith, length-append s.queue.channels (empty_channel {P = P} ∷ []));
          is_open = λ ch at _.
              is_empty_open (sym at ∙ get_elem?-append_last s.queue.channels empty_channel);
          awaits = v.awaits;
          locked = λ _. refl;
          counted = v.counted;
          room =
              All-append (λ c. length c.buffer ≤ s.queue.buffer_size) s.queue.channels
                (empty_channel ∷ []) v.room (omega arith, tt);
          balance = λ p. omega (
            arith,
            v.balance p,
            sum_by-append (in_channel p) s.queue.channels (empty_channel ∷ []),
          );
        }
    where
      is_empty_open : {ch : Channel P} → some ch ≡ some empty_channel → ch.is_closed ≡ false
      is_empty_open e = ap flag_of e
        where
          flag_of : Option (Channel P) → Bool
          flag_of none = true
          flag_of (some c) = c.is_closed

  lock_start-IsValid : (s : System P) → IsValid s → IsValid (lock_start s)
  unfolding lock_start
  lock_start-IsValid s v = go s.senders
    where
      go :
          (xs : List (Sender P))
          → IsValid (elim xs [
            | [] ↦ let (q, n) = start s.queue in record s { queue = q; to_spawn = s.to_spawn + n }
            | x ∷ rest ↦ s
          ])
      go [] = start-IsValid s v
      go (x ∷ rest) = v

  work-IsValid :
      (s : System P) (w : ℕ) (x : Worker P) (jitters : ℕ → ℤ) (heads : ℕ → Bool)
      → get_elem? s.workers w ≡ some x
      → IsValid s
      → Returns IsValid (work s w x jitters heads)
  unfolding work
  work-IsValid s w starting jitters heads at v = returns (record {
    made = v.made;
    is_open = v.is_open;
    awaits = v.awaits;
    locked = v.locked;
    counted =
        omega (arith, v.counted, sum_by-set alive s.workers w starting (ranging s.queue.jobs) at);
    room = v.room;
    balance = λ p. omega (
      arith,
      v.balance p,
      sum_by-set (in_worker p) s.workers w starting (ranging s.queue.jobs) at,
    );
  })
  work-IsValid s w stopped jitters heads at v = returns v
  work-IsValid s w (ranging c) jitters heads at v = go (get_elem? s.queue.channels c) refl
    where
      go :
          (o : Option (Channel P))
          → get_elem? s.queue.channels c ≡ o
          → Returns IsValid (elim o [ none ↦ ok s | some ch ↦ take_received s w c (receive ch) ])
      go none e = returns v
      go (some ch) e = take_received-IsValid s w c ch (receive ch) at e (receive-Gives ch) v
  work-IsValid s w (busy c job) jitters heads at v =
      returns (after_job-IsValid s w c job jitters heads at v)

  hand-IsValid :
      (s : System P) (i : ℕ) (x : Sender P) (w : ℕ) (y : Worker P)
      → get_elem? s.senders i ≡ some x
      → get_elem? s.workers w ≡ some y
      → IsValid s
      → Returns IsValid (hand s i x w y)
  unfolding hand
  hand-IsValid s i x w (ranging c) at at_w v = hand_over-IsValid s i x w c at at_w v
  hand-IsValid s i x w starting at at_w v = returns v
  hand-IsValid s i x w stopped at at_w v = returns v
  hand-IsValid s i x w (busy c job) at at_w v = returns v

  -- What is done with the entry at a place keeps a system valid, if it does for every entry there.
  at_place :
      {A : Type 0} (s : System P) (o : Option A) (act : A → Run (System P))
      → IsValid s
      → ((x : A) → o ≡ some x → Returns IsValid (act x))
      → Returns IsValid (elim o [ none ↦ ok s | some x ↦ act x ])
  at_place s none act v keeps = returns v
  at_place s (some x) act v keeps = keeps x refl

  abbrev pub is_wake : Step P → Bool
  is_wake wakes = true
  is_wake t = false

  pub take_step-IsValid :
      (s : System P) (t : Step P) → is_wake t ≡ false → IsValid s → Returns IsValid (take_step s t)
  unfolding take_step
  take_step-IsValid s (submits job) other v = returns (submit-IsValid s job v)
  take_step-IsValid s (sends i) other v =
      at_place s (get_elem? s.senders i) (finish_send s i) v λ x e. finish_send-IsValid s i x e v
  take_step-IsValid s (hands_over i w) other v = at_place s (get_elem? s.senders i) _ v λ x e.
      at_place s (get_elem? s.workers w) (hand s i x w) v λ y at_w. hand-IsValid s i x w y e at_w v
  take_step-IsValid s shuts_down other v = lock_shutdown-IsValid s v
  take_step-IsValid s waits other v = returns (wait-IsValid s v)
  take_step-IsValid s wakes other v = absurd (ground (arith, other))
  take_step-IsValid s starts other v = returns (lock_start-IsValid s v)
  take_step-IsValid s spawns other v = returns (spawn-IsValid s v)
  take_step-IsValid s redrives other v = returns (redrive_dlq-IsValid s v)
  take_step-IsValid s copies other v = returns (copy_dlq-IsValid s v)
  take_step-IsValid s (drives i) other v =
      at_place s (get_elem? s.redrives i) (λ jobs. ok (drive s i jobs)) v
        λ jobs e. returns (drive-IsValid s i jobs e v)
  take_step-IsValid s (works w jitters heads) other v =
      at_place s (get_elem? s.workers w) (λ x. work s w x jitters heads) v
        λ x e. work-IsValid s w x jitters heads e v

  -- How steps end: in a valid queue, or at a `Shutdown` that was released from `q.wg.Wait()` and has
  -- not returned from it when the wait group counts workers of a later `Start`.
  pub data Outcome (s : System P) (ts : List (Step P)) : Run (System P) → Type 0 where
    fine : {s' : System P} → IsValid s' → Outcome s ts (ok s')
    reused :
        (before after : List (Step P)) (s' : System P)
        → ts ≡ before ++ wakes ∷ after
        → take_steps s before ≡ ok s'
        → IsValid s'
        → 0 < s'.woken
        → 0 < s'.queue.wg
        → Outcome s ts panic

  one_step :
      (s : System P) (t : Step P)
      → IsValid s
      → Returns IsValid (take_step s t)
        ⊎ ((t ≡ wakes) × (take_step s t ≡ panic) × (0 < s.woken) × (0 < s.queue.wg))
  unfolding take_step
  one_step s (submits job) v = inl (take_step-IsValid s (submits job) refl v)
  one_step s (sends i) v = inl (take_step-IsValid s (sends i) refl v)
  one_step s (hands_over i w) v = inl (take_step-IsValid s (hands_over i w) refl v)
  one_step s shuts_down v = inl (take_step-IsValid s shuts_down refl v)
  one_step s waits v = inl (take_step-IsValid s waits refl v)
  one_step s starts v = inl (take_step-IsValid s starts refl v)
  one_step s spawns v = inl (take_step-IsValid s spawns refl v)
  one_step s redrives v = inl (take_step-IsValid s redrives refl v)
  one_step s copies v = inl (take_step-IsValid s copies refl v)
  one_step s (drives i) v = inl (take_step-IsValid s (drives i) refl v)
  one_step s (works w jitters heads) v = inl (take_step-IsValid s (works w jitters heads) refl v)
  one_step s wakes v = elim (elim_woken (wake s) refl (wake-Woken s v)) [
    | inl goes ↦ inl goes
    | inr (e, some_woken, some_work) ↦ inr (refl, e, some_woken, some_work)
  ]
    where
      elim_woken :
          (r : Run (System P))
          → wake s ≡ r
          → Woken s r
          → Returns IsValid (wake s) ⊎ ((wake s ≡ panic) × (0 < s.woken) × (0 < s.queue.wg))
      elim_woken _ e (returns_ok valid) = inl (subst (Returns IsValid) (sym e) (returns valid))
      elim_woken _ e (reuse some_woken some_work) = inr (e, some_woken, some_work)

  extend :
      (s s' : System P) (t : Step P) (ts : List (Step P)) (r : Run (System P))
      → take_step s t ≡ ok s'
      → Outcome s' ts r
      → Outcome s (t ∷ ts) r
  unfolding take_steps
  extend s s' t ts _ e (fine v) = fine v
  extend s s' t ts _ e (reused before after s'' split run v some_woken some_work) =
      reused (t ∷ before) after s'' (ap (λ us. t ∷ us) split) (rw e run) v some_woken some_work

  -- From a valid queue with its goroutines an interleaving of steps panics in one case only: a
  -- Shutdown whose wait for the workers has ended has not returned from the wait group when a later
  -- Start has added workers to it. Nothing is sent on a closed channel, no channel is closed twice,
  -- and the wait group does not go below zero. Without that panic the queue stays valid: no buffer
  -- is overfull, a send is under way only while the queue is open, the wait group counts the workers
  -- that have not ended, a Shutdown waits only while there are some, and of every kind of job as
  -- many were accepted as wait, are under way, succeeded, lie in the dead letter queue, or were lost
  -- by a redrive that gave up.
  pub take_steps-IsValid :
      (s : System P) (ts : List (Step P)) → IsValid s → Outcome s ts (take_steps s ts)
  unfolding take_steps
  take_steps-IsValid s [] v = fine v
  take_steps-IsValid s (t ∷ ts) v = elim (one_step s t v) [
    | inl goes ↦
        let (s', e, v') = Returns-inv goes in
        rw e (extend s s' t ts (take_steps s' ts) e (take_steps-IsValid s' ts v'))
    | inr (is_wakes, e, some_woken, some_work) ↦
        rw e (reused [] ts s (ap (λ u. u ∷ ts) is_wakes) refl v some_woken some_work)
  ]
