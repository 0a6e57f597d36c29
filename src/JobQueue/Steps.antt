-- ===== src/JobQueue/Steps.antt =====
-- The goroutines of Job Queue/main.go, and the steps that they take between two points where
-- another one may run.
use low_level_design_in_go.Base.{
  ℕ, zero, suc, ◌+◌, ◌-◌, Bool, true, false, none, some, List, [], ◌∷◌, ◌++◌, ◌==◌, get_elem?, set,
  without, if◌then◌else◌,
}
use low_level_design_in_go.Base.Int.{ℤ}
use low_level_design_in_go.Base.Run.{Run, ok, panic, ◌>>=◌}
use low_level_design_in_go.JobQueue.{
  Job, InMemoryJobQueue, Received, nothing_yet, drained, received, receive, send, shut_down, start,
  process_job, store_in_dlq, current,
}

-- Where a worker is: not yet at its loop, waiting at a channel, with a job of it, or ended.
pub data Worker (P : Type 0) : Type 0 where
  starting stopped : Worker P
  ranging : ℕ → Worker P
  busy : ℕ → Job P → Worker P

-- A `Submit` that has the read lock and sends: of a caller, or of a redrive with jobs left.
pub data Sender (P : Type 0) : Type 0 where
  caller : Job P → Sender P
  redriver : Job P → List (Job P) → Sender P

-- The queue and its goroutines. `to_wait` counts the calls of `Shutdown` that closed the channel and
-- have not reached `q.wg.Wait()`, `waiting` those that wait in it, and `woken` those that the last
-- `q.wg.Done()` released and that have not returned from it. `to_spawn` counts the workers still to be started, `to_copy` the
-- calls of `RedriveDLQ` that passed their test. `accepted`, `succeeded` and `lost` are no state of
-- the program: they note what callers handed in, what was processed, and what a redrive gave up.
pub record System (P : Type 0) : Type 0 where
  pub queue : InMemoryJobQueue P
  pub workers : List (Worker P)
  pub senders : List (Sender P)
  pub redrives : List (List (Job P))
  pub to_spawn : ℕ
  pub to_copy : ℕ
  pub to_wait : ℕ
  pub waiting : ℕ
  pub woken : ℕ
  pub accepted : List (Job P)
  pub succeeded : List (Job P)
  pub lost : List (Job P)

pub data Step (P : Type 0) : Type 0 where
  submits : Job P → Step P
  sends : ℕ → Step P
  hands_over : ℕ → ℕ → Step P
  shuts_down waits wakes starts spawns redrives copies : Step P
  drives : ℕ → Step P
  works : ℕ → (ℕ → ℤ) → (ℕ → Bool) → Step P

module _ {P : Type 0} where
  abbrev pub job_of : Sender P → Job P
  job_of (caller job) = job
  job_of (redriver job rest) = job

  -- A redrive goes on with its loop when its `Submit` returns.
  abbrev pub go_on : Sender P → List (List (Job P)) → List (List (Job P))
  go_on (caller job) rs = rs
  go_on (redriver job rest) rs = rest ∷ rs

  abbrev pub begin_send : System P → Sender P → System P
  begin_send s x = record s { senders = x ∷ s.senders }

  -- `Submit` up to the send.
  unfoldable pub submit : System P → Job P → System P
  submit s job =
      if s.queue.shutdown
      then s
      else record (begin_send s (caller job)) { accepted = job ∷ s.accepted }

  abbrev pub end_send : System P → ℕ → Sender P → System P
  end_send s i x = record s { senders = without i s.senders; redrives = go_on x s.redrives }

  unfoldable pub finish_send : System P → ℕ → Sender P → Run (System P)
  unfolding send
  finish_send s i x = send s.queue (job_of x) >>= λ sent. elim sent [
    | none ↦ ok s
    | some q ↦ ok (record (end_send s i x) { queue = q })
  ]

  abbrev pub set_worker : System P → ℕ → Worker P → System P
  set_worker s w x = record s { workers = set s.workers w x }

  -- A receiver that waits at the channel gets the job without the buffer.
  unfoldable pub hand_over : System P → ℕ → Sender P → ℕ → ℕ → Run (System P)
  unfolding current
  hand_over s i x w c = current s.queue >>= λ ch.
      let given = set_worker (end_send s i x) w (busy c (job_of x)) in
      let idle : Bool = elim ch.buffer [ [] ↦ c == s.queue.jobs | job ∷ rest ↦ false ] in
      if ch.is_closed then panic else ok (if idle then given else s)

  -- `q.wg.Done()`, in one step: at zero it releases those who wait.
  abbrev pub wg_done : System P → System P
  wg_done s = record s {
    queue = record s.queue { wg = s.queue.wg - 1 };
    waiting = if s.queue.wg == 1 then 0 else s.waiting;
    woken = if s.queue.wg == 1 then s.woken + s.waiting else s.woken;
  }

  -- A worker after its receive. `wg.Done()` below zero panics.
  unfoldable pub take_received : System P → ℕ → ℕ → Received P → Run (System P)
  take_received s w c nothing_yet = ok s
  take_received s w c (received job rest) =
      let taken = record s.queue { channels = set s.queue.channels c rest } in
      ok (set_worker (record s { queue = taken }) w (busy c job))
  take_received s w c drained =
      if s.queue.wg == 0 then panic else ok (set_worker (wg_done s) w stopped)

  -- A worker after `processJob`.
  unfoldable pub after_job : System P → ℕ → ℕ → Job P → InMemoryJobQueue P × Bool → System P
  after_job s w c job (q, true) = record (set_worker s w (ranging c)) {
    queue = q;
    succeeded = job ∷ s.succeeded;
  }
  after_job s w c job (q, false) = record (set_worker s w (ranging c)) { queue = q }

  unfoldable pub work : System P → ℕ → Worker P → (ℕ → ℤ) → (ℕ → Bool) → Run (System P)
  unfolding receive take_received process_job after_job
  work s w starting jitters heads = ok (set_worker s w (ranging s.queue.jobs))
  work s w stopped jitters heads = ok s
  work s w (ranging c) jitters heads = elim (get_elem? s.queue.channels c) [
    | none ↦ ok s
    | some ch ↦ take_received s w c (receive ch)
  ]
  work s w (busy c job) jitters heads =
      ok (after_job s w c job (process_job s.queue job jitters heads))

  -- The write lock waits for the senders, which have the read lock.
  unfoldable pub lock_shutdown : System P → Run (System P)
  unfolding shut_down
  lock_shutdown s = elim s.senders [
    | [] ↦ shut_down s.queue >>= λ q.
        ok (record s { queue = q; to_wait = if s.queue.shutdown then s.to_wait else suc s.to_wait })
    | x ∷ xs ↦ ok s
  ]

  -- `q.wg.Wait()`: it returns at once when the counter is zero.
  unfoldable pub wait : System P → System P
  wait s = elim s.to_wait [
    | zero ↦ s
    | suc n ↦ record s {
      to_wait = n;
      waiting = if s.queue.wg == 0 then s.waiting else suc s.waiting;
    }
  ]

  -- A `Wait` that was released panics when the wait group was used again before it returned.
  unfoldable pub wake : System P → Run (System P)
  wake s = elim s.woken [
    | zero ↦ ok s
    | suc n ↦ if s.queue.wg == 0 then ok (record s { woken = n }) else panic
  ]

  unfoldable pub lock_start : System P → System P
  unfolding start
  lock_start s = elim s.senders [
    | [] ↦ let (q, n) = start s.queue in record s { queue = q; to_spawn = s.to_spawn + n }
    | x ∷ xs ↦ s
  ]

  -- `q.wg.Add(1)` and `go q.worker(i + 1)`
  unfoldable pub spawn : System P → System P
  spawn s = elim s.to_spawn [
    | zero ↦ s
    | suc n ↦ record s {
      to_spawn = n;
      workers = s.workers ++ starting ∷ [];
      queue = record s.queue { wg = suc s.queue.wg };
    }
  ]

  -- The two sections of `RedriveDLQ`.
  unfoldable pub redrive_dlq : System P → System P
  redrive_dlq s = if s.queue.shutdown then s else record s { to_copy = suc s.to_copy }

  unfoldable pub copy_dlq : System P → System P
  copy_dlq s = elim s.to_copy [
    | zero ↦ s
    | suc n ↦ record s {
      to_copy = n;
      redrives = s.queue.dlq ∷ s.redrives;
      queue = record s.queue { dlq = [] };
    }
  ]

  -- The loop of the redrive up to the send of its next job. When `Submit` fails the job goes back, and
  -- the loop returns.
  unfoldable pub drive : System P → ℕ → List (Job P) → System P
  unfolding store_in_dlq
  drive s i [] = record s { redrives = without i s.redrives }
  drive s i (job ∷ rest) =
      let gone = record s { redrives = without i s.redrives } in
      if s.queue.shutdown
      then record gone { queue = store_in_dlq s.queue job; lost = rest ++ s.lost }
      else begin_send gone (redriver job rest)

  unfoldable pub hand : System P → ℕ → Sender P → ℕ → Worker P → Run (System P)
  unfolding hand_over
  hand s i x w (ranging c) = hand_over s i x w c
  hand s i x w v = ok s

  -- A step that is not possible changes nothing.
  unfoldable pub take_step : System P → Step P → Run (System P)
  unfolding submit finish_send hand work lock_shutdown wait wake lock_start spawn redrive_dlq
      copy_dlq drive
  take_step s (submits job) = ok (submit s job)
  take_step s (sends i) = elim (get_elem? s.senders i) [ none ↦ ok s | some x ↦ finish_send s i x ]
  take_step s (hands_over i w) = elim (get_elem? s.senders i) [
    | none ↦ ok s
    | some x ↦ elim (get_elem? s.workers w) [ none ↦ ok s | some v ↦ hand s i x w v ]
  ]
  take_step s shuts_down = lock_shutdown s
  take_step s waits = ok (wait s)
  take_step s wakes = wake s
  take_step s starts = ok (lock_start s)
  take_step s spawns = ok (spawn s)
  take_step s redrives = ok (redrive_dlq s)
  take_step s copies = ok (copy_dlq s)
  take_step s (drives i) = elim (get_elem? s.redrives i) [
    | none ↦ ok s
    | some jobs ↦ ok (drive s i jobs)
  ]
  take_step s (works w jitters heads) = elim (get_elem? s.workers w) [
    | none ↦ ok s
    | some x ↦ work s w x jitters heads
  ]

  unfoldable pub take_steps : System P → List (Step P) → Run (System P)
  unfolding take_step
  take_steps s [] = ok s
  take_steps s (t ∷ ts) = take_step s t >>= λ s'. take_steps s' ts
