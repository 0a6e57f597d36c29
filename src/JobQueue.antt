-- ===== src/JobQueue.antt =====
-- Job Queue/main.go: a queue of jobs with workers, retries and a dead letter queue, as the steps
-- that its goroutines take.
pub mod Steps
pub mod Retries
pub mod Conservation
pub mod Validity
pub mod Runs
pub mod Draining
pub mod Tests
use low_level_design_in_go.Base.{
  ℕ, zero, suc, ◌+◌, ◌-◌, String, Bool, true, false, not, Option, none, some, List, [], ◌∷◌, ◌++◌,
  ltb, ◌==◌, length, get_elem?, set, without, if◌then◌else◌,
}
use low_level_design_in_go.Base.Int.{ℤ, pos, negsuc, ◌+ℤ◌, ltb_ℤ}
use low_level_design_in_go.Base.Run.{Run, ok, panic, ◌>>=◌}

-- Durations are in nanoseconds.
pub record RetryOptions : Type 0 where
  pub max_retries : ℤ
  pub backoff : ℤ
  pub jitter : ℤ

abbrev pub default_retry_options : RetryOptions
default_retry_options = record { max_retries = pos 3; backoff = pos 1000000000; jitter = pos 0 }

pub record Job (P : Type 0) : Type 0 where
  pub job_id : String
  pub payload : P
  pub attempts : ℤ
  pub options : Option RetryOptions

-- A channel of jobs.
pub record Channel (P : Type 0) : Type 0 where
  pub buffer : List (Job P)
  pub is_closed : Bool

-- `jobs` is the place of the channel among those that were made; `wg` is the counter of the wait
-- group.
pub record InMemoryJobQueue (P : Type 0) : Type 0 where
  pub buffer_size : ℕ
  pub channels : List (Channel P)
  pub jobs : ℕ
  pub worker_count : ℕ
  pub wg : ℕ
  pub shutdown : Bool
  pub dlq : List (Job P)

-- `job, ok := <-ch`: a job, or the news that the channel is closed and empty, or a wait.
pub data Received (P : Type 0) : Type 0 where
  nothing_yet drained : Received P
  received : Job P → Channel P → Received P

-- The loop of `RetryJob` from round `i` on: whether a round succeeds, and the delays slept. `jitters`
-- is what `rand.Int63n(job.Options.Jitter)` gives in a round, `heads` whether `rand.Intn(2) == 0`.
unfoldable pub retry_loop : ℕ → RetryOptions → (ℕ → ℤ) → (ℕ → Bool) → ℕ → Bool × List ℤ
retry_loop zero o jitters heads i = (false, [])
retry_loop (suc left) o jitters heads i =
    let delay = if ltb_ℤ (pos 0) o.jitter then o.backoff +ℤ jitters i else o.backoff in
    let (fine, delays) = retry_loop left o jitters heads (suc i) in
    if heads i then (true, delay ∷ []) else (fine, delay ∷ delays)

-- The rounds that `MaxRetries` allows: none when it is negative.
abbrev pub rounds : ℤ → ℕ
rounds (pos n) = n
rounds (negsuc n) = 0

module _ {P : Type 0} where
  abbrev pub empty_channel : Channel P
  empty_channel = record { buffer = []; is_closed = false }

  unfoldable pub new_in_memory_job_queue : ℕ → ℕ → InMemoryJobQueue P
  new_in_memory_job_queue queue_buffer worker_count = record {
    buffer_size = queue_buffer;
    channels = empty_channel ∷ [];
    jobs = 0;
    worker_count = worker_count;
    wg = 0;
    shutdown = true;
    dlq = [];
  }

  unfoldable pub store_in_dlq : InMemoryJobQueue P → Job P → InMemoryJobQueue P
  store_in_dlq q job = record q { dlq = q.dlq ++ job ∷ [] }

  -- `if job.Options == nil`
  abbrev pub options_of : Job P → RetryOptions
  options_of job = elim job.options [ none ↦ default_retry_options | some o ↦ o ]

  unfoldable pub retry_job : Job P → (ℕ → ℤ) → (ℕ → Bool) → Bool × List ℤ
  unfolding retry_loop
  retry_job job jitters heads =
      let o = options_of job in retry_loop (rounds o.max_retries) o jitters heads 0

  -- `processJob`: the queue, and whether the job succeeded.
  unfoldable pub process_job :
      InMemoryJobQueue P → Job P → (ℕ → ℤ) → (ℕ → Bool) → InMemoryJobQueue P × Bool
  unfolding retry_job store_in_dlq
  process_job q job jitters heads =
      let (fine, delays) = retry_job job jitters heads in
      if fine then (q, true) else (store_in_dlq q job, false)

  -- The channel that `q.jobs` is now, which is nil if it was never made.
  unfoldable pub current : InMemoryJobQueue P → Run (Channel P)
  current q = elim (get_elem? q.channels q.jobs) [ none ↦ panic | some ch ↦ ok ch ]

  -- `q.jobs <- job` when the buffer has room; none when it has to wait.
  unfoldable pub send : InMemoryJobQueue P → Job P → Run (Option (InMemoryJobQueue P))
  unfolding current
  send q job = do
    ch ← current q
    let sent = record ch { buffer = ch.buffer ++ job ∷ [] }
    let room = ltb (length ch.buffer) q.buffer_size
    let kept = record q { channels = set q.channels q.jobs sent }
    if ch.is_closed then panic else ok (if room then some kept else none)

  -- `Shutdown` up to the wait for the workers. Closing a closed channel panics.
  unfoldable pub shut_down : InMemoryJobQueue P → Run (InMemoryJobQueue P)
  unfolding current
  shut_down q =
      let close = current q >>= λ ch.
      let closed = record q {
        shutdown = true;
        channels = set q.channels q.jobs (record ch { is_closed = true });
      } in
      if ch.is_closed then panic else ok closed in
      if q.shutdown then ok q else close

  -- `Start` up to `initiateWorkerPool`, and how many workers that has to start.
  unfoldable pub start : InMemoryJobQueue P → InMemoryJobQueue P × ℕ
  start q = if not q.shutdown then (q, 0) else (
    record q {
      shutdown = false;
      channels = q.channels ++ empty_channel ∷ [];
      jobs = length q.channels;
    },
    q.worker_count,
  )

  unfoldable pub receive : Channel P → Received P
  receive ch = elim ch.buffer [
    | [] ↦ if ch.is_closed then drained else nothing_yet
    | job ∷ rest ↦ received job (record ch { buffer = rest })
  ]
