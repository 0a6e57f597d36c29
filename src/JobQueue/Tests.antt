-- ===== src/JobQueue/Tests.antt =====
-- The queue of Job Queue/main.go on concrete jobs.
use low_level_design_in_go.Base.{
  ℕ, ◌≡◌, refl, Bool, true, false, none, List, [], ◌∷◌, ◌++◌, arith, ◌==◌,
}
use low_level_design_in_go.Base.Int.{ℤ, pos}
use low_level_design_in_go.Base.Run.{Run, ok, panic, ◌>>=◌, Returns}
use low_level_design_in_go.JobQueue.{Job, retry_job, new_in_memory_job_queue}
use low_level_design_in_go.JobQueue.Steps.{
  System, Step, submits, sends, shuts_down, waits, wakes, starts, spawns, redrives, copies, drives,
  works, ranging, take_steps,
}
use low_level_design_in_go.JobQueue.Validity.{IsValid}
use low_level_design_in_go.JobQueue.Runs.{
  Outcome, new_system, new_system-IsValid, take_steps-IsValid,
}
use low_level_design_in_go.JobQueue.Retries.{Retried, by_default, retry_job-Retried}
use low_level_design_in_go.JobQueue.Draining.{Drained, turns, turns-Drained}

abbrev job : ℕ → Job ℕ
job n = record { job_id = "J"; payload = n; attempts = pos 0; options = none }

abbrev calm : ℕ → ℤ
calm i = pos 0

-- The third toss is heads.
abbrev third : ℕ → Bool
third i = i == 2

-- Heads at once in the turn for the first job, never in the other turns.
abbrev once : ℕ → ℕ → Bool
once turn i = turn == 1

abbrev never : ℕ → Bool
never i = false

-- Both jobs fail and are redriven; the queue is shut down before the redrive sends the first of
-- them, which goes back to the dead letter queue, while the other one is lost.
abbrev lossy : List (Step ℕ)
lossy =
    starts
    ∷ spawns
    ∷ submits (job 1)
    ∷ sends 0
    ∷ submits (job 2)
    ∷ sends 0
    ∷ works 0 calm never
    ∷ works 0 calm never
    ∷ works 0 calm never
    ∷ works 0 calm never
    ∷ works 0 calm never
    ∷ redrives
    ∷ copies
    ∷ shuts_down
    ∷ drives 0
    ∷ []

abbrev left_behind : System ℕ → Run (List (Job ℕ) × List (Job ℕ))
left_behind s = ok (s.queue.dlq, s.lost)

lossy_run : (take_steps (new_system 2 1) lossy >>= left_behind) ≡ ok (job 1 ∷ [], job 2 ∷ [])
unfolding take_steps new_in_memory_job_queue
lossy_run = refl

-- A worker starts and the queue is shut down, with a Shutdown that waits; the worker ends. It returns,
-- but not when Start comes first and adds a worker.
abbrev ending : List (Step ℕ)
ending = starts ∷ spawns ∷ works 0 calm never ∷ shuts_down ∷ waits ∷ works 0 calm never ∷ []

abbrev at_wait : System ℕ → Run (ℕ × ℕ)
at_wait s = ok (s.waiting, s.woken)

woken_run : (take_steps (new_system 2 1) (ending ++ wakes ∷ []) >>= at_wait) ≡ ok (0, 0)
unfolding take_steps new_in_memory_job_queue
woken_run = refl

reuse_run : take_steps (new_system 2 1) (ending ++ starts ∷ spawns ∷ wakes ∷ []) ≡ panic
unfolding take_steps new_in_memory_job_queue
reuse_run = refl

take_steps-IsValid_example : Outcome (new_system 2 1) lossy (take_steps (new_system 2 1) lossy)
take_steps-IsValid_example = take_steps-IsValid (new_system 2 1) lossy (new_system-IsValid 2 1)

retry_job-Retried_example : Retried 3 third 0 (retry_job (job 1) calm third)
retry_job-Retried_example = retry_job-Retried (job 1) 3 calm third by_default

-- One worker at a closed channel with two jobs.
abbrev closing : System ℕ
closing = record {
  queue = record {
    buffer_size = 2;
    channels = record { buffer = job 1 ∷ job 2 ∷ []; is_closed = true } ∷ [];
    jobs = 0;
    worker_count = 1;
    wg = 1;
    shutdown = true;
    dlq = [];
  };
  workers = ranging 0 ∷ [];
  senders = [];
  redrives = [];
  to_spawn = 0;
  to_copy = 0;
  to_wait = 0;
  waiting = 0;
  woken = 0;
  accepted = job 1 ∷ job 2 ∷ [];
  succeeded = [];
  lost = [];
}

closing-IsValid : IsValid closing
closing-IsValid = record {
  made = omega arith;
  is_open = λ ch e going. absurd (ground (arith, going));
  awaits = λ some_wait. absurd (omega (arith, some_wait));
  locked = λ some_left. absurd (omega arith);
  counted = refl;
  room = (omega arith, tt);
  balance = λ p. omega arith;
}

turns-Drained_example :
    Returns
      (Drained closing 0 0 (record { buffer = job 1 ∷ job 2 ∷ []; is_closed = true }))
      (take_steps closing (turns 0 2 (λ turn. calm) once))
turns-Drained_example =
    turns-Drained 2 closing 0 0 _ (λ turn. calm) once closing-IsValid refl refl refl refl
