-- ===== src/JobQueue/Validity.antt =====
-- What holds of the queue of Job Queue/main.go and its goroutines between any two steps.
use low_level_design_in_go.Base.{
  ℕ, zero, suc, ◌+◌, ◌≤◌, ◌<◌, ◌≡◌, Bool, false, some, List, [], ◌∷◌, ◌++◌, length, get_elem?,
  sum_by, sum_by-append, sum_by-without, if◌then◌else◌, arith, All, if_cases,
}
use low_level_design_in_go.JobQueue.{Job, Channel, store_in_dlq}
use low_level_design_in_go.JobQueue.Steps.{
  Worker, starting, stopped, busy, Sender, caller, redriver, System, submit, spawn, redrive_dlq,
  copy_dlq, drive,
}

module _ {P : Type 0} where
  -- How many jobs of a kind there are: 1 or 0 of one job, and of all in a list.
  abbrev pub one : (Job P → Bool) → Job P → ℕ
  one p job = if p job then 1 else 0

  abbrev pub tally : (Job P → Bool) → List (Job P) → ℕ
  tally p jobs = sum_by (one p) jobs

  abbrev pub in_channel : (Job P → Bool) → Channel P → ℕ
  in_channel p ch = tally p ch.buffer

  abbrev pub in_sender : (Job P → Bool) → Sender P → ℕ
  in_sender p (caller job) = one p job
  in_sender p (redriver job rest) = one p job + tally p rest

  abbrev pub in_worker : (Job P → Bool) → Worker P → ℕ
  in_worker p (busy c job) = one p job
  in_worker p w = 0

  -- The jobs of a kind that the queue and its goroutines have.
  abbrev pub held : (Job P → Bool) → System P → ℕ
  held p s =
      sum_by (in_channel p) s.queue.channels
      + sum_by (in_sender p) s.senders
      + sum_by (in_worker p) s.workers
      + sum_by (tally p) s.redrives
      + tally p s.queue.dlq

  -- A worker that has not ended.
  abbrev pub alive : Worker P → ℕ
  alive stopped = 0
  alive w = 1

  pub record IsValid (s : System P) : Type 0 where
    pub made : s.queue.jobs < length s.queue.channels
    pub is_open :
        (ch : Channel P)
        → get_elem? s.queue.channels s.queue.jobs ≡ some ch
        → s.queue.shutdown ≡ false
        → ch.is_closed ≡ false
    pub locked : 0 < length s.senders → s.queue.shutdown ≡ false
    pub awaits : 0 < s.waiting → 0 < s.queue.wg
    pub counted : s.queue.wg ≡ sum_by alive s.workers
    pub room : All (λ ch. length ch.buffer ≤ s.queue.buffer_size) s.queue.channels
    -- Every accepted job is in one place.
    pub balance :
        (p : Job P → Bool) → tally p s.accepted ≡ held p s + tally p s.succeeded + tally p s.lost

  pub submit-IsValid : (s : System P) (job : Job P) → IsValid s → IsValid (submit s job)
  unfolding submit
  submit-IsValid s job v =
      if_cases IsValid s.queue.shutdown (λ _. v)
        λ going. record {
          made = v.made;
          is_open = v.is_open;
          awaits = v.awaits;
          locked = λ _. going;
          counted = v.counted;
          room = v.room;
          balance = λ p. omega (arith, v.balance p);
        }

  pub spawn-IsValid : (s : System P) → IsValid s → IsValid (spawn s)
  unfolding spawn
  spawn-IsValid s v = go s.to_spawn
    where
      go :
          (n : ℕ)
          → IsValid (elim n [
            | zero ↦ s
            | suc m ↦ record s {
              to_spawn = m;
              workers = s.workers ++ starting ∷ [];
              queue = record s.queue { wg = suc s.queue.wg };
            }
          ])
      go zero = v
      go (suc m) = record {
        made = v.made;
        is_open = v.is_open;
        awaits = λ _. omega arith;
        locked = v.locked;
        counted = omega (arith, v.counted, sum_by-append alive s.workers (starting ∷ []));
        room = v.room;
        balance =
            λ p. omega (arith, v.balance p, sum_by-append (in_worker p) s.workers (starting ∷ []));
      }

  pub copy_dlq-IsValid : (s : System P) → IsValid s → IsValid (copy_dlq s)
  unfolding copy_dlq
  copy_dlq-IsValid s v = go s.to_copy
    where
      go :
          (n : ℕ)
          → IsValid (elim n [
            | zero ↦ s
            | suc m ↦ record s {
              to_copy = m;
              redrives = s.queue.dlq ∷ s.redrives;
              queue = record s.queue { dlq = [] };
            }
          ])
      go zero = v
      go (suc m) = record {
        made = v.made;
        is_open = v.is_open;
        awaits = v.awaits;
        locked = v.locked;
        counted = v.counted;
        room = v.room;
        balance = λ p. omega (arith, v.balance p);
      }

  pub redrive_dlq-IsValid : (s : System P) → IsValid s → IsValid (redrive_dlq s)
  unfolding redrive_dlq
  redrive_dlq-IsValid s v =
      if_cases IsValid s.queue.shutdown (λ _. v)
        λ going. record {
          made = v.made;
          is_open = v.is_open;
          awaits = v.awaits;
          locked = v.locked;
          counted = v.counted;
          room = v.room;
          balance = v.balance;
        }

  pub drive-IsValid :
      (s : System P) (i : ℕ) (jobs : List (Job P))
      → get_elem? s.redrives i ≡ some jobs
      → IsValid s
      → IsValid (drive s i jobs)
  unfolding drive store_in_dlq
  drive-IsValid s i [] at v = record {
    made = v.made;
    is_open = v.is_open;
    awaits = v.awaits;
    locked = v.locked;
    counted = v.counted;
    room = v.room;
    balance = λ p. omega (arith, v.balance p, sum_by-without (tally p) s.redrives i [] at);
  }
  drive-IsValid s i (job ∷ rest) at v =
      let less = λ (p : Job P → Bool). sum_by-without (tally p) s.redrives i (job ∷ rest) at in
      if_cases IsValid s.queue.shutdown
        (λ stop. record {
          made = v.made;
          is_open = v.is_open;
          awaits = v.awaits;
          locked = v.locked;
          counted = v.counted;
          room = v.room;
          balance = λ p. omega (
            arith,
            v.balance p,
            less p,
            sum_by-append (one p) s.queue.dlq (job ∷ []),
            sum_by-append (one p) rest s.lost,
          );
        })
        λ going. record {
          made = v.made;
          is_open = v.is_open;
          awaits = v.awaits;
          locked = λ _. going;
          counted = v.counted;
          room = v.room;
          balance = λ p. omega (arith, v.balance p, less p);
        }
