-- ===== src/JobQueue/Draining.antt =====
-- The workers of Job Queue/main.go after `Shutdown` closed their channel.
use low_level_design_in_go.Base.{
  ℕ, zero, suc, ◌+◌, ◌≡◌, refl, sym, ap, subst, ◌∙◌, Bool, true, false, some, List, [], ◌∷◌, ◌==◌,
  length, get_elem?, set, sum_by-append, sum_by-set, arith, inside-at, nothing_left, one_left,
  if_cases, get_elem?-set_self,
}
use low_level_design_in_go.Base.Int.{ℤ}
use low_level_design_in_go.Base.Run.{ok, Returns, returns, Returns-bind, Returns-map, Returns-if}
use low_level_design_in_go.JobQueue.{
  Job, Channel, drained, received, receive, process_job, store_in_dlq, retry_job,
}
use low_level_design_in_go.JobQueue.Steps.{
  Worker, stopped, ranging, busy, System, Step, take_received, after_job, set_worker, work,
  take_step, take_steps, works,
}
use low_level_design_in_go.JobQueue.Validity.{one, tally, alive, IsValid}
use low_level_design_in_go.JobQueue.Runs.{take_step-IsValid}

module _ {P : Type 0} where
  first_job :
      (ch : Channel P) (job : Job P) (rest : List (Job P))
      → ch.buffer ≡ job ∷ rest
      → receive ch ≡ received job (record ch { buffer = rest })
  unfolding receive
  first_job ch job rest e = rw (receive, e) refl

  no_job : (ch : Channel P) → ch.buffer ≡ [] → ch.is_closed ≡ true → receive ch ≡ drained
  unfolding receive
  no_job ch e closed = rw (receive, e, closed) refl

  -- A turn of the worker `w`, which is at `x`.
  turn :
      (s : System P) (w : ℕ) (x : Worker P) (jitters : ℕ → ℤ) (heads : ℕ → Bool)
      → get_elem? s.workers w ≡ some x
      → take_step s (works w jitters heads) ≡ work s w x jitters heads
  unfolding take_step
  turn s w x jitters heads at = rw (take_step, at) refl

  at_channel :
      (s : System P) (w c : ℕ) (ch : Channel P) (jitters : ℕ → ℤ) (heads : ℕ → Bool)
      → get_elem? s.queue.channels c ≡ some ch
      → work s w (ranging c) jitters heads ≡ take_received s w c (receive ch)
  unfolding work
  at_channel s w c ch jitters heads at = rw (work, at) refl

  -- What a job leaves that a worker has processed.
  record Worked (s : System P) (w c : ℕ) (job : Job P) (s' : System P) : Type 0 where
    workers : s'.workers ≡ set s.workers w (ranging c)
    channels : s'.queue.channels ≡ s.queue.channels
    same_wg : s'.queue.wg ≡ s.queue.wg
    settled :
        (p : Job P → Bool)
        → tally p s'.succeeded + tally p s'.queue.dlq
          ≡ tally p s.succeeded + tally p s.queue.dlq + one p job

  after_job-Worked :
      (s : System P) (w c : ℕ) (job : Job P) (jitters : ℕ → ℤ) (heads : ℕ → Bool)
      → Worked s w c job (after_job s w c job (process_job s.queue job jitters heads))
  unfolding after_job process_job store_in_dlq
  after_job-Worked s w c job jitters heads =
      if_cases (λ r. Worked s w c job (after_job s w c job r)) (retry_job job jitters heads).0
        {x = (s.queue, true)} {y = (store_in_dlq s.queue job, false)}
        (λ fine. record {
          workers = refl;
          channels = refl;
          same_wg = refl;
          settled = λ p. omega arith;
        })
        λ failed. record {
          workers = refl;
          channels = refl;
          same_wg = refl;
          settled = λ p. omega (arith, sum_by-append (one p) s.queue.dlq (job ∷ []));
        }

  -- The system after a worker has taken a job.
  abbrev with_job : System P → ℕ → ℕ → Job P → Channel P → System P
  with_job s w c job rest =
      set_worker (record s { queue = record s.queue { channels = set s.queue.channels c rest } }) w
        (busy c job)

  returned : {Q : System P → Type 0} {s : System P} → Returns Q (ok s) → Q s
  returned (returns q) = q

  busy_turn :
      (s : System P) (w c : ℕ) (job : Job P) (jitters : ℕ → ℤ) (heads : ℕ → Bool)
      → work s w (busy c job) jitters heads
        ≡ ok (after_job s w c job (process_job s.queue job jitters heads))
  unfolding work
  busy_turn s w c job jitters heads = refl

  -- Two turns for every job in the buffer, and one for the end. Each turn has its own random
  -- numbers: `jitters n` and `heads n` are those of the turns with `n` jobs left.
  abbrev pub turns : ℕ → ℕ → (ℕ → ℕ → ℤ) → (ℕ → ℕ → Bool) → List (Step P)
  turns w zero jitters heads = works w (jitters 0) (heads 0) ∷ []
  turns w (suc n) jitters heads =
      works w (jitters (suc n)) (heads (suc n))
      ∷ works w (jitters (suc n)) (heads (suc n))
      ∷ turns w n jitters heads

  -- What the turns leave: the worker has ended and is off the wait group, the channel is empty, and
  -- every job of it has succeeded or is in the dead letter queue.
  pub record Drained (s : System P) (w c : ℕ) (ch : Channel P) (s' : System P) : Type 0 where
    pub ended : get_elem? s'.workers w ≡ some stopped
    pub waited : suc s'.queue.wg ≡ s.queue.wg
    pub emptied : get_elem? s'.queue.channels c ≡ some (record ch { buffer = [] })
    pub settled :
        (p : Job P → Bool)
        → tally p s'.succeeded + tally p s'.queue.dlq
          ≡ tally p s.succeeded + tally p s.queue.dlq + tally p ch.buffer

  -- From a valid queue, a worker at a closed channel ends after two turns for every job in the
  -- buffer and one more: it is then off the wait group, the channel is empty, and of every kind of
  -- job those of the buffer have succeeded or are in the dead letter queue, whatever random numbers
  -- each turn draws.
  pub turns-Drained :
      (n : ℕ) (s : System P) (w c : ℕ) (ch : Channel P) (jitters : ℕ → ℕ → ℤ) (heads : ℕ → ℕ → Bool)
      → IsValid s
      → get_elem? s.workers w ≡ some (ranging c)
      → get_elem? s.queue.channels c ≡ some ch
      → ch.is_closed ≡ true
      → length ch.buffer ≡ n
      → Returns (Drained s w c ch) (take_steps s (turns w n jitters heads))
  unfolding take_steps take_received
  turns-Drained zero s w c ch jitters heads v at at_c closed size =
      let none_left = nothing_left ch.buffer size in
      let e : take_step s (works w (jitters 0) (heads 0)) ≡ take_received s w c drained =
        turn s w (ranging c) (jitters 0) (heads 0) at
        ∙ at_channel s w c ch (jitters 0) (heads 0) at_c
        ∙ ap (take_received s w c) (no_job ch none_left closed) in
      let fewer = sum_by-set alive s.workers w (ranging c) stopped at in
      Returns-bind {P = Drained s w c ch}
        (subst (Returns (Drained s w c ch)) (sym e) (
          Returns-if (s.queue.wg == 0) (λ waited. absurd (ground (arith, waited, v.counted, fewer)))
            λ some_left. returns (record {
              ended = get_elem?-set_self s.workers w stopped (inside-at s.workers w (ranging c) at);
              waited = omega (arith, v.counted, fewer);
              emptied = at_c ∙ ap some (emptied_eq none_left);
              settled = λ p. omega (arith, ap (tally p) none_left);
            })))
        λ s' d. returns d
    where
      emptied_eq : ch.buffer ≡ [] → ch ≡ record ch { buffer = [] }
      emptied_eq e = ap (λ b. record ch { buffer = b }) e
  turns-Drained (suc n) s w c ch jitters heads v at at_c closed size =
      let jitters_now = jitters (suc n) in
      let heads_now = heads (suc n) in
      let (job, others, front, size') = one_left ch.buffer n size in
      let rest : Channel P = record ch { buffer = others } in
      let s1 = with_job s w c job rest in
      let s2 = after_job s1 w c job (process_job s1.queue job jitters_now heads_now) in
      let step = works w jitters_now heads_now in
      let e1 : take_step s step ≡ ok s1 =
        turn s w (ranging c) jitters_now heads_now at
        ∙ at_channel s w c ch jitters_now heads_now at_c
        ∙ ap (take_received s w c) (first_job ch job others front) in
      let v1 : IsValid s1 =
        returned (subst (Returns IsValid) e1 (take_step-IsValid s step refl v)) in
      let at1 : get_elem? s1.workers w ≡ some (busy c job) =
        get_elem?-set_self s.workers w (busy c job) (inside-at s.workers w (ranging c) at) in
      let e2 : take_step s1 step ≡ ok s2 =
        turn s1 w (busy c job) jitters_now heads_now at1
        ∙ busy_turn s1 w c job jitters_now heads_now in
      let v2 : IsValid s2 =
        returned (subst (Returns IsValid) e2 (take_step-IsValid s1 step refl v1)) in
      let k = after_job-Worked s1 w c job jitters_now heads_now in
      let at2 : get_elem? s2.workers w ≡ some (ranging c) =
        ap (λ ws. get_elem? ws w) k.workers
        ∙ get_elem?-set_self s1.workers w (ranging c) (inside-at s1.workers w (busy c job) at1) in
      let at_c2 : get_elem? s2.queue.channels c ≡ some rest =
        ap (λ cs. get_elem? cs c) k.channels
        ∙ get_elem?-set_self s.queue.channels c rest (inside-at s.queue.channels c ch at_c) in
      rw (e1, e2)
        (Returns-map (turns-Drained n s2 w c rest jitters heads v2 at2 at_c2 closed size') λ s' d.
          record {
            ended = d.ended;
            waited = d.waited ∙ k.same_wg;
            emptied = d.emptied;
            settled = λ p. omega (arith, d.settled p, k.settled p, ap (tally p) front);
          })
