-- ===== src/JobQueue/Conservation.antt =====
-- The steps of Job Queue/main.go that move jobs through the channel and the workers.
use low_level_design_in_go.Base.{
  ℕ, ◌<◌, ◌-◌, ◌+◌, ◌≤◌, ◌≡◌, ◌≢◌, refl, sym, ap, subst, ◌∙◌, Bool, true, false, Option, none, some,
  List, [], ◌∷◌, ◌++◌, ltb, ◌==◌, ==_iff, length, get_elem?, set, sum_by, sum_by-append, sum_by-set,
  sum_by-without, length-append, length-set, if◌then◌else◌, arith, All-set, All-at, inside-at,
  if_cases, Bool-cases, inl, inr, get_elem?-set_self, get_elem?-set_ne,
}
use low_level_design_in_go.Base.Int.{ℤ}
use low_level_design_in_go.Base.Run.{ok, Returns, returns, Returns-bind, Returns-if, index-total}
use low_level_design_in_go.JobQueue.{
  Job, Channel, InMemoryJobQueue, Received, nothing_yet, drained, received, receive, send,
  process_job, store_in_dlq, current, retry_job,
}
use low_level_design_in_go.JobQueue.Steps.{
  set_worker, wg_done, stopped, ranging, busy, Sender, caller, redriver, System, job_of, go_on,
  finish_send, hand_over, take_received, after_job, end_send,
}
use low_level_design_in_go.JobQueue.Validity.{
  one, tally, in_channel, in_sender, in_worker, alive, IsValid,
}

==-ne : {a b : ℕ} → (a == b) ≡ false → a ≢ b
==-ne e same = ground (arith, e, same)

pub closed_open : {b : Bool} {A : Type 0} → b ≡ true → b ≡ false → A
closed_open yes_ no_ = absurd (ground (arith, yes_, no_))

module _ {P : Type 0} where
  is_rest_closed : {a b : Channel P} → some a ≡ some b → a.is_closed ≡ b.is_closed
  is_rest_closed e = ap flag_of e
    where
      flag_of : Option (Channel P) → Bool
      flag_of none = true
      flag_of (some c) = c.is_closed

  -- The balance of a finished send: the job moves on, the rest of a redrive goes back to its loop.
  sender_weight :
      (p : Job P → Bool) (x : Sender P) (rs : List (List (Job P)))
      → sum_by (tally p) (go_on x rs) + one p (job_of x) ≡ sum_by (tally p) rs + in_sender p x
  sender_weight p (caller job) rs = omega arith
  sender_weight p (redriver job rest) rs = omega arith

  pub current-Returns :
      (s : System P)
      → IsValid s
      → Returns (λ ch. get_elem? s.queue.channels s.queue.jobs ≡ some ch) (current s.queue)
  unfolding current
  current-Returns s v =
      let (ch, _, e) = index-total s.queue.channels s.queue.jobs v.made in
      rw (current, e) (returns refl)

  -- A channel written back with its flag as it was.
  set_open :
      (s : System P) (c : ℕ) (ch rest : Channel P)
      → IsValid s
      → get_elem? s.queue.channels c ≡ some ch
      → rest.is_closed ≡ ch.is_closed
      → (other : Channel P) → get_elem? (set s.queue.channels c rest) s.queue.jobs ≡ some other
      → s.queue.shutdown ≡ false
      → other.is_closed ≡ false
  set_open s c ch rest v at flag other there going = elim (Bool-cases (c == s.queue.jobs)) [
    | inl same ↦
        let e : c ≡ s.queue.jobs = (==_iff c s.queue.jobs).0 same in
        let at_jobs : get_elem? s.queue.channels s.queue.jobs ≡ some ch =
          subst (λ j. get_elem? s.queue.channels j ≡ some ch) e at in
        let written =
          get_elem?-set_self s.queue.channels c rest (inside-at s.queue.channels c ch at) in
        let is_rest : some other ≡ some rest =
          sym there ∙ ap (get_elem? (set s.queue.channels c rest)) (sym e) ∙ written in
        is_rest_closed is_rest ∙ flag ∙ v.is_open ch at_jobs going
    | inr apart ↦
        v.is_open other (sym (get_elem?-set_ne s.queue.channels rest (λ e. ==-ne apart e)) ∙ there)
          going
  ]

  -- What a send leaves.
  abbrev SentWell : System P → ℕ → Sender P → Option (InMemoryJobQueue P) → Type 0
  SentWell s i x none = Unit
  SentWell s i x (some q) = IsValid (record (end_send s i x) { queue = q })

  send-SentWell :
      (s : System P) (i : ℕ) (x : Sender P)
      → get_elem? s.senders i ≡ some x
      → IsValid s
      → Returns (SentWell s i x) (send s.queue (job_of x))
  unfolding send
  send-SentWell s i x at v =
      let going = v.locked (omega (arith, inside-at s.senders i x at)) in
      Returns-bind (current-Returns s v) λ ch e.
        let job = job_of x in
        let sent : Channel P = record ch { buffer = ch.buffer ++ job ∷ [] } in
        Returns-if ch.is_closed (λ closed. closed_open closed (v.is_open ch e going))
          λ _. returns (
            if_cases (SentWell s i x) (ltb (length ch.buffer) s.queue.buffer_size)
              (λ fits. record {
                made = rw (length-set s.queue.channels s.queue.jobs sent) v.made;
                is_open = set_open s s.queue.jobs ch sent v e refl;
                awaits = v.awaits;
                locked = λ _. going;
                counted = v.counted;
                room =
                    All-set (λ c. length c.buffer ≤ s.queue.buffer_size) s.queue.channels
                      s.queue.jobs sent v.room
                      (ground (arith, fits, length-append ch.buffer (job ∷ [])));
                balance = λ p. omega (
                  arith,
                  v.balance p,
                  sum_by-set (in_channel p) s.queue.channels s.queue.jobs ch sent e,
                  sum_by-append (one p) ch.buffer (job ∷ []),
                  sum_by-without (in_sender p) s.senders i x at,
                  sender_weight p x s.redrives,
                );
              })
              λ full. tt)

  pub finish_send-IsValid :
      (s : System P) (i : ℕ) (x : Sender P)
      → get_elem? s.senders i ≡ some x
      → IsValid s
      → Returns IsValid (finish_send s i x)
  unfolding finish_send
  finish_send-IsValid s i x at v = Returns-bind (send-SentWell s i x at v) go
    where
      go :
          (sent : Option (InMemoryJobQueue P))
          → SentWell s i x sent
          → Returns IsValid
              (elim sent [ none ↦ ok s | some q ↦ ok (record (end_send s i x) { queue = q }) ])
      go none well = returns v
      go (some q) well = returns well

  pub hand_over-IsValid :
      (s : System P) (i : ℕ) (x : Sender P) (w c : ℕ)
      → get_elem? s.senders i ≡ some x
      → get_elem? s.workers w ≡ some (ranging c)
      → IsValid s
      → Returns IsValid (hand_over s i x w c)
  unfolding hand_over
  hand_over-IsValid s i x w c at at_w v =
      let going = v.locked (omega (arith, inside-at s.senders i x at)) in
      let working = busy c (job_of x) in
      Returns-bind (current-Returns s v) λ ch e.
        Returns-if ch.is_closed (λ closed. closed_open closed (v.is_open ch e going))
          λ _. returns (
            if_cases IsValid _
              (λ idle. record {
                made = v.made;
                is_open = v.is_open;
                awaits = v.awaits;
                locked = λ _. going;
                counted =
                    omega (arith, v.counted, sum_by-set alive s.workers w (ranging c) working at_w);
                room = v.room;
                balance = λ p. omega (
                  arith,
                  v.balance p,
                  sum_by-set (in_worker p) s.workers w (ranging c) working at_w,
                  sum_by-without (in_sender p) s.senders i x at,
                  sender_weight p x s.redrives,
                );
              })
              λ waits. v)

  -- What a receive gives is the first job of the buffer.
  abbrev pub Gives : Channel P → Received P → Type 0
  Gives ch (received job rest) = (ch.buffer ≡ job ∷ rest.buffer) × (rest.is_closed ≡ ch.is_closed)
  Gives ch r = Unit

  pub receive-Gives : (ch : Channel P) → Gives ch (receive ch)
  unfolding receive
  receive-Gives ch = go ch.buffer refl
    where
      go :
          (b : List (Job P))
          → ch.buffer ≡ b
          → Gives ch (elim b [
            | [] ↦ if ch.is_closed then drained else nothing_yet
            | job ∷ rest ↦ received job (record ch { buffer = rest })
          ])
      go [] e = if_cases (Gives ch) ch.is_closed (λ _. tt) λ _. tt
      go (job ∷ rest) e = (e, refl)

  pub take_received-IsValid :
      (s : System P) (w c : ℕ) (ch : Channel P) (r : Received P)
      → get_elem? s.workers w ≡ some (ranging c)
      → get_elem? s.queue.channels c ≡ some ch
      → Gives ch r
      → IsValid s
      → Returns IsValid (take_received s w c r)
  unfolding take_received
  take_received-IsValid s w c ch nothing_yet at at_c gives v = returns v
  take_received-IsValid s w c ch drained at at_c gives v =
      let fewer = sum_by-set alive s.workers w (ranging c) stopped at in
      Returns-if (s.queue.wg == 0)
        (λ none_left. absurd (ground (arith, none_left, v.counted, fewer)))
        λ some_left. returns {a = set_worker (wg_done s) w stopped} (record {
          made = v.made;
          is_open = v.is_open;
          awaits =
              if_cases (λ n. 0 < n → 0 < s.queue.wg - 1) (s.queue.wg == 1)
                (λ _ none_wait. absurd (omega (arith, none_wait)))
                λ more _. ground (arith, more, some_left);
          locked = v.locked;
          counted = omega (arith, v.counted, fewer);
          room = v.room;
          balance = λ p.
              omega
                (arith, v.balance p, sum_by-set (in_worker p) s.workers w (ranging c) stopped at);
        })
  take_received-IsValid s w c ch (received job rest) at at_c (front, flag) v = returns (record {
    made = rw (length-set s.queue.channels c rest) v.made;
    is_open = set_open s c ch rest v at_c flag;
    awaits = v.awaits;
    locked = v.locked;
    counted = omega (arith, v.counted, sum_by-set alive s.workers w (ranging c) (busy c job) at);
    room =
        All-set (λ d. length d.buffer ≤ s.queue.buffer_size) s.queue.channels c rest v.room
          (omega (
            arith,
            ap length front,
            All-at (λ d. length d.buffer ≤ s.queue.buffer_size) s.queue.channels c ch at_c v.room,
          ));
    balance = λ p. omega (
      arith,
      v.balance p,
      sum_by-set (in_worker p) s.workers w (ranging c) (busy c job) at,
      sum_by-set (in_channel p) s.queue.channels c ch rest at_c,
      ap (tally p) front,
    );
  })

  pub after_job-IsValid :
      (s : System P) (w c : ℕ) (job : Job P) (jitters : ℕ → ℤ) (heads : ℕ → Bool)
      → get_elem? s.workers w ≡ some (busy c job)
      → IsValid s
      → IsValid (after_job s w c job (process_job s.queue job jitters heads))
  unfolding after_job process_job store_in_dlq
  after_job-IsValid s w c job jitters heads at v =
      let same = sum_by-set alive s.workers w (busy c job) (ranging c) at in
      let free =
        λ (p : Job P → Bool). sum_by-set (in_worker p) s.workers w (busy c job) (ranging c) at in
      if_cases (λ r. IsValid (after_job s w c job r)) (retry_job job jitters heads).0
        {x = (s.queue, true)} {y = (store_in_dlq s.queue job, false)}
        (λ fine. record {
          made = v.made;
          is_open = v.is_open;
          awaits = v.awaits;
          locked = v.locked;
          counted = omega (arith, v.counted, same);
          room = v.room;
          balance = λ p. omega (arith, v.balance p, free p);
        })
        λ failed. record {
          made = v.made;
          is_open = v.is_open;
          awaits = v.awaits;
          locked = v.locked;
          counted = omega (arith, v.counted, same);
          room = v.room;
          balance =
              λ p. omega (arith, v.balance p, free p, sum_by-append (one p) s.queue.dlq (job ∷ []));
        }
