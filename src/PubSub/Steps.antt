-- ===== src/PubSub/Steps.antt =====
-- Interleavings of the calls of PubSub/main.go and of what they leave to do.
use low_level_design_in_go.Base.{
  ℕ, zero, suc, ◌≤◌, ◌<◌, ◌≡◌, refl, sym, ap, subst, ◌∙◌, String, Bool, true, false, not, Option,
  none, some, List, [], ◌∷◌, ◌++◌, ltb, ◌==◌, Bool-cases, inl, inr, length, length-append,
  length-set, set, get_or, get_or-set, get_elem?, All, All-set, arith,
}
use low_level_design_in_go.Base.Run.{
  Run, ok, ◌>>=◌, index-get_or, Returns, returns, Returns-bind, Returns-if,
}
use low_level_design_in_go.PubSub.{
  Message, Channel, buffer_size, try_send, close, Subscriber, PubSubBroker, Task, deliver, closes,
  deliver_message, close_subscriber, run_task, publish, subscribe, unsubscribe, shutdown_broker,
}

-- A step: a call, or one of the tasks that are left, by its place among them.
pub data Step : Type 0 where
  publishes : String → Message → Step
  subscribes : String → Step
  unsubscribes : String → ℕ → Step
  shuts_down : Step
  works : ℕ → Step

-- A broker and the tasks that are left.
pub record System : Type 0 where
  pub broker : PubSubBroker
  pub tasks : List Task

abbrev pub task_at : List Task → ℕ → Option Task
task_at = get_elem?

abbrev pub without : ℕ → List Task → List Task
without i [] = []
without zero (t ∷ ts) = ts
without (suc i) (t ∷ ts) = t ∷ without i ts

unfoldable pub take_step : System → Step → Run System
unfolding publish subscribe unsubscribe shutdown_broker run_task
take_step s (publishes topic msg) =
    let (tasks, e) = publish s.broker topic msg in ok (record s { tasks = s.tasks ++ tasks })
take_step s (subscribes topic) =
    let (b, sub, e) = subscribe s.broker topic in ok (record s { broker = b })
take_step s (unsubscribes topic sub) =
    let (b, tasks, e) = unsubscribe s.broker topic sub in
    ok (record { broker = b; tasks = s.tasks ++ tasks })
take_step s shuts_down =
    let (b, tasks) = shutdown_broker s.broker in
    ok (record { broker = b; tasks = s.tasks ++ tasks })
take_step s (works i) = elim (task_at s.tasks i) [
  | none ↦ ok s
  | some t ↦ run_task s.broker t >>= λ b. ok (record { broker = b; tasks = without i s.tasks })
]

unfoldable pub take_steps : System → List Step → Run System
unfolding take_step
take_steps s [] = ok s
take_steps s (t ∷ ts) = take_step s t >>= λ s'. take_steps s' ts

-- A subscriber whose flag tells whether its channel is closed, and whose buffer is not overfull.
pub record IsSound (sub : Subscriber) : Type 0 where
  pub flag : sub.closed ≡ sub.ch.is_closed
  pub room : length sub.ch.buffer ≤ buffer_size

abbrev pub subject : Task → ℕ
subject (deliver msg i) = i
subject (closes i) = i

-- Every subscriber is sound, and topics and tasks name subscribers that exist.
pub record IsValid (s : System) : Type 0 where
  pub sound : All IsSound s.broker.subscribers
  pub listed : All (λ (t, subs). All (λ i. i < length s.broker.subscribers) subs) s.broker.topics
  pub pending : All (λ t. subject t < length s.broker.subscribers) s.tasks

abbrev pub no_subscriber : Subscriber
no_subscriber = record { topic = ""; ch = record { buffer = []; is_closed = true }; closed = true }

abbrev pub sub_at : PubSubBroker → ℕ → Subscriber
sub_at b i = get_or b.subscribers i no_subscriber

-- Nobody is lost, and a closed subscriber stays as it is.
pub record Later (b b' : PubSubBroker) : Type 0 where
  pub more : length b.subscribers ≤ length b'.subscribers
  pub kept :
      (i : ℕ) → i < length b.subscribers → (sub_at b i).closed ≡ true → sub_at b' i ≡ sub_at b i

pub Later-refl : {b b' : PubSubBroker} → b'.subscribers ≡ b.subscribers → Later b b'
Later-refl e = record {
  more = omega (arith, ap length e);
  kept = λ i low closed. ap (λ subs. get_or subs i no_subscriber) e;
}

pub Later-trans : {a b c : PubSubBroker} → Later a b → Later b c → Later a c
Later-trans {a} {b} {c} l m = record {
  more = omega (arith, l.more, m.more);
  kept = λ i low closed.
      let same = l.kept i low closed in
      m.kept i (omega (arith, l.more)) (ap (λ (sub : Subscriber). sub.closed) same ∙ closed) ∙ same;
}

pub All-get_or :
    {A : Type 0} (P : A → Type 0) (xs : List A) (i : ℕ) (d : A)
    → All P xs
    → i < length xs
    → P (get_or xs i d)
All-get_or P [] i d all low = elim low [ ]
All-get_or P (x ∷ xs) zero d all low = all.0
All-get_or P (x ∷ xs) (suc i) d all low = All-get_or P xs i d all.1 (omega arith)

pub All-task_at :
    (P : Task → Type 0) (ts : List Task) (i : ℕ) (t : Task) → task_at ts i ≡ some t → All P ts → P t
All-task_at P [] i t e all = absurd (ground (arith, e))
All-task_at P (s ∷ ts) zero t e all = subst P (ground (arith, e)) all.0
All-task_at P (s ∷ ts) (suc i) t e all = All-task_at P ts i t e all.1

pub All-without : (P : Task → Type 0) (i : ℕ) (ts : List Task) → All P ts → All P (without i ts)
All-without P i [] all = tt
All-without P zero (t ∷ ts) all = all.1
All-without P (suc i) (t ∷ ts) all = (all.0, All-without P i ts all.1)

-- What a task may do to a broker.
pub record Ran (b b' : PubSubBroker) : Type 0 where
  pub sound : All IsSound b'.subscribers
  pub count : length b'.subscribers ≡ length b.subscribers
  pub topics : b'.topics ≡ b.topics
  pub later : Later b b'

-- The subscriber at `i`, which was open, is replaced.
pub replaced :
    (b : PubSubBroker) (i : ℕ) (sub : Subscriber)
    → All IsSound b.subscribers
    → i < length b.subscribers
    → (sub_at b i).closed ≡ false
    → IsSound sub
    → Ran b (record b { subscribers = set b.subscribers i sub })
replaced b i sub all low was_open sound = record {
  sound = All-set IsSound b.subscribers i sub all sound;
  count = length-set b.subscribers i sub;
  topics = refl;
  later = record {
    more = omega (arith, length-set b.subscribers i sub);
    kept = λ j low' closed.
        get_or-set b.subscribers i j sub no_subscriber low ∙ elim (Bool-cases (i == j)) [
          | inl same ↦ absurd (
              let e : i ≡ j = ground arith in
              let shut = subst (λ k. (sub_at b k).closed ≡ true) (sym e) closed in
              ground (arith, was_open, shut))
          | inr differs ↦ rw differs
        ];
  };
}

try_send-Sent :
    (ch : Channel) (msg : Message)
    → ch.is_closed ≡ false
    → length ch.buffer ≤ buffer_size
    → Returns (λ ch'. (ch'.is_closed ≡ false) × (length ch'.buffer ≤ buffer_size)) (try_send ch msg)
unfolding try_send
try_send-Sent ch msg still_open room =
    Returns-if ch.is_closed (λ shut. absurd (ground (arith, still_open, shut)))
      λ _.
        Returns-if (ltb (length ch.buffer) buffer_size)
          (λ free. returns (still_open, ground (arith, length-append ch.buffer (msg ∷ []))))
          (λ filled. returns (still_open, room))

pub close-Closed :
    (ch : Channel)
    → ch.is_closed ≡ false
    → Returns (λ ch'. (ch'.is_closed ≡ true) × (ch'.buffer ≡ ch.buffer)) (close ch)
unfolding close
close-Closed ch still_open =
    Returns-if ch.is_closed (λ shut. absurd (ground (arith, still_open, shut)))
      λ _. returns (refl, refl)

pub not-false : (b : Bool) → not b ≡ true → b ≡ false
not-false false e = refl
not-false true e = sym e

pub run_task-Ran :
    (b : PubSubBroker) (t : Task)
    → All IsSound b.subscribers
    → subject t < length b.subscribers
    → Returns (Ran b) (run_task b t)
unfolding run_task deliver_message close_subscriber
run_task-Ran b (deliver msg i) all low =
    let s = All-get_or IsSound b.subscribers i no_subscriber all low in
    rw (index-get_or b.subscribers i no_subscriber low) (
      Returns-if (not (sub_at b i).closed)
        (λ test.
          let still = not-false (sub_at b i).closed test in
          Returns-bind (try_send-Sent (sub_at b i).ch msg (sym s.flag ∙ still) s.room)
            λ ch (open_still, room). returns (
              replaced b i _ all low still (record { flag = still ∙ sym open_still; room = room })))
        (λ gone.
          returns (record { sound = all; count = refl; topics = refl; later = Later-refl refl })))
run_task-Ran b (closes i) all low =
    let s = All-get_or IsSound b.subscribers i no_subscriber all low in
    rw (index-get_or b.subscribers i no_subscriber low) (
      Returns-if (not (sub_at b i).closed)
        (λ test.
          let still = not-false (sub_at b i).closed test in
          Returns-bind (close-Closed (sub_at b i).ch (sym s.flag ∙ still)) λ ch (shut, same).
            returns (
              replaced b i _ all low still (record {
                flag = sym shut;
                room = subst (λ buffer. length buffer ≤ buffer_size) (sym same) s.room;
              })))
        (λ gone.
          returns (record { sound = all; count = refl; topics = refl; later = Later-refl refl })))
