-- ===== src/PubSub/Endings.antt =====
-- Shutdown of PubSub/main.go, up to its end.
use low_level_design_in_go.Base.{
  ℕ, ◌<◌, ◌≡◌, refl, sym, ap, subst, ◌∙◌, Bool, true, false, not, List, [], ◌∷◌, map, length, set,
  get_or, get_or-set, ◌==◌, All, All-map, arith,
}
use low_level_design_in_go.Base.Run.{
  Run, index-get_or, Returns, returns, Returns-map, Returns-bind, Returns-if,
}
use low_level_design_in_go.PubSub.{
  Subscriber, PubSubBroker, closes, deliver_message, close_subscriber, run_task, all_members,
  shutdown_broker,
}
use low_level_design_in_go.PubSub.Steps.{
  IsSound, sub_at, no_subscriber, Later, Later-refl, Later-trans, run_task-Ran, All-get_or,
  close-Closed, not-false,
}
use low_level_design_in_go.PubSub.Histories.{Listed, all_members-All}
use low_level_design_in_go.PubSub.Runs.{run_tasks}

pub both :
    {A : Type 0} (P Q : A → Type 0) (call : Run A)
    → Returns P call
    → Returns Q call
    → Returns (λ a. P a × Q a) call
both P Q _ (returns p) (returns q) = returns (p, q)

abbrev pub IsClosed : PubSubBroker → ℕ → Type 0
IsClosed b i = (sub_at b i).closed ≡ true

closes-IsClosed :
    (b : PubSubBroker) (i : ℕ)
    → All IsSound b.subscribers
    → i < length b.subscribers
    → Returns (λ b'. IsClosed b' i) (run_task b (closes i))
unfolding run_task deliver_message close_subscriber
closes-IsClosed b i all low =
    let s = All-get_or IsSound b.subscribers i no_subscriber all low in
    rw (index-get_or b.subscribers i no_subscriber low) (
      Returns-if (not (sub_at b i).closed)
        (λ test.
          Returns-bind
            (close-Closed (sub_at b i).ch (sym s.flag ∙ not-false (sub_at b i).closed test))
            λ ch _.
              let sub = record (sub_at b i) { ch = ch; closed = true } in
              let test' : (i == i) ≡ true = ground arith in
              let at : get_or (set b.subscribers i sub) i no_subscriber ≡ sub =
                rw (get_or-set b.subscribers i i sub no_subscriber low, test') refl in
              returns (ap (λ (t : Subscriber). t.closed) at))
        (λ gone. returns (is_true (sub_at b i).closed gone)))
  where
    is_true : (c : Bool) → not c ≡ false → c ≡ true
    is_true true e = refl
    is_true false e = sym e

-- Closing tasks, one after the other.
close_all :
    (b : PubSubBroker) (subs : List ℕ)
    → All IsSound b.subscribers
    → All (λ i. i < length b.subscribers) subs
    → Returns
        (λ b'. All (IsClosed b') subs × Later b b' × (b'.topics ≡ b.topics))
        (run_tasks b (map closes subs))
unfolding run_tasks
close_all b [] sound all = returns (tt, Later-refl refl, refl)
close_all b (i ∷ subs) sound all =
    Returns-bind
      (both _ _ _ (run_task-Ran b (closes i) sound all.0) (closes-IsClosed b i sound all.0))
      λ b' (ran, closed).
        Returns-map
          (close_all b' subs ran.sound
            (All-map _ _ (λ j low. subst (λ n. j < n) (sym ran.count) low) subs all.1))
          λ b'' (rest, l, same). (
            (stays b' b'' i l (subst (λ n. i < n) (sym ran.count) all.0) closed, rest),
            Later-trans ran.later l,
            same ∙ ran.topics,
          )
  where
    stays :
        (b' b'' : PubSubBroker) (i : ℕ)
        → Later b' b''
        → i < length b'.subscribers
        → IsClosed b' i
        → IsClosed b'' i
    stays b' b'' i l low closed = ap (λ (t : Subscriber). t.closed) (l.kept i low closed) ∙ closed

-- On a broker that is not shut down, with sound subscribers and topics that name existing ones,
-- Shutdown with the closings that it leaves returns, closes every subscriber of every topic, and
-- leaves no topic.
pub shutdown_broker-IsClosed :
    (b : PubSubBroker)
    → All IsSound b.subscribers
    → Listed (length b.subscribers) b.topics
    → b.shutdown ≡ false
    → Returns
        (λ b'. All (IsClosed b') (all_members b.topics) × (b'.topics ≡ []))
        (run_tasks (shutdown_broker b).0 (shutdown_broker b).1)
unfolding shutdown_broker
shutdown_broker-IsClosed b sound listed running = rw running (
    Returns-map
      (close_all (record b { shutdown = true; topics = [] }) (all_members b.topics) sound
        (all_members-All (length b.subscribers) b.topics listed))
      λ b' (closed, l, same). (closed, same))
