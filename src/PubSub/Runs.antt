-- ===== src/PubSub/Runs.antt =====
-- Runs of PubSub/main.go: what no interleaving breaks, and what a shutdown leaves.
use low_level_design_in_go.Base.{
  ℕ, ◌<◌, ◌≡◌, refl, sym, subst, String, Bool, true, false, not, Option, none, some, List, [], ◌∷◌,
  ◌++◌, ◌==◌, if◌then◌else◌, if_cases, length, All, All-append,
}
use low_level_design_in_go.Base.Run.{Run, ok, ◌>>=◌, Returns, returns, Returns-map, Returns-bind}
use low_level_design_in_go.PubSub.{
  no_topic, not_in_topic, Error, Topics, PubSubBroker, lookup, store, remove, is_member,
  remove_member, Task, closes, run_task, members, unsubscribe, shutdown_broker,
}
use low_level_design_in_go.PubSub.Steps.{
  Step, publishes, subscribes, unsubscribes, shuts_down, works, System, task_at, without, take_step,
  take_steps, subject, IsValid, Later-refl, Later-trans, All-task_at, All-without, run_task-Ran,
}
use low_level_design_in_go.PubSub.Histories.{
  Listed, lookup-Listed, store-Listed, remove-Listed, remove_member-All, is_member-below,
  all_members-All, tasks-All, Advanced, publishes-Advanced, subscribes-Advanced,
}

-- Fewer topics, and more tasks.
shrunk-Advanced :
    (s : System) (topics : Topics) (shutdown : Bool) (ts : List Task)
    → IsValid s
    → Listed (length s.broker.subscribers) topics
    → All (λ t. subject t < length s.broker.subscribers) ts
    → Advanced s (record {
      broker = record s.broker { topics = topics; shutdown = shutdown };
      tasks = s.tasks ++ ts;
    })
shrunk-Advanced s topics shutdown ts v listed all = (
  record { sound = v.sound; listed = listed; pending = All-append _ s.tasks ts v.pending all },
  Later-refl refl,
)

unsubscribes-Advanced :
    (s : System) (topic : String) (sub : ℕ)
    → IsValid s
    → Returns (Advanced s) (take_step s (unsubscribes topic sub))
unfolding take_step unsubscribe
unsubscribes-Advanced s topic sub v =
    go (lookup topic s.broker.topics)
      (lookup-Listed (length s.broker.subscribers) topic s.broker.topics v.listed)
  where
    n : ℕ
    n = length s.broker.subscribers

    After : PubSubBroker × List Task × Option Error → Type 0
    After (b, tasks, e) =
        Returns (Advanced s) (ok (record { broker = b; tasks = s.tasks ++ tasks }))

    go :
        (o : Option (List ℕ))
        → All (λ i. i < n) (members o)
        → After (elim o [
          | none ↦ (s.broker, [], some no_topic)
          | some subscribers ↦
              let left = remove_member sub subscribers in
              if not (is_member sub subscribers)
              then (s.broker, [], some not_in_topic)
              else if length left == 0
              then (
                record s.broker { topics = remove topic s.broker.topics },
                closes sub ∷ [],
                none,
              )
              else (
                record s.broker { topics = store topic left s.broker.topics },
                closes sub ∷ [],
                none,
              )
        ])
    go none all = returns (shrunk-Advanced s s.broker.topics s.broker.shutdown [] v v.listed tt)
    go (some subscribers) all =
        if_cases After (not (is_member sub subscribers))
          (λ _. returns (shrunk-Advanced s s.broker.topics s.broker.shutdown [] v v.listed tt))
          (λ inside.
            let low : sub < n =
              is_member-below n sub subscribers all (member (is_member sub subscribers) inside) in
            if_cases After (length (remove_member sub subscribers) == 0)
              (λ _. returns (
                shrunk-Advanced s (remove topic s.broker.topics) s.broker.shutdown (closes sub ∷ [])
                  v (remove-Listed n topic s.broker.topics v.listed) (low, tt)))
              (λ _. returns (
                shrunk-Advanced s (store topic (remove_member sub subscribers) s.broker.topics)
                  s.broker.shutdown (closes sub ∷ []) v
                  (store-Listed n topic _ s.broker.topics (remove_member-All n sub subscribers all)
                    v.listed)
                  (low, tt))))
      where
        member : (b : Bool) → not b ≡ false → b ≡ true
        member true e = refl
        member false e = sym e

shuts_down-Advanced : (s : System) → IsValid s → Returns (Advanced s) (take_step s shuts_down)
unfolding take_step shutdown_broker
shuts_down-Advanced s v =
    if_cases
      (λ (r : PubSubBroker × List Task).
        Returns (Advanced s) (ok (record { broker = r.0; tasks = s.tasks ++ r.1 })))
      s.broker.shutdown
      (λ _. returns (shrunk-Advanced s s.broker.topics s.broker.shutdown [] v v.listed tt))
      (λ _. returns (
        shrunk-Advanced s [] true _ v tt (
          tasks-All (length s.broker.subscribers) closes _ (λ i. refl)
            (all_members-All (length s.broker.subscribers) s.broker.topics v.listed))))

works-Advanced : (s : System) (i : ℕ) → IsValid s → Returns (Advanced s) (take_step s (works i))
unfolding take_step
works-Advanced s i v = go (task_at s.tasks i) refl
  where
    go :
        (o : Option Task)
        → task_at s.tasks i ≡ o
        → Returns (Advanced s) (elim o [
          | none ↦ ok s
          | some t ↦
              run_task s.broker t >>= λ b. ok (record { broker = b; tasks = without i s.tasks })
        ])
    go none e = returns (v, Later-refl refl)
    go (some t) e =
        Returns-bind
          (run_task-Ran s.broker t v.sound
            (All-task_at (λ u. subject u < length s.broker.subscribers) s.tasks i t e v.pending))
          λ b ran. returns (
            record {
              sound = ran.sound;
              listed =
                  subst (λ n. Listed n b.topics) (sym ran.count)
                    (subst (Listed (length s.broker.subscribers)) (sym ran.topics) v.listed);
              pending =
                  subst (λ n. All (λ u. subject u < n) (without i s.tasks)) (sym ran.count)
                    (All-without _ i s.tasks v.pending);
            },
            ran.later,
          )

take_step-Advanced : (s : System) (t : Step) → IsValid s → Returns (Advanced s) (take_step s t)
take_step-Advanced s (publishes topic msg) v = publishes-Advanced s topic msg v
take_step-Advanced s (subscribes topic) v = subscribes-Advanced s topic v
take_step-Advanced s (unsubscribes topic sub) v = unsubscribes-Advanced s topic sub v
take_step-Advanced s shuts_down v = shuts_down-Advanced s v
take_step-Advanced s (works i) v = works-Advanced s i v

-- From a valid broker with its tasks left, no interleaving of Publish, Subscribe, Unsubscribe,
-- Shutdown and the deliveries and closings that they leave panics, so that nothing is sent on a
-- closed channel and no channel is closed twice. The broker stays valid: each closed flag matches
-- its channel, no buffer is overfull, and topics and tasks name subscribers that exist. No
-- subscriber is lost, and one that is closed stays as it is.
pub take_steps-Advanced :
    (s : System) (steps : List Step) → IsValid s → Returns (Advanced s) (take_steps s steps)
unfolding take_steps
take_steps-Advanced s [] v = returns (v, Later-refl refl)
take_steps-Advanced s (t ∷ steps) v = Returns-bind (take_step-Advanced s t v) λ s' (v', l).
    Returns-map (take_steps-Advanced s' steps v') λ s'' (v'', l'). (v'', Later-trans l l')

-- The tasks of one call, in their order.
unfoldable pub run_tasks : PubSubBroker → List Task → Run PubSubBroker
unfolding run_task
run_tasks b [] = ok b
run_tasks b (t ∷ ts) = run_task b t >>= λ b'. run_tasks b' ts
