-- ===== src/PubSub/Tests.antt =====
-- PubSub/main.go on a broker with two subscribers.
use low_level_design_in_go.Base.{
  ℕ, if◌then◌else◌, ◌≡◌, refl, true, false, List, [], ◌∷◌, All, arith,
}
use low_level_design_in_go.Base.Run.{ok, ◌>>=◌, Returns}
use low_level_design_in_go.PubSub.{
  publish, lookup, members, is_member, Message, Subscriber, PubSubBroker, all_members,
  shutdown_broker,
}
use low_level_design_in_go.PubSub.Steps.{
  sub_at, Step, publishes, unsubscribes, works, System, take_steps, IsValid,
}
use low_level_design_in_go.PubSub.Histories.{Advanced}
use low_level_design_in_go.PubSub.Runs.{take_steps-Advanced, run_tasks}
use low_level_design_in_go.PubSub.Deliveries.{received, publish-received}
use low_level_design_in_go.PubSub.Endings.{IsClosed, shutdown_broker-IsClosed}

abbrev hello : Message
hello = record { id = "1"; data_ = "hello" }

abbrev one : Subscriber
one = record { topic = "news"; ch = record { buffer = []; is_closed = false }; closed = false }

abbrev news : PubSubBroker
news = record { subscribers = one ∷ one ∷ []; topics = ("news", 0 ∷ 1 ∷ []) ∷ []; shutdown = false }

abbrev system : System
system = record { broker = news; tasks = [] }

-- Subscriber 1 leaves between the snapshot of Publish and its delivery.
abbrev steps : List Step
steps = publishes "news" hello ∷ unsubscribes "news" 1 ∷ works 2 ∷ works 0 ∷ works 0 ∷ []

late_delivery :
    (take_steps system steps >>= λ s. ok s.broker.subscribers)
    ≡ ok (
        record one { ch = record { buffer = hello ∷ []; is_closed = false } }
        ∷ record one { ch = record { buffer = []; is_closed = true }; closed = true }
        ∷ [])
unfolding take_steps
late_delivery = refl

system-IsValid : IsValid system
system-IsValid = record {
  sound = (
    record { flag = refl; room = omega arith },
    (record { flag = refl; room = omega arith }, tt),
  );
  listed = ((omega arith, (omega arith, tt)), tt);
  pending = tt;
}

take_steps-Advanced_example : Returns (Advanced system) (take_steps system steps)
take_steps-Advanced_example = take_steps-Advanced system steps system-IsValid

shutdown_broker-IsClosed_example :
    Returns
      (λ b'. All (IsClosed b') (all_members news.topics) × (b'.topics ≡ []))
      (run_tasks (shutdown_broker news).0 (shutdown_broker news).1)
shutdown_broker-IsClosed_example =
    shutdown_broker-IsClosed news system-IsValid.sound system-IsValid.listed refl

publish-received_example :
    Returns
      (λ b'.
        (j : ℕ)
        → sub_at b' j ≡ (
            if is_member j (members (lookup "news" news.topics))
            then received hello (sub_at news j)
            else sub_at news j))
      (run_tasks news (publish news "news" hello).0)
unfolding lookup is_member
publish-received_example =
    publish-received news "news" hello system-IsValid.sound system-IsValid.listed (refl, (refl, tt))
      refl
