-- ===== src/PubSub.antt =====
-- PubSub/main.go. A subscriber is its place in the list of all that were made, as the source keeps
-- pointers. What a call does after it has given the broker's mutex back, one subscriber at a time
-- under the subscriber's own mutex, is a list of tasks: other calls and tasks may come between. A
-- range over a map takes the keys in the order of the list, and the tasks may run in any order.
pub mod Steps
pub mod Histories
pub mod Runs
pub mod Endings
pub mod Deliveries
pub mod Tests
use low_level_design_in_go.Base.{
  ℕ, zero, suc, ◌+◌, String, str_eq, Bool, true, false, not, ◌&&◌, ◌||◌, Option, none, some, List,
  [], ◌∷◌, ◌++◌, map, ltb, ◌==◌, if◌then◌else◌, length, set,
}
use low_level_design_in_go.Base.Run.{Run, ok, panic, ◌>>=◌, index}

pub record Message : Type 0 where
  pub id : String
  pub data_ : String

-- A channel of Go with its buffer, and whether it is closed.
pub record Channel : Type 0 where
  pub buffer : List Message
  pub is_closed : Bool

abbrev pub buffer_size : ℕ
buffer_size = 1000

-- `select { case ch <- msg: default: }`. A send on a closed channel panics.
unfoldable pub try_send : Channel → Message → Run Channel
try_send ch msg =
    if ch.is_closed
    then panic
    else if ltb (length ch.buffer) buffer_size
    then ok (record ch { buffer = ch.buffer ++ msg ∷ [] })
    else ok ch

-- `close(ch)`, which panics on a closed channel.
unfoldable pub close : Channel → Run Channel
close ch = if ch.is_closed then panic else ok (record ch { is_closed = true })

pub record Subscriber : Type 0 where
  pub topic : String
  pub ch : Channel
  pub closed : Bool

unfoldable pub new_subscriber : String → Subscriber
new_subscriber topic = record {
  topic = topic;
  ch = record { buffer = []; is_closed = false };
  closed = false;
}

pub data Error : Type 0 where
  broker_shutdown no_topic not_in_topic : Error

-- The topics with their sets of subscribers, an entry for each topic.
abbrev pub Topics : Type 0
Topics = List (String × List ℕ)

pub record PubSubBroker : Type 0 where
  pub subscribers : List Subscriber
  pub topics : Topics
  pub shutdown : Bool

unfoldable pub new_pub_sub_broker : PubSubBroker
new_pub_sub_broker = record { subscribers = []; topics = []; shutdown = false }

unfoldable pub lookup : String → Topics → Option (List ℕ)
lookup topic [] = none
lookup topic ((t, subs) ∷ rest) =
    let later = lookup topic rest in if str_eq topic t then some subs else later

-- `topics[topic] = subs`
unfoldable pub store : String → List ℕ → Topics → Topics
store topic subs [] = (topic, subs) ∷ []
store topic subs ((t, old) ∷ rest) =
    let later = store topic subs rest in
    if str_eq topic t then (t, subs) ∷ rest else (t, old) ∷ later

-- `delete(topics, topic)`
unfoldable pub remove : String → Topics → Topics
remove topic [] = []
remove topic ((t, subs) ∷ rest) =
    let later = remove topic rest in if str_eq topic t then rest else (t, subs) ∷ later

unfoldable pub is_member : ℕ → List ℕ → Bool
is_member sub [] = false
is_member sub (s ∷ rest) = sub == s || is_member sub rest

-- `delete(subscribers, sub)`
unfoldable pub remove_member : ℕ → List ℕ → List ℕ
remove_member sub [] = []
remove_member sub (s ∷ rest) =
    let later = remove_member sub rest in if sub == s then later else s ∷ later

-- What is left to do with one subscriber.
pub data Task : Type 0 where
  deliver : Message → ℕ → Task
  closes : ℕ → Task

-- The body of the last loop of Publish, under the subscriber's mutex.
unfoldable pub deliver_message : PubSubBroker → Message → ℕ → Run PubSubBroker
unfolding try_send
deliver_message b msg i = index b.subscribers i >>= λ consumer.
    let sent = try_send consumer.ch msg >>= λ ch.
    ok (record b { subscribers = set b.subscribers i (record consumer { ch = ch }) }) in
    if not consumer.closed then sent else ok b

-- The end of Unsubscribe, and the body of the last loop of Shutdown, under the subscriber's mutex.
unfoldable pub close_subscriber : PubSubBroker → ℕ → Run PubSubBroker
unfolding close
close_subscriber b i = index b.subscribers i >>= λ sub.
    let shut = close sub.ch >>= λ ch.
    ok (record b { subscribers = set b.subscribers i (record sub { ch = ch; closed = true }) }) in
    if not sub.closed then shut else ok b

unfoldable pub run_task : PubSubBroker → Task → Run PubSubBroker
unfolding deliver_message close_subscriber
run_task b (deliver msg i) = deliver_message b msg i
run_task b (closes i) = close_subscriber b i

abbrev pub members : Option (List ℕ) → List ℕ
members none = []
members (some subs) = subs

-- Publish, up to the deliveries.
unfoldable pub publish : PubSubBroker → String → Message → List Task × Option Error
unfolding lookup
publish b topic msg =
    if b.shutdown
    then ([], some broker_shutdown)
    else (map (deliver msg) (members (lookup topic b.topics)), none)

-- Subscribe, with the place of the new subscriber.
unfoldable pub subscribe : PubSubBroker → String → PubSubBroker × Option ℕ × Option Error
unfolding lookup store new_subscriber
subscribe b topic =
    let sub = length b.subscribers in
    if b.shutdown then (b, none, some broker_shutdown) else (
      record b {
        subscribers = b.subscribers ++ new_subscriber topic ∷ [];
        topics = store topic (sub ∷ members (lookup topic b.topics)) b.topics;
      },
      some sub,
      none,
    )

-- Unsubscribe, up to the closing of the subscriber's channel.
unfoldable pub unsubscribe : PubSubBroker → String → ℕ → PubSubBroker × List Task × Option Error
unfolding lookup store remove is_member remove_member
unsubscribe b topic sub = elim (lookup topic b.topics) [
  | none ↦ (b, [], some no_topic)
  | some subscribers ↦
      let left = remove_member sub subscribers in
      if not (is_member sub subscribers)
      then (b, [], some not_in_topic)
      else if length left == 0
      then (record b { topics = remove topic b.topics }, closes sub ∷ [], none)
      else (record b { topics = store topic left b.topics }, closes sub ∷ [], none)
]

-- All subscribers of all topics.
unfoldable pub all_members : Topics → List ℕ
all_members [] = []
all_members ((t, subs) ∷ rest) = subs ++ all_members rest

-- Shutdown, up to the closing of the channels.
unfoldable pub shutdown_broker : PubSubBroker → PubSubBroker × List Task
unfolding all_members
shutdown_broker b =
    if b.shutdown
    then (b, [])
    else (record b { shutdown = true; topics = [] }, map closes (all_members b.topics))
