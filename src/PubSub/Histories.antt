-- ===== src/PubSub/Histories.antt =====
-- Every interleaving of the calls of PubSub/main.go and of the tasks that they leave.
use low_level_design_in_go.Base.{
  ℕ, zero, suc, ◌+◌, ◌≤◌, ◌<◌, ◌≡◌, refl, String, str_eq, true, Option, List, [], ◌∷◌, ◌++◌, map,
  ◌==◌, if_cases, Bool-cases, inl, inr, length, length-append, get_or, All, All-append, All-map,
  arith,
}
use low_level_design_in_go.Base.Run.{ok, Returns, returns}
use low_level_design_in_go.PubSub.{
  Message, new_subscriber, Error, Topics, PubSubBroker, lookup, store, remove, is_member,
  remove_member, Task, deliver, members, publish, subscribe, all_members,
}
use low_level_design_in_go.PubSub.Steps.{
  publishes, subscribes, System, take_step, IsSound, subject, IsValid, no_subscriber, Later,
  Later-refl,
}

-- Topics that name subscribers below `n` only.
abbrev pub Listed : ℕ → Topics → Type 0
Listed n topics = All (λ (t, subs). All (λ i. i < n) subs) topics

module _ (n : ℕ) where
  pub lookup-Listed :
      (topic : String) (topics : Topics)
      → Listed n topics
      → All (λ i. i < n) (members (lookup topic topics))
  unfolding lookup
  lookup-Listed topic [] listed = tt
  lookup-Listed topic ((t, subs) ∷ rest) listed =
      if_cases (λ o. All (λ i. i < n) (members o)) (str_eq topic t) (λ _. listed.0)
        (λ _. lookup-Listed topic rest listed.1)

  pub store-Listed :
      (topic : String) (subs : List ℕ) (topics : Topics)
      → All (λ i. i < n) subs
      → Listed n topics
      → Listed n (store topic subs topics)
  unfolding store
  store-Listed topic subs [] all listed = (all, tt)
  store-Listed topic subs ((t, old) ∷ rest) all listed =
      if_cases (Listed n) (str_eq topic t) (λ _. (all, listed.1))
        (λ _. (listed.0, store-Listed topic subs rest all listed.1))

  pub remove-Listed :
      (topic : String) (topics : Topics) → Listed n topics → Listed n (remove topic topics)
  unfolding remove
  remove-Listed topic [] listed = tt
  remove-Listed topic ((t, subs) ∷ rest) listed =
      if_cases (Listed n) (str_eq topic t) (λ _. listed.1)
        (λ _. (listed.0, remove-Listed topic rest listed.1))

  pub remove_member-All :
      (sub : ℕ) (subs : List ℕ) → All (λ i. i < n) subs → All (λ i. i < n) (remove_member sub subs)
  unfolding remove_member
  remove_member-All sub [] all = tt
  remove_member-All sub (s ∷ rest) all =
      if_cases (All (λ i. i < n)) (sub == s) (λ _. remove_member-All sub rest all.1)
        (λ _. (all.0, remove_member-All sub rest all.1))

  pub is_member-below :
      (sub : ℕ) (subs : List ℕ) → All (λ i. i < n) subs → is_member sub subs ≡ true → sub < n
  unfolding is_member
  is_member-below sub [] all e = absurd (ground (arith, e))
  is_member-below sub (s ∷ rest) all e = elim (Bool-cases (sub == s)) [
    | inl same ↦ ground (arith, all.0)
    | inr differs ↦ is_member-below sub rest all.1 (ground (arith, e, differs))
  ]

  pub all_members-All : (topics : Topics) → Listed n topics → All (λ i. i < n) (all_members topics)
  unfolding all_members
  all_members-All [] listed = tt
  all_members-All ((t, subs) ∷ rest) listed =
      All-append _ subs (all_members rest) listed.0 (all_members-All rest listed.1)

  pub tasks-All :
      (f : ℕ → Task) (subs : List ℕ)
      → ((i : ℕ) → subject (f i) ≡ i)
      → All (λ i. i < n) subs
      → All (λ t. subject t < n) (map f subs)
  tasks-All f [] e all = tt
  tasks-All f (s ∷ rest) e all = (rw (e s) all.0, tasks-All f rest e all.1)

Listed-more : (m n : ℕ) (topics : Topics) → m ≤ n → Listed m topics → Listed n topics
Listed-more m n topics le listed =
    All-map _ _ (λ (t, subs) all. All-map _ _ (λ i low. omega arith) subs all) topics listed

-- After a step: still valid, and later than before.
abbrev pub Advanced : System → System → Type 0
Advanced s s' = IsValid s' × Later s.broker s'.broker

pub publishes-Advanced :
    (s : System) (topic : String) (msg : Message)
    → IsValid s
    → Returns (Advanced s) (take_step s (publishes topic msg))
unfolding take_step publish
publishes-Advanced s topic msg v =
    if_cases
      (λ (r : List Task × Option Error).
        Returns (Advanced s) (ok (record s { tasks = s.tasks ++ r.0 })))
      s.broker.shutdown (λ _. returns (valid [] tt, Later-refl refl))
      (λ _. returns (
        valid _ (
            tasks-All (length s.broker.subscribers) (deliver msg) _ (λ i. refl)
              (lookup-Listed (length s.broker.subscribers) topic s.broker.topics v.listed)),
        Later-refl refl,
      ))
  where
    valid :
        (ts : List Task)
        → All (λ t. subject t < length s.broker.subscribers) ts
        → IsValid (record s { tasks = s.tasks ++ ts })
    valid ts all = record {
      sound = v.sound;
      listed = v.listed;
      pending = All-append _ s.tasks ts v.pending all;
    }

new-IsSound : (topic : String) → IsSound (new_subscriber topic)
unfolding new_subscriber
new-IsSound topic = record { flag = refl; room = omega arith }

get_or-append :
    (xs ys : List _) (i : ℕ)
    → i < length xs
    → get_or (xs ++ ys) i no_subscriber ≡ get_or xs i no_subscriber
get_or-append [] ys i low = elim low [ ]
get_or-append (x ∷ xs) ys zero low = refl
get_or-append (x ∷ xs) ys (suc i) low = get_or-append xs ys i (omega arith)

pub subscribes-Advanced :
    (s : System) (topic : String)
    → IsValid s
    → Returns (Advanced s) (take_step s (subscribes topic))
unfolding take_step subscribe
subscribes-Advanced s topic v =
    if_cases
      (λ (r : PubSubBroker × Option ℕ × Option Error).
        Returns (Advanced s) (ok (record s { broker = r.0 })))
      s.broker.shutdown (λ _. returns (v, Later-refl refl))
      (λ _. returns (
        record {
          sound = All-append IsSound s.broker.subscribers _ v.sound (new-IsSound topic, tt);
          listed =
              store-Listed (length (s.broker.subscribers ++ new_subscriber topic ∷ [])) topic _
                s.broker.topics
                (
                  omega (arith, size),
                  All-map _ _ (λ i low. omega (arith, size)) _
                      (lookup-Listed (length s.broker.subscribers) topic s.broker.topics v.listed),
                )
                (Listed-more (length s.broker.subscribers) _ s.broker.topics (omega (arith, size))
                  v.listed);
          pending = All-map _ _ (λ t low. omega (arith, size)) s.tasks v.pending;
        },
        record {
          more = omega (arith, size);
          kept = λ i low _. get_or-append s.broker.subscribers _ i low;
        },
      ))
  where
    size :
        length (s.broker.subscribers ++ new_subscriber topic ∷ []) ≡ length s.broker.subscribers + 1
    size = omega (arith, length-append s.broker.subscribers (new_subscriber topic ∷ []))
