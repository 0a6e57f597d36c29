-- ===== src/PubSub/Deliveries.antt =====
-- Publish of PubSub/main.go with its deliveries, when nothing comes between.
use low_level_design_in_go.Base.{
  ℕ, ◌<◌, ◌≡◌, refl, sym, ap, subst, ◌∙◌, String, Bool, true, false, not, ◌||◌, List, [], ◌∷◌, ◌++◌,
  map, ltb, ◌==◌, if◌then◌else◌, Bool-cases, inl, inr, length, get_or-set, All, All-map, arith,
}
use low_level_design_in_go.Base.Run.{
  ok, index-get_or, Returns, returns, Returns-map, Returns-bind, Returns-if,
}
use low_level_design_in_go.PubSub.{
  Message, Channel, buffer_size, try_send, Subscriber, PubSubBroker, lookup, is_member, deliver,
  deliver_message, run_task, members, publish,
}
use low_level_design_in_go.PubSub.Steps.{
  IsSound, sub_at, no_subscriber, run_task-Ran, All-get_or, not-false,
}
use low_level_design_in_go.PubSub.Histories.{Listed, lookup-Listed}
use low_level_design_in_go.PubSub.Runs.{run_tasks}
use low_level_design_in_go.PubSub.Endings.{both}

-- The subscriber after a delivery: an open one gets the message at the end of its buffer, if that
-- has room.
abbrev pub filled : Message → Subscriber → Subscriber
filled msg s = record s {
  ch = record s.ch {
    buffer = if ltb (length s.ch.buffer) buffer_size then s.ch.buffer ++ msg ∷ [] else s.ch.buffer;
  };
}

abbrev pub received : Message → Subscriber → Subscriber
received msg s = if s.closed then s else filled msg s

try_send-open :
    (ch : Channel) (msg : Message)
    → ch.is_closed ≡ false
    → try_send ch msg
      ≡ ok (record ch {
        buffer = if ltb (length ch.buffer) buffer_size then ch.buffer ++ msg ∷ [] else ch.buffer;
      })
unfolding try_send
try_send-open ch msg still = ground (arith, still)

else_branch : {A : Type 0} (x y : A) (c : Bool) → c ≡ false → y ≡ (if c then x else y)
else_branch x y true e = absurd (ground (arith, e))
else_branch x y false e = refl

then_branch : {A : Type 0} (x y : A) (c : Bool) → not c ≡ false → x ≡ (if c then x else y)
then_branch x y true e = refl
then_branch x y false e = absurd (ground (arith, e))

-- One delivery reaches subscriber `i`, and nobody else.
abbrev Reached : PubSubBroker → Message → ℕ → PubSubBroker → Type 0
Reached b msg i b' =
    (j : ℕ) → sub_at b' j ≡ (if i == j then received msg (sub_at b j) else sub_at b j)

deliver-Reached :
    (b : PubSubBroker) (msg : Message) (i : ℕ)
    → All IsSound b.subscribers
    → i < length b.subscribers
    → Returns (Reached b msg i) (run_task b (deliver msg i))
unfolding run_task deliver_message
deliver-Reached b msg i all low =
    let s = All-get_or IsSound b.subscribers i no_subscriber all low in
    rw (index-get_or b.subscribers i no_subscriber low) (
      Returns-if (not (sub_at b i).closed)
        (λ test.
          let still = not-false (sub_at b i).closed test in
          rw (try_send-open (sub_at b i).ch msg (sym s.flag ∙ still)) (
            returns λ j.
              get_or-set b.subscribers i j _ no_subscriber low ∙ elim (Bool-cases (i == j)) [
                | inl same ↦ rw same (
                    subst (λ k. filled msg (sub_at b i) ≡ received msg (sub_at b k))
                      (equal i j same)
                      (else_branch (sub_at b i) (filled msg (sub_at b i)) (sub_at b i).closed
                        still))
                | inr differ ↦ rw differ
              ]))
        (λ gone. returns λ j. elim (Bool-cases (i == j)) [
          | inl same ↦ rw same (
              subst (λ k. sub_at b k ≡ received msg (sub_at b k)) (equal i j same)
                (then_branch (sub_at b i) (filled msg (sub_at b i)) (sub_at b i).closed gone))
          | inr differ ↦ rw differ
        ]))
  where
    equal : (i j : ℕ) → (i == j) ≡ true → i ≡ j
    equal i j e = ground arith

-- No subscriber stands twice in the list.
abbrev pub NoRepeat : List ℕ → Type 0
NoRepeat [] = Unit
NoRepeat (i ∷ rest) = (is_member i rest ≡ false) × NoRepeat rest

deliver_all :
    (b : PubSubBroker) (msg : Message) (subs : List ℕ)
    → All IsSound b.subscribers
    → All (λ i. i < length b.subscribers) subs
    → NoRepeat subs
    → Returns
        (λ b'.
          (j : ℕ)
          → sub_at b' j ≡ (if is_member j subs then received msg (sub_at b j) else sub_at b j))
        (run_tasks b (map (deliver msg) subs))
unfolding run_tasks is_member
deliver_all b msg [] sound all once = returns λ j. refl
deliver_all b msg (i ∷ subs) sound all (once, later) =
    Returns-bind
      (both _ _ _ (run_task-Ran b (deliver msg i) sound all.0)
        (deliver-Reached b msg i sound all.0))
      λ b' (ran, reached).
        Returns-map
          (deliver_all b' msg subs ran.sound
            (All-map _ _ (λ j low. subst (λ n. j < n) (sym ran.count) low) subs all.1) later)
          λ b'' rest j. rest j ∙ combine j (sub_at b' j) (reached j)
  where
    combine :
        (j : ℕ) (s : Subscriber)
        → s ≡ (if i == j then received msg (sub_at b j) else sub_at b j)
        → (if is_member j subs then received msg s else s)
          ≡ (if j == i || is_member j subs then received msg (sub_at b j) else sub_at b j)
    combine j s e = elim (Bool-cases (j == i)) [
      | inl same ↦
          let at : j ≡ i = ground arith in
          let out : is_member j subs ≡ false =
            subst (λ k. is_member k subs ≡ false) (sym at) once in
          let flipped : (i == j) ≡ true = ground arith in rw (same, out) (e ∙ rw flipped refl)
      | inr differ ↦
          let flipped : (i == j) ≡ false = ground arith in
          let kept : s ≡ sub_at b j = e ∙ rw flipped refl in
          rw differ (ap (λ t. if is_member j subs then received msg t else t) kept)
    ]

publish-running :
    (b : PubSubBroker) (topic : String) (msg : Message)
    → b.shutdown ≡ false
    → (publish b topic msg).0 ≡ map (deliver msg) (members (lookup topic b.topics))
unfolding publish
publish-running b topic msg running = rw running refl

-- On a broker that is not shut down, with sound subscribers and topics that name existing ones, and
-- where no subscriber stands twice in the topic, Publish with its deliveries, when nothing comes
-- between, returns: every open subscriber of the topic has the message once more at the end of its
-- buffer if that had room, and every other subscriber is as it was.
pub publish-received :
    (b : PubSubBroker) (topic : String) (msg : Message)
    → All IsSound b.subscribers
    → Listed (length b.subscribers) b.topics
    → NoRepeat (members (lookup topic b.topics))
    → b.shutdown ≡ false
    → Returns
        (λ b'.
          (j : ℕ)
          → sub_at b' j ≡ (
              if is_member j (members (lookup topic b.topics))
              then received msg (sub_at b j)
              else sub_at b j))
        (run_tasks b (publish b topic msg).0)
publish-received b topic msg sound listed once running =
    subst
      (λ tasks.
        Returns
          (λ b'.
            (j : ℕ)
            → sub_at b' j ≡ (
                if is_member j (members (lookup topic b.topics))
                then received msg (sub_at b j)
                else sub_at b j))
          (run_tasks b tasks))
      (sym (publish-running b topic msg running))
      (deliver_all b msg (members (lookup topic b.topics)) sound
        (lookup-Listed (length b.subscribers) topic b.topics listed) once)
