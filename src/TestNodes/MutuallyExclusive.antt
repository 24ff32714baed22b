-- ===== src/TestNodes/MutuallyExclusive.antt =====
-- MuExWorker in test_nodes.cpp: one node, hence one mutually exclusive group, with the workers of the
-- chains 3 and 4.
use deadline_driven_enhancem.Base.{
  ℕ, ◌≡◌, true, false, Option, some, List, [], ◌∷◌, ◌++◌, ltb, if◌then◌else◌, get_elem?, arith,
}
use deadline_driven_enhancem.TestNodes.{
  Text, head_topic, chain_topic, Log, Effect, nothing, publishes, Clock, completed, DummyWorker,
  dummy_worker, topic_callback,
}

pub record MuExWorker : Type 0 where
  pub subscription_chain3 : List Text
  pub subscription_chain4 : List Text
  pub publisher_chain3 : List Text
  pub publisher_chain4 : List Text
  pub log : Log

-- The constructor.
unfoldable pub muex_worker : MuExWorker
muex_worker = record {
  subscription_chain3 = head_topic 3 ∷ chain_topic 3 2 ∷ [];
  subscription_chain4 = head_topic 4 ∷ chain_topic 4 2 ∷ chain_topic 4 3 ∷ [];
  publisher_chain3 = chain_topic 3 2 ∷ chain_topic 3 3 ∷ [];
  publisher_chain4 = chain_topic 4 2 ∷ chain_topic 4 3 ∷ chain_topic 4 4 ∷ [];
  log = [];
}

-- The two checks of the end time, and what follows them. The publisher, if there is one at its
-- index, is the topic that the effect goes to.
unfoldable pub in_time : ℕ → Clock → MuExWorker × Effect → MuExWorker → MuExWorker × Effect
in_time ed_time clock done w =
    if ltb ed_time clock.first
    then (w, nothing)
    else if ltb ed_time clock.second
    then (w, nothing)
    else done

-- The worker with the completion of a chain in its log.
unfoldable pub complete : ℕ → Clock → MuExWorker → MuExWorker
complete chain clock w = record w {
  log = w.log ++ ((completed chain clock.third, clock.microseconds) ∷ []);
}

unfoldable pub topic_callback31 :
    ℕ → Clock → Text → MuExWorker → (MuExWorker × Effect) × Option Text
unfolding in_time
topic_callback31 ed_time clock message w =
    (in_time ed_time clock (w, publishes message) w, get_elem? w.publisher_chain3 0)

unfoldable pub topic_callback32 :
    ℕ → Clock → Text → MuExWorker → (MuExWorker × Effect) × Option Text
unfolding in_time complete
topic_callback32 ed_time clock message w = (
  in_time ed_time clock (complete 3 clock w, publishes message) w,
  get_elem? w.publisher_chain3 1,
)

unfoldable pub topic_callback41 :
    ℕ → Clock → Text → MuExWorker → (MuExWorker × Effect) × Option Text
unfolding in_time
topic_callback41 ed_time clock message w =
    (in_time ed_time clock (w, publishes message) w, get_elem? w.publisher_chain4 0)

unfoldable pub topic_callback42 :
    ℕ → Clock → Text → MuExWorker → (MuExWorker × Effect) × Option Text
unfolding in_time
topic_callback42 ed_time clock message w =
    (in_time ed_time clock (w, publishes message) w, get_elem? w.publisher_chain4 1)

unfoldable pub topic_callback43 :
    ℕ → Clock → Text → MuExWorker → (MuExWorker × Effect) × Option Text
unfolding in_time complete
topic_callback43 ed_time clock message w = (
  in_time ed_time clock (complete 4 clock w, publishes message) w,
  get_elem? w.publisher_chain4 2,
)

-- The five callbacks.
pub data Member : Type 0 where
  member31 member32 member41 member42 member43 : Member

-- The callback that is bound to a member's subscription, and the subscription.
unfoldable pub callback :
    Member → ℕ → Clock → Text → MuExWorker → (MuExWorker × Effect) × Option Text
unfolding topic_callback31 topic_callback32 topic_callback41 topic_callback42 topic_callback43
callback member31 = topic_callback31
callback member32 = topic_callback32
callback member41 = topic_callback41
callback member42 = topic_callback42
callback member43 = topic_callback43

unfoldable pub subscription_of : Member → MuExWorker → Option Text
subscription_of member31 w = get_elem? w.subscription_chain3 0
subscription_of member32 w = get_elem? w.subscription_chain3 1
subscription_of member41 w = get_elem? w.subscription_chain4 0
subscription_of member42 w = get_elem? w.subscription_chain4 1
subscription_of member43 w = get_elem? w.subscription_chain4 2

-- The worker of its own that does the same.
abbrev pub alone : Member → DummyWorker
unfolding dummy_worker
alone member31 = dummy_worker 3 1 false false
alone member32 = dummy_worker 3 2 false true
alone member41 = dummy_worker 4 1 false false
alone member42 = dummy_worker 4 2 false false
alone member43 = dummy_worker 4 3 false true

-- Each callback of a MuExWorker does what the callback of a DummyWorker of its own does: the same
-- subscription and, with the log and the end time of the MuExWorker, the same topic and effect, and
-- the same log afterwards.
pub callback-alone :
    (m : Member) (ed_time : ℕ) (clock : Clock) (message : Text) (log : Log)
    → let w = record muex_worker { log = log } in
      let (after, effect) = (callback m ed_time clock message w).0 in
      let (d, expected) = topic_callback ed_time clock message (record (alone m) { log = log }) in
      (subscription_of m w ≡ some d.subscription_topic)
      × ((callback m ed_time clock message w).1 ≡ some d.publisher_topic)
      × (effect ≡ expected)
      × (after.log ≡ d.log)
      × (record after { log = log } ≡ w)
unfolding callback subscription_of topic_callback dummy_worker muex_worker in_time complete
callback-alone member31 ed_time clock message log = ground arith
callback-alone member32 ed_time clock message log = ground arith
callback-alone member41 ed_time clock message log = ground arith
callback-alone member42 ed_time clock message log = ground arith
callback-alone member43 ed_time clock message log = ground arith
