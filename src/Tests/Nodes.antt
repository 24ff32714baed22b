-- ===== src/Tests/Nodes.antt =====
-- Tests of the nodes of the experiments and of the default executor.
use deadline_driven_enhancem.Base.{
  none, ◌*◌, ◌≡◌, refl, true, false, ◌&&◌, some, List, [], ◌∷◌, ◌++◌, map, if◌then◌else◌,
}
use deadline_driven_enhancem.Graph.{empty_executable}
use deadline_driven_enhancem.DefaultExecutor.{
  Answer, over, found, Times, DefaultExecutor, create_logger, default_spin, Until,
}
use deadline_driven_enhancem.DefaultExecutor.Releases.{
  runs, ends, all_timers, release_entries, appended, default_spin_lem,
}
use deadline_driven_enhancem.Tests.{head}
use deadline_driven_enhancem.TestNodes.{
  bytes, to_string, head_topic, nothing, publishes, Clock, publisher_node, timer_callback,
  DummyWorker, dummy_worker, topic_callback,
}
use deadline_driven_enhancem.TestNodes.Relay.{
  hand_on, is_in_time, all_in_time, logged, chain_message,
}
use deadline_driven_enhancem.TestNodes.MutuallyExclusive.{
  muex_worker, callback, subscription_of, member32, alone, callback-alone,
}

printed : to_string 1905 ≡ bytes "1905"
unfolding to_string
printed = refl

topic : (dummy_worker 12 3 false true).subscription_topic ≡ bytes "chain_12_topic_3"
unfolding dummy_worker
topic = refl

-- Readings in time, until 100.
abbrev clock : Clock
clock = record { first = 10; second = 20; third = 21; microseconds = 21500 }

abbrev workers : List (Clock × DummyWorker)
workers = (clock, dummy_worker 0 1 false false) ∷ (clock, dummy_worker 0 2 false true) ∷ []

chain_message_example :
    let end =
      hand_on 100 workers (timer_callback 100 clock 5 (publisher_node (head_topic 0) 0)).1 in
    let good = is_in_time 100 20 21 && all_in_time 100 workers in
    (end.1 ≡ (
      if good
      then publishes (bytes "MESSAGE" ++ to_string (publisher_node (head_topic 0) 0).count)
      else nothing))
    × (good ≡ true → map (λ w. w.log) end.0 ≡ map logged workers)
chain_message_example = chain_message 100 clock 5 (publisher_node (head_topic 0) 0) workers

callback-alone_example :
    let w = record muex_worker { log = [] } in
    let (after, effect) = (callback member32 100 clock (bytes "MESSAGE7") w).0 in
    let (d, expected) =
      topic_callback 100 clock (bytes "MESSAGE7") (record (alone member32) { log = [] }) in
    (subscription_of member32 w ≡ some d.subscription_topic)
    × ((callback member32 100 clock (bytes "MESSAGE7") w).1 ≡ some d.publisher_topic)
    × (effect ≡ expected)
    × (after.log ≡ d.log)
    × (record after { log = [] } ≡ w)
callback-alone_example = callback-alone member32 100 clock (bytes "MESSAGE7") []

-- An executor with settings for the timer 7 of handle 70, and a round in which it is found.
abbrev default_executor : DefaultExecutor
default_executor = record {
  priority_map = (70, record head { timer_handle = some 7; chain_id = 2 }) ∷ [];
  spinning = false;
  recorded_times = create_logger;
  executed = [];
}

abbrev rounds : List (Answer × Times)
rounds =
    (Answer.idle, record { millis = 10; trigger = λ t. Until.ahead 3; microseconds = 10500 })
    ∷ (
      found (record empty_executable { timer = some 7 }),
      record { millis = 12; trigger = λ t. Until.overdue 1; microseconds = 12500 },
    )
    ∷ (over, record { millis = 14; trigger = λ t. Until.ahead 1; microseconds = 14500 })
    ∷ []

default_spin_lem_example : default_spin (λ t. 10 * t) rounds default_executor ≡ (
    if all_timers (λ t. 10 * t) default_executor.priority_map (runs rounds)
    then some (
      record default_executor {
        spinning = false;
        recorded_times =
            appended default_executor.recorded_times
              (release_entries (λ t. 10 * t) default_executor.priority_map (runs rounds));
        executed = default_executor.executed ++ map (λ p. p.1) (runs rounds);
      },
      ends rounds,
    )
    else none)
default_spin_lem_example = default_spin_lem (λ t. 10 * t) rounds default_executor refl
