-- ===== src/TestNodes/Relay.antt =====
-- The way of a message along a chain of the nodes in test_nodes.cpp: the publisher sends it, and
-- each worker hands on what it receives.
use deadline_driven_enhancem.Base.{
  ℕ, ◌≡◌, refl, ap, inl, inr, Bool, true, false, not, ◌&&◌, none, some, List, [], ◌∷◌, ◌++◌, ltb,
  arith, if◌then◌else◌, map, Bool-cases,
}
use deadline_driven_enhancem.TestNodes.{
  Text, bytes, to_string, Log, Effect, nothing, publishes, Clock, PublisherNode, timer_callback,
  DummyWorker, topic_callback, completed,
}

-- The workers of a chain, each with the clock readings of its callback: a worker runs when the one
-- before it has published.
abbrev pub hand_on : ℕ → List (Clock × DummyWorker) → Effect → List DummyWorker × Effect
hand_on end_time [] e = ([], e)
hand_on end_time ((clock, w) ∷ ws) e = elim e.published [
  | none ↦ (w ∷ map (λ r. r.1) ws, e)
  | some message ↦
      let (w', e') = topic_callback end_time clock message w in
      let (ws', last) = hand_on end_time ws e' in (w' ∷ ws', last)
]

-- The callback starts its work and ends it by the end time.
abbrev pub is_in_time : ℕ → ℕ → ℕ → Bool
is_in_time end_time started done = not (ltb end_time started) && not (ltb end_time done)

abbrev pub all_in_time : ℕ → List (Clock × DummyWorker) → Bool
all_in_time end_time [] = true
all_in_time end_time ((clock, w) ∷ ws) =
    is_in_time end_time clock.first clock.second && all_in_time end_time ws

-- The worker's log when the message has passed it.
abbrev pub logged : Clock × DummyWorker → Log
logged (clock, w) =
    if w.is_last_in_chain
    then w.log ++ ((completed w.chain clock.third, clock.microseconds) ∷ [])
    else w.log

module _ (end_time : ℕ) where
  worker_in_time :
      (clock : Clock) (message : Text) (w : DummyWorker)
      → is_in_time end_time clock.first clock.second ≡ true
      → ((topic_callback end_time clock message w).0.log ≡ logged (clock, w))
        × ((topic_callback end_time clock message w).1 ≡ publishes message)
  unfolding topic_callback
  worker_in_time clock message w h = ground arith

  worker_late :
      (clock : Clock) (message : Text) (w : DummyWorker)
      → is_in_time end_time clock.first clock.second ≡ false
      → topic_callback end_time clock message w ≡ (w, nothing)
  unfolding topic_callback
  worker_late clock message w h = ground arith

  stopped :
      (ws : List (Clock × DummyWorker)) → hand_on end_time ws nothing ≡ (map (λ r. r.1) ws, nothing)
  stopped [] = refl
  stopped ((clock, w) ∷ ws) = refl

  -- The end of a chain gets the message just where every worker is in time; then each log has what
  -- the message left.
  handed_on :
      (ws : List (Clock × DummyWorker)) (message : Text)
      → ((hand_on end_time ws (publishes message)).1
          ≡ (if all_in_time end_time ws then publishes message else nothing))
        × (all_in_time end_time ws ≡ true
            → map (λ w. w.log) (hand_on end_time ws (publishes message)).0 ≡ map logged ws)
  handed_on [] message = (refl, λ h. refl)
  handed_on ((clock, w) ∷ ws) message =
      elim (Bool-cases (is_in_time end_time clock.first clock.second)) [
        | inl h ↦
            let (logs, effect) = worker_in_time clock message w h in
            let (ends, all) = handed_on ws message in
            (
              rw (effect, h) ends,
              λ rest.
                  rw (effect, logs) (ap (◌∷◌ (logged (clock, w))) (all (ground (arith, rest, h)))),
            )
        | inr h ↦ (rw (worker_late clock message w h, stopped ws, h) refl, λ rest. cc (rest, h))
      ]

  publisher_effect :
      (clock : Clock) (trigger : ℕ) (p : PublisherNode)
      → (timer_callback end_time clock trigger p).1 ≡ (
          if is_in_time end_time clock.second clock.third
          then publishes (bytes "MESSAGE" ++ to_string p.count)
          else nothing)
  unfolding timer_callback
  publisher_effect clock trigger p = ground arith

  -- A round of a chain: the publisher's timer callback, and each worker's callback when the one
  -- before it has published. The last worker publishes the publisher's message unchanged if every
  -- callback starts and ends its work by the end time; otherwise it gets nothing, and rclcpp is
  -- shut down. In the first case, the workers that are the last of a chain, and no others, have
  -- logged the completion at the time of their third clock reading.
  pub chain_message :
      (clock : Clock) (trigger : ℕ) (p : PublisherNode) (ws : List (Clock × DummyWorker))
      → let end = hand_on end_time ws (timer_callback end_time clock trigger p).1 in
        let good = is_in_time end_time clock.second clock.third && all_in_time end_time ws in
        (end.1 ≡ (if good then publishes (bytes "MESSAGE" ++ to_string p.count) else nothing))
        × (good ≡ true → map (λ w. w.log) end.0 ≡ map logged ws)
  chain_message clock trigger p ws =
      elim (Bool-cases (is_in_time end_time clock.second clock.third)) [
        | inl h ↦
            rw (publisher_effect clock trigger p, h)
              (handed_on ws (bytes "MESSAGE" ++ to_string p.count))
        | inr h ↦ rw (publisher_effect clock trigger p, h, stopped ws) (refl, λ k. cc)
      ]
