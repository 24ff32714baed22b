-- ===== src/TestNodes.antt =====
-- The nodes of the experiments: PublisherNode, DummyWorker and MuExWorker in
-- source_code/src/priority_executor/src/test_nodes.cpp. A text is the list of its bytes. What a
-- callback publishes, whether it shuts rclcpp down, and its clock readings in the order of the
-- reads are values; nth_prime_silly only takes time. Chains and numbers are not negative.
pub mod Decimal
pub mod Topics
pub mod Relay
pub mod MutuallyExclusive
use Prim.Native.Char.{code}
use Prim.Native.String.{String}
use deadline_driven_enhancem.Base.{
  ℕ, zero, suc, ◌+◌, ◌-◌, ◌/◌, ◌%◌, ◌^◌, Bool, true, false, Option, none, some, List, [], ◌∷◌, ◌++◌,
  ltb, ◌==◌, if◌then◌else◌,
}

abbrev pub Text : Type 0
Text = List ℕ

abbrev pub bytes : String → Text
bytes String.[] = []
bytes (String.◌∷◌ c s) = code c ∷ bytes s

-- The decimal digits of a number below `10 ^ fuel`.
unfoldable pub digits : ℕ → ℕ → Text
digits zero n = []
digits (suc fuel) n =
    let front = digits fuel (n / 10) in
    if ltb n 10 then (b'0' + n) ∷ [] else front ++ ((b'0' + n % 10) ∷ [])

-- std::to_string
unfoldable pub to_string : ℕ → Text
unfolding digits
to_string n = digits (suc n) n

-- "topic_<chain>"
unfoldable pub head_topic : ℕ → Text
unfolding to_string
head_topic chain = bytes "topic_" ++ to_string chain

-- "chain_<chain>_topic_<number>"
unfoldable pub chain_topic : ℕ → ℕ → Text
unfolding to_string
chain_topic chain number =
    bytes "chain_" ++ (to_string chain ++ (bytes "_topic_" ++ to_string number))

-- The log of a node: a text with the time in microseconds.
abbrev pub Log : Type 0
Log = List (Text × ℕ)

-- What a callback does: the message that it publishes, and whether it calls rclcpp::shutdown.
pub record Effect : Type 0 where
  pub published : Option Text
  pub shutdown : Bool

abbrev pub nothing : Effect
nothing = record { published = none; shutdown = true }

abbrev pub publishes : Text → Effect
publishes message = record { published = some message; shutdown = false }

pub record PublisherNode : Type 0 where
  pub topic : Text
  pub chain : ℕ
  pub count : ℕ
  pub log : Log

-- The constructor, called as the programs do it with the topic "topic_<chain>".
unfoldable pub publisher_node : Text → ℕ → PublisherNode
publisher_node topic chain = record { topic = topic; chain = chain; count = 0; log = [] }

-- The clock readings of a callback in milliseconds, and the time of a log entry.
pub record Clock : Type 0 where
  pub first : ℕ
  pub second : ℕ
  pub third : ℕ
  pub microseconds : ℕ

-- The callback of the timer; `trigger` is its time until the next trigger.
unfoldable pub timer_callback : ℕ → Clock → ℕ → PublisherNode → PublisherNode × Effect
unfolding to_string
timer_callback end_time clock trigger p =
    let entry =
      to_string p.chain ++ (bytes " release_time: " ++ to_string (clock.first + trigger)) in
    let logged = record p { log = p.log ++ ((entry, clock.microseconds) ∷ []) } in
    if ltb end_time clock.second
    then (logged, nothing)
    else if ltb end_time clock.third
    then (logged, nothing)
    else (
      record logged { count = (p.count + 1) % 2 ^ 32 },
      publishes (bytes "MESSAGE" ++ to_string p.count),
    )

pub record DummyWorker : Type 0 where
  pub chain : ℕ
  pub number : ℕ
  pub is_last_in_chain : Bool
  pub subscription_topic : Text
  pub publisher_topic : Text
  pub log : Log

-- The constructor; a multichain worker listens to the chain before, "topic_-1" for chain 0.
unfoldable pub dummy_worker : ℕ → ℕ → Bool → Bool → DummyWorker
unfolding head_topic chain_topic
dummy_worker chain number is_multichain is_last = record {
  chain = chain;
  number = number;
  is_last_in_chain = is_last;
  subscription_topic =
      if is_multichain
      then (if chain == 0 then bytes "topic_-1" else head_topic (chain - 1))
      else if number == 1
      then head_topic chain
      else chain_topic chain number;
  publisher_topic = chain_topic chain (number + 1);
  log = [];
}

-- "<chain> completed_time: <millis>"
abbrev pub completed : ℕ → ℕ → Text
unfolding to_string
completed chain millis = to_string chain ++ (bytes " completed_time: " ++ to_string millis)

unfoldable pub topic_callback : ℕ → Clock → Text → DummyWorker → DummyWorker × Effect
unfolding completed
topic_callback end_time clock message w =
    if ltb end_time clock.first
    then (w, nothing)
    else if ltb end_time clock.second
    then (w, nothing)
    else (
      if w.is_last_in_chain
          then record w {
            log = w.log ++ ((completed w.chain clock.third, clock.microseconds) ∷ []);
          }
          else w,
      publishes message,
    )
