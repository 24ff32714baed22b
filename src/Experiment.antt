-- ===== src/Experiment.antt =====
-- The set-up of an experiment in source_code/src/priority_executor/src/dy_2.cpp: main makes the nodes
-- of each chain, gives their executables settings in the strategy, and releases each chain once.
-- An address, a handle or a node that a constructor makes is a parameter, as is add_node of
-- rclcpp::Executor. The deadlines and periods are far below 2 ^ 53, where std::ceil of their quotient
-- in `double` is exact enough. The timers have not yet expired when the chains are released.
pub mod Settings
pub mod Chains
pub mod Making
pub mod Release
pub mod Released
pub mod Running
pub mod Static
pub mod Output
pub mod MultiArb
pub mod Shared
use deadline_driven_enhancem.Base.{
  ℕ, zero, suc, ◌+◌, ◌%◌, ◌^◌, Bool, true, false, Option, none, some, List, [], ◌∷◌, ◌++◌, ◌==◌,
  if◌then◌else◌, ◌>>=◌, ◌<◌, ltb,
}
use deadline_driven_enhancem.Executable.{PriorityExecutable, subscription, timer}
use deadline_driven_enhancem.Executable.Comparator.{Deques}
use deadline_driven_enhancem.Strategy.{
  Strategy, get_priority_settings, store, set_executable_deadline, set_first_in_chain,
  set_last_in_chain, assign_deadlines_queue, assign_release_time,
}
use deadline_driven_enhancem.Strategy.Handles.{contains}
use deadline_driven_enhancem.Selection.{push_deadline, ceil_div}
use deadline_driven_enhancem.Executor.{Executor}

-- The vectors chain_lengths, chain_periods and chain_deadlines at one index.
pub record ChainConfig : Type 0 where
  pub length : ℕ
  pub period : ℕ
  pub deadline : ℕ

-- For a chain and a callback of it: the timer of the publisher and its handle, the handle of a
-- worker's subscription, the new vector and its deques, and add_node with the node.
pub record Objects : Type 0 where
  pub timer : ℕ → ℕ
  pub timer_handle : ℕ → ℕ
  pub subscription_handle : ℕ → ℕ → ℕ
  pub vector : ℕ → ℕ
  pub deque : ℕ → ℕ → ℕ
  pub add_node : ℕ → ℕ → Executor → Executor

-- `get_priority_settings(handle)->timer_handle = timer`
unfoldable pub set_timer_handle : Strategy → ℕ → ℕ → Option Strategy
unfolding get_priority_settings store
set_timer_handle s k t = do
  e ← get_priority_settings s k
  some (store k (record e { timer_handle = some t }) s)

-- max_chain_num; a period of zero has no quotient that fits an int.
unfoldable pub chain_num : ChainConfig → Option ℕ
chain_num ch = if ch.period == 0 then none else some (ceil_div ch.deadline ch.period)

-- The conversion of a `uint64_t` to the `int` that assign_release_time takes. A negative result is
-- outside the model, whose times are natural numbers.
unfoldable pub to_int : ℕ → Option ℕ
to_int n = let i = n % 2 ^ 32 in if ltb i (2 ^ 31) then some i else none

-- A change of the strategy that the executor has as its memory strategy.
unfoldable pub configure : (Strategy → Option Strategy) → Executor → Option Executor
configure f x = do s ← f x.strategy; some (record x { strategy = s })

module _ (o : Objects) where
  -- The new deques of chain `c` from index `i`, as many as `n`.
  unfoldable pub new_deques : ℕ → ℕ → ℕ → List ℕ
  new_deques c i zero = []
  new_deques c i (suc n) = o.deque c i ∷ new_deques c (i + 1) n

  unfoldable pub allocate : ℕ → ℕ → Deques → Deques
  unfolding new_deques
  allocate c n m =
      let deques = new_deques c 0 n in
      record {
        vector = λ v. if o.vector c == v then deques else m.vector v;
        deque = λ q. if contains q deques then [] else m.deque q;
      }

  -- The calls on the strategy for the publisher of a chain.
  unfoldable pub first_settings : ℕ → ChainConfig → Strategy → Option Strategy
  unfolding set_timer_handle
  first_settings c ch s = do
    let h = o.timer_handle c
    a ← set_first_in_chain (set_executable_deadline s h ch.period ch.deadline timer c) h
    b ← assign_deadlines_queue a h (o.vector c)
    set_timer_handle b h (o.timer c)

  unfoldable pub make_publisher : ℕ → ChainConfig → Executor → Option Executor
  unfolding configure first_settings
  make_publisher c ch x = do x' ← configure (first_settings c ch) x; some (o.add_node c 0 x')

  -- The last executable of a chain is marked and gets the timer of the chain.
  unfoldable pub end_chain : ℕ → ℕ → ChainConfig → Strategy → Option Strategy
  unfolding set_timer_handle
  end_chain c i ch s =
      let h = o.subscription_handle c i in
      if i + 1 == ch.length
      then set_last_in_chain s h >>= (λ a. set_timer_handle a h (o.timer c))
      else some s

  -- The calls for a worker after add_node.
  unfoldable pub next_settings : ℕ → ℕ → ChainConfig → Strategy → Option Strategy
  unfolding end_chain
  next_settings c i ch s = do
    let h = o.subscription_handle c i
    a ← assign_deadlines_queue s h (o.vector c)
    end_chain c i ch a

  unfoldable pub make_worker : ℕ → ℕ → ChainConfig → Executor → Option Executor
  unfolding configure next_settings
  make_worker c i ch x =
      let h = o.subscription_handle c i in
      let s = set_executable_deadline x.strategy h ch.period ch.deadline subscription c in
      configure (next_settings c i ch) (o.add_node c i (record x { strategy = s }))

  -- The loop over the callbacks of a chain, from `i`, with as many left as `n`.
  unfoldable pub make_callbacks : ℕ → ChainConfig → ℕ → ℕ → Executor → Option Executor
  unfolding make_publisher make_worker
  make_callbacks c ch i zero x = some x
  make_callbacks c ch i (suc n) x = do
    x' ← if i == 0 then make_publisher c ch x else make_worker c i ch x
    make_callbacks c ch (i + 1) n x'

  unfoldable pub make_chain : ℕ → ChainConfig → Executor → Option Executor
  unfolding chain_num allocate make_callbacks
  make_chain c ch x = do
    n ← chain_num ch
    make_callbacks c ch 0 ch.length
        (record x { strategy = record x.strategy { memory = allocate c n x.strategy.memory } })

  -- The loop over the chains, from number `c`.
  unfoldable pub make_chains : ℕ → List ChainConfig → Executor → Option Executor
  unfolding make_chain
  make_chains c [] x = some x
  make_chains c (ch ∷ chains) x = do x' ← make_chain c ch x; make_chains (c + 1) chains x'

  -- The first release of a chain: `millis` is the clock and `trigger` what is left of the period.
  unfoldable pub release_chain : ℕ → ChainConfig → ℕ → ℕ → Strategy → Option Strategy
  unfolding push_deadline to_int
  release_chain c ch millis trigger s = do
    release_time ← to_int (millis + trigger)
    s' ← assign_release_time s (o.timer_handle c) release_time
    m ← push_deadline (some (o.vector c)) 0 (millis + trigger + ch.deadline) s'.memory
    some (record s' { memory = m })

  unfoldable pub release_chains :
      ℕ → List ChainConfig → (ℕ → ℕ) → (ℕ → ℕ) → Strategy → Option Strategy
  unfolding release_chain
  release_chains c [] millis trigger s = some s
  release_chains c (ch ∷ chains) millis trigger s = do
    s' ← release_chain c ch (millis c) (trigger c) s
    release_chains (c + 1) chains millis trigger s'

  unfoldable pub set_up : List ChainConfig → (ℕ → ℕ) → (ℕ → ℕ) → Executor → Option Executor
  unfolding make_chains release_chains configure
  set_up chains millis trigger x = do
    x' ← make_chains 0 chains x
    configure (release_chains 0 chains millis trigger) x'

-- The chains of dy_2.
unfoldable pub dy_2_chains : List ChainConfig
dy_2_chains =
    record { length = 4; period = 100; deadline = 100 }
    ∷ record { length = 4; period = 100; deadline = 100 }
    ∷ []
