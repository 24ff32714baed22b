-- ===== src/Experiment/Shared.antt =====
-- The set-up of source_code/src/priority_executor/src/multi_test.cpp, and of arb_test.cpp with other
-- periods: DEADLINE chains for F1TENTH, where chain 1 takes the publisher of chain 0.
pub mod Placed
pub mod Making
pub mod AllChains
pub mod Releasing
pub mod Running
pub mod Muex
use deadline_driven_enhancem.Base.{
  ℕ, zero, suc, ◌+◌, Bool, true, false, ◌&&◌, Option, none, some, List, [], ◌∷◌, ◌==◌, ltb,
  if◌then◌else◌, ◌>>=◌, ◌>>◌, require,
}
use deadline_driven_enhancem.Executor.{Executor}
use deadline_driven_enhancem.Experiment.{
  ChainConfig, Objects, configure, chain_num, allocate, make_publisher, make_worker, release_chains,
}

-- `this_chain_timer_handle` of chain 1 is the timer of nodes[0][0].
unfoldable pub shared_timers : Objects → Objects
shared_timers o = record o {
  timer = λ c. if c == 1 then o.timer 0 else o.timer c;
  timer_handle = λ c. if c == 1 then o.timer_handle 0 else o.timer_handle c;
}

-- `executors.strat->is_f1tenth = true`
unfoldable pub set_f1tenth : Executor → Executor
set_f1tenth x = record x { strategy = record x.strategy { is_f1tenth = true } }

module _ (o : Objects) where
  -- `this_chain_timer_handle` after the first callback of a chain.
  unfoldable pub chain_timers : Executor → Objects
  unfolding shared_timers
  chain_timers x = if x.strategy.is_f1tenth then shared_timers o else o

  -- The branch for the first callback; `nodes` is the number of nodes of chain 0.
  unfoldable pub shared_head : ℕ → ℕ → ChainConfig → Executor → Option Executor
  unfolding make_publisher
  shared_head nodes c ch x =
      if c == 1 && x.strategy.is_f1tenth
      then (do require (ltb 0 nodes); some x)
      else make_publisher o c ch x

  -- The branch for a worker; `left_out` tells the chains whose workers are not made.
  unfoldable pub shared_deadline_worker :
      (ℕ → Bool) → ℕ → ℕ → ChainConfig → Executor → Option Executor
  unfolding make_worker chain_timers
  shared_deadline_worker left_out c i ch x =
      if left_out c then some x else make_worker (chain_timers x) c i ch x

  unfoldable pub shared_deadline_callbacks :
      (ℕ → Bool) → ℕ → ℕ → ChainConfig → ℕ → ℕ → Executor → Option Executor
  unfolding shared_head shared_deadline_worker
  shared_deadline_callbacks left_out nodes c ch i zero x = some x
  shared_deadline_callbacks left_out nodes c ch i (suc n) x = do
    x' ← if i == 0 then shared_head nodes c ch x else shared_deadline_worker left_out c i ch x
    shared_deadline_callbacks left_out nodes c ch (i + 1) n x'

  unfoldable pub shared_deadline_chain :
      (ℕ → Bool) → ℕ → ℕ → ChainConfig → Executor → Option Executor
  unfolding chain_num allocate shared_deadline_callbacks
  shared_deadline_chain left_out nodes c ch x = do
    n ← chain_num ch
    shared_deadline_callbacks left_out nodes c ch 0 ch.length
        (record x { strategy = record x.strategy { memory = allocate o c n x.strategy.memory } })

  -- The loop over the chains, from number `c`.
  unfoldable pub shared_deadline_chains :
      (ℕ → Bool) → ℕ → ℕ → List ChainConfig → Executor → Option Executor
  unfolding shared_deadline_chain
  shared_deadline_chains left_out nodes c [] x = some x
  shared_deadline_chains left_out nodes c (ch ∷ chains) x = do
    x' ← shared_deadline_chain left_out nodes c ch x
    shared_deadline_chains left_out (if c == 0 then ch.length else nodes) (c + 1) chains x'

  unfoldable pub f1tenth_set_up : List ChainConfig → (ℕ → ℕ) → (ℕ → ℕ) → Executor → Option Executor
  unfolding shared_deadline_chains release_chains configure shared_timers set_f1tenth
  f1tenth_set_up chains millis trigger x = do
    x' ← shared_deadline_chains (λ c. false) 0 0 chains (set_f1tenth x)
    configure (release_chains (shared_timers o) 0 chains millis trigger) x'

  -- The same code in arb_test.
  unfoldable pub arb_set_up : List ChainConfig → (ℕ → ℕ) → (ℕ → ℕ) → Executor → Option Executor
  unfolding f1tenth_set_up
  arb_set_up = f1tenth_set_up

-- The chains of multi_test.
unfoldable pub multi_test_chains : List ChainConfig
multi_test_chains =
    record { length = 2; period = 80; deadline = 80 }
    ∷ record { length = 4; period = 80; deadline = 80 }
    ∷ record { length = 4; period = 120; deadline = 120 }
    ∷ record { length = 3; period = 140; deadline = 140 }
    ∷ record { length = 4; period = 160; deadline = 160 }
    ∷ record { length = 4; period = 180; deadline = 180 }
    ∷ []

-- The chains of arb_test.
unfoldable pub arb_test_chains : List ChainConfig
arb_test_chains =
    record { length = 2; period = 80; deadline = 80 }
    ∷ record { length = 4; period = 80; deadline = 80 }
    ∷ record { length = 4; period = 60; deadline = 120 }
    ∷ record { length = 3; period = 140; deadline = 140 }
    ∷ record { length = 4; period = 160; deadline = 160 }
    ∷ record { length = 4; period = 90; deadline = 180 }
    ∷ []
