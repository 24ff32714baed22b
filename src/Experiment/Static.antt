-- ===== src/Experiment/Static.antt =====
-- The set-up of an experiment in source_code/src/priority_executor/src/st_2.cpp: main makes the nodes
-- of each chain and gives their executables fixed priorities that are aware of the chain.
-- The parameters are those of dy_2.
pub mod Serving
pub mod Shared
use deadline_driven_enhancem.Base.{
  ℕ, zero, suc, ◌+◌, Option, none, some, List, [], ◌∷◌, ◌==◌, if◌then◌else◌, ◌>>=◌, get_elem?,
}
use deadline_driven_enhancem.Executable.{subscription, timer, chain_aware_priority}
use deadline_driven_enhancem.Strategy.{Strategy, set_chain_priority, set_first_in_chain}
use deadline_driven_enhancem.Executor.{Executor}
use deadline_driven_enhancem.Experiment.{Objects, set_timer_handle, configure}

-- The vectors chain_lengths and chain_priorities at one index.
pub record StaticChain : Type 0 where
  pub length : ℕ
  pub priorities : List ℕ

module _ (o : Objects) where
  unfoldable pub first_priority : ℕ → ℕ → Strategy → Option Strategy
  unfolding set_timer_handle
  first_priority c priority s = do
    let h = o.timer_handle c
    a ← set_first_in_chain (set_chain_priority s h priority timer chain_aware_priority c) h
    set_timer_handle a h (o.timer c)

  unfoldable pub make_static_publisher : ℕ → ℕ → Executor → Option Executor
  unfolding configure first_priority
  make_static_publisher c priority x = do
    x' ← configure (first_priority c priority) x
    some (o.add_node c 0 x')

  unfoldable pub make_static_worker : ℕ → ℕ → ℕ → Executor → Executor
  make_static_worker c i priority x =
      let h = o.subscription_handle c i in
      let s = set_chain_priority x.strategy h priority subscription chain_aware_priority c in
      o.add_node c i (record x { strategy = s })

  -- The loop over the callbacks of a chain, from `i`, with as many left as `n`; `none` is an index
  -- past the end of the priorities.
  unfoldable pub make_static_callbacks : ℕ → List ℕ → ℕ → ℕ → Executor → Option Executor
  unfolding make_static_publisher make_static_worker
  make_static_callbacks c priorities i zero x = some x
  make_static_callbacks c priorities i (suc n) x = do
    priority ← get_elem? priorities i
    x' ←
        if i == 0
        then make_static_publisher c priority x
        else some (make_static_worker c i priority x)
    make_static_callbacks c priorities (i + 1) n x'

  -- The loop over the chains, from number `c`.
  unfoldable pub make_static_chains : ℕ → List StaticChain → Executor → Option Executor
  unfolding make_static_callbacks
  make_static_chains c [] x = some x
  make_static_chains c (ch ∷ chains) x = do
    x' ← make_static_callbacks c ch.priorities 0 ch.length x
    make_static_chains (c + 1) chains x'

-- The chains of st_2.
unfoldable pub st_2_chains : List StaticChain
st_2_chains =
    record { length = 4; priorities = 0 ∷ 1 ∷ 2 ∷ 3 ∷ [] }
    ∷ record { length = 4; priorities = 4 ∷ 5 ∷ 6 ∷ 7 ∷ [] }
    ∷ []
