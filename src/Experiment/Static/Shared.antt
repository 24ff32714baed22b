-- ===== src/Experiment/Static/Shared.antt =====
-- The set-ups of source_code/src/priority_executor/src/multi_static1.cpp, arb_static.cpp and
-- muex_static1.cpp: fixed priorities, with one publisher for the chains 0 and 1. In muex_static1 one
-- MuExWorker has the callbacks of the chains 3 and 4; the handle of its subscription for a callback is
-- that of the callback, and its node is that of callback 1 of chain 3.
pub mod Serving
pub mod Muex
use deadline_driven_enhancem.Base.{
  ℕ, zero, suc, ◌+◌, ◌<◌, Bool, false, ◌||◌, Option, none, some, List, [], ◌∷◌, ◌==◌, ltb,
  if◌then◌else◌, ◌>>=◌, ◌>>◌, get_elem?, require,
}
use deadline_driven_enhancem.Executable.{subscription, chain_aware_priority}
use deadline_driven_enhancem.Strategy.{Strategy, set_chain_priority}
use deadline_driven_enhancem.Executor.{Executor}
use deadline_driven_enhancem.Experiment.{Objects, configure}
use deadline_driven_enhancem.Experiment.Static.{
  StaticChain, make_static_publisher, make_static_worker,
}

-- The chains whose workers are left to the MuExWorker.
unfoldable pub muex_chain : ℕ → Bool
muex_chain c = c == 3 || c == 4

module _ (o : Objects) where
  -- The branch for the first callback: chain 1 takes nodes[0][0], of the `nodes` nodes of chain 0.
  unfoldable pub shared_publisher : ℕ → ℕ → List ℕ → Executor → Option Executor
  unfolding make_static_publisher
  shared_publisher nodes c priorities x =
      if c == 1
      then (do require (ltb 0 nodes); some x)
      else (do priority ← get_elem? priorities 0; make_static_publisher o c priority x)

  -- The branch for a worker; `left_out` tells the chains whose workers are not made.
  unfoldable pub shared_worker : (ℕ → Bool) → ℕ → ℕ → List ℕ → Executor → Option Executor
  unfolding make_static_worker
  shared_worker left_out c i priorities x =
      if left_out c
      then some x
      else (do priority ← get_elem? priorities i; some (make_static_worker o c i priority x))

  unfoldable pub shared_callbacks : (ℕ → Bool) → ℕ → ℕ → List ℕ → ℕ → ℕ → Executor → Option Executor
  unfolding shared_publisher shared_worker
  shared_callbacks left_out nodes c priorities i zero x = some x
  shared_callbacks left_out nodes c priorities i (suc n) x = do
    x' ←
        if i == 0
        then shared_publisher nodes c priorities x
        else shared_worker left_out c i priorities x
    shared_callbacks left_out nodes c priorities (i + 1) n x'

  -- The loop over the chains, from number `c`; no chain that shares is left out, so nodes[0] has a node
  -- for each callback of chain 0.
  unfoldable pub shared_chains : (ℕ → Bool) → ℕ → ℕ → List StaticChain → Executor → Option Executor
  unfolding shared_callbacks
  shared_chains left_out nodes c [] x = some x
  shared_chains left_out nodes c (ch ∷ chains) x = do
    x' ← shared_callbacks left_out nodes c ch.priorities 0 ch.length x
    shared_chains left_out (if c == 0 then ch.length else nodes) (c + 1) chains x'

  -- set_executable_priority for the subscription of callback `i` of chain `c`.
  unfoldable pub muex_priority : List StaticChain → ℕ → ℕ → Strategy → Option Strategy
  muex_priority chains c i s = do
    ch ← get_elem? chains c
    priority ← get_elem? ch.priorities i
    let h = o.subscription_handle c i
    some (set_chain_priority s h priority subscription chain_aware_priority c)

  unfoldable pub muex_priorities : List StaticChain → Strategy → Option Strategy
  unfolding muex_priority
  muex_priorities chains s = do
    s1 ← muex_priority chains 3 1 s
    s2 ← muex_priority chains 3 2 s1
    s3 ← muex_priority chains 4 1 s2
    s4 ← muex_priority chains 4 2 s3
    muex_priority chains 4 3 s4

  -- muex_static1
  unfoldable pub muex_static : List StaticChain → Executor → Option Executor
  unfolding muex_chain shared_chains muex_priorities configure
  muex_static chains x = do
    x1 ← shared_chains muex_chain 0 0 chains x
    x2 ← configure (muex_priorities chains) x1
    some (o.add_node 3 1 x2)

  -- multi_static1
  unfoldable pub multi_static : List StaticChain → Executor → Option Executor
  unfolding shared_chains
  multi_static chains x = shared_chains (λ c. false) 0 0 chains x

  -- arb_static: the same loop.
  unfoldable pub arb_static : List StaticChain → Executor → Option Executor
  unfolding shared_chains
  arb_static chains x = shared_chains (λ c. false) 0 0 chains x

-- The chains of the three programs.
unfoldable pub shared_static_chains : List StaticChain
shared_static_chains =
    record { length = 2; priorities = 0 ∷ 1 ∷ [] }
    ∷ record { length = 4; priorities = 0 ∷ 2 ∷ 3 ∷ 4 ∷ [] }
    ∷ record { length = 4; priorities = 5 ∷ 6 ∷ 7 ∷ 8 ∷ [] }
    ∷ record { length = 3; priorities = 9 ∷ 10 ∷ 11 ∷ [] }
    ∷ record { length = 4; priorities = 12 ∷ 13 ∷ 14 ∷ 15 ∷ [] }
    ∷ record { length = 4; priorities = 16 ∷ 17 ∷ 18 ∷ 19 ∷ [] }
    ∷ []
