-- ===== src/Experiment/Shared/Muex.antt =====
-- source_code/src/priority_executor/src/muex_test.cpp: the loops of multi_test.cpp, where one
-- MuExWorker has the callbacks of the chains 3 and 4. The handle of its subscription for a callback
-- is that of the callback, and its node is that of callback 1 of chain 3.
pub mod Calls
pub mod Written
pub mod Placed
pub mod Serving
use deadline_driven_enhancem.Base.{ℕ, Option, some, List, [], ◌∷◌, ◌>>=◌, get_elem?}
use deadline_driven_enhancem.Executable.{subscription}
use deadline_driven_enhancem.Strategy.{
  Strategy, set_executable_deadline, set_last_in_chain, assign_deadlines_queue,
}
use deadline_driven_enhancem.Executor.{Executor}
use deadline_driven_enhancem.Experiment.{
  ChainConfig, Objects, set_timer_handle, configure, release_chains,
}
use deadline_driven_enhancem.Experiment.Static.Shared.{muex_chain}
use deadline_driven_enhancem.Experiment.Shared.{shared_timers, set_f1tenth, shared_deadline_chains}

-- A call for each callback in turn.
unfoldable pub for_members :
    (ℕ → ℕ → Strategy → Option Strategy) → List (ℕ × ℕ) → Strategy → Option Strategy
for_members call [] s = some s
for_members call ((c, i) ∷ members) s = do s' ← call c i s; for_members call members s'

-- The callbacks of the MuExWorker, and the last ones of its chains.
abbrev pub deadline_members : List (ℕ × ℕ)
deadline_members = (3, 1) ∷ (3, 2) ∷ (4, 1) ∷ (4, 2) ∷ (4, 3) ∷ []

abbrev pub last_members : List (ℕ × ℕ)
last_members = (3, 2) ∷ (4, 3) ∷ []

module _ (o : Objects) where
  unfoldable pub set_member_deadline : List ChainConfig → ℕ → ℕ → Strategy → Option Strategy
  set_member_deadline chains c i s = do
    ch ← get_elem? chains c
    some
        (set_executable_deadline s (o.subscription_handle c i) ch.period ch.deadline subscription c)

  unfoldable pub assign_member_queue : ℕ → ℕ → Strategy → Option Strategy
  assign_member_queue c i s = assign_deadlines_queue s (o.subscription_handle c i) (o.vector c)

  unfoldable pub set_member_last : ℕ → ℕ → Strategy → Option Strategy
  set_member_last c i s = set_last_in_chain s (o.subscription_handle c i)

  -- The timer of nodes[c][0].
  unfoldable pub set_member_timer : ℕ → ℕ → Strategy → Option Strategy
  unfolding set_timer_handle
  set_member_timer c i s = set_timer_handle s (o.subscription_handle c i) (o.timer c)

  unfoldable pub muex_deadlines : List ChainConfig → Strategy → Option Strategy
  unfolding for_members set_member_deadline assign_member_queue set_member_last set_member_timer
  muex_deadlines chains s = do
    a ← for_members (set_member_deadline chains) deadline_members s
    b ← for_members assign_member_queue deadline_members a
    c ← for_members set_member_last last_members b
    for_members set_member_timer last_members c

  unfoldable pub muex_set_up : List ChainConfig → (ℕ → ℕ) → (ℕ → ℕ) → Executor → Option Executor
  unfolding muex_chain shared_deadline_chains muex_deadlines release_chains configure shared_timers
      set_f1tenth
  muex_set_up chains millis trigger x = do
    x1 ← shared_deadline_chains o muex_chain 0 0 chains (set_f1tenth x)
    x2 ← configure (muex_deadlines chains) x1
    configure (release_chains (shared_timers o) 0 chains millis trigger) (o.add_node 3 1 x2)
