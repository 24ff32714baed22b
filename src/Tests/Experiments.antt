-- ===== src/Tests/Experiments.antt =====
-- Tests of the set-ups of dy_2.cpp and st_2.cpp, on their two chains.
use deadline_driven_enhancem.Base.{
  ℕ, ◌+◌, ◌*◌, ◌≡◌, ◌≤◌, ◌<◌, length, refl, true, false, none, some, List, [], ◌∷◌, All, arith, min,
}
use deadline_driven_enhancem.Executable.{PriorityExecutable}
use deadline_driven_enhancem.PriorityQueue.Insertion.{insertion_queue}
use deadline_driven_enhancem.Strategy.{init, get_priority_settings}
use deadline_driven_enhancem.Executor.{Executor, Outcome}
use deadline_driven_enhancem.Executor.Serving.{IsServing}
use deadline_driven_enhancem.Threads.{Pool, start_threads, take_work, here}
use deadline_driven_enhancem.Threads.Leaks.{NoLeak}
use deadline_driven_enhancem.Experiment.{Objects, set_up, dy_2_chains}
use deadline_driven_enhancem.Experiment.Settings.{AddsNode}
use deadline_driven_enhancem.Experiment.Chains.{IsFresh, IsTimed}
use deadline_driven_enhancem.Experiment.Released.{AllReleased}
use deadline_driven_enhancem.Experiment.Running.{IsNew, set_up-IsServing, experiment-take_work}
use deadline_driven_enhancem.Experiment.Static.{st_2_chains}
use deadline_driven_enhancem.Experiment.Static.Serving.{IsStaticEntry}
use deadline_driven_enhancem.Experiment.Static.Shared.{
  multi_static, arb_static, muex_static, shared_static_chains,
}
use deadline_driven_enhancem.Experiment.Static.Shared.Serving.{HasAll, multi_static-IsServing}
use deadline_driven_enhancem.Experiment.Static.Shared.Muex.{
  HasNumber, HasPriority, muex_members, muex_static-IsServing,
}
use deadline_driven_enhancem.TestNodes.{Log}
use deadline_driven_enhancem.Experiment.MultiArb.{
  multi_arb_chains, multi_arb, AllLogged, multi_arb-Logged,
}
use deadline_driven_enhancem.Experiment.MultiArb.Runtimes.{
  Members, lengths, laid_out, totals, fronts, next_sum, dy_2_runtimes, multi_arb_runtimes,
  runtimes_lem,
}
use deadline_driven_enhancem.Tests.{graph, rcl, no_waitables}

-- Addresses, and an add_node that adds an empty node.
abbrev pub objects : Objects
objects = record {
  timer = λ c. c;
  timer_handle = λ c. 2 * c;
  subscription_handle = λ c i. 2 * (1000 * c + i) + 1;
  vector = λ c. c;
  deque = λ c i. 1000 * c + min i 999;
  add_node = λ c i x. record x {
    strategy = record x.strategy { guard_conditions = c ∷ x.strategy.guard_conditions };
    weak_nodes = some [] ∷ x.weak_nodes;
    guard_conditions = c ∷ x.guard_conditions;
  };
}

pub objects-IsFresh : IsFresh objects
objects-IsFresh = record {
  timers = λ c d ne same. omega (arith, ne, same);
  subscriptions = λ c d i same. omega (arith, same);
  vectors = λ c d ne same. ne same;
  deques = λ c d i j ne same. omega (arith, ne, same);
}

pub objects-AddsNode : AddsNode objects
unfolding get_priority_settings
objects-AddsNode = record {
  map = λ c i x. refl;
  memory = λ c i x. refl;
  queue = λ c i x. refl;
  plain = λ c i x. refl;
  in_step = λ c i x h. omega (arith, h);
  flags = λ c i x. refl;
}

abbrev pub new_executor : Executor
new_executor = record {
  strategy = init;
  weak_nodes = [];
  guard_conditions = [];
  can_be_taken_from = λ x. true;
  use_priorities = true;
}

new_executor-IsNew : IsNew new_executor
unfolding init
new_executor-IsNew = record { settings = refl; queue = refl; in_step = refl }

new_executor-plain : new_executor.strategy.is_f1tenth ≡ false
unfolding init
new_executor-plain = refl

dy_2-IsTimed : All IsTimed dy_2_chains
unfolding dy_2_chains
dy_2-IsTimed =
    ((omega arith, omega arith, omega arith), ((omega arith, omega arith, omega arith), tt))

set_up-IsServing_example :
    (x' : Executor) × (set_up objects dy_2_chains (λ c. 5000) (λ c. 100) new_executor ≡ some x')
    × IsServing x'
    × (x'.can_be_taken_from ≡ new_executor.can_be_taken_from)
    × AllReleased objects 0 dy_2_chains (λ c. 5000) (λ c. 100) x'.strategy
set_up-IsServing_example =
    set_up-IsServing objects dy_2_chains (λ c. 5000) (λ c. 100) new_executor objects-IsFresh
      objects-AddsNode dy_2-IsTimed new_executor-IsNew new_executor-plain (λ c. omega arith)

dy_2_ready :
    (x' : Executor) × (set_up objects dy_2_chains (λ c. 5000) (λ c. 100) new_executor ≡ some x')
    × IsServing x'
    × (x'.can_be_taken_from ≡ new_executor.can_be_taken_from)
    × AllReleased objects 0 dy_2_chains (λ c. 5000) (λ c. 100) x'.strategy
dy_2_ready =
    set_up-IsServing objects dy_2_chains (λ c. 5000) (λ c. 100) new_executor objects-IsFresh
      objects-AddsNode dy_2-IsTimed new_executor-IsNew new_executor-plain (λ c. omega arith)

experiment-take_work_example :
    NoLeak (λ g. true) (start_threads dy_2_ready.0)
    × (q : Pool) × (outcome : Outcome) × (take_work insertion_queue graph
          (λ g. true)
          rcl
          no_waitables
          5100
          0
          (start_threads dy_2_ready.0)
        ≡ some (q, outcome))
experiment-take_work_example =
    experiment-take_work objects dy_2_chains (λ c. 5000) (λ c. 100) new_executor objects-IsFresh
      objects-AddsNode dy_2-IsTimed new_executor-IsNew new_executor-plain (λ c. omega arith)
      (λ group. refl) insertion_queue graph (λ g. true) dy_2_ready.0 (start_threads dy_2_ready.0)
      dy_2_ready.1 here rcl no_waitables 5100 0

st_2-long : All (λ ch. ch.length ≤ length ch.priorities) st_2_chains
unfolding st_2_chains
st_2-long = (omega arith, (omega arith, tt))

unfoldable pub f1tenth_executor : Executor
f1tenth_executor = record new_executor { strategy = record init { is_f1tenth = true } }

pub f1tenth_executor-IsNew : IsNew f1tenth_executor
unfolding init f1tenth_executor
f1tenth_executor-IsNew = record { settings = refl; queue = refl; in_step = refl }

shared-HasAll : HasAll shared_static_chains
unfolding shared_static_chains
shared-HasAll = (
  (omega arith, omega arith),
  (
    (omega arith, omega arith),
    (
      (omega arith, omega arith),
      ((omega arith, omega arith), ((omega arith, omega arith), ((omega arith, omega arith), tt))),
    ),
  ),
)

multi_static-IsServing_example :
    (x' : Executor) × (multi_static objects shared_static_chains f1tenth_executor ≡ some x')
    × (arb_static objects shared_static_chains f1tenth_executor ≡ some x')
    × IsServing x'
    × (x'.can_be_taken_from ≡ f1tenth_executor.can_be_taken_from)
    × ((k : ℕ) (e : PriorityExecutable)
        → get_priority_settings x'.strategy k ≡ some e
        → IsStaticEntry k e)
multi_static-IsServing_example =
    multi_static-IsServing objects shared_static_chains f1tenth_executor objects-AddsNode
      shared-HasAll f1tenth_executor-IsNew

objects-own :
    (c d i j : ℕ)
    → i < 4
    → j < 4
    → objects.subscription_handle c i ≡ objects.subscription_handle d j
    → (c ≡ d) × (i ≡ j)
objects-own c d i j hi hj same = (omega (arith, hi, hj, same), omega (arith, hi, hj, same))

shared-HasNumber : All (HasNumber shared_static_chains) muex_members
unfolding shared_static_chains
shared-HasNumber = (
  (_, _, refl, refl),
  ((_, _, refl, refl), ((_, _, refl, refl), ((_, _, refl, refl), ((_, _, refl, refl), tt)))),
)

muex_static-IsServing_example :
    (x' : Executor) × (muex_static objects shared_static_chains f1tenth_executor ≡ some x')
    × IsServing x'
    × (x'.can_be_taken_from ≡ f1tenth_executor.can_be_taken_from)
    × ((k : ℕ) (e : PriorityExecutable)
        → get_priority_settings x'.strategy k ≡ some e
        → IsStaticEntry k e)
    × All (HasPriority objects shared_static_chains x'.strategy) muex_members
muex_static-IsServing_example =
    muex_static-IsServing objects shared_static_chains f1tenth_executor objects-AddsNode objects-own
      shared-HasAll shared-HasNumber f1tenth_executor-IsNew

multi_arb-IsTimed : All IsTimed multi_arb_chains
unfolding multi_arb_chains
multi_arb-IsTimed =
    ((omega arith, omega arith, omega arith), ((omega arith, omega arith, omega arith), tt))

multi_arb-Logged_example :
    (x' : Executor) × (log : Log) × (multi_arb objects multi_arb_chains
        (λ c. 5000)
        (λ c. 100)
        (λ c. 5000000)
        (λ c. 5000001)
        new_executor
      ≡ some (x', log))
    × IsServing x'
    × (x'.can_be_taken_from ≡ new_executor.can_be_taken_from)
    × AllLogged objects 0 multi_arb_chains log x'.strategy
multi_arb-Logged_example =
    multi_arb-Logged objects multi_arb_chains (λ c. 5000) (λ c. 100) (λ c. 5000000) (λ c. 5000001)
      new_executor objects-IsFresh objects-AddsNode multi_arb-IsTimed new_executor-IsNew
      new_executor-plain (λ c. omega arith)

-- The runtimes of multi_arb.
abbrev members : List Members
members = (50 ∷ [], 60) ∷ (15 ∷ 25 ∷ 35 ∷ [], 45) ∷ []

runtimes_lem_example :
    (dy_2_runtimes (lengths members) (laid_out members) none ≡ some (totals members))
    × (multi_arb_runtimes (lengths members) (laid_out members) none ≡ some (fronts members))
runtimes_lem_example = runtimes_lem members none

multi_arb_printed :
    multi_arb_runtimes (2 ∷ 4 ∷ []) (50 ∷ 60 ∷ 15 ∷ 25 ∷ 35 ∷ 45 ∷ []) none ≡ some (50 ∷ 75 ∷ [])
unfolding multi_arb_runtimes next_sum
multi_arb_printed = refl
