-- ===== src/Tests/F1tenth.antt =====
-- Tests of the F1TENTH case: the set-up of arb_test.cpp and muex_test.cpp, with their chains, and
-- the release of two chains.
use deadline_driven_enhancem.Base.{
  ℕ, ◌<◌, ◌≡◌, refl, true, some, [], ◌∷◌, ◌+◌, ◌==◌, if◌then◌else◌, length, All, arith,
}
use deadline_driven_enhancem.PriorityQueue.Insertion.{insertion_queue}
use deadline_driven_enhancem.Executor.{Executor, Outcome}
use deadline_driven_enhancem.Executor.Serving.{IsServing}
use deadline_driven_enhancem.Threads.{Pool, start_threads, take_work, here}
use deadline_driven_enhancem.Threads.Leaks.{NoLeak}
use deadline_driven_enhancem.Experiment.Chains.{IsTimed}
use deadline_driven_enhancem.Experiment.Released.{HasRelease}
use deadline_driven_enhancem.Experiment.Shared.{
  shared_timers, f1tenth_set_up, arb_set_up, arb_test_chains, multi_test_chains,
}
use deadline_driven_enhancem.Experiment.{ChainConfig}
use deadline_driven_enhancem.Experiment.Shared.Muex.{muex_set_up}
use deadline_driven_enhancem.Experiment.Shared.Muex.Written.{IsMuEx}
use deadline_driven_enhancem.Experiment.Shared.Muex.Serving.{muex_set_up-IsServing}
use deadline_driven_enhancem.Experiment.Shared.AllChains.{AllShare}
use deadline_driven_enhancem.Experiment.Shared.Running.{f1tenth_set_up-IsServing, f1tenth-take_work}
use deadline_driven_enhancem.Executable.{PriorityExecutable}
use deadline_driven_enhancem.Executable.Comparator.{Deques, slot}
use deadline_driven_enhancem.Strategy.{Strategy, get_priority_settings}
use deadline_driven_enhancem.Selection.{released, release}
use deadline_driven_enhancem.Selection.Accounting.{IsSound, after_release, pushed}
use deadline_driven_enhancem.Selection.Mirror.{HasVector, release-mirrored}
use deadline_driven_enhancem.Tests.{head, tail, chain, graph, rcl, no_waitables}
use deadline_driven_enhancem.Tests.Experiments.{
  objects, objects-IsFresh, objects-AddsNode, f1tenth_executor, f1tenth_executor-IsNew,
}

arb_test-IsTimed : All IsTimed arb_test_chains
unfolding arb_test_chains
arb_test-IsTimed = ground arith

arb_test-AllShare : AllShare 1 0 arb_test_chains
unfolding arb_test_chains
arb_test-AllShare = ground arith

f1tenth_executor-free : (group : ℕ) → f1tenth_executor.can_be_taken_from group ≡ true
unfolding f1tenth_executor
f1tenth_executor-free group = refl

f1tenth_set_up-IsServing_example :
    (x' : Executor) × (f1tenth_set_up objects arb_test_chains
        (λ c. 5000)
        (λ c. 100)
        f1tenth_executor
      ≡ some x')
    × IsServing x'
    × (x'.can_be_taken_from ≡ f1tenth_executor.can_be_taken_from)
    × ((d : ℕ)
        → d < length arb_test_chains
        → HasRelease x'.strategy ((shared_timers objects).timer_handle d))
f1tenth_set_up-IsServing_example =
    f1tenth_set_up-IsServing objects arb_test_chains 1 (λ c. 5000) (λ c. 100) f1tenth_executor
      objects-IsFresh.vectors objects-AddsNode arb_test-IsTimed arb_test-AllShare
      f1tenth_executor-IsNew (λ c. omega arith)

arb_test_ready :
    (x' : Executor) × (f1tenth_set_up objects arb_test_chains
        (λ c. 5000)
        (λ c. 100)
        f1tenth_executor
      ≡ some x')
    × IsServing x'
    × (x'.can_be_taken_from ≡ f1tenth_executor.can_be_taken_from)
    × ((d : ℕ)
        → d < length arb_test_chains
        → HasRelease x'.strategy ((shared_timers objects).timer_handle d))
arb_test_ready =
    f1tenth_set_up-IsServing objects arb_test_chains 1 (λ c. 5000) (λ c. 100) f1tenth_executor
      objects-IsFresh.vectors objects-AddsNode arb_test-IsTimed arb_test-AllShare
      f1tenth_executor-IsNew (λ c. omega arith)

f1tenth-take_work_example :
    NoLeak (λ g. true) (start_threads arb_test_ready.0)
    × (q : Pool) × (outcome : Outcome) × (take_work insertion_queue graph
          (λ g. true)
          rcl
          no_waitables
          5100
          0
          (start_threads arb_test_ready.0)
        ≡ some (q, outcome))
f1tenth-take_work_example =
    f1tenth-take_work objects arb_test_chains 1 (λ c. 5000) (λ c. 100) f1tenth_executor
      objects-IsFresh.vectors objects-AddsNode arb_test-IsTimed arb_test-AllShare
      f1tenth_executor-IsNew (λ c. omega arith) f1tenth_executor-free insertion_queue graph
      (λ g. true) arb_test_ready.0 (start_threads arb_test_ready.0) arb_test_ready.1 here rcl
      no_waitables 5100 0

-- The chain of Tests as chain 0, and a chain 1 with the vector 6.
abbrev copy : PriorityExecutable
copy = record tail { handle = some 3; chain_id = 1; deadlines = some 6 }

abbrev shared_deques : Deques
shared_deques = record {
  vector = λ v. if v == 5 then 10 ∷ 11 ∷ [] else if v == 6 then 20 ∷ 21 ∷ [] else [];
  deque = λ q. if q == 10 then 1100 ∷ [] else if q == 20 then 1100 ∷ [] else [];
}

abbrev shared_chain : Strategy
shared_chain = record chain {
  is_f1tenth = true;
  priority_map = (1, head) ∷ (2, tail) ∷ (3, copy) ∷ [];
  memory = shared_deques;
}

shared_head-IsSound : IsSound shared_deques.vector 1 head
shared_head-IsSound = record {
  own = refl;
  timed = λ _. (omega arith, omega arith);
  within = λ _. omega arith;
  queues = λ _. (5, refl, refl);
  timer = λ _ _. (1000, refl);
}

shared-HasVector : HasVector 6 shared_chain.priority_map
shared-HasVector = (λ h. cc, (λ h. cc, (λ h. refl, tt)))

at_three : get_priority_settings shared_chain 3 ≡ some copy
unfolding get_priority_settings
at_three = refl

slot_head : slot shared_deques (some 5) 1 ≡ some 11
unfolding slot
slot_head = refl

slot_copy : slot shared_deques (some 6) 1 ≡ some 21
unfolding slot
slot_copy = refl

release-mirrored_example :
    release 1005 shared_chain head
    ≡ some (
      after_release 1005 1000 head,
      pushed
          (pushed shared_deques 11 (released 1005 1000 80 + 100))
          21
          (released 1005 1000 80 + 100),
    )
release-mirrored_example =
    release-mirrored 1005 1 1000 6 11 21 3 shared_chain head copy refl refl shared_head-IsSound refl
      refl shared-HasVector at_three refl slot_head slot_copy

-- arb_set_up is the set-up above.
arb_test-starts :
    arb_set_up objects arb_test_chains (λ c. 5000) (λ c. 100) f1tenth_executor
    ≡ some arb_test_ready.0
unfolding arb_set_up
arb_test-starts = arb_test_ready.1

abbrev muex_chain3 : ChainConfig
muex_chain3 = record { length = 3; period = 140; deadline = 140 }

abbrev muex_chain4 : ChainConfig
muex_chain4 = record { length = 4; period = 160; deadline = 160 }

multi_test-IsMuEx : IsMuEx objects multi_test_chains muex_chain3 muex_chain4
unfolding multi_test_chains
multi_test-IsMuEx = record {
  apart = ground arith;
  chain3 = refl;
  chain4 = refl;
  length3 = refl;
  length4 = refl;
}

multi_test-IsTimed : All IsTimed multi_test_chains
unfolding multi_test_chains
multi_test-IsTimed = ground arith

multi_test-AllShare : AllShare 1 0 multi_test_chains
unfolding multi_test_chains
multi_test-AllShare = ground arith

muex_set_up-IsServing_example :
    (x' : Executor) × (muex_set_up objects multi_test_chains (λ c. 5000) (λ c. 100) f1tenth_executor
      ≡ some x')
    × IsServing x'
    × (x'.can_be_taken_from ≡ f1tenth_executor.can_be_taken_from)
    × ((d : ℕ)
        → d < length multi_test_chains
        → HasRelease x'.strategy ((shared_timers objects).timer_handle d))
muex_set_up-IsServing_example =
    muex_set_up-IsServing objects multi_test_chains 1 f1tenth_executor objects-IsFresh.vectors
      objects-AddsNode multi_test-IsTimed multi_test-AllShare f1tenth_executor-IsNew muex_chain3
      muex_chain4 multi_test-IsMuEx (λ c. 5000) (λ c. 100) (λ c. omega arith)
