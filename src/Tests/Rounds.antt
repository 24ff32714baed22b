-- ===== src/Tests/Rounds.antt =====
-- Tests of rounds of the executors and of the threads, on the executor and the pool of Tests.
use deadline_driven_enhancem.Base.{◌≡◌, refl, true, false, some, List, [], ◌∷◌}
use deadline_driven_enhancem.PriorityQueue.Insertion.{insertion_queue}
use deadline_driven_enhancem.Executor.{Executor, Outcome, wait_for_work}
use deadline_driven_enhancem.Executor.Serving.{IsServing, wait_for_work-IsServing}
use deadline_driven_enhancem.Spinning.{Round, Spinner}
use deadline_driven_enhancem.Threads.{Pool, take, take_work, Reaches, here, further}
use deadline_driven_enhancem.Threads.Leaks.{NoLeak}
use deadline_driven_enhancem.Threads.Restored.{reachable-NoLeak}
use deadline_driven_enhancem.Threads.Progress.{reachable-take_work}
use deadline_driven_enhancem.Tests.{graph, executor, rcl, no_waitables, pool}
use deadline_driven_enhancem.Tests.Selections.{chain-IsSetUp}
use deadline_driven_enhancem.Tests.Executors.{took, pool-IsInitial}

executor-IsServing : IsServing executor
executor-IsServing = record { set_up = chain-IsSetUp; in_step = refl }

wait_for_work-IsServing_example :
    (x' : Executor) × (o : Outcome) × (wait_for_work rcl no_waitables executor ≡ some (x', o))
    × (x'.can_be_taken_from ≡ executor.can_be_taken_from)
    × IsServing x'
wait_for_work-IsServing_example =
    wait_for_work-IsServing rcl no_waitables executor executor-IsServing

abbrev spinner : Spinner
spinner = record { executor = executor; spinning = false; executed = [] }

abbrev rounds : List Round
rounds =
    record {
      ok = true;
      rcl = rcl;
      waitable_sizes = no_waitables;
      millis = 1005;
      throws = λ any. false;
    }
    ∷ []

took-reached : Reaches insertion_queue graph (λ g. true) pool took.0
took-reached = further pool took.0 here (take rcl no_waitables 1005 0 took.0 refl took.1)

reachable-NoLeak_example : NoLeak (λ g. true) took.0
reachable-NoLeak_example =
    reachable-NoLeak (λ g. true) insertion_queue graph pool took.0 pool-IsInitial (λ group. refl)
      took-reached

reachable-take_work_example :
    (q : Pool) × (o : Outcome) × (take_work insertion_queue graph
        (λ g. true)
        rcl
        no_waitables
        1010
        1
        took.0
      ≡ some (q, o))
    × IsServing q.executor
reachable-take_work_example =
    reachable-take_work insertion_queue graph (λ g. true) pool took.0 took-reached
      executor-IsServing rcl no_waitables 1010 1
