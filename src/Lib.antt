-- ===== src/Lib.antt =====
-- A model of the deadline-driven ROS 2 executors of this repository and of what makes them correct.
--
-- The program gives every subscription, service, client, timer and waitable of a ROS 2 node settings
-- (a PriorityExecutable). In each round an executor asks the PriorityMemoryStrategy to collect the
-- handles of its nodes, lets rcl wait for them, has the strategy drop those that are not ready, takes
-- the next executable from a priority queue, and runs it. A chain of executables with a deadline
-- shares a vector of deques, one for each of its instances that fit in a deadline: its first
-- executable pushes the deadline of the next instance, its last one pops that of the instance it
-- ends, and the comparator of the queue compares the fronts.
--
-- The files, for source_code/src/priority_executor:
--   Executable       PriorityExecutable, PriorityExecutableComparator
--                    (include/priority_executor/priority_memory_strategy.hpp); Order: its order
--   PriorityQueue    what the code relies on of std::priority_queue; Insertion: an instance of it
--   Graph            what it reads of rclcpp: groups, lookups by handle, AnyExecutable
--   Strategy         PriorityMemoryStrategy: state and settings; Settings: their laws;
--                    Handles: guard conditions, handle vectors, wait set; Collect:
--                    collect_entities; NextReady: get_next_subscription and the like
--   Selection        PriorityMemoryStrategy::get_next_executable: the choice (Choice,
--                    EarliestDeadline) and the bookkeeping (Release, Accounting,
--                    Soundness, Totality, Cycle; Mirror: the F1TENTH case)
--   Executor         TimedExecutor (src/priority_executor.cpp): wait_for_work (Waiting),
--                    get_next_ready_executable (Free, Branches, Taking), execute_subscription
--                    (Subscription), and what a round keeps (Collecting, Rounds, Serving)
--   Spinning         TimedExecutor::get_next_executable and spin (src/priority_executor.cpp)
--   Threads          MultiThreadTimedExecutor::run (src/priority_executor.cpp) as steps of threads:
--                    take work, execute it, return its timer, destroy what was discarded;
--                    Exclusion, Safety: who may run what; Leaks, Restored: nothing is left
--                    behind; Serving, Progress, Rest: threads go on, and come to rest
--   ResponseTime     the analysis in source_code/response_time_model/theorem_2.cpp (Demand, Search), and
--                    of theorem_1.cpp there (First, Ending); the chains of both (Data)
--   DefaultExecutor  ROSDefaultExecutor (src/default_executor.cpp) and the log
--                    (source_code/src/simple_timer/src/rt-sched.cpp); Releases: what spin logs
--   Experiment       main of src/dy_2.cpp, which sets up DEADLINE chains (Settings, Chains, Making,
--                    Release, Released, Running), of src/multi_arb.cpp (MultiArb), of src/st_2.cpp
--                    (Static), and of src/multi_static1.cpp, arb_static.cpp and muex_static1.cpp, where
--                    two chains share a publisher (Static.Shared); Shared: of src/multi_test.cpp and
--                    arb_test.cpp, the same with deadlines, for F1TENTH, and of src/muex_test.cpp
--                    with a MuExWorker (Muex); Output: the files that they write
--   TestNodes        the nodes of the experiments (src/test_nodes.cpp): Decimal and Topics: their
--                    topics; Relay: a message along a chain; MutuallyExclusive: MuExWorker
--   CycleTimer, PeriodTimer
--                    source_code/src/simple_timer/src/cycle_timer.cpp, period_timer.cpp
--   Tests            runs on concrete chains
--   Base             numbers, lists, faults
--
-- Handles, entities, groups, deques and vectors of deques are numbers for their addresses. `none`
-- as the result of an operation is undefined behaviour: a null or dangling pointer, an index past
-- an end, which the reads of the comparator can be as well, a division by zero, a failed assertion;
-- or a release time that assign_release_time narrows to a negative int. Clock readings and the
-- replies of rcl and rclcpp are arguments. Other `int` and `long` values are natural numbers that
-- do not overflow; a deque holds 32-bit numbers and wraps. What std::priority_queue compares is not
-- fixed: an operation that may compare requires that a comparison of any two of its handles reads
-- in range. Loops go through lists; the search for a time gap in the analysis runs on fuel, which
-- is the demand bound plus two, and the digits of a number on fuel one above it; both are shown to
-- be enough.
--
-- Not modelled: printing and allocation; CPU affinity and scheduling classes; the callbacks of
-- other programs than the experiments; the end of the threads of the multi-threaded executor, by an
-- exception of a callback, which ends the program, or otherwise; the programs that are not built
-- (src/test1.cpp, multi_test1.cpp, usage_example.cpp, f1tenth_test.cpp, test_publisher.cpp,
-- df_test.cpp, ex_test.cpp); the parameters of the experiments; the workload.
pub mod Base
pub mod Executable
pub mod PriorityQueue
pub mod Graph
pub mod Strategy
pub mod Selection
pub mod Executor
pub mod Spinning
pub mod Threads
pub mod DefaultExecutor
pub mod Experiment
pub mod TestNodes
pub mod ResponseTime
pub mod CycleTimer
pub mod PeriodTimer
pub mod Tests
