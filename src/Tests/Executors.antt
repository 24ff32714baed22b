-- ===== src/Tests/Executors.antt =====
-- Tests of the executors and of the threads, on the executor and the pool of Tests.
use deadline_driven_enhancem.Base.{
  ℕ, ◌≤◌, arith, ◌↔◌, not, ◌&&◌, ◌||◌, if◌then◌else◌, false, ◌≡◌, refl, Bool, true, some,
}
use deadline_driven_enhancem.PriorityQueue.Insertion.{insertion_queue}
use deadline_driven_enhancem.Graph.{AnyExecutable, empty_executable}
use deadline_driven_enhancem.Strategy.Handles.{remove_guard_condition}
use deadline_driven_enhancem.Executor.{
  Executor, Outcome, waited, clean_up, wait_for_work, get_next_ready_executable,
}
use deadline_driven_enhancem.Executor.Taking.{Ready, get_next_ready_executable-Ready}
use deadline_driven_enhancem.Executor.Subscription.{
  Subscription, not_taken, is_exception, take_failed, take_loan, take_and_do_error_handling,
  is_taken, execute_subscription, attempt, handled, given_back, null_given_back,
  execute_subscription-handled, execute_subscription-null_given_back,
}
use deadline_driven_enhancem.Threads.{Pool, idle, Step, take, take_work, Reaches, here, further}
use deadline_driven_enhancem.Threads.Exclusion.{IsExclusive}
use deadline_driven_enhancem.Threads.Safety.{IsInitial, reachable-IsExclusive}
use deadline_driven_enhancem.Tests.{graph, executor, rcl, no_waitables, pool}
use deadline_driven_enhancem.Tests.Selections.{chain-IsSetUp}

get_next_ready_executable-Ready_example :
    (x' : Executor) × (any : AnyExecutable) × (success : Bool) × (get_next_ready_executable
        insertion_queue graph
        (λ g. true)
        1005
        executor
        empty_executable
      ≡ some (x', any, success))
    × Ready (λ g. true) executor x' any success
get_next_ready_executable-Ready_example =
    get_next_ready_executable-Ready insertion_queue graph (λ g. true) 1005 executor chain-IsSetUp

pub took :
    (p' : Pool) × (take_work insertion_queue graph (λ g. true) rcl no_waitables 1005 0 pool
      ≡ some (p', waited))
    × ((t : ℕ) → 1 ≤ t → p'.phase t ≡ idle)
unfolding take_work wait_for_work deadline_driven_enhancem.Strategy.Collect.collect_entities
    deadline_driven_enhancem.Threads.after_wait deadline_driven_enhancem.Executor.fill_and_wait
    deadline_driven_enhancem.Strategy.Handles.WaitSet.add_handles_to_wait_set remove_guard_condition
    deadline_driven_enhancem.Strategy.get_and_reset_priority
    deadline_driven_enhancem.Strategy.Handles.clear_handles
    deadline_driven_enhancem.Threads.get_next_ready_executable
    deadline_driven_enhancem.Executor.next_by_priority
    deadline_driven_enhancem.Selection.get_next_executable insertion_queue
    deadline_driven_enhancem.Strategy.Handles.remove_null_handles
    deadline_driven_enhancem.Executable.Comparator.front_deadline
    deadline_driven_enhancem.Selection.dispatch deadline_driven_enhancem.Selection.account
    deadline_driven_enhancem.Selection.release
    deadline_driven_enhancem.Executable.Comparator.comparator
    deadline_driven_enhancem.Executable.Comparator.deadline_after
    deadline_driven_enhancem.Executable.Comparator.runs_after
    deadline_driven_enhancem.Executable.Comparator.same_type_after
    deadline_driven_enhancem.Executable.Comparator.slot
    deadline_driven_enhancem.Executable.Comparator.type_after
    deadline_driven_enhancem.Executable.allow_run deadline_driven_enhancem.Executable.blank
    deadline_driven_enhancem.Executable.dont_run deadline_driven_enhancem.Executable.executable
    deadline_driven_enhancem.Executable.increment_counter clean_up
    deadline_driven_enhancem.Executor.finish_wait deadline_driven_enhancem.Executor.graph
    deadline_driven_enhancem.Executor.mark deadline_driven_enhancem.Executor.sizes
    deadline_driven_enhancem.Selection.count_run deadline_driven_enhancem.Selection.key_comparator
    deadline_driven_enhancem.Selection.max_chain_num deadline_driven_enhancem.Selection.next_index
    deadline_driven_enhancem.Selection.offer_entity deadline_driven_enhancem.Selection.push_deadline
    deadline_driven_enhancem.Selection.released deadline_driven_enhancem.Selection.retire
    deadline_driven_enhancem.Selection.rotate deadline_driven_enhancem.Selection.select
    deadline_driven_enhancem.Strategy.Handles.WaitSet.add_all
    deadline_driven_enhancem.Strategy.Handles.contains
    deadline_driven_enhancem.Strategy.Handles.erase_first
    deadline_driven_enhancem.Strategy.Handles.erase_null
    deadline_driven_enhancem.Strategy.Handles.number_of_guard_conditions
    deadline_driven_enhancem.Strategy.Handles.number_of_ready_clients
    deadline_driven_enhancem.Strategy.Handles.number_of_ready_events
    deadline_driven_enhancem.Strategy.Handles.number_of_ready_services
    deadline_driven_enhancem.Strategy.Handles.number_of_ready_subscriptions
    deadline_driven_enhancem.Strategy.Handles.number_of_ready_timers
    deadline_driven_enhancem.Strategy.Handles.poll
    deadline_driven_enhancem.Strategy.get_priority_settings deadline_driven_enhancem.Strategy.lookup
    deadline_driven_enhancem.Strategy.lookup_or_blank deadline_driven_enhancem.Strategy.modify
    deadline_driven_enhancem.Strategy.put deadline_driven_enhancem.Strategy.store
    deadline_driven_enhancem.Threads.reset_group deadline_driven_enhancem.Threads.schedule
    deadline_driven_enhancem.Threads.start
took = (_, refl, λ t h. ground arith)

-- Before the first step, and after the first thread has taken work.
pub pool-IsInitial : IsInitial (λ g. true) pool
pool-IsInitial = record { idle = λ t. refl; timers = refl }

reachable-IsExclusive_example : IsExclusive (λ g. true) took.0
reachable-IsExclusive_example =
    reachable-IsExclusive (λ g. true) insertion_queue graph pool took.0 pool-IsInitial
      (further pool took.0 here (take rcl no_waitables 1005 0 took.0 refl took.1)) (tt, tt)

-- A subscription that loans messages and has none.
abbrev loaning : Subscription
loaning = record {
  is_serialized = false;
  can_loan_messages = true;
  take_serialized = not_taken;
  take_loaned_message = take_failed;
  throws_rcl_error = true;
  take_type_erased = not_taken;
  returns_loan = λ held. held;
  handle_throws = false;
}

execute_subscription-handled_example :
    (handled (execute_subscription loaning).0 ≡ (if is_taken (attempt loaning) then 1 else 0))
    × (((execute_subscription loaning).1 ≡ true) ↔ (
        (is_exception (attempt loaning) || is_taken (attempt loaning) && loaning.handle_throws)
        ≡ true))
    × ((execute_subscription loaning).1 ≡ false → given_back (execute_subscription loaning).0 ≡ 1)
unfolding take_loan
execute_subscription-handled_example = execute_subscription-handled loaning

loaning_stays : (execute_subscription loaning).1 ≡ false
unfolding execute_subscription take_loan take_and_do_error_handling
loaning_stays = refl

execute_subscription-null_given_back_example :
    null_given_back (execute_subscription loaning).0
    ≡ (if not (is_taken (attempt loaning)) && not (execute_subscription loaning).1 then 1 else 0)
execute_subscription-null_given_back_example = execute_subscription-null_given_back loaning
