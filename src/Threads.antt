-- ===== src/Threads.antt =====
-- MultiThreadTimedExecutor in source_code/src/priority_executor/src/priority_executor.cpp: the loop
-- `run` of each thread, as steps on what the threads share.
-- The part of a round under the wait mutex is one step, the execution of a callback another, and the
-- release of a timer, under the mutex again, a third. rclcpp stores true into can_be_taken_from of
-- the group when it has executed an AnyExecutable, and when it destroys one that has a group: for
-- a subscription that is the copy that execute_subscription took by value. A timer that another
-- thread holds is discarded: its AnyExecutable is destroyed when the mutex is free again, which is a
-- step of its own.
pub mod Exclusion
pub mod Safety
pub mod Leaks
pub mod Restored
pub mod Serving
pub mod Progress
pub mod Rest
use deadline_driven_enhancem.Base.{
  ℕ, ◌≡◌, Bool, true, Option, none, some, List, [], ◌∷◌, ◌==◌, if◌then◌else◌, ◌>>=◌,
}
use deadline_driven_enhancem.PriorityQueue.{PriorityQueue}
use deadline_driven_enhancem.Graph.{Graph, AnyExecutable, empty_executable}
use deadline_driven_enhancem.Strategy.Handles.{WaitableSizes, contains, erase_first}
use deadline_driven_enhancem.Executor.Subscription.{
  Subscription, Trace, execute_subscription as timed_execute_subscription,
}
use deadline_driven_enhancem.Executor.{
  Executor, Rcl, Outcome, waited, clear_failed, resize_failed, fill_failed, wait_failed, is_found,
  set_flag, wait_for_work as timed_wait_for_work, next_by_priority, mark,
}

-- The constructor: `hardware` is std::thread::hardware_concurrency().
unfoldable pub number_of_threads : ℕ → ℕ → ℕ
number_of_threads requested hardware =
    let n = if requested == 0 then hardware else requested in if n == 0 then 1 else n

-- Where a thread is in a round of `run`: in front of the mutex, executing what it took, or in front of
-- the release of the timer that it took, or in front of the destruction of what it discarded.
pub data Phase : Type 0 where
  idle : Phase
  executing returning discarding : AnyExecutable → Phase

pub record Pool : Type 0 where
  pub executor : Executor
  pub scheduled_timers : List ℕ
  pub phase : ℕ → Phase

-- spin() of an executor in which none has run: the threads start in front of the wait mutex.
unfoldable pub start_threads : Executor → Pool
start_threads x = record { executor = x; scheduled_timers = []; phase = λ t. idle }

abbrev pub set_phase : ℕ → Phase → Pool → Pool
set_phase t f p = record p { phase = λ u. if t == u then f else p.phase u }

-- can_be_taken_from of the group, if there is one, becomes true.
unfoldable pub reset_group : AnyExecutable → Executor → Executor
reset_group any x = elim any.callback_group [
  | none ↦ x
  | some group ↦ record x { can_be_taken_from = set_flag x.can_be_taken_from group true }
]

-- Guards against multiple threads getting the same timer: then the group is reset under the mutex, and
-- the round ends.
unfoldable pub schedule : ℕ → AnyExecutable → Pool → Pool
unfolding contains reset_group
schedule t any p = elim any.timer [
  | none ↦ set_phase t (executing any) p
  | some timer ↦
      if contains timer p.scheduled_timers
      then set_phase t (discarding any) (record p { executor = reset_group any p.executor })
      else set_phase t (executing any) (record p { scheduled_timers = timer ∷ p.scheduled_timers })
]

unfoldable pub start : ℕ → Pool → Executor × AnyExecutable × Bool → Pool
start t p (x, any, success) =
    let p' = record p { executor = x } in if success then schedule t any p' else p'

-- The callback has run, and the group is reset.
unfoldable pub finish_execution : ℕ → AnyExecutable → Pool → Pool
unfolding reset_group
finish_execution t any p =
    set_phase t (returning any) (record p { executor = reset_group any p.executor })

unfoldable pub release_timer : ℕ → AnyExecutable → Pool → Pool
unfolding erase_first
release_timer t any p = elim any.timer [
  | none ↦ set_phase t idle p
  | some timer ↦
      set_phase t idle (record p { scheduled_timers = erase_first timer p.scheduled_timers })
]

-- The destructor of a discarded AnyExecutable, after the mutex: it resets the group once more.
unfoldable pub discard : ℕ → AnyExecutable → Pool → Pool
unfolding reset_group
discard t any p = set_phase t idle (record p { executor = reset_group any p.executor })

-- The source repeats TimedExecutor::wait_for_work, statement for statement.
abbrev pub wait_for_work : Rcl → WaitableSizes → Executor → Option (Executor × Outcome)
wait_for_work rcl z x = timed_wait_for_work rcl z x

-- And TimedExecutor::execute_subscription.
abbrev execute_subscription : Subscription → Trace
execute_subscription s = timed_execute_subscription s

module _ (pq : PriorityQueue) (g : Graph) (mutually_exclusive : ℕ → Bool) where
  -- This executor always uses the priorities.
  unfoldable pub get_next_ready_executable :
      ℕ → Executor → AnyExecutable → Option (Executor × AnyExecutable × Bool)
  get_next_ready_executable millis x any = do
    (y, any') ← next_by_priority pq g mutually_exclusive millis x any
    x' ← mark pq g mutually_exclusive y any'
    some (x', any', is_found any')

  unfoldable pub after_wait : ℕ → ℕ → Pool → Executor × Outcome → Option (Pool × Outcome)
  after_wait millis t p (x, waited) =
      get_next_ready_executable millis x empty_executable >>= λ r. some (start t p r, waited)
  after_wait millis t p (x, clear_failed) = some (record p { executor = x }, clear_failed)
  after_wait millis t p (x, resize_failed) = some (record p { executor = x }, resize_failed)
  after_wait millis t p (x, fill_failed) = some (record p { executor = x }, fill_failed)
  after_wait millis t p (x, wait_failed) = some (record p { executor = x }, wait_failed)

  -- The part of a round under the wait mutex. An exception of wait_for_work ends it.
  unfoldable pub take_work : Rcl → WaitableSizes → ℕ → ℕ → Pool → Option (Pool × Outcome)
  take_work rcl z millis t p = wait_for_work rcl z p.executor >>= λ w. after_wait millis t p w

  -- The threads take turns in any order.
  pub data Step (p : Pool) : Pool → Type 0 where
    take :
        (rcl : Rcl) (z : WaitableSizes) (millis t : ℕ) (p' : Pool)
        → p.phase t ≡ idle
        → take_work rcl z millis t p ≡ some (p', waited)
        → Step p p'
    execute :
        (t : ℕ) (any : AnyExecutable)
        → p.phase t ≡ executing any
        → Step p (finish_execution t any p)
    return :
        (t : ℕ) (any : AnyExecutable) → p.phase t ≡ returning any → Step p (release_timer t any p)
    destroy : (t : ℕ) (any : AnyExecutable) → p.phase t ≡ discarding any → Step p (discard t any p)

  pub data Reaches (p : Pool) : Pool → Type 0 where
    here : Reaches p p
    further : (q r : Pool) → Reaches p q → Step q r → Reaches p r
