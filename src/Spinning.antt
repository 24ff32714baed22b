-- ===== src/Spinning.antt =====
-- TimedExecutor::get_next_executable and TimedExecutor::spin in
-- source_code/src/priority_executor/src/priority_executor.cpp: the loop of the executor with one
-- thread.
-- The rounds of the loop are a list of what the world answers in each, and the end of the list is
-- the end of the context. Callbacks change only what rcl answers later; rclcpp stores true into
-- can_be_taken_from of the group when it has executed an AnyExecutable, and when it destroys one
-- that has a group.
pub mod Safety
use deadline_driven_enhancem.Base.{
  ℕ, ◌≡◌, Bool, true, false, not, ◌&&◌, Option, none, some, List, [], ◌∷◌, ◌++◌, if◌then◌else◌,
  ◌>>=◌,
}
use deadline_driven_enhancem.PriorityQueue.{PriorityQueue}
use deadline_driven_enhancem.Graph.{Graph, AnyExecutable, empty_executable}
use deadline_driven_enhancem.Strategy.Handles.{WaitableSizes}
use deadline_driven_enhancem.Executor.{
  Executor, Rcl, Outcome, waited, clear_failed, resize_failed, fill_failed, wait_failed,
  wait_for_work, get_next_ready_executable,
}
use deadline_driven_enhancem.Threads.{reset_group}

-- What get_next_executable gives: an AnyExecutable and its success, or an exception.
pub data Next : Type 0 where
  next : AnyExecutable → Bool → Next
  thrown : Outcome → Next

-- A round: the condition `rclcpp::ok(context_)`, the answers of rcl, the clock, and whether an
-- exception leaves the execution of an AnyExecutable.
pub record Round : Type 0 where
  pub ok : Bool
  pub rcl : Rcl
  pub waitable_sizes : WaitableSizes
  pub millis : ℕ
  pub throws : AnyExecutable → Bool

-- The executor, its flag `spinning`, and what was executed, the oldest first.
pub record Spinner : Type 0 where
  pub executor : Executor
  pub spinning : Bool
  pub executed : List AnyExecutable

pub data Ending : Type 0 where
  returned already_spinning execution_threw : Ending
  exception : Outcome → Ending

-- What was found is executed, and the AnyExecutable destroyed, also where an exception leaves the
-- execution; an exception is passed on.
unfoldable pub execute_found :
    (AnyExecutable → Bool) → Spinner → Executor × Next → Spinner × Option Ending
unfolding reset_group
execute_found throws s (x, thrown o) = (record s { executor = x }, some (exception o))
execute_found throws s (x, next any false) = (record s { executor = reset_group any x }, none)
execute_found throws s (x, next any true) = (
  record s { executor = reset_group any x; executed = s.executed ++ (any ∷ []) },
  if throws any then some execution_threw else none,
)

-- An exception ends the loop.
unfoldable pub go_on :
    (Spinner → Option (Spinner × Ending)) → Spinner × Option Ending → Option (Spinner × Ending)
go_on rest (s, some ending) = some (s, ending)
go_on rest (s, none) = rest s

module _ (pq : PriorityQueue) (g : Graph) (mutually_exclusive : ℕ → Bool) where
  unfoldable pub after_waiting : ℕ → AnyExecutable → Executor × Outcome → Option (Executor × Next)
  after_waiting millis any (x, waited) = do
    (x', any', success) ← get_next_ready_executable pq g mutually_exclusive millis x any
    some (x', next any' success)
  after_waiting millis any (x, clear_failed) = some (x, thrown clear_failed)
  after_waiting millis any (x, resize_failed) = some (x, thrown resize_failed)
  after_waiting millis any (x, fill_failed) = some (x, thrown fill_failed)
  after_waiting millis any (x, wait_failed) = some (x, thrown wait_failed)

  unfoldable pub get_next_executable :
      Rcl → WaitableSizes → ℕ → Executor → AnyExecutable → Option (Executor × Next)
  get_next_executable rcl z millis x any = do w ← wait_for_work rcl z x; after_waiting millis any w

  unfoldable pub spin_loop : List Round → Spinner → Option (Spinner × Ending)
  unfolding get_next_executable execute_found go_on
  spin_loop [] s = some (s, returned)
  spin_loop (r ∷ rounds) s = if not (r.ok && s.spinning) then some (s, returned) else (do
    n ← get_next_executable r.rcl r.waitable_sizes r.millis s.executor empty_executable
    go_on (λ s'. spin_loop rounds s') (execute_found r.throws s n))

  -- The flag is cleared on each way out, but not where it was set already.
  unfoldable pub spin : List Round → Spinner → Option (Spinner × Ending)
  spin rounds s = if s.spinning then some (s, already_spinning) else (do
    (s', ending) ← spin_loop rounds (record s { spinning = true })
    some (record s' { spinning = false }, ending))
