-- ===== src/Executor/Serving.antt =====
-- The invariant of the executors in priority_executor.cpp between two rounds.

use deadline_driven_enhancem.Base.{◌≡◌, length, some}
use deadline_driven_enhancem.Strategy.Handles.{WaitableSizes}
use deadline_driven_enhancem.Selection.Totality.{IsSetUp, sound-in_range}
use deadline_driven_enhancem.Executor.{Executor, Rcl, Outcome, wait_for_work}
use deadline_driven_enhancem.Executor.Collecting.{collect_entities-IsCollected}
use deadline_driven_enhancem.Executor.Waiting.{wait_for_work-Waited}
use deadline_driven_enhancem.Executor.Rounds.{wait_for_work-IsSetUp}

-- A strategy that is set up, and a guard condition for each weak node.
pub record IsServing (x : Executor) : Type 0 where
  pub set_up : IsSetUp x.strategy
  pub in_step : length x.weak_nodes ≡ length x.guard_conditions

-- From an executor with a guard condition for each weak node and a strategy that is set up,
-- wait_for_work ends without a fault, by a return or an exception of rcl, whatever nodes have
-- expired and whatever rcl answers; then the strategy is set up again, with settings for each handle
-- in its queue, there is a guard condition for each weak node, and the flags of the groups are as
-- they were.
pub wait_for_work-IsServing :
    (rcl : Rcl) (z : WaitableSizes) (x : Executor)
    → IsServing x
    → (x' : Executor) × (o : Outcome) × (wait_for_work rcl z x ≡ some (x', o))
      × (x'.can_be_taken_from ≡ x.can_be_taken_from)
      × IsServing x'
wait_for_work-IsServing rcl z x v =
    let c = collect_entities-IsCollected x.can_be_taken_from x.strategy x.weak_nodes v.set_up in
    let (x', o, done, w) =
      wait_for_work-Waited rcl z x v.in_step (sound-in_range _ _ c.set_up.sound) in
    (
      x',
      o,
      done,
      w.flags,
      record { set_up = wait_for_work-IsSetUp rcl z x x' o done v.set_up; in_step = w.in_step },
    )
