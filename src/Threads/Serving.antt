-- ===== src/Threads/Serving.antt =====
-- Resetting a callback group, as in priority_executor.cpp, in an executor between two rounds.
use deadline_driven_enhancem.Base.{inl, inr, Option-cases}
use deadline_driven_enhancem.Graph.{AnyExecutable}
use deadline_driven_enhancem.Executor.{Executor}
use deadline_driven_enhancem.Executor.Serving.{IsServing}
use deadline_driven_enhancem.Threads.{reset_group}

pub reset_group-IsServing :
    (any : AnyExecutable) (x : Executor) → IsServing x → IsServing (reset_group any x)
unfolding reset_group
reset_group-IsServing any x v = elim (Option-cases any.callback_group) [
  | inl h ↦ rw (h, reset_group) v
  | inr (other, h) ↦ rw (h, reset_group) (record { set_up = v.set_up; in_step = v.in_step })
]
