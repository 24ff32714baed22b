-- ===== src/Executable.antt =====
-- The executables of the priority memory strategy: the enums and the class PriorityExecutable of
-- source_code/src/priority_executor/include/priority_executor/priority_memory_strategy.hpp.
-- Handles, deques and vectors of deques are numbers that stand for their addresses. The `int` and
-- `long` settings are natural numbers: the sources pass no negative one.
pub mod Comparator
pub mod Order
use deadline_driven_enhancem.Base.{ℕ, ◌+◌, Bool, true, false, Option, none, some}

pub data ExecutableType : Type 0 where
  subscription service client timer waitable : ExecutableType

pub data ExecutableScheduleType : Type 0 where
  chain_independent_priority chain_aware_priority deadline default : ExecutableScheduleType

-- `sum` and `cur_index` are cells of their own for each executable; `deadlines` is the address of
-- a vector that the executables of a chain share; `release_time` is a cell of its own once it is
-- assigned. Under DEADLINE the source leaves `priority` as it is in memory, here 0.
pub record PriorityExecutable : Type 0 where
  pub handle : Option ℕ
  pub type : ExecutableType
  pub can_be_run : Bool
  pub waitable : Option ℕ
  pub sched_type : ExecutableScheduleType
  pub priority : ℕ
  pub period : ℕ
  pub deadline : ℕ
  pub release_time : Option ℕ
  pub is_first_in_chain : Bool
  pub is_last_in_chain : Bool
  pub cur_index : ℕ
  pub deadlines : Option ℕ
  pub timer_handle : Option ℕ
  pub chain_id : ℕ
  pub counter : ℕ
  pub sum : ℕ

-- The constructor without arguments. (It leaves `cur_index` null; the strategy only overwrites
-- such an executable or sets its `can_be_run`.)
unfoldable pub blank : PriorityExecutable
blank = record {
  handle = none;
  type = subscription;
  can_be_run = true;
  waitable = none;
  sched_type = chain_independent_priority;
  priority = 0;
  period = 1000;
  deadline = 1000;
  release_time = none;
  is_first_in_chain = false;
  is_last_in_chain = false;
  cur_index = 0;
  deadlines = none;
  timer_handle = none;
  chain_id = 0;
  counter = 0;
  sum = 0;
}

with_schedule : PriorityExecutable → ℕ → ExecutableScheduleType → PriorityExecutable
with_schedule e p chain_independent_priority = record e {
  priority = p;
  sched_type = chain_independent_priority;
}
with_schedule e p chain_aware_priority = record e {
  priority = p;
  sched_type = chain_aware_priority;
}
with_schedule e p deadline = record e { period = p; sched_type = deadline }
with_schedule e p default = record e { sched_type = default }

-- PriorityExecutable(h, p, t, sched_type)
unfoldable pub executable : ℕ → ℕ → ExecutableType → ExecutableScheduleType → PriorityExecutable
unfolding blank with_schedule
executable h p t sc = with_schedule (record blank { handle = some h; type = t }) p sc

with_deadline : PriorityExecutable → ℕ → ExecutableScheduleType → PriorityExecutable
with_deadline e d deadline = record e { deadline = d }
with_deadline e d _ = e

-- PriorityExecutable(h, p, d, t, sched_type)
unfoldable pub deadline_executable :
    ℕ → ℕ → ℕ → ExecutableType → ExecutableScheduleType → PriorityExecutable
unfolding executable with_deadline
deadline_executable h p d t sc = with_deadline (executable h p t sc) d sc

unfoldable pub dont_run : PriorityExecutable → PriorityExecutable
dont_run e = record e { can_be_run = false }

unfoldable pub allow_run : PriorityExecutable → PriorityExecutable
allow_run e = elim e.can_be_run [ true ↦ e | false ↦ record e { can_be_run = true } ]

-- The `int` counter stays below 2 ^ 31 for that many activations.
unfoldable pub increment_counter : PriorityExecutable → PriorityExecutable
increment_counter e = record e { counter = e.counter + 1 }
