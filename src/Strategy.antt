-- ===== src/Strategy.antt =====
-- The state of PriorityMemoryStrategy in
-- source_code/src/priority_executor/include/priority_executor/priority_memory_strategy.hpp, its map
-- of settings and the operations that configure it.
pub mod Settings
pub mod Handles
pub mod Collect
pub mod NextReady
use deadline_driven_enhancem.Base.{
  ℕ, ◌≡◌, Bool, true, Option, none, some, List, [], ◌∷◌, ◌==◌, if◌then◌else◌, ◌>>=◌,
}
use deadline_driven_enhancem.Executable.{
  PriorityExecutable, ExecutableType, ExecutableScheduleType, chain_independent_priority, deadline,
  blank, executable, deadline_executable,
}
use deadline_driven_enhancem.Executable.Comparator.{Deques}

-- `priority_map`, in its order of iteration; a key is the address of a handle. The memory of the
-- deques belongs to the callers of assign_deadlines_queue. `all_executables_` holds pointers into
-- `priority_map`, here the keys.
pub record Strategy : Type 0 where
  pub is_f1tenth : Bool
  pub guard_conditions : List ℕ
  pub subscription_handles : List ℕ
  pub service_handles : List ℕ
  pub client_handles : List ℕ
  pub timer_handles : List ℕ
  pub waitable_handles : List ℕ
  pub priority_map : List (ℕ × PriorityExecutable)
  pub all_executables : List ℕ
  pub memory : Deques

unfoldable pub lookup : ℕ → List (ℕ × PriorityExecutable) → Option PriorityExecutable
lookup k [] = none
lookup k ((j, e) ∷ m) = if j == k then some e else lookup k m

unfoldable pub put :
    ℕ → PriorityExecutable → List (ℕ × PriorityExecutable) → List (ℕ × PriorityExecutable)
put k e [] = (k, e) ∷ []
put k e ((j, f) ∷ m) = if j == k then (k, e) ∷ m else (j, f) ∷ put k e m

-- `priority_map[k]` makes a blank executable where there is none.
unfoldable pub lookup_or_blank : ℕ → List (ℕ × PriorityExecutable) → PriorityExecutable
unfolding lookup blank
lookup_or_blank k m = elim (lookup k m) [ none ↦ blank | some e ↦ e ]

unfoldable pub modify :
    (PriorityExecutable → PriorityExecutable)
    → ℕ
    → List (ℕ × PriorityExecutable)
    → List (ℕ × PriorityExecutable)
unfolding put lookup_or_blank
modify f k m = put k (f (lookup_or_blank k m)) m

-- `nullptr` is `none`.
unfoldable pub get_priority_settings : Strategy → ℕ → Option PriorityExecutable
unfolding lookup
get_priority_settings s k = lookup k s.priority_map

unfoldable pub get_priority : Strategy → ℕ → ℕ
unfolding get_priority_settings
get_priority s k = elim (get_priority_settings s k) [ none ↦ 0 | some e ↦ e.priority ]

-- `*p = e` for the executable `p` of key `k`
unfoldable pub store : ℕ → PriorityExecutable → Strategy → Strategy
unfolding put
store k e s = record s { priority_map = put k e s.priority_map }

abbrev pub in_chain : ℕ → PriorityExecutable → PriorityExecutable
in_chain c e = record e { chain_id = c }

-- set_executable_priority(handle, priority, t)
unfoldable pub set_executable_priority : Strategy → ℕ → ℕ → ExecutableType → Strategy
unfolding store executable
set_executable_priority s k p t = store k (executable k p t chain_independent_priority) s

-- set_executable_priority(handle, priority, t, sc, chain_index)
unfoldable pub set_chain_priority :
    Strategy → ℕ → ℕ → ExecutableType → ExecutableScheduleType → ℕ → Strategy
unfolding store executable modify
set_chain_priority s k p t sc chain_index =
    let s' = store k (executable k p t sc) s in
    record s' { priority_map = modify (in_chain chain_index) k s'.priority_map }

unfoldable pub set_executable_deadline : Strategy → ℕ → ℕ → ℕ → ExecutableType → ℕ → Strategy
unfolding store deadline_executable modify
set_executable_deadline s k p d t chain =
    let s' = store k (deadline_executable k p d t deadline) s in
    record s' { priority_map = modify (in_chain chain) k s'.priority_map }

-- The setters below write through the pointer of get_priority_settings, which may be null.
unfoldable pub set_first_in_chain : Strategy → ℕ → Option Strategy
unfolding get_priority_settings store
set_first_in_chain s k = do
  e ← get_priority_settings s k
  some (store k (record e { is_first_in_chain = true }) s)

unfoldable pub set_last_in_chain : Strategy → ℕ → Option Strategy
unfolding get_priority_settings store
set_last_in_chain s k = do
  e ← get_priority_settings s k
  some (store k (record e { is_last_in_chain = true }) s)

unfoldable pub assign_deadlines_queue : Strategy → ℕ → ℕ → Option Strategy
unfolding get_priority_settings store
assign_deadlines_queue s k deadlines = do
  e ← get_priority_settings s k
  some (store k (record e { deadlines = some deadlines }) s)

-- The parameter is an `int`; the programs convert to it.
unfoldable pub assign_release_time : Strategy → ℕ → ℕ → Option Strategy
unfolding get_priority_settings store
assign_release_time s k release_time = do
  e ← get_priority_settings s k
  some (store k (record e { release_time = some release_time }) s)

-- get_and_reset_priority: the new strategy; the pointer that it returns is that of key `k`.
unfoldable pub get_and_reset_priority : Strategy → ℕ → ExecutableType → Strategy
unfolding get_priority_settings store executable
get_and_reset_priority s k t = elim (get_priority_settings s k) [
  | none ↦ store k (executable k 0 t chain_independent_priority) s
  | some e ↦ s
]

-- The strategy of the constructors.
unfoldable pub init : Strategy
init = record {
  is_f1tenth = Bool.false;
  guard_conditions = [];
  subscription_handles = [];
  service_handles = [];
  client_handles = [];
  timer_handles = [];
  waitable_handles = [];
  priority_map = [];
  all_executables = [];
  memory = record { vector = λ _. []; deque = λ _. [] };
}
