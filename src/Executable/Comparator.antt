-- ===== src/Executable/Comparator.antt =====
-- PriorityExecutableComparator of priority_memory_strategy.hpp: `p1` comes after `p2`.
use deadline_driven_enhancem.Base.{
  ℕ, Bool, true, false, Option, none, some, List, [], ◌∷◌, ltb, ◌==◌, if◌then◌else◌, get_elem?,
  length, ◌>>=◌,
}
use deadline_driven_enhancem.Executable.{
  PriorityExecutable, ExecutableScheduleType, chain_independent_priority, chain_aware_priority,
  deadline, default,
}

-- The memory behind `deadlines`: each vector holds the addresses of its deques, each deque holds
-- `uint` deadlines, the front first.
pub record Deques : Type 0 where
  pub vector : ℕ → List ℕ
  pub deque : ℕ → List ℕ

abbrev pub front_or_zero : List ℕ → ℕ
front_or_zero [] = 0
front_or_zero (d ∷ ds) = d

-- `(*p->deadlines)[*p->cur_index]`; `none` is a null vector or an index past its end.
unfoldable pub slot : Deques → Option ℕ → ℕ → Option ℕ
slot m deadlines index = do v ← deadlines; get_elem? (m.vector v) index

abbrev pub same_type : ExecutableScheduleType → ExecutableScheduleType → Bool
same_type chain_independent_priority chain_independent_priority = true
same_type chain_aware_priority chain_aware_priority = true
same_type deadline deadline = true
same_type default default = true
same_type _ _ = false

-- Whether the comparator, where it reads the deques of this executable, has an index within the vector:
-- otherwise the read is undefined behaviour. Who compares executables requires it of them first.
unfoldable pub reads_in_range : Deques → PriorityExecutable → Bool
reads_in_range m e =
    if same_type e.sched_type deadline
    then (elim e.deadlines [ none ↦ true | some v ↦ ltb e.cur_index (length (m.vector v)) ])
    else true

-- The deadline that the comparator reads, 0 where the executable has none or its deque is empty; the
-- index is within the vector.
unfoldable pub front_deadline : Deques → PriorityExecutable → ℕ
unfolding slot
front_deadline m e = elim (slot m e.deadlines e.cur_index) [
  | none ↦ 0
  | some q ↦ front_or_zero (m.deque q)
]

-- The comparison for two DEADLINE executables with these front deadlines and counters.
unfoldable pub deadline_after : ℕ → ℕ → ℕ → ℕ → Bool
deadline_after d1 d2 c1 c2 =
    if d1 == 0 then true else if d2 == 0 then false else if d1 == d2 then ltb c2 c1 else ltb d2 d1

-- The comparison for executables of different schedule types.
unfoldable pub type_after : ExecutableScheduleType → ExecutableScheduleType → Bool
type_after deadline _ = false
type_after chain_independent_priority deadline = true
type_after chain_independent_priority _ = false
type_after chain_aware_priority deadline = true
type_after chain_aware_priority chain_independent_priority = true
type_after chain_aware_priority _ = false
type_after default _ = true

-- The comparison for executables of one schedule type.
unfoldable pub same_type_after :
    ExecutableScheduleType → Deques → PriorityExecutable → PriorityExecutable → Bool
same_type_after chain_independent_priority m p1 p2 = ltb p2.priority p1.priority
same_type_after chain_aware_priority m p1 p2 =
    if p1.priority == p2.priority then false else ltb p1.priority p2.priority
same_type_after deadline m p1 p2 =
    deadline_after (front_deadline m p1) (front_deadline m p2) p1.counter p2.counter
same_type_after default m p1 p2 = false

-- operator(), for pointers that are not null
unfoldable pub runs_after : Deques → PriorityExecutable → PriorityExecutable → Bool
unfolding same_type_after type_after deadline_after
runs_after m p1 p2 =
    if same_type p1.sched_type p2.sched_type
    then same_type_after p1.sched_type m p1 p2
    else type_after p1.sched_type p2.sched_type

-- operator(): a null pointer compares as false
unfoldable pub comparator : Deques → Option PriorityExecutable → Option PriorityExecutable → Bool
unfolding runs_after
comparator m (some p1) (some p2) = runs_after m p1 p2
comparator m none _ = false
comparator m (some p1) none = false
