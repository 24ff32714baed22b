-- ===== src/Executable/Order.antt =====
-- What order PriorityExecutableComparator gives: a strict weak order while each DEADLINE executable
-- has a pending deadline, and not even an irreflexive relation where one has none.
use deadline_driven_enhancem.Base.{ℕ, ◌≤◌, ◌<◌, ◌≡◌, ◌↔◌, ◌⊎◌, true, false, arith}
use deadline_driven_enhancem.Executable.{
  PriorityExecutable, ExecutableScheduleType, chain_independent_priority, chain_aware_priority,
  deadline, default,
}
use deadline_driven_enhancem.Executable.Comparator.{Deques, front_deadline, runs_after}

-- The classes in the order in which they run: DEADLINE, then CHAIN_INDEPENDENT_PRIORITY, then
-- CHAIN_AWARE_PRIORITY, then DEFAULT.
abbrev pub rank : ExecutableScheduleType → ℕ
rank deadline = 0
rank chain_independent_priority = 1
rank chain_aware_priority = 2
rank default = 3

-- `a` runs before `b` within one class: by the earlier deadline and then the lower counter, by the
-- lower priority value, or by the higher one.
abbrev pub ClassPrecedes :
    ExecutableScheduleType → Deques → PriorityExecutable → PriorityExecutable → Type 0
ClassPrecedes deadline m a b =
    (front_deadline m a < front_deadline m b)
    ⊎ ((front_deadline m a ≡ front_deadline m b) × (a.counter < b.counter))
ClassPrecedes chain_independent_priority m a b = a.priority < b.priority
ClassPrecedes chain_aware_priority m a b = b.priority < a.priority
ClassPrecedes default m a b = ⊥

abbrev pub Precedes : Deques → PriorityExecutable → PriorityExecutable → Type 0
Precedes m a b =
    (rank a.sched_type < rank b.sched_type)
    ⊎ ((a.sched_type ≡ b.sched_type) × ClassPrecedes a.sched_type m a b)

-- A DEADLINE executable has a deadline at the front of its current deque.
abbrev pub HasDeadline : Deques → PriorityExecutable → Type 0
HasDeadline m e = e.sched_type ≡ deadline → 0 < front_deadline m e

-- For executables that have a pending deadline if they are DEADLINE ones, the comparator orders
-- exactly by class, then by earlier deadline and lower counter (DEADLINE), by lower priority value
-- (CHAIN_INDEPENDENT_PRIORITY) or by higher one (CHAIN_AWARE_PRIORITY).
pub runs_after_iff :
    (m : Deques) (p1 p2 : PriorityExecutable)
    → HasDeadline m p1
    → HasDeadline m p2
    → (runs_after m p1 p2 ≡ true) ↔ Precedes m p2 p1
unfolding runs_after
runs_after_iff m p1 p2 h1 h2 = ground arith

pub runs_after_asymmetric :
    (m : Deques) (a b : PriorityExecutable)
    → HasDeadline m a
    → HasDeadline m b
    → runs_after m a b ≡ true
    → runs_after m b a ≡ false
unfolding runs_after
runs_after_asymmetric m a b ha hb h = ground arith

pub runs_after_transitive :
    (m : Deques) (a b c : PriorityExecutable)
    → HasDeadline m a
    → HasDeadline m b
    → HasDeadline m c
    → runs_after m a b ≡ false
    → runs_after m b c ≡ false
    → runs_after m a c ≡ false
unfolding runs_after
runs_after_transitive m a b c ha hb hc h k = ground arith

-- On executables that have a pending deadline if they are DEADLINE ones, the comparator is a strict
-- weak order: it is asymmetric, and "does not run after" is transitive.
pub runs_after-StrictWeak :
    (m : Deques) (a b c : PriorityExecutable)
    → HasDeadline m a
    → HasDeadline m b
    → HasDeadline m c
    → (runs_after m a b ≡ true → runs_after m b a ≡ false)
      × (runs_after m a b ≡ false → runs_after m b c ≡ false → runs_after m a c ≡ false)
runs_after-StrictWeak m a b c ha hb hc =
    (runs_after_asymmetric m a b ha hb, runs_after_transitive m a b c ha hb hc)

-- Two DEADLINE executables without a pending deadline each compare as running after the other, and
-- each after itself: the comparator is then no strict weak order, as std::priority_queue requires.
pub runs_after-no_deadline :
    (m : Deques) (a b : PriorityExecutable)
    → a.sched_type ≡ deadline
    → b.sched_type ≡ deadline
    → front_deadline m a ≡ 0
    → front_deadline m b ≡ 0
    → (runs_after m a b ≡ true) × (runs_after m b a ≡ true) × (runs_after m a a ≡ true)
unfolding runs_after
runs_after-no_deadline m a b ha hb da db = ground arith

-- What does not run after a DEADLINE executable is one itself, of no later deadline.
pub not_after_deadline :
    (m : Deques) (a b : PriorityExecutable)
    → HasDeadline m a
    → HasDeadline m b
    → b.sched_type ≡ deadline
    → runs_after m a b ≡ false
    → (a.sched_type ≡ deadline) × (front_deadline m a ≤ front_deadline m b)
unfolding runs_after
not_after_deadline m a b ha hb e h = ground arith
