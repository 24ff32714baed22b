-- ===== src/Executor.antt =====
-- TimedExecutor and MultiThreadTimedExecutor in
-- source_code/src/priority_executor/src/priority_executor.cpp: waiting for work, and taking the next
-- executable. The loops that run executables are in Threads.
pub mod Waiting
pub mod Free
pub mod Branches
pub mod Taking
pub mod Subscription
pub mod Collecting
pub mod Rounds
pub mod Serving
use deadline_driven_enhancem.Base.{
  ℕ, Bool, true, false, not, ◌&&◌, ◌||◌, Option, none, some, List, [], ◌∷◌, ◌==◌, if◌then◌else◌,
  ◌>>=◌, ◌>>◌, require,
}
use deadline_driven_enhancem.PriorityQueue.{PriorityQueue}
use deadline_driven_enhancem.Graph.{Graph, Node, AnyExecutable}
use deadline_driven_enhancem.Strategy.{Strategy}
use deadline_driven_enhancem.Strategy.Handles.{
  Ready, WaitableSizes, clear_handles, remove_guard_condition, remove_null_handles,
  number_of_ready_subscriptions, number_of_guard_conditions, number_of_ready_timers,
  number_of_ready_clients, number_of_ready_services, number_of_ready_events,
}
use deadline_driven_enhancem.Strategy.Handles.WaitSet.{Kind, WaitSet, add_handles_to_wait_set}
use deadline_driven_enhancem.Strategy.Collect.{collect_entities}
use deadline_driven_enhancem.Strategy.NextReady.{
  get_next_subscription, get_next_service, get_next_client, get_next_timer, get_next_waitable,
}
use deadline_driven_enhancem.Selection

-- The state of an executor, with `can_be_taken_from` of the callback groups, which it shares with
-- rclcpp. `guard_conditions` has one for each weak node, in the same order.
pub record Executor : Type 0 where
  pub strategy : Strategy
  pub weak_nodes : List (Option Node)
  pub guard_conditions : List ℕ
  pub can_be_taken_from : ℕ → Bool
  pub use_priorities : Bool

unfoldable pub set_use_priorities : Bool → Executor → Executor
set_use_priorities use_prio x = record x { use_priorities = use_prio }

-- The loop that cleans up expired nodes. `none` is an iterator past the end of the guard conditions.
unfoldable pub clean_up :
    List (Option Node) → List ℕ → Strategy → Option (List (Option Node) × List ℕ × Strategy)
clean_up [] gcs s = some ([], gcs, s)
clean_up (weak ∷ nodes) [] s = none
clean_up (none ∷ nodes) (gc ∷ gcs) s = clean_up nodes gcs (remove_guard_condition s gc)
clean_up (some n ∷ nodes) (gc ∷ gcs) s = do
  (nodes', gcs', s') ← clean_up nodes gcs s
  some (some n ∷ nodes', gc ∷ gcs', s')

-- The sizes given to rcl_wait_set_resize.
pub record Sizes : Type 0 where
  pub subscriptions : ℕ
  pub guard_conditions : ℕ
  pub timers : ℕ
  pub clients : ℕ
  pub services : ℕ
  pub events : ℕ

pub data WaitStatus : Type 0 where
  ok timeout empty failed : WaitStatus

-- The calls of rcl: which succeed, and what rcl_wait reports and leaves for a wait set.
pub record Rcl : Type 0 where
  pub wait_set_clear : Bool
  pub wait_set_resize : Sizes → Bool
  pub accepts : Kind × ℕ → Bool
  pub wait : WaitSet → WaitStatus × Ready

-- How wait_for_work ends: it returns, or an exception leaves it.
pub data Outcome : Type 0 where
  waited clear_failed resize_failed fill_failed wait_failed : Outcome

unfoldable pub sizes : Strategy → WaitableSizes → Sizes
unfolding number_of_ready_subscriptions number_of_guard_conditions number_of_ready_timers
    number_of_ready_clients number_of_ready_services number_of_ready_events
sizes s z = record {
  subscriptions = number_of_ready_subscriptions s z;
  guard_conditions = number_of_guard_conditions s z;
  timers = number_of_ready_timers s z;
  clients = number_of_ready_clients s z;
  services = number_of_ready_services s z;
  events = number_of_ready_events s z;
}

-- After rcl_wait: an empty wait set and a timeout are no errors.
unfoldable pub finish_wait : WaitStatus × Ready → Executor → Executor × Outcome
finish_wait (failed, ready) x = (x, wait_failed)
finish_wait (ok, ready) x = (record x { strategy = remove_null_handles x.strategy ready }, waited)
finish_wait (timeout, ready) x =
    (record x { strategy = remove_null_handles x.strategy ready }, waited)
finish_wait (empty, ready) x =
    (record x { strategy = remove_null_handles x.strategy ready }, waited)

-- From rcl_wait_set_clear to the end.
unfoldable pub fill_and_wait : Rcl → WaitableSizes → Executor → Executor × Outcome
unfolding finish_wait sizes
fill_and_wait rcl z x =
    if not rcl.wait_set_clear
    then (x, clear_failed)
    else if not (rcl.wait_set_resize (sizes x.strategy z))
    then (x, resize_failed)
    else let (w, filled) = add_handles_to_wait_set rcl.accepts x.strategy [] in
      if not filled then (x, fill_failed) else finish_wait (rcl.wait w) x

-- push() of collect_entities may compare any two of the handles that it queues; the deques and the
-- indices are still what they were at the push when it has ended.
unfoldable pub wait_for_work : Rcl → WaitableSizes → Executor → Option (Executor × Outcome)
unfolding clean_up
wait_for_work rcl z x = do
  let (s, invalid) = collect_entities x.can_be_taken_from (clear_handles x.strategy) x.weak_nodes
  require (Selection.queue_in_range s s.all_executables)
  (nodes, gcs, s') ←
      if invalid
      then clean_up x.weak_nodes x.guard_conditions s
      else some (x.weak_nodes, x.guard_conditions, s)
  some
      (fill_and_wait rcl z (record x { strategy = s'; weak_nodes = nodes; guard_conditions = gcs }))

abbrev pub is_some : Option ℕ → Bool
is_some none = false
is_some (some x) = true

-- `timer || subscription || service || client || waitable`
abbrev pub is_found : AnyExecutable → Bool
is_found any =
    is_some any.timer
    || is_some any.subscription
    || is_some any.service
    || is_some any.client
    || is_some any.waitable

-- `can_be_taken_from().store(b)` on a group.
abbrev pub set_flag : (ℕ → Bool) → ℕ → Bool → (ℕ → Bool)
set_flag flags group b j = if group == j then b else flags j

-- What rclcpp knows of the groups: the lookups, but the flags, and which groups are
-- CallbackGroupType::MutuallyExclusive.
module _ (pq : PriorityQueue) (g : Graph) (mutually_exclusive : ℕ → Bool) where
  unfoldable pub graph : Executor → Graph
  graph x = record g { can_be_taken_from = x.can_be_taken_from }

  -- The branch of get_next_ready_executable for an executor that uses priorities.
  unfoldable pub next_by_priority : ℕ → Executor → AnyExecutable → Option (Executor × AnyExecutable)
  unfolding graph
  next_by_priority millis x any = do
    (s, any') ← Selection.get_next_executable pq (graph x) millis x.strategy any
    some (record x { strategy = s }, any')

  -- The branch for an executor that does not: timers, subscriptions, services, clients, waitables.
  unfoldable pub next_by_kind : Executor → AnyExecutable → Executor × AnyExecutable
  unfolding graph
  next_by_kind x any =
      let (s1, any1) = get_next_timer (graph x) x.strategy any in
      if is_some any1.timer
      then (record x { strategy = s1 }, any1)
      else let (s2, any2) = get_next_subscription (graph x) s1 any1 in
        if is_some any2.subscription
        then (record x { strategy = s2 }, any2)
        else let (s3, any3) = get_next_service (graph x) s2 any2 in
          if is_some any3.service
          then (record x { strategy = s3 }, any3)
          else let (s4, any4) = get_next_client (graph x) s3 any3 in
            if is_some any4.client
            then (record x { strategy = s4 }, any4)
            else let (s5, any5) = get_next_waitable (graph x) s4 any4 in
              (record x { strategy = s5 }, any5)

  -- The end of get_next_ready_executable: a mutually exclusive group is marked as in use. `none` is
  -- the failure of the assertion that it may be taken from.
  unfoldable pub mark : Executor → AnyExecutable → Option Executor
  mark x any = elim any.callback_group [
    | none ↦ some x
    | some group ↦
        if is_found any && mutually_exclusive group
        then (do
          require (x.can_be_taken_from group)
          some (record x { can_be_taken_from = set_flag x.can_be_taken_from group false }))
        else some x
  ]

  unfoldable pub get_next_ready_executable :
      ℕ → Executor → AnyExecutable → Option (Executor × AnyExecutable × Bool)
  get_next_ready_executable millis x any = do
    (x', any') ←
        if x.use_priorities then next_by_priority millis x any else some (next_by_kind x any)
    x'' ← mark x' any'
    some (x'', any', is_found any')
