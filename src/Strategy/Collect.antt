-- ===== src/Strategy/Collect.antt =====
-- collect_entities of PriorityMemoryStrategy in priority_memory_strategy.hpp.
pub mod Consistency
use deadline_driven_enhancem.Base.{
  ℕ, ◌≡◌, ◌≢◌, refl, ◌⊎◌, inl, inr, Bool, true, false, Option, none, some, List, [], ◌∷◌, ◌++◌,
  Memᴰ, arith, if◌then◌else◌, All, All-map, Option-cases, Bool-cases, for_each, for_each_inv,
}
use deadline_driven_enhancem.Executable.{
  PriorityExecutable, ExecutableType, subscription, service, client, timer, waitable, executable,
}
use deadline_driven_enhancem.Strategy.{
  Strategy, get_priority_settings, get_and_reset_priority, store,
}
use deadline_driven_enhancem.Strategy.Settings.{IsKeyed, get_and_reset_priority-IsKeyed}
use deadline_driven_enhancem.Graph.{Group, Node}

-- `all_executables_.push(get_and_reset_priority(h, t))`. The order of the queue is that of its reads;
-- wait_for_work requires that what push compares reads in range.
unfoldable pub push : Strategy → ℕ → ExecutableType → Strategy
push s h t =
    let s' = get_and_reset_priority s h t in record s' { all_executables = h ∷ s'.all_executables }

-- The callback given to find_subscription_ptrs_if: a subscription without settings is left out.
unfoldable pub collect_subscription : Strategy → ℕ → Strategy
unfolding push
collect_subscription s h = elim (get_priority_settings s h) [
  | none ↦ s
  | some e ↦
      push (record s { subscription_handles = s.subscription_handles ++ (h ∷ []) }) h subscription
]

unfoldable pub collect_service : Strategy → ℕ → Strategy
unfolding push
collect_service s h = elim (get_priority_settings s h) [
  | none ↦ s
  | some e ↦
      let s' = push s h service in record s' { service_handles = s'.service_handles ++ (h ∷ []) }
]

unfoldable pub collect_client : Strategy → ℕ → Strategy
unfolding push
collect_client s h =
    let s' = push s h client in record s' { client_handles = s'.client_handles ++ (h ∷ []) }

unfoldable pub collect_timer : Strategy → ℕ → Strategy
unfolding push
collect_timer s h =
    let s' = push s h timer in record s' { timer_handles = s'.timer_handles ++ (h ∷ []) }

unfoldable pub collect_waitable : Strategy → ℕ → Strategy
unfolding push
collect_waitable s h =
    let s' = push s h waitable in record s' { waitable_handles = s'.waitable_handles ++ (h ∷ []) }

-- The body of the loop over groups once a group may be taken from.
collect_group : Strategy → Group → Strategy
unfolding collect_subscription collect_service collect_client collect_timer collect_waitable
collect_group s g =
    let s1 = for_each collect_subscription g.subscriptions s in
    let s2 = for_each collect_service g.services s1 in
    let s3 = for_each collect_client g.clients s2 in
    let s4 = for_each collect_timer g.timers s3 in for_each collect_waitable g.waitables s4

module _ (can_be_taken_from : ℕ → Bool) where
  collect_weak_group : Strategy → Option Group → Strategy
  unfolding collect_group
  collect_weak_group s none = s
  collect_weak_group s (some g) = if can_be_taken_from g.id then collect_group s g else s

  collect_weak_node : Strategy × Bool → Option Node → Strategy × Bool
  unfolding collect_weak_group
  collect_weak_node (s, invalid) none = (s, true)
  collect_weak_node (s, invalid) (some node) = (for_each collect_weak_group node s, invalid)

  -- The new strategy, and has_invalid_weak_nodes.
  unfoldable pub collect_entities : Strategy → List (Option Node) → Strategy × Bool
  unfolding collect_weak_node
  collect_entities s weak_nodes = for_each collect_weak_node weak_nodes (s, false)
