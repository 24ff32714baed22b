-- ===== src/Graph.antt =====
-- What the code reads of rclcpp (which is not part of the repository): the callback groups of the
-- nodes, the lookups that rclcpp::memory_strategy::MemoryStrategy gives, and AnyExecutable.
-- Entities (subscriptions, timers, ...), groups and nodes are numbers for their addresses.
use deadline_driven_enhancem.Base.{ℕ, Bool, Option, none, List}

-- A callback group with the handles of the entities in it, in the order in which find_*_ptrs_if
-- goes through them.
pub record Group : Type 0 where
  pub id : ℕ
  pub subscriptions : List ℕ
  pub services : List ℕ
  pub clients : List ℕ
  pub timers : List ℕ
  pub waitables : List ℕ

-- The weak pointers to the groups of a node; `none` has expired.
abbrev pub Node : Type 0
Node = List (Option Group)

-- get_subscription_by_handle and the like over the current `weak_nodes`, and the flag
-- can_be_taken_from of each group.
pub record Graph : Type 0 where
  pub subscription_by_handle : ℕ → Option ℕ
  pub service_by_handle : ℕ → Option ℕ
  pub client_by_handle : ℕ → Option ℕ
  pub timer_by_handle : ℕ → Option ℕ
  pub group_by_subscription : ℕ → Option ℕ
  pub group_by_service : ℕ → Option ℕ
  pub group_by_client : ℕ → Option ℕ
  pub group_by_timer : ℕ → Option ℕ
  pub group_by_waitable : ℕ → Option ℕ
  pub node_by_group : ℕ → Option ℕ
  pub can_be_taken_from : ℕ → Bool

-- rclcpp::AnyExecutable, with shared pointers that may be null.
pub record AnyExecutable : Type 0 where
  pub subscription : Option ℕ
  pub timer : Option ℕ
  pub service : Option ℕ
  pub client : Option ℕ
  pub waitable : Option ℕ
  pub callback_group : Option ℕ
  pub node_base : Option ℕ

abbrev pub empty_executable : AnyExecutable
empty_executable = record {
  subscription = none;
  timer = none;
  service = none;
  client = none;
  waitable = none;
  callback_group = none;
  node_base = none;
}
