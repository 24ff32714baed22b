-- ===== src/Strategy/NextReady.antt =====
-- get_next_subscription, get_next_service, get_next_client, get_next_timer and get_next_waitable of
-- PriorityMemoryStrategy in priority_memory_strategy.hpp: the scan of one handle vector.
pub mod Scanning
use deadline_driven_enhancem.Base.{ℕ, Bool, Option, none, some, List, [], ◌∷◌, if◌then◌else◌}
use deadline_driven_enhancem.Graph.{Graph, AnyExecutable}
use deadline_driven_enhancem.Strategy.{Strategy}

-- The entity taken with its group, and the vector that is left.
abbrev pub Scan : Type 0
Scan = Option (ℕ × ℕ) × List ℕ

module _ (by_handle : ℕ → Option ℕ) (group_of : ℕ → Option ℕ) (can_be_taken_from : ℕ → Bool) where
  -- The handle at the front, and the result for those behind it.
  visit : ℕ → List ℕ → Scan → Scan
  visit h hs rest = elim (by_handle h) [
    | none ↦ rest
    | some x ↦ elim (group_of x) [
      | none ↦ rest
      | some g ↦ if can_be_taken_from g then (some (x, g), hs) else (rest.0, h ∷ rest.1)
    ]
  ]

  unfoldable pub scan : List ℕ → Scan
  unfolding visit
  scan [] = (none, [])
  scan (h ∷ hs) = visit h hs (scan hs)

-- A waitable handle is the waitable itself.
abbrev pub itself : ℕ → Option ℕ
itself w = some w

module _ (g : Graph) (s : Strategy) (any_exec : AnyExecutable) where
  open g use {can_be_taken_from, node_by_group}

  unfoldable pub get_next_subscription : Strategy × AnyExecutable
  unfolding scan
  get_next_subscription =
      let (taken, rest) =
        scan g.subscription_by_handle g.group_by_subscription can_be_taken_from
          s.subscription_handles in
      (
        record s { subscription_handles = rest },
        elim taken [
          | none ↦ any_exec
          | some (x, group) ↦ record any_exec {
            subscription = some x;
            callback_group = some group;
            node_base = node_by_group group;
          }
        ],
      )

  unfoldable pub get_next_service : Strategy × AnyExecutable
  unfolding scan
  get_next_service =
      let (taken, rest) =
        scan g.service_by_handle g.group_by_service can_be_taken_from s.service_handles in
      (
        record s { service_handles = rest },
        elim taken [
          | none ↦ any_exec
          | some (x, group) ↦ record any_exec {
            service = some x;
            callback_group = some group;
            node_base = node_by_group group;
          }
        ],
      )

  unfoldable pub get_next_client : Strategy × AnyExecutable
  unfolding scan
  get_next_client =
      let (taken, rest) =
        scan g.client_by_handle g.group_by_client can_be_taken_from s.client_handles in
      (
        record s { client_handles = rest },
        elim taken [
          | none ↦ any_exec
          | some (x, group) ↦ record any_exec {
            client = some x;
            callback_group = some group;
            node_base = node_by_group group;
          }
        ],
      )

  unfoldable pub get_next_timer : Strategy × AnyExecutable
  unfolding scan
  get_next_timer =
      let (taken, rest) =
        scan g.timer_by_handle g.group_by_timer can_be_taken_from s.timer_handles in
      (
        record s { timer_handles = rest },
        elim taken [
          | none ↦ any_exec
          | some (x, group) ↦ record any_exec {
            timer = some x;
            callback_group = some group;
            node_base = node_by_group group;
          }
        ],
      )

  unfoldable pub get_next_waitable : Strategy × AnyExecutable
  unfolding scan
  get_next_waitable =
      let (taken, rest) = scan itself g.group_by_waitable can_be_taken_from s.waitable_handles in
      (
        record s { waitable_handles = rest },
        elim taken [
          | none ↦ any_exec
          | some (x, group) ↦ record any_exec {
            waitable = some x;
            callback_group = some group;
            node_base = node_by_group group;
          }
        ],
      )
