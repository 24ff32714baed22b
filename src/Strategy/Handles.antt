-- ===== src/Strategy/Handles.antt =====
-- The handle vectors and guard conditions of PriorityMemoryStrategy in priority_memory_strategy.hpp,
-- around the wait set of rcl.
pub mod Polling
pub mod WaitSet
use deadline_driven_enhancem.Base.{
  ℕ, ◌+◌, Bool, true, false, Option, none, some, List, [], ◌∷◌, ◌++◌, ◌==◌, if◌then◌else◌, length,
}
use deadline_driven_enhancem.Executable.{PriorityExecutable, dont_run, allow_run}
use deadline_driven_enhancem.Strategy.{Strategy, modify}

unfoldable pub contains : ℕ → List ℕ → Bool
contains g [] = false
contains g (h ∷ hs) = if h == g then true else contains g hs

unfoldable pub add_guard_condition : Strategy → ℕ → Strategy
unfolding contains
add_guard_condition s g =
    if contains g s.guard_conditions
    then s
    else record s { guard_conditions = s.guard_conditions ++ (g ∷ []) }

-- Erases the first occurrence.
unfoldable pub erase_first : ℕ → List ℕ → List ℕ
erase_first g [] = []
erase_first g (h ∷ hs) = if h == g then hs else h ∷ erase_first g hs

unfoldable pub remove_guard_condition : Strategy → ℕ → Strategy
unfolding erase_first
remove_guard_condition s g = record s { guard_conditions = erase_first g s.guard_conditions }

unfoldable pub clear_handles : Strategy → Strategy
clear_handles s = record s {
  subscription_handles = [];
  service_handles = [];
  client_handles = [];
  timer_handles = [];
  waitable_handles = [];
  all_executables = [];
}

-- `none` is the exception for a null waitable.
unfoldable pub add_waitable_handle : Strategy → Option ℕ → Option Strategy
add_waitable_handle s none = none
add_waitable_handle s (some w) =
    some (record s { waitable_handles = s.waitable_handles ++ (w ∷ []) })

-- What rcl_wait leaves: a null entry for each handle that is not ready. A waitable is asked itself.
pub record Ready : Type 0 where
  pub subscriptions : ℕ → Bool
  pub services : ℕ → Bool
  pub clients : ℕ → Bool
  pub timers : ℕ → Bool
  pub waitable_is_ready : ℕ → Bool

-- One of the five loops, from index `i`: it resets the handles that are not ready and marks all.
unfoldable pub poll :
    (ℕ → ℕ → Bool)
    → ℕ
    → List ℕ
    → List (ℕ × PriorityExecutable)
    → List (Option ℕ) × List (ℕ × PriorityExecutable)
unfolding modify dont_run allow_run
poll ready i [] m = ([], m)
poll ready i (h ∷ hs) m =
    let (rest, m') =
      poll ready (i + 1) hs (modify (if ready i h then allow_run else dont_run) h m) in
    ((if ready i h then some h else none) ∷ rest, m')

-- erase(std::remove(..., nullptr))
unfoldable pub erase_null : List (Option ℕ) → List ℕ
erase_null [] = []
erase_null (none ∷ hs) = erase_null hs
erase_null (some h ∷ hs) = h ∷ erase_null hs

abbrev pub by_index : (ℕ → Bool) → ℕ → ℕ → Bool
by_index ready i h = ready i

unfoldable pub remove_null_handles : Strategy → Ready → Strategy
unfolding poll erase_null
remove_null_handles s w =
    let (subs, m1) = poll (by_index w.subscriptions) 0 s.subscription_handles s.priority_map in
    let (services, m2) = poll (by_index w.services) 0 s.service_handles m1 in
    let (clients, m3) = poll (by_index w.clients) 0 s.client_handles m2 in
    let (timers, m4) = poll (by_index w.timers) 0 s.timer_handles m3 in
    let (waitables, m5) = poll (λ i h. w.waitable_is_ready h) 0 s.waitable_handles m4 in
    record s {
      subscription_handles = erase_null subs;
      service_handles = erase_null services;
      client_handles = erase_null clients;
      timer_handles = erase_null timers;
      waitable_handles = erase_null waitables;
      priority_map = m5;
    }

-- What a waitable adds to the sizes of the wait set.
pub record WaitableSizes : Type 0 where
  pub subscriptions : ℕ → ℕ
  pub services : ℕ → ℕ
  pub events : ℕ → ℕ
  pub clients : ℕ → ℕ
  pub guard_conditions : ℕ → ℕ
  pub timers : ℕ → ℕ

abbrev pub total : (ℕ → ℕ) → List ℕ → ℕ → ℕ
total f [] n = n
total f (w ∷ ws) n = total f ws (n + f w)

unfoldable pub number_of_ready_subscriptions : Strategy → WaitableSizes → ℕ
number_of_ready_subscriptions s z =
    total z.subscriptions s.waitable_handles (length s.subscription_handles)

unfoldable pub number_of_ready_services : Strategy → WaitableSizes → ℕ
number_of_ready_services s z = total z.services s.waitable_handles (length s.service_handles)

unfoldable pub number_of_ready_events : Strategy → WaitableSizes → ℕ
number_of_ready_events s z = total z.events s.waitable_handles 0

unfoldable pub number_of_ready_clients : Strategy → WaitableSizes → ℕ
number_of_ready_clients s z = total z.clients s.waitable_handles (length s.client_handles)

unfoldable pub number_of_guard_conditions : Strategy → WaitableSizes → ℕ
number_of_guard_conditions s z =
    total z.guard_conditions s.waitable_handles (length s.guard_conditions)

unfoldable pub number_of_ready_timers : Strategy → WaitableSizes → ℕ
number_of_ready_timers s z = total z.timers s.waitable_handles (length s.timer_handles)

unfoldable pub number_of_waitables : Strategy → ℕ
number_of_waitables s = length s.waitable_handles
