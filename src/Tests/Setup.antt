-- ===== src/Tests/Setup.antt =====
-- Tests of the comparator, the settings, the handles and the collection of entities, on the chain
-- of Tests.
use deadline_driven_enhancem.Base.{
  ◌≡◌, ◌↔◌, refl, ℕ, ◌++◌, ltb, Bool, true, false, none, some, [], ◌∷◌, arith, All, ◌≢◌,
}
use deadline_driven_enhancem.Executable.{PriorityExecutable}
use deadline_driven_enhancem.Executable.Comparator.{front_deadline, runs_after}
use deadline_driven_enhancem.Executable.Order.{
  HasDeadline, runs_after_iff, runs_after-StrictWeak, runs_after-no_deadline, Precedes,
}
use deadline_driven_enhancem.Strategy.{
  Strategy, get_priority_settings, lookup, set_first_in_chain, store,
}
use deadline_driven_enhancem.Strategy.Settings.{first_in_chain, apply, IsKeyed, apply-IsKeyed}
use deadline_driven_enhancem.Strategy.Handles.{remove_null_handles}
use deadline_driven_enhancem.Strategy.Handles.Polling.{
  last_readiness, polled, remove_null_handles-can_be_run,
}
use deadline_driven_enhancem.Strategy.Handles.WaitSet.{
  Kind, timer, WaitSet, add_handles_to_wait_set, accepted, entries,
  add_handles_to_wait_set-accepted,
}
use deadline_driven_enhancem.Strategy.Collect.{collect_entities}
use deadline_driven_enhancem.Strategy.Collect.Consistency.{
  IsConsistent, collect_entities-IsConsistent,
}
use deadline_driven_enhancem.Strategy.NextReady.{scan}
use deadline_driven_enhancem.Strategy.NextReady.Scanning.{Scanned, scan-Scanned}
use deadline_driven_enhancem.Tests.{head, tail, deques, chain, graph, node, ready}

pub head-HasDeadline : HasDeadline deques head
unfolding front_deadline
head-HasDeadline = λ _. omega arith

pub tail-HasDeadline : HasDeadline deques tail
unfolding front_deadline
tail-HasDeadline = λ _. omega arith

runs_after_iff_example : (runs_after deques head tail ≡ true) ↔ Precedes deques tail head
runs_after_iff_example = runs_after_iff deques head tail head-HasDeadline tail-HasDeadline

runs_after-StrictWeak_example :
    (runs_after deques head tail ≡ true → runs_after deques tail head ≡ false)
    × (runs_after deques head tail ≡ false
        → runs_after deques tail head ≡ false
        → runs_after deques head head ≡ false)
runs_after-StrictWeak_example =
    runs_after-StrictWeak deques head tail head head-HasDeadline tail-HasDeadline head-HasDeadline

-- The executables at their next index, where no deadline is pending.
abbrev next_head : PriorityExecutable
next_head = record head { cur_index = 1 }

abbrev next_tail : PriorityExecutable
next_tail = record tail { cur_index = 1 }

no_deadline : (front_deadline deques next_head ≡ 0) × (front_deadline deques next_tail ≡ 0)
unfolding front_deadline
no_deadline = (refl, refl)

runs_after-no_deadline_example :
    (runs_after deques next_head next_tail ≡ true)
    × (runs_after deques next_tail next_head ≡ true)
    × (runs_after deques next_head next_head ≡ true)
runs_after-no_deadline_example =
    runs_after-no_deadline deques next_head next_tail refl refl no_deadline.0 no_deadline.1

pub at_one : get_priority_settings chain 1 ≡ some head
unfolding get_priority_settings
at_one = refl

pub at_two : get_priority_settings chain 2 ≡ some tail
unfolding get_priority_settings
at_two = refl

chain-IsKeyed : IsKeyed chain
unfolding get_priority_settings lookup
chain-IsKeyed k e h = ground arith

abbrev renamed : Strategy
renamed = record chain {
  priority_map = (1, head) ∷ (2, record tail { is_first_in_chain = true }) ∷ [];
}

first_done : apply chain (first_in_chain 2) ≡ some renamed
unfolding set_first_in_chain store get_priority_settings
first_done = refl

apply-IsKeyed_example : IsKeyed renamed
apply-IsKeyed_example = apply-IsKeyed chain (first_in_chain 2) chain-IsKeyed first_done

remove_null_handles-can_be_run_example :
    ((b : Bool)
      → last_readiness 2 (polled chain ready) ≡ some b
      → (e : PriorityExecutable) × (get_priority_settings (remove_null_handles chain ready) 2
          ≡ some e)
        × (e.can_be_run ≡ b))
    × (last_readiness 2 (polled chain ready) ≡ none
        → get_priority_settings (remove_null_handles chain ready) 2 ≡ get_priority_settings chain 2)
remove_null_handles-can_be_run_example = remove_null_handles-can_be_run chain ready 2

-- rcl refuses the handles from 2 on.
abbrev accepts : Kind × ℕ → Bool
accepts e = ltb e.1 2

abbrev old_entries : WaitSet
old_entries = (timer, 7) ∷ []

add_handles_to_wait_set-accepted_example :
    add_handles_to_wait_set accepts chain old_entries
    ≡ (old_entries ++ (accepted accepts (entries chain)).0, (accepted accepts (entries chain)).1)
add_handles_to_wait_set-accepted_example =
    add_handles_to_wait_set-accepted accepts chain old_entries

pub chain-known : All (λ k. get_priority_settings chain k ≢ none) chain.all_executables
unfolding get_priority_settings
chain-known = (λ h. cc, (λ h. cc, tt))

chain-IsConsistent : IsConsistent chain
chain-IsConsistent = record { keyed = chain-IsKeyed; queued = chain-known }

collect_entities-IsConsistent_example :
    IsConsistent (collect_entities (λ g. true) chain (some node ∷ none ∷ [])).0
    × ((collect_entities (λ g. true) chain (some node ∷ none ∷ [])).1 ≡ true)
collect_entities-IsConsistent_example =
    collect_entities-IsConsistent (λ g. true) chain (some node ∷ none ∷ []) chain-IsConsistent

scan-Scanned_example :
    Scanned graph.timer_by_handle graph.group_by_timer
      (λ g. true)
      (3 ∷ 1 ∷ [])
      (scan graph.timer_by_handle graph.group_by_timer (λ g. true) (3 ∷ 1 ∷ []))
scan-Scanned_example =
    scan-Scanned graph.timer_by_handle graph.group_by_timer (λ g. true) (3 ∷ 1 ∷ [])
