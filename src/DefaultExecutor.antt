-- ===== src/DefaultExecutor.antt =====
-- ROSDefaultExecutor in source_code/src/priority_executor/src/default_executor.cpp, and the log of
-- source_code/src/simple_timer/src/rt-sched.cpp. What rclcpp::Executor answers in each round is a
-- value, and the end of the list of rounds is the end of the context.
pub mod Releases
use deadline_driven_enhancem.Base.{
  ℕ, ◌+◌, ◌-◌, ◌%◌, ◌^◌, Bool, true, false, not, Option, none, some, List, [], ◌∷◌, ◌++◌,
  if◌then◌else◌, ◌>>=◌,
}
use deadline_driven_enhancem.Executable.{PriorityExecutable}
use deadline_driven_enhancem.Graph.{AnyExecutable}
use deadline_driven_enhancem.Strategy.{lookup}
use deadline_driven_enhancem.TestNodes.{Text, Log, bytes, to_string}

-- What a round meets: a false condition of the loop, or get_next_executable, which gives nothing, an
-- exception of rclcpp, or an executable.
pub data Answer : Type 0 where
  over idle thrown : Answer
  found : AnyExecutable → Answer

-- `time_until_trigger().count() / 1000000`, which is negative for a timer that is overdue.
pub data Until : Type 0 where
  ahead overdue : ℕ → Until

-- A `uint64_t` and a signed 64-bit number.
unfoldable pub add_until : ℕ → Until → ℕ
add_until millis (ahead n) = (millis + n) % 2 ^ 64
add_until millis (overdue n) = (millis + (2 ^ 64 - n)) % 2 ^ 64

-- The times that a round reads: the clock in milliseconds, the time until the next trigger of a timer,
-- and the time of a log entry.
pub record Times : Type 0 where
  pub millis : ℕ
  pub trigger : ℕ → Until
  pub microseconds : ℕ

-- The executor, its log, null without create_logger, and what was executed, the oldest first.
pub record DefaultExecutor : Type 0 where
  pub priority_map : List (ℕ × PriorityExecutable)
  pub spinning : Bool
  pub recorded_times : Option Log
  pub executed : List AnyExecutable

pub data DefaultEnding : Type 0 where
  returned already_spinning rethrown : DefaultEnding

unfoldable pub create_logger : Option Log
create_logger = some []

unfoldable pub log_entry : Option Log → Text → ℕ → Option Log
log_entry none text time = none
log_entry (some l) text time = some (l ++ ((text, time) ∷ []))

-- "timer_<chain>_release_<time>"
abbrev pub release_text : ℕ → ℕ → Text
unfolding to_string
release_text chain time =
    bytes "timer_" ++ (to_string chain ++ (bytes "_release_" ++ to_string time))

-- The entry for the timer handle in the settings, which is dereferenced.
unfoldable pub log_timer : Times → ℕ → Option ℕ → DefaultExecutor → Option DefaultExecutor
unfolding log_entry add_until
log_timer r chain none x = none
log_timer r chain (some timer) x = some (record x {
  recorded_times =
      log_entry x.recorded_times (release_text chain (add_until r.millis (r.trigger timer)))
        r.microseconds;
})

-- A timer without settings is not logged.
unfoldable pub log_settings :
    Times → Option PriorityExecutable → DefaultExecutor → Option DefaultExecutor
unfolding log_timer
log_settings r none x = some x
log_settings r (some next_exec) x = log_timer r next_exec.chain_id next_exec.timer_handle x

module _ (timer_handle : ℕ → ℕ) where
  unfoldable pub log_release : Times → Option ℕ → DefaultExecutor → Option DefaultExecutor
  unfolding lookup log_settings
  log_release r none x = some x
  log_release r (some timer) x = log_settings r (lookup (timer_handle timer) x.priority_map) x

  unfoldable pub default_loop :
      List (Answer × Times) → DefaultExecutor → Option (DefaultExecutor × DefaultEnding)
  unfolding log_release
  default_loop [] x = some (x, returned)
  default_loop ((over, r) ∷ rounds) x = some (x, returned)
  default_loop ((thrown, r) ∷ rounds) x = some (x, rethrown)
  default_loop ((idle, r) ∷ rounds) x = default_loop rounds x
  default_loop ((found any, r) ∷ rounds) x = do
    x' ← log_release r any.timer x
    default_loop rounds (record x' { executed = x'.executed ++ (any ∷ []) })

  unfoldable pub default_spin :
      List (Answer × Times) → DefaultExecutor → Option (DefaultExecutor × DefaultEnding)
  unfolding default_loop
  default_spin rounds x = if x.spinning then some (x, already_spinning) else (do
    (x', ending) ← default_loop rounds (record x { spinning = true })
    some (record x' { spinning = false }, ending))
