-- ===== src/DefaultExecutor/Releases.antt =====
-- What ROSDefaultExecutor::spin in default_executor.cpp executes and logs.
use mathlib.Core.List.{append_assoc, append-nil}
use deadline_driven_enhancem.Base.{
  ℕ, ◌≡◌, refl, ap, ◌∙◌, inl, inr, Bool, true, false, ◌&&◌, Option, none, some, List, [], ◌∷◌, ◌++◌,
  map, if◌then◌else◌, Bool-cases, else_branch,
}
use deadline_driven_enhancem.Executable.{PriorityExecutable}
use deadline_driven_enhancem.Graph.{AnyExecutable}
use deadline_driven_enhancem.Strategy.{lookup}
use deadline_driven_enhancem.Executor.{is_some}
use deadline_driven_enhancem.TestNodes.{Text, Log}
use deadline_driven_enhancem.DefaultExecutor.{
  Answer, over, idle, thrown, found, Times, DefaultExecutor, DefaultEnding, returned, rethrown,
  log_entry, release_text, log_release, log_timer, log_settings, default_loop, default_spin,
  add_until,
}

-- What is executed until the loop ends, with its round, and how it ends.
abbrev pub runs : List (Answer × Times) → List (Times × AnyExecutable)
runs [] = []
runs ((over, r) ∷ rounds) = []
runs ((thrown, r) ∷ rounds) = []
runs ((idle, r) ∷ rounds) = runs rounds
runs ((found any, r) ∷ rounds) = (r, any) ∷ runs rounds

abbrev pub ends : List (Answer × Times) → DefaultEnding
ends [] = returned
ends ((over, r) ∷ rounds) = returned
ends ((thrown, r) ∷ rounds) = rethrown
ends ((idle, r) ∷ rounds) = ends rounds
ends ((found any, r) ∷ rounds) = ends rounds

abbrev pub has_timer : Option PriorityExecutable → Bool
has_timer none = true
has_timer (some e) = is_some e.timer_handle

abbrev pub timer_entry : Times → ℕ → Option ℕ → Log
timer_entry r chain none = []
timer_entry r chain (some timer) =
    (release_text chain (add_until r.millis (r.trigger timer)), r.microseconds) ∷ []

abbrev pub settings_entry : Times → Option PriorityExecutable → Log
settings_entry r none = []
settings_entry r (some e) = timer_entry r e.chain_id e.timer_handle

module _ (timer_handle : ℕ → ℕ) (settings : List (ℕ × PriorityExecutable)) where
  -- The settings of the timer that was found, if any.
  abbrev pub timed : Option ℕ → Option PriorityExecutable
  timed none = none
  timed (some t) = lookup (timer_handle t) settings

  abbrev pub all_timers : List (Times × AnyExecutable) → Bool
  all_timers [] = true
  all_timers ((r, any) ∷ ps) = has_timer (timed any.timer) && all_timers ps

  -- The entries for the timers.
  abbrev pub release_entries : List (Times × AnyExecutable) → Log
  release_entries [] = []
  release_entries ((r, any) ∷ ps) = settings_entry r (timed any.timer) ++ release_entries ps

abbrev pub appended : Option Log → Log → Option Log
appended none new = none
appended (some l) new = some (l ++ new)

appended-nil : (l : Option Log) → appended l [] ≡ l
appended-nil none = refl
appended-nil (some l) = ap some (append-nil l)

appended-appended : (l : Option Log) (a b : Log) → appended (appended l a) b ≡ appended l (a ++ b)
appended-appended none a b = refl
appended-appended (some l) a b = ap some (append_assoc l a b)

log_entry-appended :
    (l : Option Log) (text : Text) (time : ℕ)
    → log_entry l text time ≡ appended l ((text, time) ∷ [])
unfolding log_entry
log_entry-appended none text time = refl
log_entry-appended (some l) text time = refl

-- `x` with these entries and executions.
abbrev pub advanced : DefaultExecutor → Log → List AnyExecutable → DefaultExecutor
advanced x new ran = record x {
  recorded_times = appended x.recorded_times new;
  executed = x.executed ++ ran;
}

unchanged : (x : DefaultExecutor) → some x ≡ some (advanced x [] [])
unchanged x = simp (appended-nil, append-nil)

moved :
    (x : DefaultExecutor) (entry later : Log) (any : AnyExecutable) (ran : List AnyExecutable)
    → advanced
        (record (advanced x entry []) { executed = x.executed ++ [] ++ (any ∷ []) })
        later
        ran
      ≡ advanced x (entry ++ later) (any ∷ ran)
moved x entry later any ran = simp (appended-appended, append_assoc, append-nil)

log_timer_lem :
    (r : Times) (chain : ℕ) (timer : Option ℕ) (x : DefaultExecutor)
    → log_timer r chain timer x
      ≡ (if is_some timer then some (advanced x (timer_entry r chain timer) []) else none)
unfolding log_timer
log_timer_lem r chain none x = refl
log_timer_lem r chain (some timer) x = simp (log_entry-appended, append-nil)

log_settings_lem :
    (r : Times) (e : Option PriorityExecutable) (x : DefaultExecutor)
    → log_settings r e x ≡ (if has_timer e then some (advanced x (settings_entry r e) []) else none)
unfolding log_settings
log_settings_lem r none x = unchanged x
log_settings_lem r (some e) x = log_timer_lem r e.chain_id e.timer_handle x

module _ (timer_handle : ℕ → ℕ) where
  log_release_lem :
      (r : Times) (timer : Option ℕ) (x : DefaultExecutor)
      → log_release timer_handle r timer x ≡ (
          if has_timer (timed timer_handle x.priority_map timer)
          then some (advanced x (settings_entry r (timed timer_handle x.priority_map timer)) [])
          else none)
  unfolding log_release
  log_release_lem r none x = unchanged x
  log_release_lem r (some t) x = log_settings_lem r (lookup (timer_handle t) x.priority_map) x

  default_loop_lem :
      (rounds : List (Answer × Times)) (x : DefaultExecutor)
      → default_loop timer_handle rounds x ≡ (
          if all_timers timer_handle x.priority_map (runs rounds)
          then some (
            advanced x
                (release_entries timer_handle x.priority_map (runs rounds))
                (map (λ p. p.1) (runs rounds)),
            ends rounds,
          )
          else none)
  unfolding default_loop
  default_loop_lem [] x = simp (appended-nil, append-nil)
  default_loop_lem ((over, r) ∷ rounds) x = simp (appended-nil, append-nil)
  default_loop_lem ((thrown, r) ∷ rounds) x = simp (appended-nil, append-nil)
  default_loop_lem ((idle, r) ∷ rounds) x = default_loop_lem rounds x
  default_loop_lem ((found any, r) ∷ rounds) x =
      elim (Bool-cases (has_timer (timed timer_handle x.priority_map any.timer))) [
        | inl h ↦
            let entry = settings_entry r (timed timer_handle x.priority_map any.timer) in
            let later = release_entries timer_handle x.priority_map (runs rounds) in
            let ran = map (λ p. p.1) (runs rounds) in
            let x1 : DefaultExecutor = record (advanced x entry []) {
              executed = x.executed ++ [] ++ (any ∷ []);
            } in
            rw (log_release_lem r any.timer x, h)
              (default_loop_lem rounds x1
                ∙ ap
                    (λ y.
                      if all_timers timer_handle x.priority_map (runs rounds)
                      then some (y, ends rounds)
                      else none)
                    (moved x entry later any ran))
        | inr h ↦ rw (log_release_lem r any.timer x, h) refl
      ]

  -- The spin of an executor that is not spinning faults, by a null timer handle, just where it
  -- executes a timer whose settings have none. Otherwise it ends, with `spinning` cleared, when the
  -- loop's condition fails or rclcpp throws: what was found up to then was executed, in order, and
  -- the log, if there is one, has one more entry for each timer with settings, in order: the clock
  -- plus the time until the timer's trigger, which may have passed, in 64 bits.
  pub default_spin_lem :
      (rounds : List (Answer × Times)) (x : DefaultExecutor)
      → x.spinning ≡ false
      → default_spin timer_handle rounds x ≡ (
          if all_timers timer_handle x.priority_map (runs rounds)
          then some (
            record x {
              spinning = false;
              recorded_times =
                  appended x.recorded_times
                    (release_entries timer_handle x.priority_map (runs rounds));
              executed = x.executed ++ map (λ p. p.1) (runs rounds);
            },
            ends rounds,
          )
          else none)
  unfolding default_spin
  default_spin_lem rounds x off =
      else_branch _ x.spinning off
        (elim (Bool-cases (all_timers timer_handle x.priority_map (runs rounds))) [
          | inl h ↦ rw (default_loop_lem rounds (record x { spinning = true }), h) refl
          | inr h ↦ rw (default_loop_lem rounds (record x { spinning = true }), h) refl
        ])
