-- ===== src/PeriodTimer.antt =====
-- PeriodTimer in source_code/src/simple_timer/src/period_timer.cpp and
-- source_code/src/simple_timer/include/simple_timer/period_timer.hpp. The clock reading in
-- microseconds is an argument.
use mathlib.Core.Path.{subst}
use deadline_driven_enhancem.Base.{
  ℕ, ◌-◌, ◌*◌, ◌%◌, ◌^◌, ◌≤◌, ◌<◌, ◌≡◌, refl, sym, ◌∙◌, ap, Bool, true, false, ◌||◌, List, [], ◌∷◌,
  arith, ltb, ◌==◌, if◌then◌else◌, All, for_each, then_branch,
}
use deadline_driven_enhancem.ResponseTime.{sub64}
use deadline_driven_enhancem.ResponseTime.Demand.{sub64-small}

pub record PeriodTimer : Type 0 where
  pub start_delay_time : ℕ
  pub start_time : ℕ
  pub last_period_time : ℕ
  pub max_period : ℕ
  pub min_period : ℕ
  pub last_period : ℕ
  pub recording : Bool

-- The constructor.
unfoldable pub period_timer : ℕ → PeriodTimer
period_timer start_delay = record {
  start_delay_time = start_delay * 1000 % 2 ^ 64;
  start_time = 0;
  last_period_time = 0;
  max_period = 0;
  min_period = 0;
  last_period = 0;
  recording = false;
}

unfoldable pub start_period : PeriodTimer → ℕ → PeriodTimer
start_period p now =
    if p.recording
    then record p { last_period_time = now }
    else if p.start_time == 0
    then record p { start_time = now }
    else if ltb p.start_delay_time (sub64 now p.start_time)
    then record p { recording = true; start_time = now; last_period_time = now }
    else p

-- The branch of stop() for a timer that records.
unfoldable pub record_period : PeriodTimer → ℕ → PeriodTimer
record_period p now =
    let time_diff = sub64 now p.last_period_time in
    record p {
      min_period =
          if ltb time_diff p.min_period || p.min_period == 0 then time_diff else p.min_period;
      max_period =
          if ltb p.max_period time_diff || p.max_period == 0 then time_diff else p.max_period;
      last_period = time_diff;
    }

unfoldable pub stop_period : PeriodTimer → ℕ → PeriodTimer
unfolding record_period
stop_period p now = if p.recording then record_period p now else p

-- start() and stop() at the two readings.
abbrev pub measure : PeriodTimer → ℕ × ℕ → PeriodTimer
measure p (started, stopped) = stop_period (start_period p started) stopped

abbrev pub IsPeriod : ℕ × ℕ → Type 0
IsPeriod (started, stopped) = (started < stopped) × (stopped < 2 ^ 64)

-- What a timer `p'` that comes from `p` through these periods has kept.
abbrev pub Bounds : PeriodTimer → List (ℕ × ℕ) → PeriodTimer → Type 0
Bounds p periods p' =
    All (λ r. (p'.min_period ≤ r.1 - r.0) × (r.1 - r.0 ≤ p'.max_period)) periods
    × (0 < p.min_period → p'.min_period ≤ p.min_period)
    × (p.max_period ≤ p'.max_period)

start-recording :
    (p : PeriodTimer) (now : ℕ)
    → p.recording ≡ true
    → start_period p now ≡ record p { last_period_time = now }
unfolding start_period
start-recording p now on = then_branch _ p.recording on refl

stop-recording :
    (p : PeriodTimer) (now : ℕ) → p.recording ≡ true → stop_period p now ≡ record_period p now
unfolding stop_period
stop-recording p now on = then_branch _ p.recording on refl

measure-recording :
    (p : PeriodTimer) (started stopped : ℕ)
    → p.recording ≡ true
    → measure p (started, stopped) ≡ record_period (record p { last_period_time = started }) stopped
measure-recording p started stopped on =
    ap (λ q. stop_period q stopped) (start-recording p started on)
    ∙ stop-recording (record p { last_period_time = started }) stopped on

-- A timer that records, after any periods that are not empty: each of them lies between the least
-- and the greatest period that the timer holds; a positive least period is not raised and the
-- greatest is not lowered.
pub measure-Bounds :
    (p : PeriodTimer) (periods : List (ℕ × ℕ))
    → p.recording ≡ true
    → All IsPeriod periods
    → Bounds p periods (for_each measure periods p)
unfolding record_period
measure-Bounds p [] on inc = (tt, λ h. omega arith, omega arith)
measure-Bounds p ((started, stopped) ∷ rest) on ((later, small), inc) =
    let same : sub64 stopped started ≡ stopped - started =
      sub64-small stopped started small (omega (arith, later)) in
    let p1 = record_period (record p { last_period_time = started }) stopped in
    let (all, lower, upper) = measure-Bounds p1 rest on inc in
    subst (λ s. Bounds p ((started, stopped) ∷ rest) (for_each measure rest s))
      (sym (measure-recording p started stopped on))
      (
        ((ground (arith, same, lower, later), ground (arith, same, upper)), all),
        (λ h. ground (arith, same, lower, later, h)),
        ground (arith, same, upper),
      )
