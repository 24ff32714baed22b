-- ===== src/CycleTimer.antt =====
-- CycleTimer in source_code/src/simple_timer/src/cycle_timer.cpp and
-- source_code/src/simple_timer/include/simple_timer/cycle_timer.hpp. The clock reading in
-- microseconds is an argument.
use mathlib.Core.Path.{subst}
use deadline_driven_enhancem.Base.{
  ℕ, ◌-◌, ◌*◌, ◌%◌, ◌^◌, ◌≤◌, ◌<◌, ◌≡◌, refl, ◌∙◌, sym, ◌⊎◌, inl, inr, Memᴰ, length, ◌+◌, Bool,
  true, false, ◌||◌, List, [], ◌∷◌, arith, ltb, ◌==◌, if◌then◌else◌, All, for_each,
}
use deadline_driven_enhancem.ResponseTime.{sub64}
use deadline_driven_enhancem.ResponseTime.Demand.{sub64-small}

pub record CycleTimer : Type 0 where
  pub start_delay_time : ℕ
  pub start_time : ℕ
  pub last_cycle_time : ℕ
  pub max_diff : ℕ
  pub min_diff : ℕ
  pub last_diff : ℕ
  pub recording : Bool

-- The constructor.
unfoldable pub cycle_timer : ℕ → CycleTimer
cycle_timer start_delay = record {
  start_delay_time = start_delay * 1000 % 2 ^ 64;
  start_time = 0;
  last_cycle_time = 0;
  max_diff = 0;
  min_diff = 0;
  last_diff = 0;
  recording = false;
}

-- The branch of tick() for a timer that records.
unfoldable pub record_cycle : CycleTimer → ℕ → CycleTimer
record_cycle c now =
    let time_diff = sub64 now c.last_cycle_time in
    record c {
      min_diff = if ltb time_diff c.min_diff || c.min_diff == 0 then time_diff else c.min_diff;
      max_diff = if ltb c.max_diff time_diff || c.max_diff == 0 then time_diff else c.max_diff;
      last_cycle_time = now;
      last_diff = time_diff;
    }

unfoldable pub tick : CycleTimer → ℕ → CycleTimer
unfolding record_cycle
tick c now =
    if c.recording
    then record_cycle c now
    else if c.start_time == 0
    then record c { start_time = now }
    else if ltb c.start_delay_time (sub64 now c.start_time)
    then record c { recording = true; last_cycle_time = now; start_time = now }
    else c

-- Readings that increase from `last` on, within 64 bits.
abbrev pub IsIncreasing : ℕ → List ℕ → Type 0
IsIncreasing last [] = Unit
IsIncreasing last (now ∷ rest) = (last < now) × (now < 2 ^ 64) × IsIncreasing now rest

-- The cycles between the readings.
abbrev pub cycles : ℕ → List ℕ → List ℕ
cycles last [] = []
cycles last (now ∷ rest) = (now - last) ∷ cycles now rest

tick-recording : (c : CycleTimer) (now : ℕ) → c.recording ≡ true → tick c now ≡ record_cycle c now
unfolding tick
tick-recording c now h = ground arith

-- `value` is the old one or one of `ds`.
abbrev pub Attained : ℕ → ℕ → List ℕ → Type 0
Attained value old ds = (value ≡ old) ⊎ Memᴰ value ds

-- What a timer `c'` that comes from `c` through these readings has kept.
abbrev pub Extremes : CycleTimer → List ℕ → CycleTimer → Type 0
Extremes c readings c' =
    All (λ d. (c'.min_diff ≤ d) × (d ≤ c'.max_diff)) (cycles c.last_cycle_time readings)
    × (0 < c.min_diff → c'.min_diff ≤ c.min_diff)
    × (c.max_diff ≤ c'.max_diff)
    × Attained c'.min_diff c.min_diff (cycles c.last_cycle_time readings)
    × Attained c'.max_diff c.max_diff (cycles c.last_cycle_time readings)
    × (0 < c.min_diff + length readings → 0 < c'.min_diff)

Attained-next :
    (value old new d : ℕ) (ds : List ℕ)
    → (new ≡ old) ⊎ (new ≡ d)
    → Attained value new ds
    → Attained value old (d ∷ ds)
Attained-next value old new d ds (inl e) (inl h) = inl (h ∙ e)
Attained-next value old new d ds (inr e) (inl h) = inr (Memᴰ.head (h ∙ e))
Attained-next value old new d ds step (inr m) = inr (Memᴰ.tail m)

picked : (b : Bool) (old d : ℕ) → let new = if b then d else old in (new ≡ old) ⊎ (new ≡ d)
picked true old d = inr refl
picked false old d = inl refl

-- A timer that records, ticked at increasing readings, keeps extremes that hold every cycle between
-- its last reading and these; it never raises a positive least cycle nor lowers the greatest. Each
-- extreme is one of these cycles or the one that the timer had, and the least is positive from the
-- first reading on, or from the start where it was positive.
pub ticks-Extremes :
    (c : CycleTimer) (readings : List ℕ)
    → c.recording ≡ true
    → IsIncreasing c.last_cycle_time readings
    → Extremes c readings (for_each tick readings c)
unfolding record_cycle
ticks-Extremes c [] on inc =
    (tt, λ h. omega arith, omega arith, inl refl, inl refl, λ h. omega (arith, h))
ticks-Extremes c (now ∷ rest) on (later, small, inc) =
    let d = now - c.last_cycle_time in
    let same : sub64 now c.last_cycle_time ≡ d =
      sub64-small now c.last_cycle_time small (omega (arith, later)) in
    let c1 = record_cycle c now in
    let (all, lower, upper, least, greatest, positive) = ticks-Extremes c1 rest on inc in
    let positive1 : 0 < c1.min_diff = ground (arith, same, later) in
    subst (λ s. Extremes c (now ∷ rest) (for_each tick rest s)) (sym (tick-recording c now on))
      (
        ((ground (arith, same, lower, later), ground (arith, same, upper)), all),
        (λ h. ground (arith, same, lower, later, h)),
        ground (arith, same, upper),
        Attained-next _ c.min_diff c1.min_diff d (cycles now rest)
            (subst (λ z. (c1.min_diff ≡ c.min_diff) ⊎ (c1.min_diff ≡ z)) same
              (picked _ c.min_diff _))
            least,
        Attained-next _ c.max_diff c1.max_diff d (cycles now rest)
            (subst (λ z. (c1.max_diff ≡ c.max_diff) ⊎ (c1.max_diff ≡ z)) same
              (picked _ c.max_diff _))
            greatest,
        (λ h. positive (omega (arith, positive1))),
      )
