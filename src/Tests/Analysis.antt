-- ===== src/Tests/Analysis.antt =====
-- Tests of the response time analysis, on two chains, and of the cycle timer.
use mathlib.Core.List.{Memᴰ}
use deadline_driven_enhancem.Base.{
  for_each, ℕ, ◌+◌, ◌-◌, ◌%◌, ◌^◌, ◌≤◌, ◌<◌, ◌≡◌, refl, true, false, none, some, List, [], ◌∷◌,
  arith, All,
}
use deadline_driven_enhancem.PeriodTimer.{PeriodTimer}
use deadline_driven_enhancem.CycleTimer.{CycleTimer, tick, Extremes, ticks-Extremes}
use deadline_driven_enhancem.ResponseTime.{
  word, sub64, Chain, dbf, wcrt, is_enough, sum_members, chain_runtimes,
}
use deadline_driven_enhancem.ResponseTime.Demand.{IsChain, demand, dbf-exact}
use deadline_driven_enhancem.ResponseTime.Search.{bound, wcrt-some}
use deadline_driven_enhancem.ResponseTime.First.{carry_in, carry_in-wraps, first_wcrt}
use deadline_driven_enhancem.ResponseTime.First.Ending.{most, is_met, first_wcrt-some}
use deadline_driven_enhancem.ResponseTime.Data.{runtimes, chain_runtimes_lem}
use deadline_driven_enhancem.Experiment.MultiArb.Runtimes.{Members, laid_out, lengths}

abbrev short : Chain
short = record { runtime = 18; last = 16; period = 40; deadline = 80 }

abbrev long : Chain
long = record { runtime = 22; last = 9; period = 60; deadline = 120 }

abbrev both : List Chain
both = short ∷ long ∷ []

both-IsChain : All IsChain both
both-IsChain = (
  record { period = omega arith; deadline = (omega arith, omega arith); last = omega arith },
  (record { period = omega arith; deadline = (omega arith, omega arith); last = omega arith }, tt),
)

dbf-exact_example : dbf 2 both long 50 ≡ demand 2 both long 50 - 22
dbf-exact_example =
    dbf-exact 2 both long 50 (omega arith) (omega arith) both-IsChain (omega arith) (omega arith)
      (omega arith) (omega arith)

wcrt-some_example :
    (r : ℕ) × (wcrt (bound 2 both long + 2) 2 both long ≡ some (sub64 (word (r + 9)) 1))
    × (13 ≤ r)
    × (r ≤ bound 2 both long + 1)
    × (is_enough 2 both long r ≡ true)
    × ((u : ℕ) → 13 ≤ u → u < r → is_enough 2 both long u ≡ false)
wcrt-some_example =
    wcrt-some 2 both long (omega arith) both-IsChain (Memᴰ.tail (Memᴰ.head refl)) (omega arith)

first_wcrt-some_example :
    (r : ℕ) × (first_wcrt (most 2 both long + 2) 2 both 1 long
      ≡ some (sub64 (word (r + 9)) 1 % 2 ^ 32))
    × (13 ≤ r)
    × (r ≤ most 2 both long + 1)
    × (is_met 2 both 1 long r ≡ true)
    × ((u : ℕ) → 13 ≤ u → u < r → is_met 2 both 1 long u ≡ false)
first_wcrt-some_example =
    first_wcrt-some 2 both 1 long (omega arith) (omega arith, (omega arith, tt)) (omega arith)
      (omega arith) (omega arith)

abbrev two_members : List Members
two_members = ((2 ∷ []), 16) ∷ ((13 ∷ []), 9) ∷ []

two_members-runtimes :
    chain_runtimes (lengths two_members) (laid_out two_members) none ≡ some (runtimes two_members)
two_members-runtimes = chain_runtimes_lem two_members none (omega arith, (omega arith, tt))

carry_in-wraps_example : carry_in 30 40 short ≡ 18
carry_in-wraps_example =
    carry_in-wraps 30 40 short (omega arith) (omega arith) (omega arith) (omega arith)

-- chain_runtimes and last_chain_callbacks of two chains.
two_chains_runtimes :
    chain_runtimes (2 ∷ 2 ∷ []) (2 ∷ 16 ∷ 13 ∷ 9 ∷ []) none ≡ some ((18, 16) ∷ (22, 9) ∷ [])
unfolding chain_runtimes sum_members
two_chains_runtimes = refl

abbrev recording : CycleTimer
recording = record {
  start_delay_time = 0;
  start_time = 100;
  last_cycle_time = 100;
  max_diff = 0;
  min_diff = 0;
  last_diff = 0;
  recording = true;
}

ticks-Extremes_example :
    Extremes recording (110 ∷ 125 ∷ 130 ∷ []) (for_each tick (110 ∷ 125 ∷ 130 ∷ []) recording)
ticks-Extremes_example =
    ticks-Extremes recording (110 ∷ 125 ∷ 130 ∷ []) refl
      (omega arith, omega arith, (omega arith, omega arith, (omega arith, omega arith, tt)))

abbrev measuring : PeriodTimer
measuring = record {
  start_delay_time = 0;
  start_time = 50;
  last_period_time = 50;
  max_period = 0;
  min_period = 0;
  last_period = 0;
  recording = true;
}
