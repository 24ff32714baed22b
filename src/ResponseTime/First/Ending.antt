-- ===== src/ResponseTime/First/Ending.antt =====
-- The search of theorem_1.cpp for the least time gap ends.
use mathlib.Core.Path.{subst}
use deadline_driven_enhancem.Base.{
  ℕ, ◌+◌, ◌-◌, ◌*◌, ◌/◌, ◌%◌, ◌^◌, ◌≤◌, ◌<◌, min, ◌≡◌, ap, sym, ◌∙◌, Bool, true, false, some, List,
  [], ◌∷◌, arith, ltb, ◌==◌, if◌then◌else◌, ◌>>=◌, All, lt→ltb,
}
use deadline_driven_enhancem.ResponseTime.{word, sub64, Chain, find_time_gap}
use deadline_driven_enhancem.ResponseTime.Demand.{find_time_gap-least, word-small, sub64-small}
use deadline_driven_enhancem.ResponseTime.First.{
  carry_in, add_earlier_chains, add_others, first_dbf, first_wcrt,
}

-- Bounds of the two sums that do not depend on the time gap.
abbrev pub earlier_most : Chain → List Chain → ℕ
earlier_most i [] = 0
earlier_most i (j ∷ js) = i.deadline / j.period * j.runtime + j.runtime + earlier_most i js

abbrev pub others_most : List Chain → ℕ
others_most [] = 0
others_most (k ∷ ks) = k.runtime + others_most ks

carry_in_le : (t gap : ℕ) (j : Chain) → carry_in t gap j ≤ j.runtime
unfolding carry_in
carry_in_le t gap j = omega arith

div_mono : (a b p : ℕ) → a ≤ b → a / p ≤ b / p
div_mono a b p h = grind arith

mul_mono : (a b c : ℕ) → a ≤ b → a * c ≤ b * c
mul_mono a b c h = grind arith

-- One earlier chain.
term_le :
    (t acc : ℕ) (i j : Chain)
    → word (
        acc
        + word (
            word (min t (i.deadline - j.deadline) / j.period * j.runtime)
            + carry_in t (i.deadline - j.deadline) j))
      ≤ acc + (i.deadline / j.period * j.runtime + j.runtime)
term_le t acc i j =
    let a = div_mono (min t (i.deadline - j.deadline)) i.deadline j.period (omega arith) in
    let b = mul_mono _ _ j.runtime a in omega (arith, b, carry_in_le t (i.deadline - j.deadline) j)

add_earlier_chains_le :
    (i : Chain) (t acc : ℕ) (js : List Chain)
    → add_earlier_chains i t acc js ≤ acc + earlier_most i js
unfolding add_earlier_chains
add_earlier_chains_le i t acc [] = omega arith
add_earlier_chains_le i t acc (j ∷ js) =
    let gap = i.deadline - j.deadline in
    let sum : ℕ = word (acc + word (word (min t gap / j.period * j.runtime) + carry_in t gap j)) in
    let next : ℕ = if ltb j.deadline i.deadline then sum else acc in
    let step : next ≤ acc + (i.deadline / j.period * j.runtime + j.runtime) =
      ground (arith, term_le t acc i j) in
    omega (arith, step, add_earlier_chains_le i t next js)

add_others_le : (i t acc k : ℕ) (cs : List Chain) → add_others i t acc k cs ≤ acc + others_most cs
unfolding add_others
add_others_le i t acc k [] = omega arith
add_others_le i t acc k (c ∷ cs) =
    let next : ℕ = if i == k then acc else word (acc + min c.runtime t) in
    let step : next ≤ acc + c.runtime = ground arith in
    omega (arith, step, add_others_le i t next (k + 1) cs)

-- The most that the demand comes to.
abbrev pub most : ℕ → List Chain → Chain → ℕ
most m cs i = m * (i.runtime - i.last) + earlier_most i cs + others_most cs

abbrev pub is_met : ℕ → List Chain → ℕ → Chain → ℕ → Bool
is_met m cs index i t = ltb (first_dbf m cs index i t) (word (m * t))

first_dbf_le :
    (m : ℕ) (cs : List Chain) (index : ℕ) (i : Chain) (t : ℕ)
    → i.last ≤ i.runtime
    → i.runtime < 2 ^ 64
    → first_dbf m cs index i t ≤ most m cs i
unfolding first_dbf
first_dbf_le m cs index i t last small =
    let start = sub64-small i.runtime i.last small last in
    let a = add_earlier_chains_le i t (word (m * sub64 i.runtime i.last)) cs in
    let b =
      add_others_le index t (add_earlier_chains i t (word (m * sub64 i.runtime i.last)) cs) 0 cs in
    let c : word (m * sub64 i.runtime i.last) ≤ m * (i.runtime - i.last) = rw start (omega arith) in
    omega (arith, a, b, c)

-- With at least one processor, positive periods, a last callback within the runtime of the chain, and a
-- demand bound that keeps the product in 64 bits: the search of theorem_1 ends within that bound, at
-- the first time gap, from the chain's runtime without its last callback on, whose computed demand
-- is below the supply; the response time is that gap plus the last callback minus one, in 32 bits.
pub first_wcrt-some :
    (m : ℕ) (cs : List Chain) (index : ℕ) (i : Chain)
    → 0 < m
    → All (λ c. 0 < c.period) cs
    → i.last ≤ i.runtime
    → i.runtime < 2 ^ 64
    → m * (most m cs i + 1) < 2 ^ 64
    → (r : ℕ) × (first_wcrt (most m cs i + 2) m cs index i
        ≡ some (sub64 (word (r + i.last)) 1 % 2 ^ 32))
      × (i.runtime - i.last ≤ r)
      × (r ≤ most m cs i + 1)
      × (is_met m cs index i r ≡ true)
      × ((u : ℕ) → i.runtime - i.last ≤ u → u < r → is_met m cs index i u ≡ false)
unfolding first_wcrt
first_wcrt-some m cs index i pos periods last small fits =
    let top = most m cs i + 1 in
    let start = sub64-small i.runtime i.last small last in
    let scaled : top ≤ m * top = scale m top pos in
    let low : i.runtime - i.last ≤ top = omega (arith, scale m (i.runtime - i.last) pos) in
    let met : is_met m cs index i top ≡ true =
      lt→ltb (first_dbf m cs index i top) (word (m * top)) (
        subst (λ z. first_dbf m cs index i top < z) (sym (word-small (m * top) fits))
          (omega (arith, first_dbf_le m cs index i top last small, scaled))) in
    let (r, found, lo, hi, enough, least) =
      find_time_gap-least (is_met m cs index i) (most m cs i + 2) (i.runtime - i.last) top low
        (omega arith) met in
    (
      r,
      ap
            (λ t. find_time_gap (most m cs i + 2) (is_met m cs index i) t >>= λ r.
              some (sub64 (word (r + i.last)) 1 % 2 ^ 32))
            start
          ∙ ap (λ g. g >>= λ r. some (sub64 (word (r + i.last)) 1 % 2 ^ 32)) found,
      lo,
      hi,
      enough,
      least,
    )
  where
    scale : (m n : ℕ) → 0 < m → n ≤ m * n
    scale m n h = grind arith
