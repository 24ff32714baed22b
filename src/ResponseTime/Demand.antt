-- ===== src/ResponseTime/Demand.antt =====
-- The demand bound of theorem_2.cpp, and that its search for a time gap ends.
use native.Mathlib.Nat.{div-le_self}
use deadline_driven_enhancem.Base.{
  ℕ, zero, suc, ◌+◌, ◌-◌, ◌*◌, ◌/◌, ◌^◌, ◌≤◌, ◌<◌, min, ◌≡◌, refl, ap, ◌∙◌, inl, inr, Bool, true,
  false, some, List, [], ◌∷◌, arith, ltb, if◌then◌else◌, All, Bool-cases, ltb→lt,
}
use deadline_driven_enhancem.ResponseTime.{
  word, sub64, Chain, add_earlier, add_all, dbf, find_time_gap,
}

pub word-small : (n : ℕ) → n < 2 ^ 64 → word n ≡ n
word-small n h = omega arith

pub sub64-small : (a b : ℕ) → a < 2 ^ 64 → b ≤ a → sub64 a b ≡ a - b
sub64-small a b h le = omega arith

-- If some number within reach of the fuel passes the test, the search ends at the first that does.
pub find_time_gap-least :
    (enough : ℕ → Bool) (fuel t u : ℕ)
    → t ≤ u
    → u < t + fuel
    → enough u ≡ true
    → (r : ℕ) × (find_time_gap fuel enough t ≡ some r)
      × (t ≤ r)
      × (r ≤ u)
      × (enough r ≡ true)
      × ((v : ℕ) → t ≤ v → v < r → enough v ≡ false)
unfolding find_time_gap
find_time_gap-least enough zero t u le lt h = absurd (omega arith)
find_time_gap-least enough (suc fuel) t u le lt h = elim (Bool-cases (enough t)) [
  | inl now ↦ (t, rw now refl, omega arith, le, now, λ v a b. absurd (omega arith))
  | inr later ↦
      let next : t + 1 ≤ u = grind (arith, later, h, le) in
      let (r, found, lo, hi, ok, least) =
        find_time_gap-least enough fuel (t + 1) u next (omega arith) h in
      (r, rw later found, omega arith, hi, ok, λ v a b. grind (arith, later, least v))
]

-- A chain whose fields are 64-bit words, with a positive period and deadline.
pub record IsChain (c : Chain) : Type 0 where
  pub period : 0 < c.period
  pub deadline : (0 < c.deadline) × (c.deadline < 2 ^ 64)
  pub last : c.last ≤ c.runtime

-- The instances of a chain of this period that start within `time`.
abbrev pub instances : ℕ → ℕ → ℕ
instances time period = (time - 1) / period + 1

-- The two sums over the chains, without wrap-around.
abbrev pub earlier_demand : Chain → ℕ → List Chain → ℕ
earlier_demand i t [] = 0
earlier_demand i t (j ∷ js) =
    (if ltb j.deadline i.deadline
      then instances (min t (i.deadline - j.deadline)) j.period * j.runtime
      else 0)
    + earlier_demand i t js

abbrev pub blocking : ℕ → List Chain → ℕ
blocking t [] = 0
blocking t (k ∷ ks) = instances k.deadline k.period * min k.runtime t + blocking t ks

sum-small : (acc y : ℕ) → acc + y < 2 ^ 64 → word (acc + word y) ≡ acc + y
sum-small acc y h = omega arith

-- A 64-bit sum of products that fits.
term-small :
    (acc x p c : ℕ)
    → 0 < x
    → x < 2 ^ 64
    → 0 < p
    → acc + instances x p * c < 2 ^ 64
    → word (acc + word (word (sub64 x 1 / p + 1) * c)) ≡ acc + instances x p * c
term-small acc x p c pos small hp fits =
    let e1 : sub64 x 1 ≡ x - 1 = sub64-small x 1 small pos in
    let e2 : word ((x - 1) / p + 1) ≡ instances x p =
      word-small ((x - 1) / p + 1) (omega (arith, div-le_self (x - 1) p)) in
    ap (λ z. word (acc + word (word (z / p + 1) * c))) e1
    ∙ ap (λ z. word (acc + word (z * c))) e2
    ∙ sum-small acc (instances x p * c) fits

-- A summand that is added under a test.
added :
    (b : Bool) (acc y new : ℕ)
    → acc + (if b then y else 0) < 2 ^ 64
    → (b ≡ true → acc + y < 2 ^ 64 → new ≡ acc + y)
    → (if b then new else acc) ≡ acc + (if b then y else 0)
added true acc y new fits h = h refl fits
added false acc y new fits h = omega arith

module _ (i : Chain) (t : ℕ) (pos : 0 < t) (small : t < 2 ^ 64) where
  add_earlier-exact :
      (acc : ℕ) (js : List Chain)
      → All IsChain js
      → acc + earlier_demand i t js < 2 ^ 64
      → add_earlier i t acc js ≡ acc + earlier_demand i t js
  unfolding add_earlier
  add_earlier-exact acc [] h fits = omega arith
  add_earlier-exact acc (j ∷ js) (c, h) fits =
      let x = min t (i.deadline - j.deadline) in
      let b = ltb j.deadline i.deadline in
      let y = instances x j.period * j.runtime in
      ap (λ a. add_earlier i t a js)
        (added b acc y (word (acc + word (word (sub64 x 1 / j.period + 1) * j.runtime)))
          (omega (arith, fits))
          (λ earlier fits'.
            term-small acc x j.period j.runtime
              (omega (arith, pos, ltb→lt j.deadline i.deadline earlier)) (omega (arith, small))
              c.period fits'))
      ∙ add_earlier-exact (acc + (if b then y else 0)) js h (omega (arith, fits))
      ∙ omega arith

  add_all-exact :
      (acc : ℕ) (ks : List Chain)
      → All IsChain ks
      → acc + blocking t ks < 2 ^ 64
      → add_all t acc ks ≡ acc + blocking t ks
  unfolding add_all
  add_all-exact acc [] h fits = omega arith
  add_all-exact acc (k ∷ ks) (c, h) fits =
      let y = instances k.deadline k.period * min k.runtime t in
      let step =
        term-small acc k.deadline k.period (min k.runtime t) c.deadline.0 c.deadline.1 c.period
          (omega (arith, fits)) in
      ap (λ a. add_all t a ks) step
      ∙ add_all-exact (acc + y) ks h (omega (arith, fits))
      ∙ omega arith

-- The demand bound without wrap-around, before the last subtraction.
abbrev pub demand : ℕ → List Chain → Chain → ℕ → ℕ
demand m chains i t = m * (i.runtime - i.last) + earlier_demand i t chains + blocking t chains

-- For a positive time gap below 2 ^ 64, chains that are well-formed, and a chain `i` whose last
-- callback takes no longer than all of it, which takes less than 2 ^ 64: as long as the part of `i`
-- that is subtracted is at most the blocking and the demand fits in 64 bits, the code computes the
-- demand exactly.
pub dbf-exact :
    (m : ℕ) (chains : List Chain) (i : Chain) (t : ℕ)
    → 0 < t
    → t < 2 ^ 64
    → All IsChain chains
    → i.last ≤ i.runtime
    → i.runtime < 2 ^ 64
    → min i.runtime t ≤ blocking t chains
    → demand m chains i t < 2 ^ 64
    → dbf m chains i t ≡ demand m chains i t - min i.runtime t
unfolding dbf
dbf-exact m chains i t pos small h le runtime own fits =
    let start = m * (i.runtime - i.last) in
    let e1 : word (m * sub64 i.runtime i.last) ≡ start =
      ap (λ z. word (m * z)) (sub64-small i.runtime i.last runtime le)
      ∙ word-small start (omega (arith, fits)) in
    let e2 = add_earlier-exact i t pos small start chains h (omega (arith, fits)) in
    let e3 = add_all-exact i t pos small (start + earlier_demand i t chains) chains h fits in
    ap (λ a. sub64 (add_all t (add_earlier i t a chains) chains) (min i.runtime t)) e1
    ∙ ap (λ a. sub64 (add_all t a chains) (min i.runtime t)) e2
    ∙ ap (λ a. sub64 a (min i.runtime t)) e3
    ∙ sub64-small (demand m chains i t) (min i.runtime t) fits (omega (arith, own))
