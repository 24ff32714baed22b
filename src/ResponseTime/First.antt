-- ===== src/ResponseTime/First.antt =====
-- The response time analysis in source_code/response_time_model/theorem_1.cpp.
pub mod Ending
use deadline_driven_enhancem.Base.{
  ℕ, ◌+◌, ◌-◌, ◌*◌, ◌/◌, ◌%◌, ◌^◌, ◌≤◌, ◌<◌, min, ◌≡◌, ap, ◌∙◌, Option, some, List, [], ◌∷◌, arith,
  ltb, ◌==◌, if◌then◌else◌, ◌>>=◌,
}
use deadline_driven_enhancem.ResponseTime.{word, sub64, Chain, find_time_gap}

-- The part of an instance of `j` that reaches into the gap; `gap` is chain_deadlines[i] -
-- chain_deadlines[j].
unfoldable pub carry_in : ℕ → ℕ → Chain → ℕ
carry_in time_gap gap j = min j.runtime (sub64 time_gap (word (min time_gap gap * j.period)))

unfoldable pub add_earlier_chains : Chain → ℕ → ℕ → List Chain → ℕ
unfolding carry_in
add_earlier_chains i time_gap dbf [] = dbf
add_earlier_chains i time_gap dbf (j ∷ js) =
    let gap = i.deadline - j.deadline in
    add_earlier_chains i time_gap
      (if ltb j.deadline i.deadline
        then word
            (dbf + word (word (min time_gap gap / j.period * j.runtime) + carry_in time_gap gap j))
        else dbf)
      js

-- The blocking by the other chains: `k` is the index of the first in the list.
unfoldable pub add_others : ℕ → ℕ → ℕ → ℕ → List Chain → ℕ
add_others i time_gap dbf k [] = dbf
add_others i time_gap dbf k (c ∷ cs) =
    add_others i time_gap (if i == k then dbf else word (dbf + min c.runtime time_gap)) (k + 1) cs

unfoldable pub first_dbf : ℕ → List Chain → ℕ → Chain → ℕ → ℕ
unfolding add_earlier_chains add_others
first_dbf m chains index i time_gap =
    add_others index time_gap
      (add_earlier_chains i time_gap (word (m * sub64 i.runtime i.last)) chains) 0 chains

-- `wcrt` is a `uint` here.
unfoldable pub first_wcrt : ℕ → ℕ → List Chain → ℕ → Chain → Option ℕ
unfolding first_dbf
first_wcrt fuel m chains index i = do
  time_gap ←
      find_time_gap fuel (λ t. ltb (first_dbf m chains index i t) (word (m * t)))
        (sub64 i.runtime i.last)
  some (sub64 (word (time_gap + i.last)) 1 % 2 ^ 32)

wrapped : (t y c : ℕ) → 0 < t → t * 2 ≤ y → y + c ≤ 2 ^ 64 → min c (sub64 t (word y)) ≡ c
wrapped t y c pos double fits = omega arith

-- Within the gap of the deadlines, for a period of at least 2 and as long as the product and the
-- runtime leave room in 64 bits, the part that reaches into the gap counts as a whole runtime: the
-- subtraction wraps around. (By the line that the source has in a comment it would be the runtime
-- or the time gap modulo the period, whichever is less.)
pub carry_in-wraps :
    (time_gap gap : ℕ) (j : Chain)
    → 0 < time_gap
    → time_gap ≤ gap
    → 2 ≤ j.period
    → time_gap * j.period + j.runtime ≤ 2 ^ 64
    → carry_in time_gap gap j ≡ j.runtime
unfolding carry_in
carry_in-wraps t gap j pos le two fits =
    let double : t * 2 ≤ t * j.period = mul_mono t 2 j.period two in
    let least : min t gap ≡ t = omega arith in
    ap (λ z. min j.runtime (sub64 t (word (z * j.period)))) least
    ∙ wrapped t (t * j.period) j.runtime pos double fits
  where
    mul_mono : (t a b : ℕ) → a ≤ b → t * a ≤ t * b
    mul_mono t a b h = grind arith
