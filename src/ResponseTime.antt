-- ===== src/ResponseTime.antt =====
-- The response time analysis in source_code/response_time_model/theorem_2.cpp, on `uint64_t` with its
-- wrap-around. A period is positive: by 0 the source would divide by zero.
pub mod Demand
pub mod Search
pub mod First
pub mod Data
use deadline_driven_enhancem.Base.{
  ℕ, zero, suc, ◌+◌, ◌-◌, ◌*◌, ◌/◌, ◌%◌, ◌^◌, min, Bool, Option, none, some, List, [], ◌∷◌, ltb,
  if◌then◌else◌, ◌>>=◌,
}

abbrev pub word : ℕ → ℕ
word n = n % 2 ^ 64

-- Subtraction of two 64-bit words.
abbrev pub sub64 : ℕ → ℕ → ℕ
sub64 a b = word (a + 2 ^ 64 - b)

-- A chain, with the sum of its callbacks' runtimes and the runtime of the last one.
pub record Chain : Type 0 where
  pub runtime : ℕ
  pub last : ℕ
  pub period : ℕ
  pub deadline : ℕ

-- `while (len--) sum += node_runtimes[index++]`, and node_runtimes[index - 1] at the end: `none` is an
-- index out of range. `previous` is the entry before `index`, if there is one.
unfoldable pub sum_members : ℕ → List ℕ → ℕ → Option ℕ → Option (ℕ × ℕ × List ℕ)
sum_members zero runtimes sum previous = previous >>= λ last. some (sum, last, runtimes)
sum_members (suc len) [] sum previous = none
sum_members (suc len) (c ∷ runtimes) sum previous =
    sum_members len runtimes (word (sum + c)) (some c)

-- chain_runtimes and last_chain_callbacks, for the numbers of members of the chains.
unfoldable pub chain_runtimes : List ℕ → List ℕ → Option ℕ → Option (List (ℕ × ℕ))
unfolding sum_members
chain_runtimes [] runtimes previous = some []
chain_runtimes (len ∷ lens) runtimes previous = do
  (sum, last, rest) ← sum_members len runtimes 0 previous
  sums ← chain_runtimes lens rest (some last)
  some ((sum, last) ∷ sums)

-- The demand of the chains with an earlier deadline than `i`.
unfoldable pub add_earlier : Chain → ℕ → ℕ → List Chain → ℕ
add_earlier i time_gap dbf [] = dbf
add_earlier i time_gap dbf (j ∷ js) =
    add_earlier i time_gap
      (if ltb j.deadline i.deadline
        then word (
            dbf
            + word (
                word (sub64 (min time_gap (i.deadline - j.deadline)) 1 / j.period + 1) * j.runtime))
        else dbf)
      js

-- The blocking by all chains.
unfoldable pub add_all : ℕ → ℕ → List Chain → ℕ
add_all time_gap dbf [] = dbf
add_all time_gap dbf (k ∷ ks) =
    add_all time_gap
      (word (dbf + word (word (sub64 k.deadline 1 / k.period + 1) * min k.runtime time_gap))) ks

unfoldable pub dbf : ℕ → List Chain → Chain → ℕ → ℕ
unfolding add_earlier add_all
dbf m chains i time_gap =
    sub64
      (add_all time_gap (add_earlier i time_gap (word (m * sub64 i.runtime i.last)) chains) chains)
      (min i.runtime time_gap)

-- `while (true)`: the first time gap from here on whose demand is below the supply. `none` is out of
-- fuel.
unfoldable pub find_time_gap : ℕ → (ℕ → Bool) → ℕ → Option ℕ
find_time_gap zero enough time_gap = none
find_time_gap (suc fuel) enough time_gap =
    let rest = find_time_gap fuel enough (time_gap + 1) in
    if enough time_gap then some time_gap else rest

abbrev pub is_enough : ℕ → List Chain → Chain → ℕ → Bool
is_enough m chains i time_gap = ltb (dbf m chains i time_gap) (word (m * time_gap))

unfoldable pub wcrt : ℕ → ℕ → List Chain → Chain → Option ℕ
unfolding find_time_gap dbf
wcrt fuel m chains i = do
  time_gap ← find_time_gap fuel (is_enough m chains i) (sub64 i.runtime i.last)
  some (sub64 (word (time_gap + i.last)) 1)
