-- ===== src/Experiment/MultiArb/Runtimes.antt =====
-- The sums of runtimes that main of dy_2.cpp and of multi_arb.cpp prints for each chain.

use deadline_driven_enhancem.Base.{
  ℕ, zero, suc, ◌+◌, ◌-◌, ◌≡◌, refl, ap, ◌∙◌, Option, none, some, List, [], ◌∷◌, ◌++◌, ◌>>=◌,
  length, arith,
}

-- `while (len--) sum += node_runtimes[index++]`: `none` is an index out of range. `previous` is the
-- entry before `index`, if there is one.
unfoldable pub next_sum : ℕ → List ℕ → ℕ → Option ℕ → Option (ℕ × Option ℕ × List ℕ)
next_sum zero runtimes sum previous = some (sum, previous, runtimes)
next_sum (suc len) [] sum previous = none
next_sum (suc len) (r ∷ runtimes) sum previous = next_sum len runtimes (sum + r) (some r)

-- dy_2
unfoldable pub dy_2_runtimes : List ℕ → List ℕ → Option ℕ → Option (List ℕ)
unfolding next_sum
dy_2_runtimes [] runtimes previous = some []
dy_2_runtimes (len ∷ lens) runtimes previous = do
  (sum, last, rest) ← next_sum len runtimes 0 previous
  sums ← dy_2_runtimes lens rest last
  some (sum ∷ sums)

-- multi_arb, without the last callback; each chain has one, so the difference is not negative.
unfoldable pub multi_arb_runtimes : List ℕ → List ℕ → Option ℕ → Option (List ℕ)
unfolding next_sum
multi_arb_runtimes [] runtimes previous = some []
multi_arb_runtimes (len ∷ lens) runtimes previous = do
  (sum, last, rest) ← next_sum len runtimes 0 previous
  r ← last
  sums ← multi_arb_runtimes lens rest last
  some ((sum - r) ∷ sums)

-- The runtimes of a chain: those of all callbacks but the last, and that of the last.
abbrev pub Members : Type 0
Members = List ℕ × ℕ

abbrev pub sum : List ℕ → ℕ
sum [] = 0
sum (r ∷ rs) = r + sum rs

-- The runtimes of the callbacks of all chains, one chain after the other.
abbrev pub laid_out : List Members → List ℕ
laid_out [] = []
laid_out ((front, last) ∷ chains) = front ++ (last ∷ laid_out chains)

abbrev pub lengths : List Members → List ℕ
lengths [] = []
lengths ((front, last) ∷ chains) = suc (length front) ∷ lengths chains

next_sum-front :
    (front : List ℕ) (last : ℕ) (rest : List ℕ) (acc : ℕ) (previous : Option ℕ)
    → next_sum (suc (length front)) (front ++ (last ∷ rest)) acc previous
      ≡ some (acc + sum front + last, some last, rest)
unfolding next_sum
next_sum-front [] last rest acc previous = ap (λ n. some (n + last, some last, rest)) (omega arith)
next_sum-front (r ∷ front) last rest acc previous =
    next_sum-front front last rest (acc + r) (some r)
    ∙ ap (λ n. some (n, some last, rest)) (omega arith)

-- The runtime of each chain, and that before its last callback.
abbrev pub totals : List Members → List ℕ
totals [] = []
totals ((front, last) ∷ chains) = (sum front + last) ∷ totals chains

abbrev pub fronts : List Members → List ℕ
fronts [] = []
fronts ((front, last) ∷ chains) = sum front ∷ fronts chains

-- For chains that have a callback each, with the runtimes of their callbacks one chain after the
-- other: dy_2 computes the sum of each chain's runtimes, and multi_arb that without the last callback.
pub runtimes_lem :
    (chains : List Members) (previous : Option ℕ)
    → (dy_2_runtimes (lengths chains) (laid_out chains) previous ≡ some (totals chains))
      × (multi_arb_runtimes (lengths chains) (laid_out chains) previous ≡ some (fronts chains))
unfolding dy_2_runtimes multi_arb_runtimes
runtimes_lem [] previous = (refl, refl)
runtimes_lem ((front, last) ∷ chains) previous =
    let here = next_sum-front front last (laid_out chains) 0 previous in
    let (dy, arb) = runtimes_lem chains (some last) in
    (
      rw (here, dy) (ap (λ n. some (n ∷ totals chains)) (omega arith)),
      rw (here, arb) (ap (λ n. some (n ∷ fronts chains)) (omega arith)),
    )
