-- ===== src/ResponseTime/Data.antt =====
-- The data of the chains in theorem_2.cpp (and theorem_1.cpp): the sums of the runtimes.
use deadline_driven_enhancem.Base.{
  ℕ, suc, ◌+◌, ◌^◌, ◌<◌, ◌≡◌, refl, ap, ◌∙◌, Option, some, List, [], ◌∷◌, ◌++◌, arith, length, All,
}
use deadline_driven_enhancem.ResponseTime.{word, sum_members, chain_runtimes}
use deadline_driven_enhancem.Experiment.MultiArb.Runtimes.{Members, sum, laid_out, lengths}

abbrev pub runtimes : List Members → List (ℕ × ℕ)
runtimes [] = []
runtimes ((front, last) ∷ chains) = (sum front + last, last) ∷ runtimes chains

sum_members-front :
    (front : List ℕ) (last : ℕ) (rest : List ℕ) (acc : ℕ) (previous : Option ℕ)
    → acc + (sum front + last) < 2 ^ 64
    → sum_members (suc (length front)) (front ++ (last ∷ rest)) acc previous
      ≡ some (acc + (sum front + last), last, rest)
unfolding sum_members
sum_members-front [] last rest acc previous fits =
    let e : word (acc + last) ≡ acc + (0 + last) = omega (arith, fits) in
    ap (λ n. some (n, last, rest)) e
sum_members-front (r ∷ front) last rest acc previous fits =
    let e : word (acc + r) ≡ acc + r = omega (arith, fits) in
    ap (λ n. sum_members (suc (length front)) (front ++ (last ∷ rest)) n (some r)) e
    ∙ sum_members-front front last rest (acc + r) (some r) (omega (arith, fits))
    ∙ ap (λ n. some (n, last, rest)) (omega arith)

-- For chains that have a callback each, with the runtimes of their callbacks one chain after the
-- other and sums that fit in 64 bits: the loop computes for each chain the sum of its runtimes and
-- the runtime of its last callback.
pub chain_runtimes_lem :
    (chains : List Members) (previous : Option ℕ)
    → All (λ ms. sum ms.0 + ms.1 < 2 ^ 64) chains
    → chain_runtimes (lengths chains) (laid_out chains) previous ≡ some (runtimes chains)
unfolding chain_runtimes
chain_runtimes_lem [] previous fits = refl
chain_runtimes_lem ((front, last) ∷ chains) previous (here, fits) =
    rw
      (
        sum_members-front front last (laid_out chains) 0 previous (omega (arith, here)),
        chain_runtimes_lem chains (some last) fits,
      )
      (ap (λ n. some ((n, last) ∷ runtimes chains)) (omega arith))
