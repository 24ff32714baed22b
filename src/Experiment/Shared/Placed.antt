-- ===== src/Experiment/Shared/Placed.antt =====
-- The settings that the set-up of multi_test.cpp writes, and what the F1TENTH case needs of them.
use mathlib.Core.Path.{subst}
use deadline_driven_enhancem.Base.{
  ℕ, ◌+◌, ◌<◌, ◌≤◌, ◌≡◌, ap, sym, ◌∙◌, true, List, [], arith, length, All, Bool-cases, inl, inr,
  ◌==◌,
}
use deadline_driven_enhancem.Executable.{PriorityExecutable, deadline_executable}
use deadline_driven_enhancem.Strategy.{Strategy}
use deadline_driven_enhancem.Strategy.Settings.{All-put, IsUnique, put-IsUnique}
use deadline_driven_enhancem.Selection.{ceil_div}
use deadline_driven_enhancem.Selection.Accounting.{IsMirrored}
use deadline_driven_enhancem.Experiment.{ChainConfig, Objects}
use deadline_driven_enhancem.Experiment.Settings.{Writes, head, body}
use deadline_driven_enhancem.Experiment.Chains.{IsEntry}

-- The head of chain 0 counts at most `shared` instances, and chain 1 counts at least as many.
pub record Shares (shared : ℕ) (e : PriorityExecutable) : Type 0 where
  pub head : e.is_first_in_chain ≡ true → e.chain_id ≡ 0 → ceil_div e.deadline e.period ≤ shared
  pub copy : e.chain_id ≡ 1 → shared ≤ ceil_div e.deadline e.period

-- The same of chain `c`.
abbrev pub ChainShares : ℕ → ℕ → ChainConfig → Type 0
ChainShares shared c ch =
    (c ≡ 0 → ceil_div ch.deadline ch.period ≤ shared)
    × (c ≡ 1 → shared ≤ ceil_div ch.deadline ch.period)

pub record IsPlaced (o : Objects) (shared n : ℕ) (vector : ℕ → List ℕ) (k : ℕ)
    (e : PriorityExecutable) : Type 0 where
  pub entry : IsEntry o n vector k e
  pub shares : Shares shared e

-- All settings of a strategy.
pub record AllPlaced (o : Objects) (shared n : ℕ) (s : Strategy) : Type 0 where
  pub queue : s.all_executables ≡ []
  pub f1tenth : s.is_f1tenth ≡ true
  pub unique : IsUnique s.priority_map
  pub all : All (λ p. IsPlaced o shared n s.memory.vector p.0 p.1) s.priority_map

pub placed-IsMirrored :
    (o : Objects) (shared n : ℕ) (vector : ℕ → List ℕ) (k : ℕ) (e : PriorityExecutable)
    → IsPlaced o shared n vector k e
    → IsMirrored shared vector e
placed-IsMirrored o shared n vector k e v = record {
  head = λ dl first zero. v.shares.head first zero;
  copy = λ pos one.
      let (vec, at, size, _, _, _) = v.entry.queues in
      (vec, at, omega (arith, size, v.shares.copy one));
}

pub Writes-AllPlaced :
    (o : Objects) (shared n k : ℕ) (e : PriorityExecutable) (s s' : Strategy)
    → Writes s k e s'
    → IsPlaced o shared n s.memory.vector k e
    → AllPlaced o shared n s
    → AllPlaced o shared n s'
Writes-AllPlaced o shared n k e s s' w entry v = record {
  queue = w.queue ∙ v.queue;
  f1tenth = w.plain ∙ v.f1tenth;
  unique = subst IsUnique (sym w.map) (put-IsUnique k e s.priority_map v.unique);
  all =
      subst (λ m. All (λ p. IsPlaced o shared n m.vector p.0 p.1) s'.priority_map) (sym w.memory)
        (subst (All _) (sym w.map)
          (All-put (IsPlaced o shared n s.memory.vector) k e s.priority_map entry v.all));
}

-- Shares of the settings of chain `c`.
module _ (o : Objects) (shared c : ℕ) (ch : ChainConfig) (shares : ChainShares shared c ch) where
  pub head-Shares : Shares shared (head o c ch)
  unfolding deadline_executable
  head-Shares = record { head = λ _ zero. shares.0 zero; copy = shares.1 }

  pub body-Shares : (i : ℕ) → Shares shared (body o c ch i)
  unfolding deadline_executable
  body-Shares i = elim (Bool-cases (i + 1 == ch.length)) [
    | inl last ↦ rw last (record { head = λ first _. cc; copy = shares.1 })
    | inr more ↦ rw more (record { head = λ first _. cc; copy = shares.1 })
  ]

-- Settings for a chain after the chains below `n`, with new deques for the chain `n`.
pub later-IsPlaced :
    (o : Objects) (shared n : ℕ) (vector vector' : ℕ → List ℕ) (k : ℕ) (e : PriorityExecutable)
    → ((d : ℕ) → d < n → vector' (o.vector d) ≡ vector (o.vector d))
    → IsPlaced o shared n vector k e
    → IsPlaced o shared (n + 1) vector' k e
later-IsPlaced o shared n vector vector' k e same v =
    let old = v.entry in
    let (vec, at, size, d, below, is) = old.queues in
    let here : vector' vec ≡ vector vec =
      subst (λ u. vector' u ≡ vector u) (sym is) (same d below) in
    record {
      entry = record {
        own = old.own;
        timed = old.timed;
        within = old.within;
        queues = (vec, at, ap length here ∙ size, d, omega (arith, below), is);
        first = λ f. let (b, under, at) = old.first f in (b, omega (arith, under), at);
      };
      shares = v.shares;
    }
