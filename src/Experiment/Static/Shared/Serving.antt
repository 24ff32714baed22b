-- ===== src/Experiment/Static/Shared/Serving.antt =====
-- The set-ups of multi_static1.cpp, arb_static.cpp and muex_static1.cpp leave an executor that is
-- ready to run, under fixed priorities.

use deadline_driven_enhancem.Base.{
  ℕ, zero, suc, ◌+◌, ◌<◌, ◌≤◌, ◌≡◌, refl, inl, inr, Bool, false, Option, some, List, [], ◌∷◌, arith,
  ◌==◌, if◌then◌else◌, Bool-cases, length, All, get_elem?_lt,
}
use deadline_driven_enhancem.Executable.{PriorityExecutable}
use deadline_driven_enhancem.Strategy.{get_priority_settings}
use deadline_driven_enhancem.Executor.{Executor}
use deadline_driven_enhancem.Executor.Serving.{IsServing}
use deadline_driven_enhancem.Experiment.{Objects}
use deadline_driven_enhancem.Experiment.Settings.{AddsNode}
use deadline_driven_enhancem.Experiment.Running.{IsNew}
use deadline_driven_enhancem.Experiment.Static.{StaticChain, make_static_worker}
use deadline_driven_enhancem.Experiment.Static.Serving.{
  IsStaticEntry, IsStatic, Stepped, Stepped-trans, publisher-Stepped, worker-Stepped,
  IsNew-IsStatic, IsStatic-IsSetUp, static_entries,
}
use deadline_driven_enhancem.Experiment.Static.Shared.{
  shared_publisher, shared_worker, shared_callbacks, shared_chains, multi_static, arb_static,
}

same : (x : Executor) → IsStatic x.strategy → Stepped x x
same x v = record { static = v; keeps = record { in_step = λ h. h; flags = refl } }

-- What a step of main does.
abbrev Steps : Executor → Option Executor → Type 0
Steps x r = (x' : Executor) × (r ≡ some x') × Stepped x x'

module _ (o : Objects) (adds : AddsNode o) (left_out : ℕ → Bool) where
  module _ (c i : ℕ) (priorities : List ℕ) (x : Executor) (v : IsStatic x.strategy)
      (long : i < length priorities) where
    publisher-Steps :
        (nodes : ℕ)
        → i ≡ 0
        → (c ≡ 1 → 0 < nodes)
        → Steps x (shared_publisher o nodes c priorities x)
    unfolding shared_publisher
    publisher-Steps nodes is made = elim (Bool-cases (c == 1)) [
      | inl one ↦ (x, ground (arith, made), same x v)
      | inr other ↦
          let (p, has) = get_elem?_lt priorities 0 (omega (arith, long, is)) in
          let (x', done, step) = publisher-Stepped o adds c p x v in
          (x', rw (shared_publisher, other, has) done, step)
    ]

    worker-Steps : Steps x (shared_worker o left_out c i priorities x)
    unfolding shared_worker
    worker-Steps = elim (Bool-cases (left_out c)) [
      | inl out ↦ (x, rw (shared_worker, out) refl, same x v)
      | inr kept ↦
          let (p, has) = get_elem?_lt priorities i long in
          (
            make_static_worker o c i p x,
            rw (shared_worker, kept, has) refl,
            worker-Stepped o adds c i p x v,
          )
    ]

    callback-Steps :
        (nodes : ℕ)
        → (c ≡ 1 → 0 < nodes)
        → Steps x (
            if i == 0
            then shared_publisher o nodes c priorities x
            else shared_worker o left_out c i priorities x)
    callback-Steps nodes made = elim (Bool-cases (i == 0)) [
      | inl first ↦
          let (x', done, step) = publisher-Steps nodes (ground arith) made in
          (x', rw first done, step)
      | inr later ↦ let (x', done, step) = worker-Steps in (x', rw later done, step)
    ]

  callbacks-Steps :
      (nodes c : ℕ) (priorities : List ℕ) (i n : ℕ) (x : Executor)
      → i + n ≤ length priorities
      → (c ≡ 1 → 0 < nodes)
      → IsStatic x.strategy
      → Steps x (shared_callbacks o left_out nodes c priorities i n x)
  unfolding shared_callbacks
  callbacks-Steps nodes c priorities i zero x h made v = (x, refl, same x v)
  callbacks-Steps nodes c priorities i (suc n) x h made v =
      let (y, one, step) = callback-Steps c i priorities x v (omega (arith, h)) nodes made in
      let (x', done, steps) =
        callbacks-Steps nodes c priorities (i + 1) n y (omega (arith, h)) made step.static in
      (x', rw (one, done) refl, Stepped-trans o adds x y x' step steps)

  -- Chain 0 has a publisher where there is a chain 1.
  pub chains-Steps :
      (nodes c : ℕ) (chains : List StaticChain) (x : Executor)
      → All (λ ch. (0 < ch.length) × (ch.length ≤ length ch.priorities)) chains
      → (0 < c → 0 < nodes)
      → IsStatic x.strategy
      → Steps x (shared_chains o left_out nodes c chains x)
  unfolding shared_chains
  chains-Steps nodes c [] x h made v = (x, refl, same x v)
  chains-Steps nodes c (ch ∷ chains) x ((some_left, long), h) made v =
      let (y, one, step) =
        callbacks-Steps nodes c ch.priorities 0 ch.length x (omega (arith, long))
          (λ is. made (omega (arith, is))) v in
      let more : 0 < c + 1 → 0 < (if c == 0 then ch.length else nodes) =
        λ _. ground (arith, made, some_left) in
      let (x', done, steps) =
        chains-Steps (if c == 0 then ch.length else nodes) (c + 1) chains y h more step.static in
      (x', rw (one, done) refl, Stepped-trans o adds x y x' step steps)

-- An executor with static settings is ready to run, as far as that is kept.
pub Stepped-IsServing : (x x' : Executor) → IsNew x → Stepped x x' → IsServing x'
Stepped-IsServing x x' new step = record {
  set_up = IsStatic-IsSetUp x'.strategy step.static;
  in_step = step.keeps.in_step new.in_step;
}

abbrev pub HasAll : List StaticChain → Type 0
HasAll chains = All (λ ch. (0 < ch.length) × (ch.length ≤ length ch.priorities)) chains

-- For chains with a publisher and a priority for each callback, and an executor with a new
-- strategy, for F1TENTH or not: the set-up in which chain 1 takes the publisher of chain 0 does not
-- fault. Then the strategy is set up, there is a guard condition for each weak node, no group is in
-- use that was not before, and all settings stand under their own handle with a priority that is
-- aware of the chain.
pub multi_static-IsServing :
    (o : Objects) (chains : List StaticChain) (x : Executor)
    → AddsNode o
    → HasAll chains
    → IsNew x
    → (x' : Executor) × (multi_static o chains x ≡ some x')
      × (arb_static o chains x ≡ some x')
      × IsServing x'
      × (x'.can_be_taken_from ≡ x.can_be_taken_from)
      × ((k : ℕ) (e : PriorityExecutable)
          → get_priority_settings x'.strategy k ≡ some e
          → IsStaticEntry k e)
unfolding multi_static arb_static
multi_static-IsServing o chains x adds long new =
    let (x', done, step) =
      chains-Steps o adds (λ c. false) 0 0 chains x long (λ h. absurd (omega (arith, h)))
        (IsNew-IsStatic x new) in
    (
      x',
      done,
      done,
      Stepped-IsServing x x' new step,
      step.keeps.flags,
      λ k e. static_entries x'.strategy k e step.static,
    )
