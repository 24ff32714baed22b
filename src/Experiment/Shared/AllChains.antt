-- ===== src/Experiment/Shared/AllChains.antt =====
-- The loop of multi_test.cpp over the chains.
use mathlib.Core.Path.{subst}
use deadline_driven_enhancem.Base.{
  Bool, ℕ, ◌+◌, ◌<◌, ◌≡◌, ◌≢◌, refl, ap, sym, ◌∙◌, inl, inr, Bool-cases, none, some, List, [], ◌∷◌,
  arith, ◌==◌, if◌then◌else◌, length, All,
}
use deadline_driven_enhancem.Strategy.{Strategy, get_priority_settings}
use deadline_driven_enhancem.Executor.{Executor}
use deadline_driven_enhancem.Experiment.{ChainConfig, Objects}
use deadline_driven_enhancem.Experiment.Settings.{AddsNode}
use deadline_driven_enhancem.Experiment.Chains.{IsTimed}
use deadline_driven_enhancem.Experiment.Making.{Keeps}
use deadline_driven_enhancem.Experiment.Shared.{shared_timers, shared_deadline_chains}
use deadline_driven_enhancem.Experiment.Shared.Placed.{ChainShares, AllPlaced}
use deadline_driven_enhancem.Experiment.Shared.Making.{
  IsLaidOut, Makes, Keeps-trans, shared_deadline_chain-Makes,
}

-- The chains from number `c` on.
abbrev pub AllLaidOut : Objects → ℕ → List ChainConfig → Strategy → Type 0
AllLaidOut o c [] s = Unit
AllLaidOut o c (ch ∷ chains) s = IsLaidOut o c ch s × AllLaidOut o (c + 1) chains s

abbrev pub AllShare : ℕ → ℕ → List ChainConfig → Type 0
AllShare shared c [] = Unit
AllShare shared c (ch ∷ chains) = ChainShares shared c ch × AllShare shared (c + 1) chains

-- What keeps the settings that there are, and the vectors, keeps the lay-out.
pub AllLaidOut-kept :
    (o : Objects) (c : ℕ) (chains : List ChainConfig) (s s' : Strategy)
    → ((j : ℕ) → get_priority_settings s j ≢ none → get_priority_settings s' j ≢ none)
    → s'.memory.vector ≡ s.memory.vector
    → AllLaidOut o c chains s
    → AllLaidOut o c chains s'
AllLaidOut-kept o c [] s s' known vectors v = tt
AllLaidOut-kept o c (ch ∷ chains) s s' known vectors (here, v) = (
  record {
    timer = known _ here.timer;
    vector = ap (λ f. length (f (o.vector c))) vectors ∙ here.vector;
  },
  AllLaidOut-kept o (c + 1) chains s s' known vectors v,
)

module _ (o : Objects) (adds : AddsNode o) (fresh : (c d : ℕ) → c ≢ d → o.vector c ≢ o.vector d)
    (shared : ℕ) (left_out : ℕ → Bool) where
  abbrev timers : Objects
  timers = shared_timers o

  -- What the loop from chain `c` on leaves.
  pub record MakesAll (c : ℕ) (chains : List ChainConfig) (x x' : Executor) : Type 0 where
    pub placed : AllPlaced timers shared (c + length chains) x'.strategy
    pub keeps : Keeps x x'
    pub laid_out : AllLaidOut o c chains x'.strategy
    pub known :
        (j : ℕ)
        → get_priority_settings x.strategy j ≢ none
        → get_priority_settings x'.strategy j ≢ none
    pub vectors :
        (d : ℕ)
        → d < c
        → x'.strategy.memory.vector (o.vector d) ≡ x.strategy.memory.vector (o.vector d)

  -- Chain 1 has the timer of chain 0.
  same_timer :
      (s : Strategy) (c : ℕ)
      → c ≡ 1
      → get_priority_settings s (timers.timer_handle 0) ≢ none
      → get_priority_settings s (timers.timer_handle c) ≢ none
  unfolding shared_timers
  same_timer s c one h =
      subst (λ d. get_priority_settings s (timers.timer_handle d) ≢ none) (sym one) h

  first_timer :
      (c : ℕ) (ch : ChainConfig) (x y : Executor)
      → (0 < c → get_priority_settings x.strategy (timers.timer_handle 0) ≢ none)
      → Makes o adds shared left_out c x y
      → IsLaidOut o c ch y.strategy
      → get_priority_settings y.strategy (timers.timer_handle 0) ≢ none
  first_timer c ch x y has m here = elim (Bool-cases (c == 0)) [
    | inl first ↦
        let is : c ≡ 0 = ground arith in
        subst (λ d. get_priority_settings y.strategy (timers.timer_handle d) ≢ none) is here.timer
    | inr later ↦ m.known _ (has (ground arith))
  ]

  pub shared_deadline_chains-MakesAll :
      (nodes c : ℕ) (chains : List ChainConfig) (x : Executor)
      → All IsTimed chains
      → AllShare shared c chains
      → (0 < c → 0 < nodes)
      → (0 < c → get_priority_settings x.strategy (timers.timer_handle 0) ≢ none)
      → AllPlaced timers shared c x.strategy
      → (x' : Executor) × (shared_deadline_chains o left_out nodes c chains x ≡ some x')
        × MakesAll c chains x x'
  unfolding shared_deadline_chains
  shared_deadline_chains-MakesAll nodes c [] x timed shares some_node has v = (
    x,
    refl,
    record {
      placed = subst (λ n. AllPlaced timers shared n x.strategy) (omega arith) v;
      keeps = record { in_step = λ h. h; flags = refl };
      laid_out = tt;
      known = λ j h. h;
      vectors = λ d h. refl;
    },
  )
  shared_deadline_chains-MakesAll nodes c (ch ∷ chains) x (timed, rest) (shares, more) some_node has
        v =
      let (y, made, m, here) =
        shared_deadline_chain-Makes o adds shared left_out nodes c ch x timed shares
          (λ d below. fresh c d (λ eq. omega (arith, below, eq)))
          (λ one. some_node (omega (arith, one)))
          (λ one. same_timer x.strategy c one (has (omega (arith, one)))) v in
      let (x', done, q) =
        shared_deadline_chains-MakesAll (if c == 0 then ch.length else nodes) (c + 1) chains y rest
          more (λ _. ground (arith, some_node, timed.0)) (λ _. first_timer c ch x y has m here)
          m.placed in
      (
        x',
        rw (made, done) refl,
        record {
          placed = subst (λ n. AllPlaced timers shared n x'.strategy) (omega arith) q.placed;
          keeps = Keeps-trans x y x' m.keeps q.keeps;
          laid_out = (
            record {
              timer = q.known _ here.timer;
              vector = ap length (q.vectors c (omega arith)) ∙ here.vector;
            },
            q.laid_out,
          );
          known = λ j h. q.known j (m.known j h);
          vectors = λ d below.
              q.vectors d (omega (arith, below))
              ∙ m.vectors d (fresh c d (λ eq. omega (arith, below, eq)));
        },
      )
