-- ===== src/Experiment/Making.antt =====
-- The loops of dy_2.cpp that make the chains never fault, and keep what is set up.
use mathlib.Core.Path.{subst}
use deadline_driven_enhancem.Base.{
  ℕ, zero, suc, ◌+◌, ◌<◌, ◌≡◌, ◌≢◌, refl, ap, sym, ◌∙◌, false, some, List, [], ◌∷◌, arith, ◌==◌,
  length, All,
}
use deadline_driven_enhancem.Executable.{PriorityExecutable}
use deadline_driven_enhancem.Executable.Comparator.{Deques}
use deadline_driven_enhancem.Strategy.{Strategy, get_priority_settings}
use deadline_driven_enhancem.Strategy.Handles.{contains}
use deadline_driven_enhancem.Selection.{ceil_div}
use deadline_driven_enhancem.Selection.Release.{ceil_div-pos}
use deadline_driven_enhancem.Executor.{Executor}
use deadline_driven_enhancem.Experiment.{
  ChainConfig, Objects, chain_num, new_deques, allocate, make_callbacks, make_chain, make_chains,
}
use deadline_driven_enhancem.Experiment.Settings.{
  AddsNode, Made, head, body, make_publisher-Made, make_worker-Made,
}
use deadline_driven_enhancem.Experiment.Chains.{
  IsFresh, IsTimed, IsEntry, IsConfigured, IsMade, Untouched, new_deques-length, new_deques-other,
  head-IsEntry, body-IsEntry, Writes-IsConfigured, Writes-Untouched, Untouched-trans,
  Untouched-IsMade, AllMade,
}

-- What the loops of main keep of the rest of an executor.
pub record Keeps (x x' : Executor) : Type 0 where
  pub in_step :
      length x.weak_nodes ≡ length x.guard_conditions
      → length x'.weak_nodes ≡ length x'.guard_conditions
  pub flags : x'.can_be_taken_from ≡ x.can_be_taken_from

module _ (o : Objects) (fresh : IsFresh o) (adds : AddsNode o) where
  -- After some callbacks of chain `c`.
  record Callbacks (c : ℕ) (x x' : Executor) : Type 0 where
    pub configured : IsConfigured o (c + 1) x'.strategy
    pub memory : x'.strategy.memory ≡ x.strategy.memory
    pub keeps : Keeps x x'
    pub others : (d : ℕ) → c ≢ d → Untouched o d x.strategy x'.strategy

  after :
      (c k : ℕ) (e : PriorityExecutable) (x y : Executor)
      → Made x k e y
      → IsEntry o (c + 1) x.strategy.memory.vector k e
      → IsConfigured o (c + 1) x.strategy
      → ((d : ℕ) → c ≢ d → o.timer_handle d ≢ k)
      → Callbacks c x y
  after c k e x y m entry v ne = record {
    configured = Writes-IsConfigured o (c + 1) k e x.strategy y.strategy m.writes entry v;
    memory = m.writes.memory;
    keeps = record { in_step = m.in_step; flags = m.flags };
    others = λ d other. Writes-Untouched o d k e x.strategy y.strategy m.writes (ne d other);
  }

  Callbacks-trans : (c : ℕ) (x y z : Executor) → Callbacks c x y → Callbacks c y z → Callbacks c x z
  Callbacks-trans c x y z p q = record {
    configured = q.configured;
    memory = q.memory ∙ p.memory;
    keeps = record {
      in_step = λ h. q.keeps.in_step (p.keeps.in_step h);
      flags = q.keeps.flags ∙ p.keeps.flags;
    };
    others = λ d ne.
        Untouched-trans o d x.strategy y.strategy z.strategy (p.others d ne) (q.others d ne);
  }

  module _ (c : ℕ) (ch : ChainConfig) (timed : IsTimed ch) where
    Sized : Executor → Type 0
    Sized x = length (x.strategy.memory.vector (o.vector c)) ≡ ceil_div ch.deadline ch.period

    -- The workers, from a callback that is not the first.
    workers :
        (i n : ℕ) (x : Executor)
        → 0 < i
        → Sized x
        → IsConfigured o (c + 1) x.strategy
        → (x' : Executor) × (make_callbacks o c ch i n x ≡ some x')
          × Callbacks c x x'
          × (get_priority_settings x'.strategy (o.timer_handle c)
              ≡ get_priority_settings x.strategy (o.timer_handle c))
    unfolding make_callbacks Sized
    workers i zero x later size v = (
      x,
      refl,
      record {
        configured = v;
        memory = refl;
        keeps = record { in_step = λ h. h; flags = refl };
        others = λ d ne. record { at = refl; vector = refl; deque = refl };
      },
      refl,
    )
    workers i (suc n) x later size v =
        let (y, made, m) = make_worker-Made o c ch adds i x in
        let k = o.subscription_handle c i in
        let p =
          after c k (body o c ch i) x y m
            (body-IsEntry o c ch timed x.strategy.memory.vector size i) v
            (λ d ne. fresh.subscriptions d c i) in
        let (x', done, q, same) =
          workers (i + 1) n y (omega arith)
            (ap (λ m. length (m.vector (o.vector c))) p.memory ∙ size) p.configured in
        let first : (i == 0) ≡ false = ground arith in
        (
          x',
          rw (first, made, done) refl,
          Callbacks-trans c x y x' p q,
          same ∙ ground (arith, m.writes.at (o.timer_handle c), fresh.subscriptions c c i),
        )

    all_callbacks :
        (n : ℕ) (x : Executor)
        → 0 < n
        → Sized x
        → IsConfigured o (c + 1) x.strategy
        → (x' : Executor) × (make_callbacks o c ch 0 n x ≡ some x')
          × Callbacks c x x'
          × (get_priority_settings x'.strategy (o.timer_handle c) ≡ some (head o c ch))
    unfolding make_callbacks Sized
    all_callbacks zero x some_left size v = absurd (omega arith)
    all_callbacks (suc n) x some_left size v =
        let (y, made, m) = make_publisher-Made o c ch adds x in
        let p =
          after c (o.timer_handle c) (head o c ch) x y m
            (head-IsEntry o c ch timed x.strategy.memory.vector size) v
            (λ d ne. fresh.timers d c (λ same. ne (sym same))) in
        let (x', done, q, same) =
          workers 1 n y (omega arith) (ap (λ m. length (m.vector (o.vector c))) p.memory ∙ size)
            p.configured in
        (
          x',
          rw (made, done) refl,
          Callbacks-trans c x y x' p q,
          same ∙ ground (arith, m.writes.at (o.timer_handle c)),
        )

    -- What the callbacks of a chain start from, with its deques.
    allocated : Strategy → Strategy
    allocated s = record s { memory = allocate o c (ceil_div ch.deadline ch.period) s.memory }

    allocated-Sized : (x : Executor) → Sized (record x { strategy = allocated x.strategy })
    unfolding Sized allocated allocate
    allocated-Sized x = ground (arith, new_deques-length o c 0 (ceil_div ch.deadline ch.period))

    allocated-Untouched : (d : ℕ) (s : Strategy) → c ≢ d → Untouched o d s (allocated s)
    unfolding allocated allocate get_priority_settings
    allocated-Untouched d s ne = record {
      at = refl;
      vector = ground (arith, fresh.vectors c d ne);
      deque = rw (new_deques-other o fresh c d 0 (ceil_div ch.deadline ch.period) ne) refl;
    }

    allocated-IsConfigured :
        (s : Strategy) → IsConfigured o c s → IsConfigured o (c + 1) (allocated s)
    unfolding allocated allocate get_priority_settings
    allocated-IsConfigured s v = record {
      plain = v.plain;
      queue = v.queue;
      entries = λ k e h.
          let old = v.entries k e h in
          let (vec, at, size, d, below, is) = old.queues in
          let other : o.vector c ≢ vec =
            λ same. fresh.vectors c d (λ eq. omega (arith, eq, below)) (same ∙ is) in
          record {
            own = old.own;
            timed = old.timed;
            within = old.within;
            queues = (vec, at, ground (arith, size, other), d, omega (arith, below), is);
            first = λ f. let (b, under, at) = old.first f in (b, omega (arith, under), at);
          };
    }

  -- A chain that is made.
  pub record MadeChain (c : ℕ) (ch : ChainConfig) (x x' : Executor) : Type 0 where
    pub configured : IsConfigured o (c + 1) x'.strategy
    pub made : IsMade o c ch x'.strategy
    pub keeps : Keeps x x'
    pub others : (d : ℕ) → c ≢ d → Untouched o d x.strategy x'.strategy

  allocated-vector :
      (c n : ℕ) (m : Deques) → (allocate o c n m).vector (o.vector c) ≡ new_deques o c 0 n
  unfolding allocate
  allocated-vector c n m = ground arith

  allocated-empty : (c n : ℕ) (m : Deques) → 0 < n → (allocate o c n m).deque (o.deque c 0) ≡ []
  unfolding allocate new_deques contains
  allocated-empty c zero m h = absurd (omega arith)
  allocated-empty c (suc n) m h = ground arith

  make_chain-MadeChain :
      (c : ℕ) (ch : ChainConfig) (x : Executor)
      → IsTimed ch
      → IsConfigured o c x.strategy
      → (x' : Executor) × (make_chain o c ch x ≡ some x') × MadeChain c ch x x'
  unfolding make_chain chain_num allocated
  make_chain-MadeChain c ch x timed v =
      let n = ceil_div ch.deadline ch.period in
      let y : Executor = record x { strategy = allocated c ch timed x.strategy } in
      let (x', done, p, at) =
        all_callbacks c ch timed ch.length y timed.0 (allocated-Sized c ch timed x)
          (allocated-IsConfigured c ch timed x.strategy v) in
      let period : (ch.period == 0) ≡ false = ground (arith, timed.1) in
      (
        x',
        rw (chain_num, period) done,
        record {
          configured = p.configured;
          made = record {
            at = at;
            vector =
                ap (λ m. m.vector (o.vector c)) p.memory ∙ allocated-vector c n x.strategy.memory;
            empty =
                ap (λ m. m.deque (o.deque c 0)) p.memory
                ∙ allocated-empty c n x.strategy.memory
                    (ceil_div-pos ch.deadline ch.period timed.1 timed.2);
          };
          keeps = record { in_step = p.keeps.in_step; flags = p.keeps.flags };
          others = λ d ne.
              Untouched-trans o d x.strategy y.strategy x'.strategy
                (allocated-Untouched c ch timed d x.strategy ne) (p.others d ne);
        },
      )

  pub record MadeChains (c : ℕ) (chains : List ChainConfig) (x x' : Executor) : Type 0 where
    pub configured : IsConfigured o (c + length chains) x'.strategy
    pub made : AllMade o c chains x'.strategy
    pub keeps : Keeps x x'
    pub others : (d : ℕ) → d < c → Untouched o d x.strategy x'.strategy

  pub make_chains-MadeChains :
      (c : ℕ) (chains : List ChainConfig) (x : Executor)
      → All IsTimed chains
      → IsConfigured o c x.strategy
      → (x' : Executor) × (make_chains o c chains x ≡ some x') × MadeChains c chains x x'
  unfolding make_chains
  make_chains-MadeChains c [] x timed v = (
    x,
    refl,
    record {
      configured = subst (λ n. IsConfigured o n x.strategy) (omega arith) v;
      made = tt;
      keeps = record { in_step = λ h. h; flags = refl };
      others = λ d below. record { at = refl; vector = refl; deque = refl };
    },
  )
  make_chains-MadeChains c (ch ∷ chains) x (timed, rest) v =
      let (y, made, p) = make_chain-MadeChain c ch x timed v in
      let (x', done, q) = make_chains-MadeChains (c + 1) chains y rest p.configured in
      (
        x',
        rw (made, done) refl,
        record {
          configured = subst (λ n. IsConfigured o n x'.strategy) (omega arith) q.configured;
          made = (
            Untouched-IsMade o c ch y.strategy x'.strategy (q.others c (omega arith)) p.made,
            q.made,
          );
          keeps = record {
            in_step = λ h. q.keeps.in_step (p.keeps.in_step h);
            flags = q.keeps.flags ∙ p.keeps.flags;
          };
          others = λ d below.
              Untouched-trans o d x.strategy y.strategy x'.strategy
                (p.others d (λ eq. omega (arith, below, eq))) (q.others d (omega (arith, below)));
        },
      )
