-- ===== src/Experiment/Shared/Making.antt =====
-- The loops of multi_test.cpp that make the chains never fault, and keep what is set up.

use mathlib.Core.Path.{subst}
use deadline_driven_enhancem.Base.{
  Bool, true, sym, ℕ, zero, suc, ◌+◌, ◌<◌, ◌≡◌, ◌≢◌, refl, ap, ◌∙◌, inl, inr, false, Option, none,
  some, arith, ◌==◌, length, All-map, Bool-cases,
}
use deadline_driven_enhancem.Executable.{PriorityExecutable, deadline_executable}
use deadline_driven_enhancem.Strategy.{Strategy, get_priority_settings}
use deadline_driven_enhancem.Selection.{ceil_div}
use deadline_driven_enhancem.Selection.Release.{ceil_div-pos}
use deadline_driven_enhancem.Executor.{Executor}
use deadline_driven_enhancem.Experiment.{ChainConfig, Objects, chain_num, allocate, make_worker}
use deadline_driven_enhancem.Experiment.Settings.{
  AddsNode, Made, head, body, make_publisher-Made, make_worker-Made,
}
use deadline_driven_enhancem.Experiment.Chains.{IsTimed, new_deques-length, body-IsEntry}
use deadline_driven_enhancem.Experiment.Making.{Keeps}
use deadline_driven_enhancem.Experiment.Shared.{
  shared_timers, shared_head, shared_deadline_worker, shared_deadline_callbacks,
  shared_deadline_chain, chain_timers,
}
use deadline_driven_enhancem.Experiment.Shared.Placed.{
  ChainShares, IsPlaced, AllPlaced, Writes-AllPlaced, head-Shares, body-Shares, later-IsPlaced,
}

-- Settings for the timer of chain `c`, and a deque for each instance of it.
pub record IsLaidOut (o : Objects) (c : ℕ) (ch : ChainConfig) (s : Strategy) : Type 0 where
  pub timer : get_priority_settings s ((shared_timers o).timer_handle c) ≢ none
  pub vector : length (s.memory.vector (o.vector c)) ≡ ceil_div ch.deadline ch.period

-- What the calls for one callback keep.
record Steps (x x' : Executor) : Type 0 where
  pub memory : x'.strategy.memory ≡ x.strategy.memory
  pub keeps : Keeps x x'
  pub known :
      (j : ℕ)
      → get_priority_settings x.strategy j ≢ none
      → get_priority_settings x'.strategy j ≢ none

Steps-refl : (x : Executor) → Steps x x
Steps-refl x = record {
  memory = refl;
  keeps = record { in_step = λ h. h; flags = refl };
  known = λ j h. h;
}

pub Keeps-trans : (x y z : Executor) → Keeps x y → Keeps y z → Keeps x z
Keeps-trans x y z p q = record { in_step = λ h. q.in_step (p.in_step h); flags = q.flags ∙ p.flags }

Steps-trans : (x y z : Executor) → Steps x y → Steps y z → Steps x z
Steps-trans x y z p q = record {
  memory = q.memory ∙ p.memory;
  keeps = Keeps-trans x y z p.keeps q.keeps;
  known = λ j h. q.known j (p.known j h);
}

Made-Steps :
    (x : Executor) (k : ℕ) (e : PriorityExecutable) (y : Executor) → Made x k e y → Steps x y
Made-Steps x k e y m = record {
  memory = m.writes.memory;
  keeps = record { in_step = m.in_step; flags = m.flags };
  known = λ j h gone. ground (arith, m.writes.at j, h);
}

module _ (o : Objects) (adds : AddsNode o) (shared : ℕ) (left_out : ℕ → Bool) where
  abbrev timers : Objects
  timers = shared_timers o

  shared-AddsNode : AddsNode timers
  unfolding shared_timers
  shared-AddsNode = record {
    map = adds.map;
    memory = adds.memory;
    queue = adds.queue;
    in_step = adds.in_step;
    flags = adds.flags;
    plain = adds.plain;
  }

  module _ (c : ℕ) (ch : ChainConfig) (timed : IsTimed ch) (shares : ChainShares shared c ch) where
    Sized : Executor → Type 0
    Sized x = length (x.strategy.memory.vector (o.vector c)) ≡ ceil_div ch.deadline ch.period

    Goes : Executor → Option Executor → Type 0
    Goes x r =
        (x' : Executor) × (r ≡ some x') × Steps x x' × AllPlaced timers shared (c + 1) x'.strategy

    head-IsPlaced :
        (x : Executor)
        → c ≢ 1
        → Sized x
        → IsPlaced timers shared (c + 1) x.strategy.memory.vector (o.timer_handle c) (head o c ch)
    unfolding deadline_executable Sized shared_timers
    head-IsPlaced x ne size = record {
      entry = record {
        own = refl;
        timed = (timed.1, timed.2);
        within = ceil_div-pos ch.deadline ch.period timed.1 timed.2;
        queues = (o.vector c, refl, size, c, omega arith, refl);
        first = λ h. (c, omega arith, ground (arith, ne));
      };
      shares = head-Shares o shared c ch shares;
    }

    -- The branch for the first callback; after it there are settings for the timer of the chain.
    head-Goes :
        (nodes : ℕ) (x : Executor)
        → Sized x
        → (c ≡ 1 → 0 < nodes)
        → (c ≡ 1 → get_priority_settings x.strategy (timers.timer_handle c) ≢ none)
        → AllPlaced timers shared (c + 1) x.strategy
        → (x' : Executor) × (shared_head o nodes c ch x ≡ some x')
          × Steps x x'
          × AllPlaced timers shared (c + 1) x'.strategy
          × (get_priority_settings x'.strategy (timers.timer_handle c) ≢ none)
    unfolding shared_head shared_timers
    head-Goes nodes x size some_node has v = elim (Bool-cases (c == 1)) [
      | inl one ↦ (x, ground (arith, some_node, v.f1tenth), Steps-refl x, v, has (ground arith))
      | inr other ↦
          let (y, made, m) = make_publisher-Made o c ch adds x in
          (
            y,
            rw (shared_head, other) made,
            Made-Steps x (o.timer_handle c) (head o c ch) y m,
            Writes-AllPlaced timers shared (c + 1) (o.timer_handle c) (head o c ch) x.strategy
                y.strategy m.writes (head-IsPlaced x (ground arith) size) v,
            λ gone. ground (arith, m.writes.at (o.timer_handle c)),
          )
    ]

    made_worker-Goes :
        (i : ℕ) (x : Executor)
        → Sized x
        → AllPlaced timers shared (c + 1) x.strategy
        → Goes x (make_worker timers c i ch x)
    unfolding Goes Sized shared_timers
    made_worker-Goes i x size v =
        let (y, made, m) = make_worker-Made timers c ch shared-AddsNode i x in
        let k = timers.subscription_handle c i in
        (
          y,
          made,
          Made-Steps x k (body timers c ch i) y m,
          Writes-AllPlaced timers shared (c + 1) k (body timers c ch i) x.strategy y.strategy
              m.writes
              (record {
                entry = body-IsEntry timers c ch timed x.strategy.memory.vector size i;
                shares = body-Shares timers shared c ch shares i;
              })
              v,
        )

    chain_timers-shared : (x : Executor) → x.strategy.is_f1tenth ≡ true → chain_timers o x ≡ timers
    unfolding chain_timers shared_timers
    chain_timers-shared x h = rw h refl

    worker-Goes :
        (i : ℕ) (x : Executor)
        → Sized x
        → AllPlaced timers shared (c + 1) x.strategy
        → Goes x (shared_deadline_worker o left_out c i ch x)
    unfolding shared_deadline_worker Goes
    worker-Goes i x size v = elim (Bool-cases (left_out c)) [
      | inl out ↦ (x, rw out refl, Steps-refl x, v)
      | inr made ↦ rw made (
          subst (λ ts. Goes x (make_worker ts c i ch x)) (sym (chain_timers-shared x v.f1tenth))
            (made_worker-Goes i x size v))
    ]

    workers-Goes :
        (nodes i n : ℕ) (x : Executor)
        → 0 < i
        → Sized x
        → AllPlaced timers shared (c + 1) x.strategy
        → Goes x (shared_deadline_callbacks o left_out nodes c ch i n x)
    unfolding shared_deadline_callbacks Goes Sized
    workers-Goes nodes i zero x later size v = (x, refl, Steps-refl x, v)
    workers-Goes nodes i (suc n) x later size v =
        let (y, made, step, v') = worker-Goes i x size v in
        let size' = ap (λ m. length (m.vector (o.vector c))) step.memory ∙ size in
        let (x', done, steps, v'') = workers-Goes nodes (i + 1) n y (omega arith) size' v' in
        let first : (i == 0) ≡ false = ground arith in
        (x', rw (first, made, done) refl, Steps-trans x y x' step steps, v'')

    callbacks-Goes :
        (nodes n : ℕ) (x : Executor)
        → 0 < n
        → Sized x
        → (c ≡ 1 → 0 < nodes)
        → (c ≡ 1 → get_priority_settings x.strategy (timers.timer_handle c) ≢ none)
        → AllPlaced timers shared (c + 1) x.strategy
        → (x' : Executor) × (shared_deadline_callbacks o left_out nodes c ch 0 n x ≡ some x')
          × Steps x x'
          × AllPlaced timers shared (c + 1) x'.strategy
          × (get_priority_settings x'.strategy (timers.timer_handle c) ≢ none)
    unfolding shared_deadline_callbacks Goes Sized
    callbacks-Goes nodes zero x some_left size some_node has v = absurd (omega arith)
    callbacks-Goes nodes (suc n) x some_left size some_node has v =
        let (y, first, step, v', set) = head-Goes nodes x size some_node has v in
        let size' = ap (λ m. length (m.vector (o.vector c))) step.memory ∙ size in
        let (x', done, steps, v'') = workers-Goes nodes 1 n y (omega arith) size' v' in
        (x', rw (first, done) refl, Steps-trans x y x' step steps, v'', steps.known _ set)

    -- What the callbacks of a chain start from, with its deques.
    allocated : Executor → Executor
    allocated x = record x {
      strategy = record x.strategy {
        memory = allocate o c (ceil_div ch.deadline ch.period) x.strategy.memory;
      };
    }

    allocated-vector :
        (x : Executor) (d : ℕ)
        → o.vector c ≢ o.vector d
        → (allocated x).strategy.memory.vector (o.vector d) ≡ x.strategy.memory.vector (o.vector d)
    unfolding allocated allocate
    allocated-vector x d ne = ground (arith, ne)

    allocated-Sized : (x : Executor) → Sized (allocated x)
    unfolding Sized allocated allocate
    allocated-Sized x = ground (arith, new_deques-length o c 0 (ceil_div ch.deadline ch.period))

    allocated-AllPlaced :
        (x : Executor)
        → ((d : ℕ) → d < c → o.vector c ≢ o.vector d)
        → AllPlaced timers shared c x.strategy
        → AllPlaced timers shared (c + 1) (allocated x).strategy
    unfolding allocated shared_timers
    allocated-AllPlaced x fresh v = record {
      queue = v.queue;
      f1tenth = v.f1tenth;
      unique = v.unique;
      all =
          All-map _ x.strategy.priority_map
            (λ p.
              later-IsPlaced timers shared c x.strategy.memory.vector
                (allocated x).strategy.memory.vector p.0 p.1
                (λ d below. allocated-vector x d (fresh d below)))
            v.all;
    }

  -- A chain that is made.
  pub record Makes (c : ℕ) (x x' : Executor) : Type 0 where
    pub placed : AllPlaced timers shared (c + 1) x'.strategy
    pub keeps : Keeps x x'
    pub known :
        (j : ℕ)
        → get_priority_settings x.strategy j ≢ none
        → get_priority_settings x'.strategy j ≢ none
    pub vectors :
        (d : ℕ)
        → o.vector c ≢ o.vector d
        → x'.strategy.memory.vector (o.vector d) ≡ x.strategy.memory.vector (o.vector d)

  pub shared_deadline_chain-Makes :
      (nodes c : ℕ) (ch : ChainConfig) (x : Executor)
      → IsTimed ch
      → ChainShares shared c ch
      → ((d : ℕ) → d < c → o.vector c ≢ o.vector d)
      → (c ≡ 1 → 0 < nodes)
      → (c ≡ 1 → get_priority_settings x.strategy (timers.timer_handle c) ≢ none)
      → AllPlaced timers shared c x.strategy
      → (x' : Executor) × (shared_deadline_chain o left_out nodes c ch x ≡ some x')
        × Makes c x x'
        × IsLaidOut o c ch x'.strategy
  unfolding shared_deadline_chain chain_num get_priority_settings Sized allocated
  shared_deadline_chain-Makes nodes c ch x timed shares fresh some_node has v =
      let y = allocated c ch timed shares x in
      let size = allocated-Sized c ch timed shares x in
      let (x', done, all, v', set) =
        callbacks-Goes c ch timed shares nodes ch.length y timed.0 size some_node has
          (allocated-AllPlaced c ch timed shares x fresh v) in
      let period : (ch.period == 0) ≡ false = ground (arith, timed.1) in
      (
        x',
        rw (chain_num, period) done,
        record {
          placed = v';
          keeps = record { in_step = all.keeps.in_step; flags = all.keeps.flags };
          known = all.known;
          vectors = λ e ne.
              ap (λ m. m.vector (o.vector e)) all.memory
              ∙ allocated-vector c ch timed shares x e ne;
        },
        record { timer = set; vector = ap (λ m. length (m.vector (o.vector c))) all.memory ∙ size },
      )
