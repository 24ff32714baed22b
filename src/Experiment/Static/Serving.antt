-- ===== src/Experiment/Static/Serving.antt =====
-- The set-up of st_2.cpp leaves an executor that is ready to run, under fixed priorities.
use mathlib.Core.Path.{subst}
use deadline_driven_enhancem.Base.{
  ℕ, zero, suc, ◌+◌, ◌≤◌, ◌≡◌, ◌≢◌, refl, sym, ◌∙◌, inl, inr, true, some, List, [], ◌∷◌, arith,
  ◌==◌, if◌then◌else◌, Bool-cases, length, All, All-map, get_elem?_lt,
}
use deadline_driven_enhancem.Executable.{
  PriorityExecutable, ExecutableType, subscription, timer, chain_aware_priority, executable,
}
use deadline_driven_enhancem.Strategy.{
  Strategy, get_priority_settings, store, in_chain, set_chain_priority, set_first_in_chain,
}
use deadline_driven_enhancem.Strategy.Settings.{
  get-set_chain_priority, modify-put, All-put, All-lookup,
}
use deadline_driven_enhancem.Selection.{is_deadline}
use deadline_driven_enhancem.Selection.Accounting.{IsMirrored}
use deadline_driven_enhancem.Selection.Totality.{IsSetUp}
use deadline_driven_enhancem.Executor.{Executor}
use deadline_driven_enhancem.Executor.Serving.{IsServing}
use deadline_driven_enhancem.Experiment.{Objects, set_timer_handle, configure}
use deadline_driven_enhancem.Experiment.Settings.{Writes, AddsNode, added-Writes, again, written}
use deadline_driven_enhancem.Experiment.Making.{Keeps}
use deadline_driven_enhancem.Experiment.Running.{IsNew}
use deadline_driven_enhancem.Experiment.Static.{
  StaticChain, first_priority, make_static_publisher, make_static_worker, make_static_callbacks,
  make_static_chains,
}

-- Settings under their own handle, with a priority that is aware of the chain.
pub record IsStaticEntry (k : ℕ) (e : PriorityExecutable) : Type 0 where
  pub own : e.handle ≡ some k
  pub aware : e.sched_type ≡ chain_aware_priority

abbrev pub IsStatic : Strategy → Type 0
IsStatic s = All (λ p. IsStaticEntry p.0 p.1) s.priority_map × (s.all_executables ≡ [])

pub Writes-IsStatic :
    (k : ℕ) (e : PriorityExecutable) (s s' : Strategy)
    → Writes s k e s'
    → IsStaticEntry k e
    → IsStatic s
    → IsStatic s'
Writes-IsStatic k e s s' w entry v =
    (subst (All _) (sym w.map) (All-put IsStaticEntry k e s.priority_map entry v.0), w.queue ∙ v.1)

pub priority-Writes :
    (s : Strategy) (k p c : ℕ) (t : ExecutableType)
    → Writes s k
        (in_chain c (executable k p t chain_aware_priority))
        (set_chain_priority s k p t chain_aware_priority c)
unfolding set_chain_priority
priority-Writes s k p c t = record {
  at = λ j. get-set_chain_priority s k p c j t chain_aware_priority;
  map = modify-put (in_chain c) k _ s.priority_map;
  memory = refl;
  queue = refl;
  plain = refl;
}

-- What the loops keep.
pub record Stepped (x x' : Executor) : Type 0 where
  pub static : IsStatic x'.strategy
  pub keeps : Keeps x x'

module _ (o : Objects) (adds : AddsNode o) where
  pub added :
      (c i k : ℕ) (e : PriorityExecutable) (x : Executor) (s : Strategy)
      → Writes x.strategy k e s
      → IsStaticEntry k e
      → IsStatic x.strategy
      → Stepped x (o.add_node c i (record x { strategy = s }))
  added c i k e x s w entry v =
      let y : Executor = record x { strategy = s } in
      record {
        static =
            Writes-IsStatic k e x.strategy (o.add_node c i y).strategy
              (added-Writes o adds c i k e x.strategy y w) entry v;
        keeps = record { in_step = adds.in_step c i y; flags = adds.flags c i y };
      }

  pub publisher-Stepped :
      (c p : ℕ) (x : Executor)
      → IsStatic x.strategy
      → (x' : Executor) × (make_static_publisher o c p x ≡ some x') × Stepped x x'
  unfolding make_static_publisher configure first_priority set_first_in_chain set_timer_handle
      executable
  publisher-Stepped c p x v =
      let k = o.timer_handle c in
      let e0 = in_chain c (executable k p timer chain_aware_priority) in
      let s0 = set_chain_priority x.strategy k p timer chain_aware_priority c in
      let w0 = priority-Writes x.strategy k p c timer in
      let e1 : PriorityExecutable = record e0 { is_first_in_chain = true } in
      let w1 = again x.strategy k e0 e1 s0 w0 in
      let e2 : PriorityExecutable = record e1 { timer_handle = some (o.timer c) } in
      let s2 = store k e2 (store k e1 s0) in
      (
        o.add_node c 0 (record x { strategy = s2 }),
        rw (written x.strategy k e0 s0 w0, written x.strategy k e1 (store k e1 s0) w1) refl,
        added c 0 k e2 x s2 (again x.strategy k e1 e2 (store k e1 s0) w1)
            (record { own = refl; aware = refl }) v,
      )

  pub worker-Stepped :
      (c i p : ℕ) (x : Executor) → IsStatic x.strategy → Stepped x (make_static_worker o c i p x)
  unfolding make_static_worker executable
  worker-Stepped c i p x v =
      let k = o.subscription_handle c i in
      added c i k (in_chain c (executable k p subscription chain_aware_priority)) x _
        (priority-Writes x.strategy k p c subscription) (record { own = refl; aware = refl }) v

  pub Stepped-trans : (x y z : Executor) → Stepped x y → Stepped y z → Stepped x z
  Stepped-trans x y z p q = record {
    static = q.static;
    keeps = record {
      in_step = λ h. q.keeps.in_step (p.keeps.in_step h);
      flags = q.keeps.flags ∙ p.keeps.flags;
    };
  }

  one :
      (c i p : ℕ) (x : Executor)
      → IsStatic x.strategy
      → (x' : Executor) × ((if i == 0
            then make_static_publisher o c p x
            else some (make_static_worker o c i p x))
          ≡ some x')
        × Stepped x x'
  one c i p x v = elim (Bool-cases (i == 0)) [
    | inl first ↦ let (x', done, step) = publisher-Stepped c p x v in (x', rw first done, step)
    | inr later ↦ (make_static_worker o c i p x, rw later refl, worker-Stepped c i p x v)
  ]

  callbacks :
      (c : ℕ) (priorities : List ℕ) (i n : ℕ) (x : Executor)
      → i + n ≤ length priorities
      → IsStatic x.strategy
      → (x' : Executor) × (make_static_callbacks o c priorities i n x ≡ some x') × Stepped x x'
  unfolding make_static_callbacks
  callbacks c priorities i zero x h v =
      (x, refl, record { static = v; keeps = record { in_step = λ h. h; flags = refl } })
  callbacks c priorities i (suc n) x h v =
      let (p, has) = get_elem?_lt priorities i (omega (arith, h)) in
      let (y, made, step) = one c i p x v in
      let (x', done, steps) = callbacks c priorities (i + 1) n y (omega (arith, h)) step.static in
      (x', rw (has, made, done) refl, Stepped-trans x y x' step steps)

  chains_made :
      (c : ℕ) (chains : List StaticChain) (x : Executor)
      → All (λ ch. ch.length ≤ length ch.priorities) chains
      → IsStatic x.strategy
      → (x' : Executor) × (make_static_chains o c chains x ≡ some x') × Stepped x x'
  unfolding make_static_chains
  chains_made c [] x h v =
      (x, refl, record { static = v; keeps = record { in_step = λ h. h; flags = refl } })
  chains_made c (ch ∷ chains) x (long, h) v =
      let (y, made, step) = callbacks c ch.priorities 0 ch.length x (omega (arith, long)) v in
      let (x', done, steps) = chains_made (c + 1) chains y h step.static in
      (x', rw (made, done) refl, Stepped-trans x y x' step steps)

not_deadline : (k : ℕ) (e : PriorityExecutable) → IsStaticEntry k e → is_deadline e ≢ true
not_deadline k e v dl = ground (arith, v.aware)

pub static_entries :
    (s : Strategy) (k : ℕ) (e : PriorityExecutable)
    → IsStatic s
    → get_priority_settings s k ≡ some e
    → IsStaticEntry k e
unfolding get_priority_settings
static_entries s k e v h = All-lookup IsStaticEntry k e s.priority_map v.0 h

static-IsMirrored :
    (vector : ℕ → List ℕ) (k : ℕ) (e : PriorityExecutable)
    → IsStaticEntry k e
    → IsMirrored 0 vector e
static-IsMirrored vector k e v = record {
  head = λ dl _ _. absurd (not_deadline k e v dl);
  copy = λ pos _. absurd (omega (arith, pos));
}

pub IsStatic-IsSetUp : (s : Strategy) → IsStatic s → IsSetUp s
IsStatic-IsSetUp s v = record {
  shared = 0;
  mirrored = λ h. All-map _ s.priority_map (λ p. static-IsMirrored s.memory.vector p.0 p.1) v.0;
  known = subst (All _) (sym v.1) tt;
  sound = λ k e h.
      let entry = static_entries s k e v h in
      record {
        own = entry.own;
        timed = λ dl. absurd (not_deadline k e entry dl);
        within = λ dl. absurd (not_deadline k e entry dl);
        queues = λ dl. absurd (not_deadline k e entry dl);
        timer = λ dl first. absurd (not_deadline k e entry dl);
      };
}

pub IsNew-IsStatic : (x : Executor) → IsNew x → IsStatic x.strategy
IsNew-IsStatic x v = (subst (All _) (sym v.settings) tt, v.queue)

-- For chains with a priority for each callback and an executor with a new strategy: the set-up
-- does not fault. Then the strategy is set up, there is a guard condition for each weak node, no group
-- is in use that was not before, and all settings stand under their own handle and have a
-- priority that is aware of the chain.
pub make_static_chains-IsServing :
    (o : Objects) (chains : List StaticChain) (x : Executor)
    → AddsNode o
    → All (λ ch. ch.length ≤ length ch.priorities) chains
    → IsNew x
    → (x' : Executor) × (make_static_chains o 0 chains x ≡ some x')
      × IsServing x'
      × (x'.can_be_taken_from ≡ x.can_be_taken_from)
      × ((k : ℕ) (e : PriorityExecutable)
          → get_priority_settings x'.strategy k ≡ some e
          → IsStaticEntry k e)
make_static_chains-IsServing o chains x adds long new =
    let (x', done, step) = chains_made o adds 0 chains x long (IsNew-IsStatic x new) in
    (
      x',
      done,
      record {
        set_up = IsStatic-IsSetUp x'.strategy step.static;
        in_step = step.keeps.in_step new.in_step;
      },
      step.keeps.flags,
      λ k e. static_entries x'.strategy k e step.static,
    )
