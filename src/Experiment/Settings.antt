-- ===== src/Experiment/Settings.antt =====
-- The calls of dy_2.cpp on the strategy for one executable: what they write.
use deadline_driven_enhancem.Base.{
  ℕ, ◌≡◌, refl, ap, ◌∙◌, inl, inr, true, some, arith, ◌==◌, ◌+◌, if◌then◌else◌, Bool-cases, length,
}
use deadline_driven_enhancem.Executable.{
  PriorityExecutable, ExecutableType, subscription, timer, deadline, deadline_executable,
}
use deadline_driven_enhancem.Strategy.{
  Strategy, get_priority_settings, lookup, put, store, in_chain, set_executable_deadline,
  set_first_in_chain, set_last_in_chain, assign_deadlines_queue,
}
use deadline_driven_enhancem.Strategy.Settings.{
  get-store, get-set_executable_deadline, put-put, modify-put,
}
use deadline_driven_enhancem.Executor.{Executor}
use deadline_driven_enhancem.Experiment.{
  ChainConfig, Objects, set_timer_handle, configure, first_settings, end_chain, next_settings,
  make_publisher, make_worker,
}

-- `s'` is `s` with the settings `e` under `k`, in what the choice of executables reads.
pub record Writes (s : Strategy) (k : ℕ) (e : PriorityExecutable) (s' : Strategy) : Type 0 where
  pub at :
      (j : ℕ) → get_priority_settings s' j ≡ (if k == j then some e else get_priority_settings s j)
  pub map : s'.priority_map ≡ put k e s.priority_map
  pub memory : s'.memory ≡ s.memory
  pub queue : s'.all_executables ≡ s.all_executables
  pub plain : s'.is_f1tenth ≡ s.is_f1tenth

-- Another write to the same key.
pub again :
    (s : Strategy) (k : ℕ) (e f : PriorityExecutable) (s' : Strategy)
    → Writes s k e s'
    → Writes s k f (store k f s')
unfolding store
again s k e f s' w = record {
  at = λ j. ground (arith, get-store s' k j f, w.at j);
  map = ap (put k f) w.map ∙ put-put k e f s.priority_map;
  memory = w.memory;
  queue = w.queue;
  plain = w.plain;
}

pub written :
    (s : Strategy) (k : ℕ) (e : PriorityExecutable) (s' : Strategy)
    → Writes s k e s'
    → get_priority_settings s' k ≡ some e
written s k e s' w = ground (arith, w.at k)

pub deadline-Writes :
    (s : Strategy) (k p d c : ℕ) (t : ExecutableType)
    → Writes s k
        (in_chain c (deadline_executable k p d t deadline))
        (set_executable_deadline s k p d t c)
unfolding set_executable_deadline
deadline-Writes s k p d c t = record {
  at = λ j. get-set_executable_deadline s k p d c j t;
  map = modify-put (in_chain c) k _ s.priority_map;
  memory = refl;
  queue = refl;
  plain = refl;
}

-- What add_node of rclcpp::Executor does, as far as the choice of executables reads it: it adds a
-- weak node with a guard condition, whose callback groups may be taken from.
pub record AddsNode (o : Objects) : Type 0 where
  pub map :
      (c i : ℕ) (x : Executor) → (o.add_node c i x).strategy.priority_map ≡ x.strategy.priority_map
  pub memory : (c i : ℕ) (x : Executor) → (o.add_node c i x).strategy.memory ≡ x.strategy.memory
  pub queue :
      (c i : ℕ) (x : Executor)
      → (o.add_node c i x).strategy.all_executables ≡ x.strategy.all_executables
  pub in_step :
      (c i : ℕ) (x : Executor)
      → length x.weak_nodes ≡ length x.guard_conditions
      → length (o.add_node c i x).weak_nodes ≡ length (o.add_node c i x).guard_conditions
  pub flags : (c i : ℕ) (x : Executor) → (o.add_node c i x).can_be_taken_from ≡ x.can_be_taken_from
  pub plain :
      (c i : ℕ) (x : Executor) → (o.add_node c i x).strategy.is_f1tenth ≡ x.strategy.is_f1tenth

pub AddsNode-at :
    (o : Objects) (c i : ℕ) (x : Executor) (j : ℕ)
    → AddsNode o
    → get_priority_settings (o.add_node c i x).strategy j ≡ get_priority_settings x.strategy j
unfolding get_priority_settings
AddsNode-at o c i x j adds = ap (lookup j) (adds.map c i x)

-- What a write leaves, add_node keeps.
pub added-Writes :
    (o : Objects) (adds : AddsNode o) (c i k : ℕ) (e : PriorityExecutable) (s : Strategy)
    (x : Executor)
    → Writes s k e x.strategy
    → Writes s k e (o.add_node c i x).strategy
added-Writes o adds c i k e s x w = record {
  at = λ j. AddsNode-at o c i x j adds ∙ w.at j;
  map = adds.map c i x ∙ w.map;
  memory = adds.memory c i x ∙ w.memory;
  queue = adds.queue c i x ∙ w.queue;
  plain = adds.plain c i x ∙ w.plain;
}

-- A callback that is made.
pub record Made (x : Executor) (k : ℕ) (e : PriorityExecutable) (x' : Executor) : Type 0 where
  pub writes : Writes x.strategy k e x'.strategy
  pub in_step :
      length x.weak_nodes ≡ length x.guard_conditions
      → length x'.weak_nodes ≡ length x'.guard_conditions
  pub flags : x'.can_be_taken_from ≡ x.can_be_taken_from

module _ (o : Objects) (c : ℕ) (ch : ChainConfig) where
  -- The settings of the publisher's timer, but for the release time.
  abbrev pub head : PriorityExecutable
  head =
      record (in_chain c
        (deadline_executable (o.timer_handle c) ch.period ch.deadline timer deadline)) {
          is_first_in_chain = true;
          deadlines = some (o.vector c);
          timer_handle = some (o.timer c);
        }

  abbrev worker : ℕ → PriorityExecutable
  worker i =
      record (in_chain c (
        deadline_executable (o.subscription_handle c i) ch.period ch.deadline subscription
          deadline)) { deadlines = some (o.vector c) }

  -- The settings of a worker's subscription.
  abbrev pub body : ℕ → PriorityExecutable
  body i =
      if i + 1 == ch.length
      then record (worker i) { is_last_in_chain = true; timer_handle = some (o.timer c) }
      else worker i

  first_settings-Writes :
      (s : Strategy)
      → (s' : Strategy) × (first_settings o c ch s ≡ some s') × Writes s (o.timer_handle c) head s'
  unfolding first_settings set_first_in_chain assign_deadlines_queue set_timer_handle
  first_settings-Writes s =
      let k = o.timer_handle c in
      let e0 = in_chain c (deadline_executable k ch.period ch.deadline timer deadline) in
      let s0 = set_executable_deadline s k ch.period ch.deadline timer c in
      let w0 = deadline-Writes s k ch.period ch.deadline c timer in
      let e1 : PriorityExecutable = record e0 { is_first_in_chain = true } in
      let w1 = again s k e0 e1 s0 w0 in
      let e2 : PriorityExecutable = record e1 { deadlines = some (o.vector c) } in
      let w2 = again s k e1 e2 (store k e1 s0) w1 in
      (
        _,
        rw (written s k e0 s0 w0, written s k e1 _ w1, written s k e2 _ w2) refl,
        again s k e2 head _ w2,
      )

  end_chain-Writes :
      (i : ℕ) (s s' : Strategy)
      → Writes s (o.subscription_handle c i) (worker i) s'
      → (s'' : Strategy) × (end_chain o c i ch s' ≡ some s'')
        × Writes s (o.subscription_handle c i) (body i) s''
  unfolding end_chain set_last_in_chain set_timer_handle
  end_chain-Writes i s s' w = elim (Bool-cases (i + 1 == ch.length)) [
    | inr more ↦ (s', rw (end_chain, more) refl, rw more w)
    | inl last ↦
        let k = o.subscription_handle c i in
        let e1 : PriorityExecutable = record (worker i) { is_last_in_chain = true } in
        let s1 = store k e1 s' in
        let w1 = again s k (worker i) e1 s' w in
        let e2 : PriorityExecutable = record e1 { timer_handle = some (o.timer c) } in
        (
          store k e2 s1,
          rw (end_chain, last, written s k (worker i) s' w, written s k e1 s1 w1) refl,
          rw last (again s k e1 e2 s1 w1),
        )
  ]

  next_settings-Writes :
      (i : ℕ) (s s' : Strategy)
      → Writes s
          (o.subscription_handle c i)
          (in_chain c (
            deadline_executable
              (o.subscription_handle c i)
              ch.period
              ch.deadline
              subscription
              deadline))
          s'
      → (s'' : Strategy) × (next_settings o c i ch s' ≡ some s'')
        × Writes s (o.subscription_handle c i) (body i) s''
  unfolding next_settings assign_deadlines_queue
  next_settings-Writes i s s' w =
      let k = o.subscription_handle c i in
      let e0 = in_chain c (deadline_executable k ch.period ch.deadline subscription deadline) in
      let s1 = store k (worker i) s' in
      let (s2, done, w2) = end_chain-Writes i s s1 (again s k e0 (worker i) s' w) in
      (s2, rw (written s k e0 s' w, done) refl, w2)

  module _ (adds : AddsNode o) where
    pub make_publisher-Made :
        (x : Executor)
        → (x' : Executor) × (make_publisher o c ch x ≡ some x') × Made x (o.timer_handle c) head x'
    unfolding make_publisher configure
    make_publisher-Made x =
        let (s, done, w) = first_settings-Writes x.strategy in
        let y : Executor = record x { strategy = s } in
        (
          o.add_node c 0 y,
          rw done refl,
          record {
            writes = added-Writes o adds c 0 (o.timer_handle c) head x.strategy y w;
            in_step = adds.in_step c 0 y;
            flags = adds.flags c 0 y;
          },
        )

    pub make_worker-Made :
        (i : ℕ) (x : Executor)
        → (x' : Executor) × (make_worker o c i ch x ≡ some x')
          × Made x (o.subscription_handle c i) (body i) x'
    unfolding make_worker configure
    make_worker-Made i x =
        let k = o.subscription_handle c i in
        let s = set_executable_deadline x.strategy k ch.period ch.deadline subscription c in
        let w = deadline-Writes x.strategy k ch.period ch.deadline c subscription in
        let z : Executor = record x { strategy = s } in
        let y = o.add_node c i z in
        let (s', done, w') =
          next_settings-Writes i x.strategy y.strategy
            (added-Writes o adds c i k _ x.strategy z w) in
        (
          record y { strategy = s' },
          rw done refl,
          record { writes = w'; in_step = adds.in_step c i z; flags = adds.flags c i z },
        )
