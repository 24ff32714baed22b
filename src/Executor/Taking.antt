-- ===== src/Executor/Taking.antt =====
-- get_next_ready_executable of the executors in priority_executor.cpp: the assertion on the group
-- holds, and the group of what is found is marked as in use.
use mathlib.Core.Path.{subst}
use deadline_driven_enhancem.Base.{
  ℕ, ◌≡◌, refl, ap, sym, ◌∙◌, inl, inr, Bool, false, ◌&&◌, none, some, if◌then◌else◌, Bool-cases,
  Option-cases, some_eq, then_branch, else_branch,
}
use deadline_driven_enhancem.PriorityQueue.{PriorityQueue}
use deadline_driven_enhancem.Graph.{Graph, AnyExecutable, empty_executable}
use deadline_driven_enhancem.Selection.Totality.{IsSetUp, get_next_executable-IsSetUp}
use deadline_driven_enhancem.Executor.{
  Executor, is_found, set_flag, graph, next_by_priority, next_by_kind, mark,
  get_next_ready_executable,
}
use deadline_driven_enhancem.Executor.Free.{IsFree}
use deadline_driven_enhancem.Executor.Branches.{
  Chosen, next_by_kind-Chosen, next_by_priority-Chosen,
}

-- The flags once a mutually exclusive group that something was found in is marked.
abbrev pub in_use : (ℕ → Bool) → (ℕ → Bool) → AnyExecutable → (ℕ → Bool)
in_use mutually_exclusive flags any = elim any.callback_group [
  | none ↦ flags
  | some group ↦
      if is_found any && mutually_exclusive group then set_flag flags group false else flags
]

-- What get_next_ready_executable gives and leaves of `x`.
pub record Ready (mutually_exclusive : ℕ → Bool) (x x' : Executor) (any : AnyExecutable)
    (success : Bool) : Type 0 where
  pub found : success ≡ is_found any
  pub free : IsFree x.can_be_taken_from any
  pub flags : x'.can_be_taken_from ≡ in_use mutually_exclusive x.can_be_taken_from any
  pub nodes : x'.weak_nodes ≡ x.weak_nodes
  pub conditions : x'.guard_conditions ≡ x.guard_conditions
  pub set_up : IsSetUp x'.strategy

module _ (pq : PriorityQueue) (g : Graph) (mutually_exclusive : ℕ → Bool) where
  mark-some :
      (x : Executor) (any : AnyExecutable)
      → IsFree x.can_be_taken_from any
      → mark pq g mutually_exclusive x any
        ≡ some (record x { can_be_taken_from = in_use mutually_exclusive x.can_be_taken_from any })
  unfolding mark
  mark-some x any free = elim (Option-cases any.callback_group) [
    | inl h ↦ rw (h, mark) refl
    | inr (group, h) ↦ elim (Bool-cases (is_found any && mutually_exclusive group)) [
      | inl m ↦ rw (h, mark, m, free group h) refl
      | inr m ↦ rw (h, mark, m) refl
    ]
  ]

  pub mark-flags :
      (x y x' : Executor) (any : AnyExecutable)
      → Chosen x (y, any)
      → mark pq g mutually_exclusive y any ≡ some x'
      → x'.can_be_taken_from ≡ in_use mutually_exclusive x.can_be_taken_from any
  mark-flags x y x' any c h =
      ap (λ x. x.can_be_taken_from)
        (some_eq (sym h ∙ mark-some y any (subst (λ f. IsFree f any) (sym c.flags) c.free)))
      ∙ ap (λ f. in_use mutually_exclusive f any) c.flags

  pub marked :
      (x y : Executor) (any : AnyExecutable)
      → Chosen x (y, any)
      → IsSetUp x.strategy
      → (x' : Executor) × (mark pq g mutually_exclusive y any ≡ some x')
        × Ready mutually_exclusive x x' any (is_found any)
  marked x y any c v =
      let flags = in_use mutually_exclusive y.can_be_taken_from any in
      (
        record y { can_be_taken_from = flags },
        mark-some y any (subst (λ f. IsFree f any) (sym c.flags) c.free),
        record {
          found = refl;
          free = c.free;
          flags = ap (λ f. in_use mutually_exclusive f any) c.flags;
          nodes = c.nodes;
          conditions = c.conditions;
          set_up = c.set_up v;
        },
      )

  pub empty-IsFree : (flags : ℕ → Bool) → IsFree flags empty_executable
  empty-IsFree flags group h = cc

  -- get_next_executable of the memory strategy, from an AnyExecutable with nothing in it.
  pub next_by_priority-some :
      (millis : ℕ) (x : Executor)
      → IsSetUp x.strategy
      → (y : Executor) × (any : AnyExecutable) × (next_by_priority pq g mutually_exclusive millis x
            empty_executable
          ≡ some (y, any))
        × Chosen x (y, any)
  unfolding next_by_priority
  next_by_priority-some millis x v =
      let (s, any, done, _) =
        get_next_executable-IsSetUp (graph pq g mutually_exclusive x) millis empty_executable pq
          x.strategy v in
      let next : next_by_priority pq g mutually_exclusive millis x empty_executable
          ≡ some (record x { strategy = s }, any) =
        simp done in
      (
        record x { strategy = s },
        any,
        next,
        next_by_priority-Chosen pq g mutually_exclusive x millis empty_executable _ any
            (empty-IsFree _) next,
      )

  ready_steps :
      (millis : ℕ) (x y x' : Executor) (any : AnyExecutable)
      → (if x.use_priorities
          then next_by_priority pq g mutually_exclusive millis x empty_executable
          else some (next_by_kind pq g mutually_exclusive x empty_executable))
        ≡ some (y, any)
      → mark pq g mutually_exclusive y any ≡ some x'
      → get_next_ready_executable pq g mutually_exclusive millis x empty_executable
        ≡ some (x', any, is_found any)
  unfolding get_next_ready_executable
  ready_steps millis x y x' any h1 h2 = rw (h1, h2) refl

  -- In an executor whose strategy is set up, get_next_ready_executable, called with an empty
  -- AnyExecutable, does not fault in either mode: the group of what it finds may be taken from, so
  -- the assertion holds. It reports success just where it found something, marks the group
  -- of that as in use if it is mutually exclusive, changes no other flag and no node, and leaves
  -- the strategy set up.
  pub get_next_ready_executable-Ready :
      (millis : ℕ) (x : Executor)
      → IsSetUp x.strategy
      → (x' : Executor) × (any : AnyExecutable) × (success : Bool) × (get_next_ready_executable pq g
            mutually_exclusive millis x empty_executable
          ≡ some (x', any, success))
        × Ready mutually_exclusive x x' any success
  get_next_ready_executable-Ready millis x v = elim (Bool-cases x.use_priorities) [
    | inl h ↦
        let (y, any, next, c) = next_by_priority-some millis x v in
        let (x', done, ready) = marked x y any c v in
        (
          x',
          any,
          is_found any,
          ready_steps millis x y x' any (then_branch _ x.use_priorities h next) done,
          ready,
        )
    | inr h ↦
        let (y, any) = next_by_kind pq g mutually_exclusive x empty_executable in
        let (x', done, ready) =
          marked x y any
            (next_by_kind-Chosen pq g mutually_exclusive x empty_executable (empty-IsFree _)) v in
        (
          x',
          any,
          is_found any,
          ready_steps millis x y x' any (else_branch _ x.use_priorities h refl) done,
          ready,
        )
  ]
