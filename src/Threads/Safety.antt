-- ===== src/Threads/Safety.antt =====
-- The reachable states of MultiThreadTimedExecutor in priority_executor.cpp.
use mathlib.Core.Path.{subst}
use deadline_driven_enhancem.Base.{
  ℕ, ◌≡◌, ◌≢◌, refl, ap, sym, ◌∙◌, inl, inr, Bool, true, false, Option, none, some, List, [], ◌∷◌,
  arith, ◌>>=◌, Bool-cases, Option-cases, some_eq, >>=-eq-some,
}
use deadline_driven_enhancem.PriorityQueue.{PriorityQueue}
use deadline_driven_enhancem.Graph.{Graph, AnyExecutable, empty_executable}
use deadline_driven_enhancem.Strategy.Handles.{WaitableSizes, contains}
use deadline_driven_enhancem.Executor.{
  Executor, Rcl, Outcome, waited, clear_failed, resize_failed, fill_failed, wait_failed, is_found,
  wait_for_work, next_by_priority, mark,
}
use deadline_driven_enhancem.Executor.Waiting.{wait_for_work-flags}
use deadline_driven_enhancem.Executor.Free.{IsFree}
use deadline_driven_enhancem.Executor.Taking.{in_use, mark-flags, empty-IsFree}
use deadline_driven_enhancem.Executor.Branches.{next_by_priority-Chosen}
use deadline_driven_enhancem.Threads.{
  idle, executing, discarding, Pool, set_phase, reset_group, schedule, start, after_wait, take_work,
  Step, take, execute, return, destroy, Reaches, here, further, get_next_ready_executable,
}
use deadline_driven_enhancem.Threads.Exclusion.{
  IsExclusive, held, occupied, entered, entered-IsExclusive, reset_group-flags, in_use-false,
  in_use-own, finish_execution-IsExclusive, release_timer-IsExclusive, discard-IsExclusive,
}

module _ (mutually_exclusive : ℕ → Bool) where
  -- Another executor and other flags, with the same threads and timers.
  same_phases-IsExclusive :
      (p : Pool) (x : Executor)
      → ((u group : ℕ)
          → occupied mutually_exclusive (p.phase u) ≡ some group
          → x.can_be_taken_from group ≡ false)
      → IsExclusive mutually_exclusive p
      → IsExclusive mutually_exclusive (record p { executor = x })
  same_phases-IsExclusive p x h v = record {
    marked = h;
    alone = v.alone;
    scheduled = v.scheduled;
    timer_alone = v.timer_alone;
  }

  -- Something that was found, in a group that could be taken from and is marked now.
  module _ (p : Pool) (t : ℕ) (any : AnyExecutable) (x : Executor)
      (v : IsExclusive mutually_exclusive p) (free : IsFree p.executor.can_be_taken_from any)
      (flags : x.can_be_taken_from ≡ in_use mutually_exclusive p.executor.can_be_taken_from any)
      (found : is_found any ≡ true) where
    kept_false :
        (group : ℕ) → p.executor.can_be_taken_from group ≡ false → x.can_be_taken_from group ≡ false
    kept_false group h =
        ap (λ f. f group) flags
        ∙ in_use-false mutually_exclusive p.executor.can_be_taken_from any group h

    -- No thread runs a callback of the group.
    unoccupied :
        (u group : ℕ)
        → any.callback_group ≡ some group
        → occupied mutually_exclusive (p.phase u) ≢ some group
    unoccupied u group at h = ground (arith, free group at, v.marked u group h)

    started-IsExclusive :
        (timers : List ℕ)
        → ((u timer : ℕ) → t ≢ u → held (p.phase u) ≡ some timer → contains timer timers ≡ true)
        → ((timer : ℕ)
            → any.timer ≡ some timer
            → (contains timer timers ≡ true) × ((u : ℕ) → t ≢ u → held (p.phase u) ≢ some timer))
        → IsExclusive mutually_exclusive
            (set_phase t (executing any) (record p { executor = x; scheduled_timers = timers }))
    unfolding entered
    started-IsExclusive timers others_timer own_timer =
        entered-IsExclusive mutually_exclusive p t (executing any) x timers v
          (λ u group ne h. kept_false group (v.marked u group h)) others_timer
          (λ group h.
            let (at, mine) =
              in_use-own mutually_exclusive p.executor.can_be_taken_from any group found h in
            (ap (λ f. f group) flags ∙ mine, λ u ne. unoccupied u group at))
          own_timer

    schedule-IsExclusive :
        IsExclusive mutually_exclusive (schedule t any (record p { executor = x }))
    unfolding schedule contains entered
    schedule-IsExclusive = elim (Option-cases any.timer) [
      | inl h ↦
          rw (h, schedule)
            (started-IsExclusive p.scheduled_timers (λ u timer ne. v.scheduled u timer)
              (λ timer k. cc))
      | inr (timer, h) ↦ elim (Bool-cases (contains timer p.scheduled_timers)) [
        | inl twice ↦
            rw (h, schedule, twice)
              (entered-IsExclusive mutually_exclusive p t (discarding any) (reset_group any x)
                p.scheduled_timers v
                (λ u group ne o.
                  reset_group-flags mutually_exclusive any x group (λ at. unoccupied u group at o)
                  ∙ kept_false group (v.marked u group o))
                (λ u timer ne k. v.scheduled u timer k) (λ group k. cc) (λ timer k. cc))
        | inr new ↦
            rw (h, schedule, new)
              (started-IsExclusive (timer ∷ p.scheduled_timers)
                (λ u other ne k. ground (arith, v.scheduled u other k))
                (λ other k. (ground arith, λ u ne o. ground (arith, v.scheduled u other o))))
      ]
    ]

  pub ready_inv :
      (pq : PriorityQueue) (g : Graph) (millis : ℕ) (x : Executor)
      (r : Executor × AnyExecutable × Bool)
      → get_next_ready_executable pq g mutually_exclusive millis x empty_executable ≡ some r
      → IsFree x.can_be_taken_from r.1
        × (r.0.can_be_taken_from ≡ in_use mutually_exclusive x.can_be_taken_from r.1)
        × (is_found r.1 ≡ r.2)
  unfolding get_next_ready_executable
  ready_inv pq g millis x r h =
      let next = next_by_priority pq g mutually_exclusive millis x empty_executable in
      let end : Executor × AnyExecutable → Option (Executor × AnyExecutable × Bool) =
        λ c. mark pq g mutually_exclusive c.0 c.1 >>= λ x'. some (x', c.1, is_found c.1) in
      let ((y, any), chosen, rest) = >>=-eq-some next end h in
      let (x', done, last) =
        >>=-eq-some (mark pq g mutually_exclusive y any) (λ x'. some (x', any, is_found any))
          rest in
      let c =
        next_by_priority-Chosen pq g mutually_exclusive x millis empty_executable y any
          (empty-IsFree pq g mutually_exclusive x.can_be_taken_from) chosen in
      let flags = mark-flags pq g mutually_exclusive x y x' any c done in
      subst
        (λ r.
          IsFree x.can_be_taken_from r.1
          × (r.0.can_be_taken_from ≡ in_use mutually_exclusive x.can_be_taken_from r.1)
          × (is_found r.1 ≡ r.2))
        (some_eq last) (c.free, flags, refl)

  module _ (pq : PriorityQueue) (g : Graph) (p p' : Pool) (rcl : Rcl) (z : WaitableSizes)
      (millis t : ℕ) (v : IsExclusive mutually_exclusive p) where
    started :
        (any : AnyExecutable)
        → IsFree p.executor.can_be_taken_from any
        → (x' : Executor)
        → x'.can_be_taken_from ≡ in_use mutually_exclusive p.executor.can_be_taken_from any
        → (b : Bool) → is_found any ≡ b
        → IsExclusive mutually_exclusive (start t p (x', any, b))
    unfolding start
    started any free x' flags true found = schedule-IsExclusive p t any x' v free flags found
    started any free x' flags false found =
        same_phases-IsExclusive p x'
          (λ u group o.
            ap (λ f. f group) flags
            ∙ in_use-false mutually_exclusive p.executor.can_be_taken_from any group
                (v.marked u group o))
          v

    after_wait-IsExclusive :
        (x : Executor) (o : Outcome)
        → x.can_be_taken_from ≡ p.executor.can_be_taken_from
        → after_wait pq g mutually_exclusive millis t p (x, o) ≡ some (p', waited)
        → IsExclusive mutually_exclusive p'
    unfolding after_wait get_next_ready_executable
    after_wait-IsExclusive x waited same h =
        let (r, taken, done) =
          >>=-eq-some (get_next_ready_executable pq g mutually_exclusive millis x empty_executable)
            (λ r. some (start t p r, waited)) h in
        let (free, flags, found) = ready_inv pq g millis x r taken in
        subst (λ q. IsExclusive mutually_exclusive q) (ap (λ q. q.0) (some_eq done))
          (started r.1 (subst (λ f. IsFree f r.1) same free) r.0
            (flags ∙ ap (λ f. in_use mutually_exclusive f r.1) same) r.2 found)
    after_wait-IsExclusive x clear_failed same h = cc
    after_wait-IsExclusive x resize_failed same h = cc
    after_wait-IsExclusive x fill_failed same h = cc
    after_wait-IsExclusive x wait_failed same h = cc

    take_work-IsExclusive :
        take_work pq g mutually_exclusive rcl z millis t p ≡ some (p', waited)
        → IsExclusive mutually_exclusive p'
    unfolding take_work
    take_work-IsExclusive h =
        let ((x, o), wait, rest) =
          >>=-eq-some (wait_for_work rcl z p.executor)
            (after_wait pq g mutually_exclusive millis t p) h in
        after_wait-IsExclusive x o (wait_for_work-flags rcl z p.executor x o wait) rest

  -- A step that, where it is the destructor of a discarded AnyExecutable, finds no thread executing a
  -- callback of the group.
  abbrev pub IsTimely :
      (pq : PriorityQueue) (g : Graph) (p p' : Pool) → Step pq g mutually_exclusive p p' → Type 0
  IsTimely pq g p p' (take _ _ _ _ _ _ _) = Unit
  IsTimely pq g p _ (execute _ _ _) = Unit
  IsTimely pq g p _ (return _ _ _) = Unit
  IsTimely pq g p _ (destroy t any _) =
      (u group : ℕ)
      → any.callback_group ≡ some group
      → occupied mutually_exclusive (p.phase u) ≢ some group

  abbrev pub AllTimely :
      (pq : PriorityQueue) (g : Graph) (p p' : Pool) → Reaches pq g mutually_exclusive p p' → Type 0
  AllTimely pq g p _ here = Unit
  AllTimely pq g p _ (further q r reach step) = AllTimely pq g p q reach × IsTimely pq g q r step

  Step-IsExclusive :
      (pq : PriorityQueue) (g : Graph) (p p' : Pool) (step : Step pq g mutually_exclusive p p')
      → IsTimely pq g p p' step
      → IsExclusive mutually_exclusive p
      → IsExclusive mutually_exclusive p'
  Step-IsExclusive pq g p p' (take rcl z millis t _ _ h) timely v =
      take_work-IsExclusive pq g p p' rcl z millis t v h
  Step-IsExclusive pq g p _ (execute t any at) timely v =
      finish_execution-IsExclusive mutually_exclusive p t any at v
  Step-IsExclusive pq g p _ (return t any at) timely v =
      release_timer-IsExclusive mutually_exclusive p t any at v
  Step-IsExclusive pq g p _ (destroy t any at) timely v =
      discard-IsExclusive mutually_exclusive p t any timely v

  -- All threads in front of the mutex and no timer scheduled, as spin() starts them.
  pub record IsInitial (p : Pool) : Type 0 where
    pub idle : (t : ℕ) → p.phase t ≡ idle
    pub timers : p.scheduled_timers ≡ []

  IsInitial-IsExclusive : (p : Pool) → IsInitial p → IsExclusive mutually_exclusive p
  IsInitial-IsExclusive p i = record {
    marked = λ t group h. absurd (none_ne (ap (occupied mutually_exclusive) (sym (i.idle t)) ∙ h));
    alone =
        λ t u group h k. absurd (none_ne (ap (occupied mutually_exclusive) (sym (i.idle t)) ∙ h));
    scheduled = λ t timer h. absurd (none_ne (ap held (sym (i.idle t)) ∙ h));
    timer_alone = λ t u timer h k. absurd (none_ne (ap held (sym (i.idle t)) ∙ h));
  }
    where
      none_ne : {x : ℕ} → none ≡ some x → ⊥
      none_ne h = cc

  -- From a pool in which no thread has started, in every order of the threads' steps, with any
  -- replies of rcl and any clock readings, in which no destructor of a discarded timer's AnyExecutable
  -- runs while a thread executes a callback of its group: two threads that execute callbacks of one
  -- mutually exclusive group, or that hold one timer, are the same thread; the group of such a
  -- callback is marked as in use and a timer that is held is in scheduled_timers_.
  pub reachable-IsExclusive :
      (pq : PriorityQueue) (g : Graph) (p p' : Pool)
      → IsInitial p
      → (reach : Reaches pq g mutually_exclusive p p') → AllTimely pq g p p' reach
      → IsExclusive mutually_exclusive p'
  reachable-IsExclusive pq g p _ i here timely = IsInitial-IsExclusive p i
  reachable-IsExclusive pq g p _ i (further q r reach step) (before, timely) =
      Step-IsExclusive pq g q r step timely (reachable-IsExclusive pq g p q i reach before)
