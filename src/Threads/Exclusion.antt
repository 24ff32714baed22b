-- ===== src/Threads/Exclusion.antt =====
-- The threads of MultiThreadTimedExecutor in priority_executor.cpp never execute callbacks of one
-- mutually exclusive group, or one timer, at the same time.

use deadline_driven_enhancem.Base.{
  ℕ, ◌≡◌, ◌≢◌, ◌⊎◌, refl, ap, sym, ◌∙◌, inl, inr, Bool, true, false, Option, none, some, List, [],
  ◌∷◌, arith, ◌==◌, if◌then◌else◌, ◌>>=◌, Bool-cases, Option-cases,
}
use deadline_driven_enhancem.Graph.{AnyExecutable}
use deadline_driven_enhancem.Strategy.Handles.{contains, erase_first}
use deadline_driven_enhancem.Executor.{Executor, is_found, set_flag}
use deadline_driven_enhancem.Executor.Taking.{in_use}
use deadline_driven_enhancem.Threads.{
  Phase, idle, executing, returning, discarding, Pool, set_phase, reset_group, finish_execution,
  release_timer, discard,
}

contains-erase_first : (x y : ℕ) (l : List ℕ) → x ≢ y → contains y (erase_first x l) ≡ contains y l
unfolding contains erase_first
contains-erase_first x y [] ne = refl
contains-erase_first x y (z ∷ l) ne = ground (arith, contains-erase_first x y l ne)

-- The timer that a thread holds.
abbrev pub held : Phase → Option ℕ
held idle = none
held (executing any) = any.timer
held (returning any) = any.timer
held (discarding any) = none

-- The mutually exclusive group that a thread runs a callback of.
abbrev pub occupied : (ℕ → Bool) → Phase → Option ℕ
occupied mutually_exclusive idle = none
occupied mutually_exclusive (returning any) = none
occupied mutually_exclusive (discarding any) = none
occupied mutually_exclusive (executing any) =
    any.callback_group >>= λ group. if mutually_exclusive group then some group else none

module _ (mutually_exclusive : ℕ → Bool) where
  -- A group that a thread runs a mutually exclusive callback of is marked, a timer that it holds is
  -- scheduled, and no other thread has the same.
  pub record IsExclusive (p : Pool) : Type 0 where
    pub marked :
        (t group : ℕ)
        → occupied mutually_exclusive (p.phase t) ≡ some group
        → p.executor.can_be_taken_from group ≡ false
    pub alone :
        (t u group : ℕ)
        → occupied mutually_exclusive (p.phase t) ≡ some group
        → occupied mutually_exclusive (p.phase u) ≡ some group
        → t ≡ u
    pub scheduled :
        (t timer : ℕ) → held (p.phase t) ≡ some timer → contains timer p.scheduled_timers ≡ true
    pub timer_alone :
        (t u timer : ℕ) → held (p.phase t) ≡ some timer → held (p.phase u) ≡ some timer → t ≡ u

  -- A thread `t` enters a phase `f`, in a new executor and with new scheduled timers.
  module _ (p : Pool) (t : ℕ) (f : Phase) (x : Executor) (timers : List ℕ) (v : IsExclusive p)
      (others : (u group : ℕ)
        → t ≢ u
        → occupied mutually_exclusive (p.phase u) ≡ some group
        → x.can_be_taken_from group ≡ false)
      (others_timer : (u timer : ℕ)
        → t ≢ u
        → held (p.phase u) ≡ some timer
        → contains timer timers ≡ true)
      (own : (group : ℕ)
        → occupied mutually_exclusive f ≡ some group
        → (x.can_be_taken_from group ≡ false)
          × ((u : ℕ) → t ≢ u → occupied mutually_exclusive (p.phase u) ≢ some group))
      (own_timer : (timer : ℕ)
        → held f ≡ some timer
        → (contains timer timers ≡ true) × ((u : ℕ) → t ≢ u → held (p.phase u) ≢ some timer)) where
    unfoldable pub entered : Pool
    entered = set_phase t f (record p { executor = x; scheduled_timers = timers })

    at_cases :
        (u : ℕ) → ((t ≡ u) × (entered.phase u ≡ f)) ⊎ ((t ≢ u) × (entered.phase u ≡ p.phase u))
    unfolding entered
    at_cases u = elim (Bool-cases (t == u)) [
      | inl h ↦ inl (ground arith, ground arith)
      | inr h ↦ inr (ground arith, ground arith)
    ]

    pub entered-IsExclusive : IsExclusive entered
    unfolding entered
    entered-IsExclusive = record {
      marked = λ u group h. elim (at_cases u) [
        | inl (_, at) ↦ (own group (ap (occupied mutually_exclusive) (sym at) ∙ h)).0
        | inr (ne, at) ↦ others u group ne (ap (occupied mutually_exclusive) (sym at) ∙ h)
      ];
      scheduled = λ u timer h. elim (at_cases u) [
        | inl (_, at) ↦ (own_timer timer (ap held (sym at) ∙ h)).0
        | inr (ne, at) ↦ others_timer u timer ne (ap held (sym at) ∙ h)
      ];
      alone = λ u w group h k. elim (at_cases u) [
        | inl (eu, atu) ↦ elim (at_cases w) [
          | inl (ew, _) ↦ sym eu ∙ ew
          | inr (new, atw) ↦ absurd (
              (own group (ap (occupied mutually_exclusive) (sym atu) ∙ h)).1 w new
                (ap (occupied mutually_exclusive) (sym atw) ∙ k))
        ]
        | inr (neu, atu) ↦ elim (at_cases w) [
          | inl (ew, atw) ↦ absurd (
              (own group (ap (occupied mutually_exclusive) (sym atw) ∙ k)).1 u neu
                (ap (occupied mutually_exclusive) (sym atu) ∙ h))
          | inr (new, atw) ↦
              v.alone u w group (ap (occupied mutually_exclusive) (sym atu) ∙ h)
                (ap (occupied mutually_exclusive) (sym atw) ∙ k)
        ]
      ];
      timer_alone = λ u w timer h k. elim (at_cases u) [
        | inl (eu, atu) ↦ elim (at_cases w) [
          | inl (ew, _) ↦ sym eu ∙ ew
          | inr (new, atw) ↦
              absurd ((own_timer timer (ap held (sym atu) ∙ h)).1 w new (ap held (sym atw) ∙ k))
        ]
        | inr (neu, atu) ↦ elim (at_cases w) [
          | inl (ew, atw) ↦
              absurd ((own_timer timer (ap held (sym atw) ∙ k)).1 u neu (ap held (sym atu) ∙ h))
          | inr (new, atw) ↦ v.timer_alone u w timer (ap held (sym atu) ∙ h) (ap held (sym atw) ∙ k)
        ]
      ];
    }

  set_flag-other :
      (flags : ℕ → Bool) (other group : ℕ) (b : Bool)
      → other ≢ group
      → set_flag flags other b group ≡ flags group
  set_flag-other flags other group b ne = ground arith

  pub reset_group-flags :
      (any : AnyExecutable) (x : Executor) (group : ℕ)
      → any.callback_group ≢ some group
      → (reset_group any x).can_be_taken_from group ≡ x.can_be_taken_from group
  unfolding reset_group
  reset_group-flags any x group ne = elim (Option-cases any.callback_group) [
    | inl h ↦ rw (h, reset_group) refl
    | inr (other, h) ↦
        rw (h, reset_group)
          (set_flag-other x.can_be_taken_from other group true (λ e. ne (h ∙ ap some e)))
  ]

  pub occupied-group :
      (any : AnyExecutable) (group : ℕ)
      → any.callback_group ≡ some group
      → mutually_exclusive group ≡ true
      → occupied mutually_exclusive (executing any) ≡ some group
  occupied-group any group h m = rw (h, m) refl

  pub occupied-exclusive :
      (f : Phase) (group : ℕ)
      → occupied mutually_exclusive f ≡ some group
      → mutually_exclusive group ≡ true
  occupied-exclusive idle group h = cc
  occupied-exclusive (returning any) group h = cc
  occupied-exclusive (discarding any) group h = cc
  occupied-exclusive (executing any) group h = ground arith

  pub finish_execution-IsExclusive :
      (p : Pool) (t : ℕ) (any : AnyExecutable)
      → p.phase t ≡ executing any
      → IsExclusive p
      → IsExclusive (finish_execution t any p)
  unfolding finish_execution entered
  finish_execution-IsExclusive p t any at v =
      entered-IsExclusive p t (returning any) (reset_group any p.executor) p.scheduled_timers v
        (λ u group ne h.
          reset_group-flags any p.executor group (λ e. ne (
            v.alone t u group
              (ap (occupied mutually_exclusive) at
                ∙ occupied-group any group e (occupied-exclusive (p.phase u) group h))
              h))
          ∙ v.marked u group h)
        (λ u timer ne h. v.scheduled u timer h) (λ group h. cc)
        (λ timer h.
          let mine = ap held at ∙ h in
          (v.scheduled t timer mine, λ u ne k. ne (v.timer_alone t u timer mine k)))

  pub release_timer-IsExclusive :
      (p : Pool) (t : ℕ) (any : AnyExecutable)
      → p.phase t ≡ returning any
      → IsExclusive p
      → IsExclusive (release_timer t any p)
  unfolding release_timer entered
  release_timer-IsExclusive p t any at v = elim (Option-cases any.timer) [
    | inl h ↦
        rw (h, release_timer)
          (entered-IsExclusive p t idle p.executor p.scheduled_timers v
            (λ u group ne h. v.marked u group h) (λ u timer ne h. v.scheduled u timer h)
            (λ group h. cc) (λ timer h. cc))
    | inr (timer, h) ↦
        rw (h, release_timer)
          (entered-IsExclusive p t idle p.executor (erase_first timer p.scheduled_timers) v
            (λ u group ne h. v.marked u group h)
            (λ u other ne k.
              contains-erase_first timer other p.scheduled_timers
                (λ same. ne (v.timer_alone t u timer (ap held at ∙ h) (k ∙ ap some (sym same))))
              ∙ v.scheduled u other k)
            (λ group h. cc) (λ timer h. cc))
  ]

  -- The destructor, when no thread executes a callback of the group.
  pub discard-IsExclusive :
      (p : Pool) (t : ℕ) (any : AnyExecutable)
      → ((u group : ℕ)
          → any.callback_group ≡ some group
          → occupied mutually_exclusive (p.phase u) ≢ some group)
      → IsExclusive p
      → IsExclusive (discard t any p)
  unfolding discard entered
  discard-IsExclusive p t any timely v =
      entered-IsExclusive p t idle (reset_group any p.executor) p.scheduled_timers v
        (λ u group ne h.
          reset_group-flags any p.executor group (λ e. timely u group e h) ∙ v.marked u group h)
        (λ u timer ne h. v.scheduled u timer h) (λ group h. cc) (λ timer h. cc)

  pub in_use-false :
      (flags : ℕ → Bool) (any : AnyExecutable) (group : ℕ)
      → flags group ≡ false
      → in_use mutually_exclusive flags any group ≡ false
  in_use-false flags any group h = ground arith

  pub in_use-own :
      (flags : ℕ → Bool) (any : AnyExecutable) (group : ℕ)
      → is_found any ≡ true
      → occupied mutually_exclusive (executing any) ≡ some group
      → (any.callback_group ≡ some group) × (in_use mutually_exclusive flags any group ≡ false)
  in_use-own flags any group found h = (ground arith, ground arith)
