-- ===== src/Threads/Leaks.antt =====
-- No thread of MultiThreadTimedExecutor in priority_executor.cpp leaves a group marked or a timer
-- scheduled behind.

use deadline_driven_enhancem.Base.{
  ℕ, ◌≡◌, ◌≢◌, ◌⊎◌, refl, ap, sym, ◌∙◌, inl, inr, Bool, true, false, Option, none, some, List, [],
  ◌∷◌, arith, ◌==◌, Bool-cases, Option-cases,
}
use deadline_driven_enhancem.Graph.{AnyExecutable}
use deadline_driven_enhancem.Strategy.Handles.{contains, erase_first}
use deadline_driven_enhancem.Executor.{Executor}
use deadline_driven_enhancem.Executor.Taking.{in_use}
use deadline_driven_enhancem.Threads.{
  Phase, idle, executing, returning, discarding, Pool, set_phase, reset_group, schedule,
  finish_execution, release_timer, discard,
}
use deadline_driven_enhancem.Threads.Exclusion.{held, occupied}

abbrev pub Distinct : List ℕ → Type 0
Distinct [] = Unit
Distinct (x ∷ xs) = (contains x xs ≡ false) × Distinct xs

contains-erase : (x y : ℕ) (l : List ℕ) → contains y (erase_first x l) ≡ true → contains y l ≡ true
unfolding contains erase_first
contains-erase x y [] h = h
contains-erase x y (z ∷ l) h = ground (arith, contains-erase x y l)

erase-Distinct : (x : ℕ) (l : List ℕ) → Distinct l → Distinct (erase_first x l)
unfolding erase_first
erase-Distinct x [] d = tt
erase-Distinct x (z ∷ l) (new, d) = elim (Bool-cases (z == x)) [
  | inl same ↦ rw (erase_first, same) d
  | inr other ↦
      rw (erase_first, other) (ground (arith, contains-erase x z l, new), erase-Distinct x l d)
]

erase-gone : (x : ℕ) (l : List ℕ) → Distinct l → contains x (erase_first x l) ≡ false
unfolding contains erase_first
erase-gone x [] d = refl
erase-gone x (z ∷ l) (new, d) = ground (arith, erase-gone x l d)

module _ (mutually_exclusive : ℕ → Bool) where
  -- Each group that may not be taken from has a thread that executes a callback of it, and each
  -- scheduled timer a thread that holds it.
  pub record NoLeak (p : Pool) : Type 0 where
    pub marked :
        (group : ℕ)
        → p.executor.can_be_taken_from group ≡ false
        → (t : ℕ) × (occupied mutually_exclusive (p.phase t) ≡ some group)
    pub scheduled :
        (timer : ℕ)
        → contains timer p.scheduled_timers ≡ true
        → (t : ℕ) × (held (p.phase t) ≡ some timer)
    pub distinct : Distinct p.scheduled_timers

  reset_group-marked :
      (any : AnyExecutable) (x : Executor) (group : ℕ)
      → (reset_group any x).can_be_taken_from group ≡ false
      → (x.can_be_taken_from group ≡ false) × (any.callback_group ≢ some group)
  unfolding reset_group
  reset_group-marked any x group h = elim (Option-cases any.callback_group) [
    | inl none_of ↦ (ground arith, λ is. cc)
    | inr (other, of) ↦ (ground arith, λ is. ground arith)
  ]

  -- A thread `t` enters a phase `f`, in a new executor and with new scheduled timers.
  module _ (p : Pool) (t : ℕ) (f : Phase) (x : Executor) (timers : List ℕ) where
    keeps :
        (get : Phase → Option ℕ) (k : ℕ)
        → (get f ≡ some k)
          ⊎ (((u : ℕ) × (get (p.phase u) ≡ some k)) × (get (p.phase t) ≡ some k → get f ≡ some k))
        → (u : ℕ) × (get
              ((set_phase t f (record p { executor = x; scheduled_timers = timers })).phase u)
            ≡ some k)
    keeps get k (inl own) = (t, ground (arith, own))
    keeps get k (inr ((u, has), own)) = (u, ground (arith, has, own))

    entered-NoLeak :
        NoLeak p
        → ((group : ℕ)
            → x.can_be_taken_from group ≡ false
            → (occupied mutually_exclusive f ≡ some group)
              ⊎ ((p.executor.can_be_taken_from group ≡ false)
                  × (occupied mutually_exclusive (p.phase t) ≡ some group
                      → occupied mutually_exclusive f ≡ some group)))
        → ((timer : ℕ)
            → contains timer timers ≡ true
            → (held f ≡ some timer)
              ⊎ ((contains timer p.scheduled_timers ≡ true)
                  × (held (p.phase t) ≡ some timer → held f ≡ some timer)))
        → Distinct timers
        → NoLeak (set_phase t f (record p { executor = x; scheduled_timers = timers }))
    entered-NoLeak v groups own d = record {
      marked = λ group h. keeps (occupied mutually_exclusive) group (elim (groups group h) [
        | inl new ↦ inl new
        | inr (before, same) ↦ inr (v.marked group before, same)
      ]);
      scheduled = λ timer h. keeps held timer (elim (own timer h) [
        | inl new ↦ inl new
        | inr (before, same) ↦ inr (v.scheduled timer before, same)
      ]);
      distinct = d;
    }

  pub finish_execution-NoLeak :
      (p : Pool) (t : ℕ) (any : AnyExecutable)
      → p.phase t ≡ executing any
      → NoLeak p
      → NoLeak (finish_execution t any p)
  unfolding finish_execution
  finish_execution-NoLeak p t any at v =
      entered-NoLeak p t (returning any) (reset_group any p.executor) p.scheduled_timers v
        (λ group h.
          let (before, other) = reset_group-marked any p.executor group h in
          inr (
            before,
            λ mine.
                absurd (other (ground (arith, ap (occupied mutually_exclusive) (sym at) ∙ mine))),
          ))
        (λ timer h. inr (h, λ mine. ap held (sym at) ∙ mine)) v.distinct

  pub release_timer-NoLeak :
      (p : Pool) (t : ℕ) (any : AnyExecutable)
      → p.phase t ≡ returning any
      → NoLeak p
      → NoLeak (release_timer t any p)
  unfolding release_timer
  release_timer-NoLeak p t any at v = elim (Option-cases any.timer) [
    | inl h ↦
        rw (h, release_timer)
          (entered-NoLeak p t idle p.executor p.scheduled_timers v
            (λ group k. inr (k, λ mine. absurd (no_group group mine)))
            (λ timer k. inr (k, λ mine. absurd (none_ne timer (sym (ap held at ∙ h) ∙ mine))))
            v.distinct)
    | inr (timer, h) ↦
        rw (h, release_timer)
          (entered-NoLeak p t idle p.executor (erase_first timer p.scheduled_timers) v
            (λ group k. inr (k, λ mine. absurd (no_group group mine)))
            (λ other k. inr (
              contains-erase timer other p.scheduled_timers k,
              λ mine. absurd (gone timer other (ap held at ∙ h) mine k),
            ))
            (erase-Distinct timer p.scheduled_timers v.distinct))
  ]
    where
      none_ne : (x : ℕ) → none ≡ some x → ⊥
      none_ne x h = cc

      no_group : (group : ℕ) → occupied mutually_exclusive (p.phase t) ≢ some group
      no_group group mine = none_ne group (sym (ap (occupied mutually_exclusive) at) ∙ mine)

      gone :
          (timer other : ℕ)
          → held (p.phase t) ≡ some timer
          → held (p.phase t) ≡ some other
          → contains other (erase_first timer p.scheduled_timers) ≢ true
      gone timer other h mine k = ground (arith, erase-gone timer p.scheduled_timers v.distinct)

  pub discard-NoLeak :
      (p : Pool) (t : ℕ) (any : AnyExecutable)
      → p.phase t ≡ discarding any
      → NoLeak p
      → NoLeak (discard t any p)
  unfolding discard
  discard-NoLeak p t any at v =
      entered-NoLeak p t idle (reset_group any p.executor) p.scheduled_timers v
        (λ group k. inr (
          (reset_group-marked any p.executor group k).0,
          λ mine. absurd (cc (sym (ap (occupied mutually_exclusive) at) ∙ mine)),
        ))
        (λ timer k. inr (k, λ mine. absurd (cc (sym (ap held at) ∙ mine)))) v.distinct

  -- Something was found and its group marked.
  module _ (p : Pool) (t : ℕ) (any : AnyExecutable) (x : Executor) (v : NoLeak p)
      (ready : p.phase t ≡ idle)
      (flags : x.can_be_taken_from
        ≡ in_use mutually_exclusive p.executor.can_be_taken_from any) where
    -- A group that is marked now was marked before, or is that of `any`.
    pub was_marked :
        (group : ℕ)
        → x.can_be_taken_from group ≡ false
        → (occupied mutually_exclusive (executing any) ≡ some group)
          ⊎ (p.executor.can_be_taken_from group ≡ false)
    was_marked group h = elim (Bool-cases (p.executor.can_be_taken_from group)) [
      | inr old ↦ inr old
      | inl new ↦ inl (ground (arith, ap (λ f. f group) flags))
    ]

    started-NoLeak :
        (timers : List ℕ)
        → Distinct timers
        → ((timer : ℕ)
            → contains timer timers ≡ true
            → (any.timer ≡ some timer) ⊎ (contains timer p.scheduled_timers ≡ true))
        → NoLeak
            (set_phase t (executing any) (record p { executor = x; scheduled_timers = timers }))
    started-NoLeak timers d own =
        entered-NoLeak p t (executing any) x timers v
          (λ group h. elim (was_marked group h) [
            | inl new ↦ inl new
            | inr old ↦
                inr (old, λ mine. absurd (ground (arith, ap (occupied mutually_exclusive) ready)))
          ])
          (λ timer h. elim (own timer h) [
            | inl new ↦ inl new
            | inr old ↦ inr (old, λ mine. absurd (ground (arith, ap held ready)))
          ])
          d

    pub schedule-NoLeak : NoLeak (schedule t any (record p { executor = x }))
    unfolding schedule
    schedule-NoLeak = elim (Option-cases any.timer) [
      | inl h ↦ rw (h, schedule) (started-NoLeak p.scheduled_timers v.distinct (λ timer k. inr k))
      | inr (timer, h) ↦ elim (Bool-cases (contains timer p.scheduled_timers)) [
        | inl twice ↦
            rw (h, schedule, twice)
              (entered-NoLeak p t (discarding any) (reset_group any x) p.scheduled_timers v
                (λ group k.
                  let (before, other) = reset_group-marked any x group k in
                  elim (was_marked group before) [
                    | inl own ↦ absurd (other (ground arith))
                    | inr old ↦ inr (
                      old,
                      λ mine. absurd (ground (arith, ap (occupied mutually_exclusive) ready)),
                    )
                  ])
                (λ timer k. inr (k, λ mine. absurd (ground (arith, ap held ready)))) v.distinct)
        | inr new ↦
            rw (h, schedule, new)
              (started-NoLeak (timer ∷ p.scheduled_timers) (new, v.distinct)
                (λ other k. elim (Bool-cases (timer == other)) [
                  | inl same ↦ inl (h ∙ ap some (ground arith))
                  | inr ne ↦ inr (ground arith)
                ]))
      ]
    ]
