-- ===== src/Experiment/Shared/Muex/Written.antt =====
-- What the calls of muex_test.cpp for the MuExWorker write: for each of its subscriptions the settings
-- that a worker of its own would have.

use deadline_driven_enhancem.Base.{
  ℕ, ◌+◌, ◌≡◌, ◌≢◌, refl, sym, ◌∙◌, true, Option, some, List, arith, ◌==◌, if◌then◌else◌, All,
  get_elem?,
}
use deadline_driven_enhancem.Executable.{
  PriorityExecutable, subscription, deadline, deadline_executable,
}
use deadline_driven_enhancem.Strategy.{
  Strategy, get_priority_settings, in_chain, set_last_in_chain, assign_deadlines_queue,
}
use deadline_driven_enhancem.Experiment.{ChainConfig, Objects, set_timer_handle}
use deadline_driven_enhancem.Experiment.Shared.Muex.{
  deadline_members, last_members, set_member_deadline, assign_member_queue, set_member_last,
  set_member_timer, muex_deadlines,
}
use deadline_driven_enhancem.Experiment.Settings.{deadline-Writes, body}
use deadline_driven_enhancem.Experiment.Shared.Muex.Calls.{
  at, Other, Apart, Acts, AllWritten, for_members-AllWritten, store-Writes,
}

module _ (o : Objects) where
  module _ (chains : List ChainConfig) (ch3 ch4 : ChainConfig) where
    abbrev pub chain : ℕ → ChainConfig
    chain c = if c == 3 then ch3 else ch4

    -- The settings of a callback after each of the four loops.
    abbrev timed : ℕ × ℕ → PriorityExecutable
    timed (c, i) = in_chain c (
        deadline_executable (o.subscription_handle c i) (chain c).period (chain c).deadline
          subscription deadline)

    abbrev queued : ℕ × ℕ → PriorityExecutable
    queued m = record (timed m) { deadlines = some (o.vector m.0) }

    abbrev marked : ℕ × ℕ → PriorityExecutable
    marked m = record (queued m) { is_last_in_chain = true }

    abbrev ended : ℕ × ℕ → PriorityExecutable
    ended m = record (marked m) { timer_handle = some (o.timer m.0) }

    abbrev Any : ℕ × ℕ → Option PriorityExecutable → Type 0
    Any m e = Unit

    abbrev Is : (ℕ × ℕ → PriorityExecutable) → ℕ × ℕ → Option PriorityExecutable → Type 0
    Is f m e = e ≡ some (f m)

    set_member_deadline-Acts :
        (c i : ℕ)
        → get_elem? chains c ≡ some (chain c)
        → Acts o (set_member_deadline o chains) Any timed (c, i)
    unfolding set_member_deadline
    set_member_deadline-Acts c i has s h = (
      _,
      rw has refl,
      deadline-Writes s (o.subscription_handle c i) (chain c).period (chain c).deadline c
          subscription,
    )

    assign_member_queue-Acts : (c i : ℕ) → Acts o (assign_member_queue o) (Is timed) queued (c, i)
    unfolding assign_member_queue assign_deadlines_queue
    assign_member_queue-Acts c i s h =
        (_, rw h refl, store-Writes s (o.subscription_handle c i) (queued (c, i)))

    set_member_last-Acts : (c i : ℕ) → Acts o (set_member_last o) (Is queued) marked (c, i)
    unfolding set_member_last set_last_in_chain
    set_member_last-Acts c i s h =
        (_, rw h refl, store-Writes s (o.subscription_handle c i) (marked (c, i)))

    set_member_timer-Acts : (c i : ℕ) → Acts o (set_member_timer o) (Is marked) ended (c, i)
    unfolding set_member_timer set_timer_handle
    set_member_timer-Acts c i s h =
        (_, rw h refl, store-Writes s (o.subscription_handle c i) (ended (c, i)))

    inner :
        (c i : ℕ) → i + 1 ≢ (chain c).length → some (queued (c, i)) ≡ some (body o c (chain c) i)
    inner c i h = ground (arith, h)

    outer : (c i : ℕ) → i + 1 ≡ (chain c).length → some (ended (c, i)) ≡ some (body o c (chain c) i)
    outer c i h = ground (arith, h)

    -- The loops over the last callbacks leave the others.
    ending-frame :
        (s2 s3 s4 : Strategy)
        → AllWritten o last_members marked s2 s3
        → AllWritten o last_members ended s3 s4
        → (k : ℕ) → All (λ (m : ℕ × ℕ). o.subscription_handle m.0 m.1 ≢ k) last_members
        → get_priority_settings s4 k ≡ get_priority_settings s2 k
    ending-frame s2 s3 s4 w3 w4 k h = w4.frame k h ∙ w3.frame k h

    -- The subscriptions of the MuExWorker at addresses of their own, and chains of the lengths of
    -- muex_test.
    pub record IsMuEx : Type 0 where
      pub apart : Apart o deadline_members
      pub chain3 : get_elem? chains 3 ≡ some ch3
      pub chain4 : get_elem? chains 4 ≡ some ch4
      pub length3 : ch3.length ≡ 3
      pub length4 : ch4.length ≡ 4

    -- Each subscription has the settings of a worker's then.
    members-settings :
        (s1 s2 s3 s4 : Strategy)
        → IsMuEx
        → AllWritten o deadline_members queued s1 s2
        → AllWritten o last_members marked s2 s3
        → AllWritten o last_members ended s3 s4
        → All (λ (m : ℕ × ℕ). at o s4 m ≡ some (body o m.0 (chain m.0) m.1)) deadline_members
    members-settings s1 s2 s3 s4 v w2 w3 w4 =
        let (a31, (a32, (a41, (a42, (a43, _))))) = v.apart in
        let (q31, (q32, (q41, (q42, (q43, _))))) = w2.each in
        let kept = ending-frame s2 s3 s4 w3 w4 in
        let not_last = λ (n : ℕ × ℕ) (p : Other o n (3, 2)) (q : Other o n (4, 3)).
          kept (o.subscription_handle n.0 n.1) ((λ e. p (sym e)), ((λ e. q (sym e)), tt)) in
        let e31 =
          not_last (3, 1) a31.0 a31.1.1.1.0 ∙ q31 ∙ inner 3 1 (λ e. omega (arith, e, v.length3)) in
        let e32 = w4.each.0 ∙ outer 3 2 (sym v.length3) in
        let e41 =
          not_last (4, 1) (λ e. a32.0 (sym e)) a41.1.0
          ∙ q41
          ∙ inner 4 1 (λ e. omega (arith, e, v.length4)) in
        let e42 =
          not_last (4, 2) (λ e. a32.1.0 (sym e)) a42.0
          ∙ q42
          ∙ inner 4 2 (λ e. omega (arith, e, v.length4)) in
        let e43 = w4.each.1.0 ∙ outer 4 3 (sym v.length4) in (e31, (e32, (e41, (e42, (e43, tt)))))

    -- For a MuExWorker whose subscriptions have addresses of their own, with chain 3 of three
    -- callbacks and chain 4 of four: its settings are made without a fault; each of its subscriptions
    -- has then exactly the settings that a worker of its own gets for the same callback, and nothing
    -- else in the settings, the deadlines or the queue changes.
    pub muex_deadlines-AllWritten :
        (s : Strategy)
        → IsMuEx
        → (s' : Strategy) × (muex_deadlines o chains s ≡ some s')
          × AllWritten o deadline_members (λ (m : ℕ × ℕ). body o m.0 (chain m.0) m.1) s s'
    unfolding muex_deadlines
    muex_deadlines-AllWritten s v =
        let set = set_member_deadline-Acts in
        let (s1, h1, w1) =
          for_members-AllWritten o (set_member_deadline o chains) Any timed deadline_members s
            v.apart
            (
              set 3 1 v.chain3,
              (set 3 2 v.chain3, (set 4 1 v.chain4, (set 4 2 v.chain4, (set 4 3 v.chain4, tt)))),
            )
            (tt, (tt, (tt, (tt, (tt, tt))))) in
        let queue = assign_member_queue-Acts in
        let (s2, h2, w2) =
          for_members-AllWritten o (assign_member_queue o) (Is timed) queued deadline_members s1
            v.apart (queue 3 1, (queue 3 2, (queue 4 1, (queue 4 2, (queue 4 3, tt))))) w1.each in
        let ends : Apart o last_members = ((v.apart.1.0.1.1.0, tt), (tt, tt)) in
        let (s3, h3, w3) =
          for_members-AllWritten o (set_member_last o) (Is queued) marked last_members s2 ends
            (set_member_last-Acts 3 2, (set_member_last-Acts 4 3, tt))
            (w2.each.1.0, (w2.each.1.1.1.1.0, tt)) in
        let (s4, h4, w4) =
          for_members-AllWritten o (set_member_timer o) (Is marked) ended last_members s3 ends
            (set_member_timer-Acts 3 2, (set_member_timer-Acts 4 3, tt)) w3.each in
        let kept = ending-frame s2 s3 s4 w3 w4 in
        (
          s4,
          rw (h1, h2, h3) h4,
          record {
            each = members-settings s1 s2 s3 s4 v w2 w3 w4;
            frame = λ k h. kept k (h.1.0, (h.1.1.1.1.0, tt)) ∙ w2.frame k h ∙ w1.frame k h;
            unique = λ u. w4.unique (w3.unique (w2.unique (w1.unique u)));
            memory = w4.memory ∙ w3.memory ∙ w2.memory ∙ w1.memory;
            queue = w4.queue ∙ w3.queue ∙ w2.queue ∙ w1.queue;
            plain = w4.plain ∙ w3.plain ∙ w2.plain ∙ w1.plain;
          },
        )
