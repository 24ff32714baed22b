-- ===== src/Experiment/Chains.antt =====
-- The loop of dy_2.cpp that makes the chains: settings for each executable, and deques for each chain.
use mathlib.Core.Path.{subst}
use deadline_driven_enhancem.Base.{
  ℕ, zero, suc, ◌+◌, ◌<◌, ◌≡◌, ◌≢◌, refl, ap, sym, ◌∙◌, inl, inr, true, false, some, List, [], ◌∷◌,
  arith, ◌==◌, Bool-cases, length,
}
use deadline_driven_enhancem.Executable.{PriorityExecutable, deadline_executable}
use deadline_driven_enhancem.Strategy.{Strategy, get_priority_settings}
use deadline_driven_enhancem.Strategy.Handles.{contains}
use deadline_driven_enhancem.Selection.{ceil_div}
use deadline_driven_enhancem.Selection.Release.{ceil_div-pos}
use deadline_driven_enhancem.Experiment.{ChainConfig, Objects, new_deques}
use deadline_driven_enhancem.Experiment.Settings.{Writes, head, body}

-- The timers, vectors and deques of different chains, and timers and subscriptions, are at different
-- addresses.
pub record IsFresh (o : Objects) : Type 0 where
  pub timers : (c d : ℕ) → c ≢ d → o.timer_handle c ≢ o.timer_handle d
  pub subscriptions : (c d i : ℕ) → o.timer_handle c ≢ o.subscription_handle d i
  pub vectors : (c d : ℕ) → c ≢ d → o.vector c ≢ o.vector d
  pub deques : (c d i j : ℕ) → c ≢ d → o.deque c i ≢ o.deque d j

-- Periods and deadlines are positive, and there is a publisher.
abbrev pub IsTimed : ChainConfig → Type 0
IsTimed ch = (0 < ch.length) × (0 < ch.period) × (0 < ch.deadline)

-- Sound settings, but for the release time of a first executable, which is the timer of one of the
-- chains below `n`.
pub record IsEntry (o : Objects) (n : ℕ) (vector : ℕ → List ℕ) (k : ℕ) (e : PriorityExecutable)
    : Type 0 where
  pub own : e.handle ≡ some k
  pub timed : (0 < e.period) × (0 < e.deadline)
  pub within : e.cur_index < ceil_div e.deadline e.period
  pub queues :
      (v : ℕ) × (e.deadlines ≡ some v)
      × (length (vector v) ≡ ceil_div e.deadline e.period)
      × (c : ℕ) × (c < n)
      × (v ≡ o.vector c)
  pub first : e.is_first_in_chain ≡ true → (c : ℕ) × (c < n) × (k ≡ o.timer_handle c)

pub record IsConfigured (o : Objects) (n : ℕ) (s : Strategy) : Type 0 where
  pub plain : s.is_f1tenth ≡ false
  pub queue : s.all_executables ≡ []
  pub entries :
      (k : ℕ) (e : PriorityExecutable)
      → get_priority_settings s k ≡ some e
      → IsEntry o n s.memory.vector k e

-- The timer and the deques of a chain.
pub record IsMade (o : Objects) (c : ℕ) (ch : ChainConfig) (s : Strategy) : Type 0 where
  pub at : get_priority_settings s (o.timer_handle c) ≡ some (head o c ch)
  pub vector : s.memory.vector (o.vector c) ≡ new_deques o c 0 (ceil_div ch.deadline ch.period)
  pub empty : s.memory.deque (o.deque c 0) ≡ []

-- What is read of chain `c` is the same.
pub record Untouched (o : Objects) (c : ℕ) (s s' : Strategy) : Type 0 where
  pub at : get_priority_settings s' (o.timer_handle c) ≡ get_priority_settings s (o.timer_handle c)
  pub vector : s'.memory.vector (o.vector c) ≡ s.memory.vector (o.vector c)
  pub deque : s'.memory.deque (o.deque c 0) ≡ s.memory.deque (o.deque c 0)

pub new_deques-length : (o : Objects) (c i n : ℕ) → length (new_deques o c i n) ≡ n
unfolding new_deques
new_deques-length o c i zero = refl
new_deques-length o c i (suc n) = ap suc (new_deques-length o c (i + 1) n)

pub new_deques-other :
    (o : Objects) (fresh : IsFresh o) (c d i n : ℕ)
    → c ≢ d
    → contains (o.deque d 0) (new_deques o c i n) ≡ false
unfolding new_deques contains
new_deques-other o fresh c d i zero ne = refl
new_deques-other o fresh c d i (suc n) ne =
    ground (arith, fresh.deques c d i 0 ne, new_deques-other o fresh c d (i + 1) n ne)

module _ (o : Objects) (c : ℕ) (ch : ChainConfig) (timed : IsTimed ch) (vector : ℕ → List ℕ)
    (size : length (vector (o.vector c)) ≡ ceil_div ch.deadline ch.period) where
  pub head-IsEntry : IsEntry o (c + 1) vector (o.timer_handle c) (head o c ch)
  unfolding deadline_executable
  head-IsEntry = record {
    own = refl;
    timed = (timed.1, timed.2);
    within = ceil_div-pos ch.deadline ch.period timed.1 timed.2;
    queues = (o.vector c, refl, size, c, omega arith, refl);
    first = λ h. (c, omega arith, refl);
  }

  pub body-IsEntry : (i : ℕ) → IsEntry o (c + 1) vector (o.subscription_handle c i) (body o c ch i)
  unfolding deadline_executable
  body-IsEntry i = elim (Bool-cases (i + 1 == ch.length)) [
    | inl last ↦ rw last (record {
      own = refl;
      timed = (timed.1, timed.2);
      within = ceil_div-pos ch.deadline ch.period timed.1 timed.2;
      queues = (o.vector c, refl, size, c, omega arith, refl);
      first = λ h. cc;
    })
    | inr more ↦ rw more (record {
      own = refl;
      timed = (timed.1, timed.2);
      within = ceil_div-pos ch.deadline ch.period timed.1 timed.2;
      queues = (o.vector c, refl, size, c, omega arith, refl);
      first = λ h. cc;
    })
  ]

pub Writes-IsConfigured :
    (o : Objects) (n k : ℕ) (e : PriorityExecutable) (s s' : Strategy)
    → Writes s k e s'
    → IsEntry o n s.memory.vector k e
    → IsConfigured o n s
    → IsConfigured o n s'
Writes-IsConfigured o n k e s s' w entry v = record {
  plain = w.plain ∙ v.plain;
  queue = w.queue ∙ v.queue;
  entries = λ j f h.
      subst (λ m. IsEntry o n m.vector j f) (sym w.memory)
        (elim (Bool-cases (k == j)) [
          | inl hit ↦
              subst (λ i. IsEntry o n s.memory.vector i f) (ground arith)
                (subst (IsEntry o n s.memory.vector k) (ground (arith, w.at j, h)) entry)
          | inr miss ↦ v.entries j f (ground (arith, w.at j, h))
        ]);
}

pub Writes-Untouched :
    (o : Objects) (c k : ℕ) (e : PriorityExecutable) (s s' : Strategy)
    → Writes s k e s'
    → o.timer_handle c ≢ k
    → Untouched o c s s'
Writes-Untouched o c k e s s' w ne = record {
  at = ground (arith, w.at (o.timer_handle c), ne);
  vector = ap (λ m. m.vector (o.vector c)) w.memory;
  deque = ap (λ m. m.deque (o.deque c 0)) w.memory;
}

pub Untouched-trans :
    (o : Objects) (c : ℕ) (s t u : Strategy)
    → Untouched o c s t
    → Untouched o c t u
    → Untouched o c s u
Untouched-trans o c s t u p q = record {
  at = q.at ∙ p.at;
  vector = q.vector ∙ p.vector;
  deque = q.deque ∙ p.deque;
}

pub Untouched-IsMade :
    (o : Objects) (c : ℕ) (ch : ChainConfig) (s s' : Strategy)
    → Untouched o c s s'
    → IsMade o c ch s
    → IsMade o c ch s'
Untouched-IsMade o c ch s s' u v = record {
  at = u.at ∙ v.at;
  vector = u.vector ∙ v.vector;
  empty = u.deque ∙ v.empty;
}

-- The chains from number `c` on.
abbrev pub AllMade : Objects → ℕ → List ChainConfig → Strategy → Type 0
AllMade o c [] s = Unit
AllMade o c (ch ∷ chains) s = IsMade o c ch s × AllMade o (c + 1) chains s
