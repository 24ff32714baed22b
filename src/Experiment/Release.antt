-- ===== src/Experiment/Release.antt =====
-- The release of one chain in dy_2.cpp.
use mathlib.Core.Path.{subst}
use deadline_driven_enhancem.Base.{
  ℕ, zero, suc, ◌+◌, ◌%◌, ◌^◌, ◌<◌, ◌≤◌, ◌≡◌, ◌≢◌, refl, sym, ◌∙◌, inl, inr, some, List, [], ◌∷◌,
  arith, ◌==◌, if◌then◌else◌, Bool-cases,
}
use deadline_driven_enhancem.Executable.{PriorityExecutable}
use deadline_driven_enhancem.Executable.Comparator.{Deques, slot}
use deadline_driven_enhancem.Strategy.{Strategy, get_priority_settings, assign_release_time, store}
use deadline_driven_enhancem.Strategy.Settings.{get-store}
use deadline_driven_enhancem.Selection.{ceil_div}
use deadline_driven_enhancem.Selection.Release.{ceil_div-pos}
use deadline_driven_enhancem.Selection.Accounting.{pushed, push_deadline-some}
use deadline_driven_enhancem.Experiment.{ChainConfig, Objects, new_deques, release_chain, to_int}
use deadline_driven_enhancem.Experiment.Settings.{head}
use deadline_driven_enhancem.Experiment.Chains.{
  IsFresh, IsTimed, IsEntry, IsConfigured, IsMade, Untouched, Untouched-IsMade, AllMade,
}

-- A chain released at `r`: its timer has that release time, and the first of its deques the one
-- deadline of that release.
pub record IsReleased (o : Objects) (c : ℕ) (ch : ChainConfig) (r : ℕ) (s : Strategy) : Type 0 where
  pub at :
      get_priority_settings s (o.timer_handle c)
      ≡ some (record (head o c ch) { release_time = some r })
  pub slot : slot s.memory (some (o.vector c)) 0 ≡ some (o.deque c 0)
  pub pending : s.memory.deque (o.deque c 0) ≡ ((r + ch.deadline) % 2 ^ 32) ∷ []

first_deque :
    (o : Objects) (c n : ℕ) (m : Deques)
    → 0 < n
    → m.vector (o.vector c) ≡ new_deques o c 0 n
    → slot m (some (o.vector c)) 0 ≡ some (o.deque c 0)
unfolding slot new_deques
first_deque o c zero m h at = absurd (omega arith)
first_deque o c (suc n) m h at = rw at refl

pub Untouched-IsReleased :
    (o : Objects) (c : ℕ) (ch : ChainConfig) (r : ℕ) (s s' : Strategy)
    → Untouched o c s s'
    → IsReleased o c ch r s
    → IsReleased o c ch r s'
unfolding slot
Untouched-IsReleased o c ch r s s' u v = record {
  at = u.at ∙ v.at;
  slot = rw (u.vector) v.slot;
  pending = u.deque ∙ v.pending;
}

pub kept-AllMade :
    (o : Objects) (c : ℕ) (chains : List ChainConfig) (s s' : Strategy)
    → ((d : ℕ) → c ≤ d → Untouched o d s s')
    → AllMade o c chains s
    → AllMade o c chains s'
kept-AllMade o c [] s s' u v = tt
kept-AllMade o c (ch ∷ chains) s s' u (made, rest) = (
  Untouched-IsMade o c ch s s' (u c (omega arith)) made,
  kept-AllMade o (c + 1) chains s s' (λ d h. u d (omega (arith, h))) rest,
)

-- The release of one chain writes its timer's settings and its first deque.
pub to_int_small : (n : ℕ) → n < 2 ^ 31 → to_int n ≡ some n
unfolding to_int
to_int_small n h = let same : n % 2 ^ 32 ≡ n = omega (arith, h) in rw same (ground (arith, h))

module _ (o : Objects) (fresh : IsFresh o) (c n : ℕ) (ch : ChainConfig) (timed : IsTimed ch) (r : ℕ)
    (s : Strategy) (v : IsConfigured o n s) (made : IsMade o c ch s) where
  timed_head : PriorityExecutable
  timed_head = record (head o c ch) { release_time = some r }

  pub released_strategy : Strategy
  released_strategy = record (store (o.timer_handle c) timed_head s) {
    memory = pushed s.memory (o.deque c 0) (r + ch.deadline);
  }

  released_at :
      (j : ℕ)
      → get_priority_settings released_strategy j
        ≡ (if o.timer_handle c == j then some timed_head else get_priority_settings s j)
  unfolding released_strategy get_priority_settings
  released_at j = get-store s (o.timer_handle c) j timed_head

  timed_head-IsEntry : IsEntry o n s.memory.vector (o.timer_handle c) timed_head
  unfolding timed_head
  timed_head-IsEntry =
      let old = v.entries (o.timer_handle c) (head o c ch) made.at in
      record {
        own = old.own;
        timed = old.timed;
        within = old.within;
        queues = old.queues;
        first = old.first;
      }

  pub release_chain-IsConfigured : IsConfigured o n released_strategy
  unfolding released_strategy store timed_head
  release_chain-IsConfigured = record {
    plain = v.plain;
    queue = v.queue;
    entries = λ k e h. elim (Bool-cases (o.timer_handle c == k)) [
      | inl hit ↦
          subst (λ i. IsEntry o n s.memory.vector i e) (ground arith)
            (subst (IsEntry o n s.memory.vector (o.timer_handle c))
              (ground (arith, released_at k, h)) timed_head-IsEntry)
      | inr miss ↦ v.entries k e (ground (arith, released_at k, h))
    ];
  }

  pub release_chain-IsReleased : IsReleased o c ch r released_strategy
  unfolding released_strategy store timed_head slot
  release_chain-IsReleased = record {
    at = ground (arith, released_at (o.timer_handle c));
    slot =
        first_deque o c (ceil_div ch.deadline ch.period) s.memory
          (ceil_div-pos ch.deadline ch.period timed.1 timed.2) made.vector;
    pending = ground (arith, made.empty);
  }

  pub release_chain-Untouched : (d : ℕ) → c ≢ d → Untouched o d s released_strategy
  unfolding released_strategy store
  release_chain-Untouched d ne = record {
    at = ground (arith, released_at (o.timer_handle d), fresh.timers c d ne);
    vector = refl;
    deque = ground (arith, fresh.deques c d 0 0 ne);
  }

  pub release_chain-done :
      (millis trigger : ℕ)
      → r ≡ millis + trigger
      → millis + trigger < 2 ^ 31
      → release_chain o c ch millis trigger s ≡ some released_strategy
  unfolding release_chain assign_release_time released_strategy timed_head store
  release_chain-done millis trigger is fits =
      let found =
        first_deque o c (ceil_div ch.deadline ch.period) s.memory
          (ceil_div-pos ch.deadline ch.period timed.1 timed.2) made.vector in
      rw
        (
          to_int_small (millis + trigger) fits,
          made.at,
          push_deadline-some (some (o.vector c)) 0 (millis + trigger + ch.deadline) (o.deque c 0)
              s.memory found,
          sym is,
        )
        refl
