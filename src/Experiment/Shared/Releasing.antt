-- ===== src/Experiment/Shared/Releasing.antt =====
-- The loop of multi_test.cpp that releases the chains, and that the strategy is set up after it.
use deadline_driven_enhancem.Experiment.Release.{to_int_small}
use mathlib.Core.Path.{subst}
use deadline_driven_enhancem.Base.{
  ℕ, ◌+◌, ◌<◌, ◌≤◌, ◌≡◌, ◌≢◌, refl, ap, sym, ◌∙◌, inl, inr, none, some, List, [], ◌∷◌, arith, ◌==◌,
  if◌then◌else◌, length, All, All-map, Bool-cases, Option-cases, some_eq, get_elem?_lt, ◌^◌,
}
use deadline_driven_enhancem.Executable.{PriorityExecutable}
use deadline_driven_enhancem.Executable.Comparator.{slot}
use deadline_driven_enhancem.Strategy.{Strategy, get_priority_settings, assign_release_time, store}
use deadline_driven_enhancem.Strategy.Settings.{get-store, All-put, All-lookup, put-IsUnique}
use deadline_driven_enhancem.Selection.Release.{ceil_div-pos}
use deadline_driven_enhancem.Selection.Accounting.{pushed, push_deadline-some}
use deadline_driven_enhancem.Selection.Totality.{IsSetUp}
use deadline_driven_enhancem.Experiment.{ChainConfig, Objects, release_chain, release_chains}
use deadline_driven_enhancem.Experiment.Chains.{IsTimed}
use deadline_driven_enhancem.Experiment.Released.{HasRelease}
use deadline_driven_enhancem.Experiment.Shared.{shared_timers}
use deadline_driven_enhancem.Experiment.Shared.Placed.{IsPlaced, AllPlaced, placed-IsMirrored}
use deadline_driven_enhancem.Experiment.Shared.Making.{IsLaidOut}
use deadline_driven_enhancem.Experiment.Shared.AllChains.{AllLaidOut, AllLaidOut-kept}

module _ (o : Objects) (shared n : ℕ) where
  abbrev timers : Objects
  timers = shared_timers o

  -- What releases keep.
  pub record Steps (s s' : Strategy) : Type 0 where
    pub placed : AllPlaced timers shared n s'
    pub vectors : s'.memory.vector ≡ s.memory.vector
    pub known : (j : ℕ) → get_priority_settings s j ≢ none → get_priority_settings s' j ≢ none
    pub releases : (j : ℕ) → HasRelease s j → HasRelease s' j

  -- The release of a chain with the settings `e` for its timer and the deque `q` as its first.
  module _ (k q value r : ℕ) (e : PriorityExecutable) (s : Strategy)
      (found : get_priority_settings s k ≡ some e) (v : AllPlaced timers shared n s) where
    abbrev timed_entry : PriorityExecutable
    timed_entry = record e { release_time = some r }

    after : Strategy
    unfolding store
    after = record (store k timed_entry s) { memory = pushed s.memory q value }

    after_at :
        (j : ℕ)
        → get_priority_settings after j
          ≡ (if k == j then some timed_entry else get_priority_settings s j)
    unfolding get_priority_settings after store
    after_at j = get-store s k j timed_entry

    timed_entry-IsPlaced : IsPlaced timers shared n s.memory.vector k timed_entry
    unfolding get_priority_settings
    timed_entry-IsPlaced =
        let old =
          All-lookup (IsPlaced timers shared n s.memory.vector) k e s.priority_map v.all found in
        record {
          entry = record {
            own = old.entry.own;
            timed = old.entry.timed;
            within = old.entry.within;
            queues = old.entry.queues;
            first = old.entry.first;
          };
          shares = record { head = old.shares.head; copy = old.shares.copy };
        }

    after-HasRelease : HasRelease after k
    after-HasRelease = record {
      settings = timed_entry;
      at = ground (arith, after_at k);
      time = r;
      given = refl;
    }

    keeps_release : (j : ℕ) → HasRelease s j → HasRelease after j
    keeps_release j h = elim (Bool-cases (k == j)) [
      | inl hit ↦ subst (HasRelease after) (ground arith) after-HasRelease
      | inr miss ↦ record {
        settings = h.settings;
        at = ground (arith, after_at j, h.at);
        time = h.time;
        given = h.given;
      }
    ]

    after-Steps : Steps s after
    unfolding after store
    after-Steps = record {
      placed = record {
        queue = v.queue;
        f1tenth = v.f1tenth;
        unique = put-IsUnique k timed_entry s.priority_map v.unique;
        all =
            All-put (IsPlaced timers shared n s.memory.vector) k timed_entry s.priority_map
              timed_entry-IsPlaced v.all;
      };
      vectors = refl;
      known = λ j h gone. ground (arith, after_at j, h);
      releases = keeps_release;
    }

  release_chain-Steps :
      (c : ℕ) (ch : ChainConfig) (millis trigger : ℕ) (s : Strategy)
      → IsTimed ch
      → AllPlaced timers shared n s
      → IsLaidOut o c ch s
      → millis + trigger < 2 ^ 31
      → (s' : Strategy) × (release_chain timers c ch millis trigger s ≡ some s')
        × Steps s s'
        × HasRelease s' (timers.timer_handle c)
  unfolding release_chain assign_release_time store slot after shared_timers
  release_chain-Steps c ch millis trigger s timed v here fits =
      let k = timers.timer_handle c in
      elim (Option-cases (get_priority_settings s k)) [
        | inl gone ↦ absurd (here.timer gone)
        | inr (e, found) ↦
            let pos = ceil_div-pos ch.deadline ch.period timed.1 timed.2 in
            let (q, at) =
              get_elem?_lt (s.memory.vector (o.vector c)) 0 (omega (arith, here.vector, pos)) in
            let value = millis + trigger + ch.deadline in
            (
              after k q value (millis + trigger) e s found v,
              rw
                  (
                    to_int_small (millis + trigger) fits,
                    found,
                    push_deadline-some (some (o.vector c)) 0 value q s.memory at,
                  )
                  refl,
              after-Steps k q value (millis + trigger) e s found v,
              after-HasRelease k q value (millis + trigger) e s found v,
            )
      ]

  Steps-refl : (s : Strategy) → AllPlaced timers shared n s → Steps s s
  Steps-refl s v = record { placed = v; vectors = refl; known = λ j h. h; releases = λ j h. h }

  Steps-trans : (s t u : Strategy) → Steps s t → Steps t u → Steps s u
  Steps-trans s t u p q = record {
    placed = q.placed;
    vectors = q.vectors ∙ p.vectors;
    known = λ j h. q.known j (p.known j h);
    releases = λ j h. q.releases j (p.releases j h);
  }

  pub release_chains-Steps :
      (c : ℕ) (chains : List ChainConfig) (millis trigger : ℕ → ℕ) (s : Strategy)
      → All IsTimed chains
      → AllPlaced timers shared n s
      → AllLaidOut o c chains s
      → ((d : ℕ) → millis d + trigger d < 2 ^ 31)
      → (s' : Strategy) × (release_chains timers c chains millis trigger s ≡ some s')
        × Steps s s'
        × ((d : ℕ) → c ≤ d → d < c + length chains → HasRelease s' (timers.timer_handle d))
  unfolding release_chains
  release_chains-Steps c [] millis trigger s timed v laid_out fits =
      (s, refl, Steps-refl s v, λ d low high. absurd (omega (arith, low, high)))
  release_chains-Steps c (ch ∷ chains) millis trigger s (timed, rest) v (here, laid_out) fits =
      let (t, one, step, released) =
        release_chain-Steps c ch (millis c) (trigger c) s timed v here (fits c) in
      let (s', done, steps, all) =
        release_chains-Steps (c + 1) chains millis trigger t rest step.placed
          (AllLaidOut-kept o (c + 1) chains s t step.known step.vectors laid_out) fits in
      (
        s',
        rw (one, done) refl,
        Steps-trans s t s' step steps,
        λ d low high. elim (Bool-cases (c == d)) [
          | inl hit ↦
              let is : c ≡ d = ground arith in
              subst (λ e. HasRelease s' (timers.timer_handle e)) is (steps.releases _ released)
          | inr miss ↦ all d (ground (arith, low)) (omega (arith, high))
        ],
      )

  -- With every chain released, the strategy is set up, whether for F1TENTH or not.
  pub released-IsSetUp :
      (s : Strategy)
      → AllPlaced timers shared n s
      → ((d : ℕ) → d < n → HasRelease s (timers.timer_handle d))
      → IsSetUp s
  unfolding get_priority_settings
  released-IsSetUp s v released = record {
    shared = shared;
    mirrored = λ h.
        All-map _ s.priority_map (λ p. placed-IsMirrored timers shared n s.memory.vector p.0 p.1)
          v.all;
    known = subst (All _) (sym v.queue) tt;
    sound = λ k e h.
        let placed =
          All-lookup (IsPlaced timers shared n s.memory.vector) k e s.priority_map v.all h in
        let entry = placed.entry in
        record {
          own = entry.own;
          timed = λ dl. entry.timed;
          within = λ dl. entry.within;
          queues = λ dl. let (vec, at, size, _, _, _) = entry.queues in (vec, at, size);
          timer = λ dl first.
              let (c, below, is) = entry.first first in
              let t = released c below in
              let same : some e ≡ some t.settings =
                sym h ∙ ap (get_priority_settings s) is ∙ t.at in
              (t.time, ap (λ e. e.release_time) (some_eq same) ∙ t.given);
        };
  }
