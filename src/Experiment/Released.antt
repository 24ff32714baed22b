-- ===== src/Experiment/Released.antt =====
-- The loop of dy_2.cpp that releases the chains, and that the strategy is set up after it.
use mathlib.Core.Path.{subst}
use deadline_driven_enhancem.Base.{
  ℕ, ◌+◌, ◌<◌, ◌≤◌, ◌≡◌, refl, ap, sym, ◌∙◌, inl, inr, some, List, [], ◌∷◌, arith, ◌==◌, length,
  All, Bool-cases, some_eq, ◌^◌,
}
use deadline_driven_enhancem.Executable.{PriorityExecutable}
use deadline_driven_enhancem.Strategy.{Strategy, get_priority_settings}
use deadline_driven_enhancem.Selection.Totality.{IsSetUp}
use deadline_driven_enhancem.Experiment.{ChainConfig, Objects, release_chains}
use deadline_driven_enhancem.Experiment.Settings.{head}
use deadline_driven_enhancem.Experiment.Chains.{
  IsFresh, IsTimed, IsConfigured, Untouched, Untouched-trans, AllMade,
}
use deadline_driven_enhancem.Experiment.Release.{
  IsReleased, kept-AllMade, release_chain-done, released_strategy, release_chain-IsConfigured,
  release_chain-IsReleased, release_chain-Untouched, Untouched-IsReleased,
}

-- The chains from number `c` on, released at the times that the clock and the timers give.
abbrev pub AllReleased : Objects → ℕ → List ChainConfig → (ℕ → ℕ) → (ℕ → ℕ) → Strategy → Type 0
AllReleased o c [] millis trigger s = Unit
AllReleased o c (ch ∷ chains) millis trigger s =
    IsReleased o c ch (millis c + trigger c) s × AllReleased o (c + 1) chains millis trigger s

pub record Releases (o : Objects) (c n : ℕ) (chains : List ChainConfig) (millis trigger : ℕ → ℕ)
    (s s' : Strategy) : Type 0 where
  pub configured : IsConfigured o n s'
  pub all : AllReleased o c chains millis trigger s'
  pub others : (d : ℕ) → d < c → Untouched o d s s'

pub release_chains-Releases :
    (o : Objects) (fresh : IsFresh o) (c n : ℕ) (chains : List ChainConfig) (millis trigger : ℕ → ℕ)
    (s : Strategy)
    → All IsTimed chains
    → IsConfigured o n s
    → AllMade o c chains s
    → ((d : ℕ) → millis d + trigger d < 2 ^ 31)
    → (s' : Strategy) × (release_chains o c chains millis trigger s ≡ some s')
      × Releases o c n chains millis trigger s s'
unfolding release_chains
release_chains-Releases o fresh c n [] millis trigger s timed v made fits = (
  s,
  refl,
  record {
    configured = v;
    all = tt;
    others = λ d h. record { at = refl; vector = refl; deque = refl };
  },
)
release_chains-Releases o fresh c n (ch ∷ chains) millis trigger s (timed, rest) v (made, later)
      fits =
    let r = millis c + trigger c in
    let s1 = released_strategy o fresh c n ch timed r s v made in
    let untouched = release_chain-Untouched o fresh c n ch timed r s v made in
    let (s', done, q) =
      release_chains-Releases o fresh (c + 1) n chains millis trigger s1 rest
        (release_chain-IsConfigured o fresh c n ch timed r s v made)
        (kept-AllMade o (c + 1) chains s s1 (λ d h. untouched d (λ eq. omega (arith, h, eq))) later)
        fits in
    (
      s',
      rw (release_chain-done o fresh c n ch timed r s v made (millis c) (trigger c) refl (fits c))
          done,
      record {
        configured = q.configured;
        all = (
          Untouched-IsReleased o c ch r s1 s' (q.others c (omega arith))
              (release_chain-IsReleased o fresh c n ch timed r s v made),
          q.all,
        );
        others = λ d h.
            Untouched-trans o d s s1 s' (untouched d (λ eq. omega (arith, h, eq)))
              (q.others d (omega (arith, h)));
      },
    )

-- Settings with a release time.
pub record HasRelease (s : Strategy) (k : ℕ) : Type 0 where
  pub settings : PriorityExecutable
  pub at : get_priority_settings s k ≡ some settings
  pub time : ℕ
  pub given : settings.release_time ≡ some time

released_time :
    (o : Objects) (c : ℕ) (chains : List ChainConfig) (millis trigger : ℕ → ℕ) (s : Strategy)
    (d : ℕ)
    → AllReleased o c chains millis trigger s
    → c ≤ d
    → d < c + length chains
    → HasRelease s (o.timer_handle d)
released_time o c [] millis trigger s d v low high = absurd (omega (arith, low, high))
released_time o c (ch ∷ chains) millis trigger s d (v, rest) low high = elim (Bool-cases (c == d)) [
  | inl here ↦
      subst (λ i. HasRelease s (o.timer_handle i)) (ground arith)
        (record {
          settings = record (head o c ch) { release_time = some (millis c + trigger c) };
          at = v.at;
          time = millis c + trigger c;
          given = refl;
        })
  | inr there ↦
      released_time o (c + 1) chains millis trigger s d rest (ground arith) (omega (arith, high))
]

-- With every chain released, the strategy is set up.
pub configured-IsSetUp :
    (o : Objects) (chains : List ChainConfig) (millis trigger : ℕ → ℕ) (s : Strategy)
    → IsConfigured o (length chains) s
    → AllReleased o 0 chains millis trigger s
    → IsSetUp s
configured-IsSetUp o chains millis trigger s v released = record {
  shared = 0;
  mirrored = λ h. cc (h, v.plain);
  known = subst (All _) (sym v.queue) tt;
  sound = λ k e h.
      let entry = v.entries k e h in
      record {
        own = entry.own;
        timed = λ dl. entry.timed;
        within = λ dl. entry.within;
        queues = λ dl. let (vec, at, size, _, _, _) = entry.queues in (vec, at, size);
        timer = λ dl first.
            let (c, below, is) = entry.first first in
            let t =
              released_time o 0 chains millis trigger s c released (omega arith)
                (omega (arith, below)) in
            let same : some e ≡ some t.settings = sym h ∙ ap (get_priority_settings s) is ∙ t.at in
            (t.time, ap (λ e. e.release_time) (some_eq same) ∙ t.given);
      };
}
