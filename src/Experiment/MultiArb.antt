-- ===== src/Experiment/MultiArb.antt =====
-- main of source_code/src/priority_executor/src/multi_arb.cpp: the set-up of dy_2.cpp with other chains
-- and a log of the releases; and the runtimes of the chains, which both programs print. A runtime is a
-- whole number, far below 2 ^ 53, where `double` is exact.
pub mod Runtimes
use deadline_driven_enhancem.Base.{
  ℕ, zero, suc, ◌+◌, ◌-◌, Option, none, some, List, [], ◌∷◌, ◌++◌, ◌≡◌, refl, All, arith, ap, sym,
  ◌∙◌, false, ◌>>=◌, ◌%◌, ◌^◌, ◌<◌,
}
use deadline_driven_enhancem.Strategy.{Strategy}
use deadline_driven_enhancem.Executor.{Executor}
use deadline_driven_enhancem.Executor.Serving.{IsServing}
use deadline_driven_enhancem.TestNodes.{Text, Log, bytes, to_string}
use deadline_driven_enhancem.Experiment.{ChainConfig, Objects, set_up}
use deadline_driven_enhancem.Experiment.Settings.{AddsNode}
use deadline_driven_enhancem.Experiment.Chains.{IsFresh, IsTimed}
use deadline_driven_enhancem.Experiment.Release.{IsReleased}
use deadline_driven_enhancem.Experiment.Released.{AllReleased}
use deadline_driven_enhancem.Experiment.Running.{IsNew, set_up-IsServing}

-- The chains of multi_arb.
unfoldable pub multi_arb_chains : List ChainConfig
multi_arb_chains =
    record { length = 2; period = 100; deadline = 250 }
    ∷ record { length = 4; period = 110; deadline = 300 }
    ∷ []

-- "deadline_<chain>_<time>"
unfoldable pub deadline_text : ℕ → ℕ → Text
unfolding to_string
deadline_text c time = bytes "deadline_" ++ (to_string c ++ (bytes "_" ++ to_string time))

-- "timer_<chain>_release_<time>"
unfoldable pub timer_text : ℕ → ℕ → Text
unfolding to_string
timer_text c time = bytes "timer_" ++ (to_string c ++ (bytes "_release_" ++ to_string time))

-- What the loop over the releases logs from chain `c` on; `stamp` and `stamp'` are the times of the
-- two entries.
unfoldable pub logged_releases : ℕ → List ChainConfig → (ℕ → ℕ) → (ℕ → ℕ) → (ℕ → ℕ) → (ℕ → ℕ) → Log
unfolding deadline_text timer_text
logged_releases c [] millis trigger stamp stamp' = []
logged_releases c (ch ∷ chains) millis trigger stamp stamp' =
    (deadline_text c ((millis c + trigger c + ch.deadline) % 2 ^ 64), stamp c)
    ∷ (timer_text c ((millis c + trigger c) % 2 ^ 64), stamp' c)
    ∷ logged_releases (c + 1) chains millis trigger stamp stamp'

-- main up to spin: the executor and the log.
unfoldable pub multi_arb :
    Objects
    → List ChainConfig
    → (ℕ → ℕ)
    → (ℕ → ℕ)
    → (ℕ → ℕ)
    → (ℕ → ℕ)
    → Executor
    → Option (Executor × Log)
unfolding logged_releases
multi_arb o chains millis trigger stamp stamp' x = do
  x' ← set_up o chains millis trigger x
  some (x', logged_releases 0 chains millis trigger stamp stamp')

-- From chain `c` on, the log has an entry for the deadline and one for the release of each chain, and
-- these are the release time that the timer has, and in 64 bits this time plus the deadline of the
-- chain, which the first deque has in 32 bits.
abbrev pub AllLogged : Objects → ℕ → List ChainConfig → Log → Strategy → Type 0
AllLogged o c [] log s = log ≡ []
AllLogged o c (ch ∷ chains) log s =
    (r : ℕ) × (stamp : ℕ) × (stamp' : ℕ) × (rest : Log) × (log
      ≡ (deadline_text c ((r + ch.deadline) % 2 ^ 64), stamp) ∷ (timer_text c r, stamp') ∷ rest)
    × IsReleased o c ch r s
    × AllLogged o (c + 1) chains rest s

word_small : (n : ℕ) → n < 2 ^ 31 → n % 2 ^ 64 ≡ n
word_small n h = omega (arith, h)

logged :
    (o : Objects) (c : ℕ) (chains : List ChainConfig) (millis trigger stamp stamp' : ℕ → ℕ)
    (s : Strategy)
    → AllReleased o c chains millis trigger s
    → ((d : ℕ) → millis d + trigger d < 2 ^ 31)
    → AllLogged o c chains (logged_releases c chains millis trigger stamp stamp') s
unfolding logged_releases
logged o c [] millis trigger stamp stamp' s v fits = refl
logged o c (ch ∷ chains) millis trigger stamp stamp' s (v, rest) fits = (
  millis c + trigger c,
  stamp c,
  stamp' c,
  logged_releases (c + 1) chains millis trigger stamp stamp',
  rw (word_small (millis c + trigger c) (fits c)) refl,
  v,
  logged o (c + 1) chains millis trigger stamp stamp' s rest fits,
)

-- For chains with a publisher and positive periods and deadlines, objects at addresses of their own,
-- add_node as rclcpp documents it, an executor with a new strategy that is not for F1TENTH, and
-- release times below 2 ^ 31: main's set-up does not fault. Then the strategy is set up, there is a
-- guard condition for each weak node, no group is in use that was not before, and main's log has for
-- each chain in turn its deadline and its release: the release time of the chain's timer, and in 64
-- bits this time plus the chain's deadline, which the chain's first deque holds in 32 bits.
pub multi_arb-Logged :
    (o : Objects) (chains : List ChainConfig) (millis trigger stamp stamp' : ℕ → ℕ) (x : Executor)
    → IsFresh o
    → AddsNode o
    → All IsTimed chains
    → IsNew x
    → x.strategy.is_f1tenth ≡ false
    → ((c : ℕ) → millis c + trigger c < 2 ^ 31)
    → (x' : Executor) × (log : Log) × (multi_arb o chains millis trigger stamp stamp' x
        ≡ some (x', log))
      × IsServing x'
      × (x'.can_be_taken_from ≡ x.can_be_taken_from)
      × AllLogged o 0 chains log x'.strategy
unfolding multi_arb
multi_arb-Logged o chains millis trigger stamp stamp' x fresh adds timed new plain fits =
    let (x', done, serving, flags, released) =
      set_up-IsServing o chains millis trigger x fresh adds timed new plain fits in
    (
      x',
      logged_releases 0 chains millis trigger stamp stamp',
      rw done refl,
      serving,
      flags,
      logged o 0 chains millis trigger stamp stamp' x'.strategy released fits,
    )
