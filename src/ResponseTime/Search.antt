-- ===== src/ResponseTime/Search.antt =====
-- The search of theorem_2.cpp for the least time gap ends.
use mathlib.Core.Path.{subst}
use deadline_driven_enhancem.Base.{
  ℕ, ◌+◌, ◌-◌, ◌*◌, ◌^◌, ◌≤◌, ◌<◌, min, ◌≡◌, ap, sym, ◌∙◌, inl, inr, true, false, some, List, [],
  ◌∷◌, arith, ltb, ◌>>=◌, All, Bool-cases, lt→ltb, Memᴰ,
}
use deadline_driven_enhancem.ResponseTime.{word, sub64, Chain, dbf, find_time_gap, is_enough, wcrt}
use deadline_driven_enhancem.ResponseTime.Demand.{
  IsChain, instances, earlier_demand, blocking, demand, find_time_gap-least, dbf-exact, word-small,
  sub64-small,
}

-- Bounds of the two sums that do not depend on the time gap.
abbrev pub earlier_bound : Chain → List Chain → ℕ
earlier_bound i [] = 0
earlier_bound i (j ∷ js) = instances i.deadline j.period * j.runtime + earlier_bound i js

abbrev pub blocking_bound : List Chain → ℕ
blocking_bound [] = 0
blocking_bound (k ∷ ks) = instances k.deadline k.period * k.runtime + blocking_bound ks

instances_mono : (a b p : ℕ) → a ≤ b → instances a p ≤ instances b p
instances_mono a b p h = grind arith

mul_mono : (a b c d : ℕ) → a ≤ b → c ≤ d → a * c ≤ b * d
mul_mono a b c d h k = grind arith

earlier_demand_le :
    (i : Chain) (t : ℕ) (js : List Chain) → earlier_demand i t js ≤ earlier_bound i js
earlier_demand_le i t [] = omega arith
earlier_demand_le i t (j ∷ js) = elim (Bool-cases (ltb j.deadline i.deadline)) [
  | inl earlier ↦
      let a = instances_mono (min t (i.deadline - j.deadline)) i.deadline j.period (omega arith) in
      let b = mul_mono _ _ j.runtime j.runtime a (omega arith) in
      ground (arith, b, earlier_demand_le i t js)
  | inr later ↦ ground (arith, earlier_demand_le i t js)
]

blocking_le : (t : ℕ) (ks : List Chain) → blocking t ks ≤ blocking_bound ks
blocking_le t [] = omega arith
blocking_le t (k ∷ ks) =
    let b =
      mul_mono (instances k.deadline k.period) (instances k.deadline k.period) (min k.runtime t)
        k.runtime (omega arith) (omega arith) in
    omega (arith, b, blocking_le t ks)

own_blocking : (i : Chain) (t : ℕ) (ks : List Chain) → Memᴰ i ks → min i.runtime t ≤ blocking t ks
own_blocking i t [] h = elim h [ ]
own_blocking i t (k ∷ ks) (Memᴰ.head e) =
    let b =
      mul_mono 1 (instances k.deadline k.period) (min k.runtime t) (min k.runtime t) (omega arith)
        (omega arith) in
    subst (λ c. min c.runtime t ≤ blocking t (k ∷ ks)) (sym e) (omega (arith, b))
own_blocking i t (k ∷ ks) (Memᴰ.tail h) = omega (arith, own_blocking i t ks h)

All-member : (i : Chain) (cs : List Chain) → Memᴰ i cs → All IsChain cs → IsChain i
All-member i [] h v = elim h [ ]
All-member i (c ∷ cs) (Memᴰ.head e) v = subst IsChain (sym e) v.0
All-member i (c ∷ cs) (Memᴰ.tail h) v = All-member i cs h v.1

-- The most that the demand comes to.
abbrev pub bound : ℕ → List Chain → Chain → ℕ
bound m cs i = m * (i.runtime - i.last) + earlier_bound i cs + blocking_bound cs

module _ (m : ℕ) (cs : List Chain) (i : Chain) (pos : 0 < m) (v : All IsChain cs) (at : Memᴰ i cs)
    (fits : m * (bound m cs i + 1) < 2 ^ 64) where
  scaled : bound m cs i + 1 ≤ m * (bound m cs i + 1)
  scaled = omega (arith, mul_mono 1 m (bound m cs i + 1) (bound m cs i + 1) pos (omega arith))

  runtime_le : i.runtime ≤ bound m cs i
  runtime_le = omega (arith, own_blocking i i.runtime cs at, blocking_le i.runtime cs)

  first_le : i.runtime - i.last ≤ bound m cs i + 1
  first_le = omega (arith, runtime_le)

  bound-is_enough : is_enough m cs i (bound m cs i + 1) ≡ true
  bound-is_enough =
      let t = bound m cs i + 1 in
      let most : demand m cs i t ≤ bound m cs i =
        omega (arith, earlier_demand_le i t cs, blocking_le t cs) in
      let e =
        dbf-exact m cs i t (omega arith) (omega (arith, fits, scaled)) v (All-member i cs at v).last
          (omega (arith, fits, scaled, runtime_le)) (own_blocking i t cs at)
          (omega (arith, most, fits, scaled)) in
      lt→ltb (dbf m cs i t) (word (m * t)) (
        subst (λ z. dbf m cs i t < z) (sym (word-small (m * t) fits))
          (omega (arith, e, most, scaled)))

  -- For a chain `i` of the set, with at least one processor, chains with positive periods and
  -- deadlines in 64 bits and last callbacks within the runtimes, and a demand bound that keeps
  -- the products in 64 bits: the search ends within that bound. It ends at the first time gap, from
  -- the chain's runtime without its last callback on, whose computed demand is below the supply, and
  -- the response time is that gap plus the last callback minus one.
  pub wcrt-some :
      (r : ℕ) × (wcrt (bound m cs i + 2) m cs i ≡ some (sub64 (word (r + i.last)) 1))
      × (i.runtime - i.last ≤ r)
      × (r ≤ bound m cs i + 1)
      × (is_enough m cs i r ≡ true)
      × ((u : ℕ) → i.runtime - i.last ≤ u → u < r → is_enough m cs i u ≡ false)
  unfolding wcrt
  wcrt-some =
      let c = All-member i cs at v in
      let start : sub64 i.runtime i.last ≡ i.runtime - i.last =
        sub64-small i.runtime i.last (omega (arith, runtime_le, scaled, fits)) c.last in
      let (r, found, lo, hi, enough, least) =
        find_time_gap-least (is_enough m cs i) (bound m cs i + 2) (i.runtime - i.last)
          (bound m cs i + 1) first_le (omega arith) bound-is_enough in
      (
        r,
        ap
              (λ t. find_time_gap (bound m cs i + 2) (is_enough m cs i) t >>= λ r.
                some (sub64 (word (r + i.last)) 1))
              start
            ∙ ap (λ g. g >>= λ r. some (sub64 (word (r + i.last)) 1)) found,
        lo,
        hi,
        enough,
        least,
      )
