-- ===== src/Selection/Release.antt =====
-- The arithmetic of release times in get_next_executable of priority_memory_strategy.hpp.
use deadline_driven_enhancem.Base.{
  ℕ, zero, suc, ◌+◌, ◌-◌, ◌*◌, ◌≤◌, ◌<◌, ◌≡◌, arith, inl, inr, Bool-cases, ltb, ltb→lt, ltb→le,
  lt→ltb, le→ltb,
}
use deadline_driven_enhancem.Selection.{released, ceil_div, distance}

-- `ceil_div a b` is the least number of `b`s that reach `a`.
pub ceil_div_bounds : (a b : ℕ) → 0 < b → (a ≤ ceil_div a b * b) × (ceil_div a b * b < a + b)
ceil_div_bounds a b h = grind arith

factor-pos : (c a b : ℕ) → 0 < a → a ≤ c * b → 0 < c
factor-pos zero a b h le = absurd (omega arith)
factor-pos (suc c) a b h le = omega arith

pub ceil_div-pos : (a b : ℕ) → 0 < b → 0 < a → 0 < ceil_div a b
ceil_div-pos a b h k = factor-pos (ceil_div a b) a b k (ceil_div_bounds a b h).0

released-near : (millis r p : ℕ) → distance millis r < p → released millis r p ≡ r + 1 * p
unfolding released
released-near millis r p h = rw (lt→ltb (distance millis r) p h) (omega arith)

released-far :
    (millis r p : ℕ)
    → p ≤ distance millis r
    → released millis r p ≡ r + ceil_div (distance millis r) p * p
unfolding released
released-far millis r p h = rw (le→ltb (distance millis r) p h)

distance-late : (millis r : ℕ) → r ≤ millis → distance millis r + r ≡ millis
distance-late millis r h = ground arith

distance-early : (millis r : ℕ) → millis ≤ r → distance millis r + millis ≡ r
distance-early millis r h = ground arith

-- The head of a chain that runs at or after its release time moves it by a whole, positive number of
-- periods, to a time that is neither past nor more than one period ahead.
pub released_late :
    (millis release_time period : ℕ)
    → 0 < period
    → release_time ≤ millis
    → (n : ℕ) × (0 < n)
      × (released millis release_time period ≡ release_time + n * period)
      × (millis ≤ released millis release_time period)
      × (released millis release_time period ≤ millis + period)
released_late millis r p h le = elim (Bool-cases (ltb (distance millis r) p)) [
  | inl near ↦
      let e = released-near millis r p (ltb→lt (distance millis r) p near) in
      (
        1,
        omega arith,
        e,
        omega (arith, ltb→lt (distance millis r) p near, distance-late millis r le),
        omega (arith, distance-late millis r le),
      )
  | inr far ↦
      let e = released-far millis r p (ltb→le (distance millis r) p far) in
      let bounds = ceil_div_bounds (distance millis r) p h in
      let d = distance-late millis r le in
      (
        ceil_div (distance millis r) p,
        ceil_div-pos (distance millis r) p h (omega (arith, ltb→le (distance millis r) p far)),
        e,
        omega (arith, e, bounds, d),
        omega (arith, e, bounds, d),
      )
]

-- A head that runs a period or more before its release time does not wait for it to come: the
-- release time moves at least as far ahead of its old value as that was ahead of the clock.
pub released_early :
    (millis release_time period : ℕ)
    → 0 < period
    → millis + period ≤ release_time
    → release_time + (release_time - millis) ≤ released millis release_time period
released_early millis r p h le =
    let d = distance-early millis r (omega arith) in
    let e = released-far millis r p (omega (arith, d)) in
    omega (arith, d, e, ceil_div_bounds (distance millis r) p h)
