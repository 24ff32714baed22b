-- ===== src/Selection/Soundness.antt =====
-- get_next_executable of priority_memory_strategy.hpp, over and over, in a strategy that is set up as
-- the programs do it.
use mathlib.Core.Path.{subst}
use native.Mathlib.Nat.{mod-lt}
use deadline_driven_enhancem.Base.{
  ℕ, ◌+◌, ◌%◌, ◌≡◌, refl, ap, sym, ◌∙◌, inl, inr, ◌&&◌, Option, some, List, arith, ◌==◌,
  if◌then◌else◌, Bool-cases,
}
use deadline_driven_enhancem.Executable.{PriorityExecutable, increment_counter}
use deadline_driven_enhancem.Executable.Comparator.{Deques}
use deadline_driven_enhancem.Strategy.{Strategy, get_priority_settings, put, store}
use deadline_driven_enhancem.Strategy.Settings.{get-store, put-put}
use deadline_driven_enhancem.Selection.{
  ceil_div, is_deadline, is_counted, release, retire, rotate, count_run, account,
}
use deadline_driven_enhancem.Selection.Accounting.{
  IsSound, IsMirrored, MayMirror, instances-pos, after_release, popped, release_shared, retire_lem,
  rotate_lem,
}

-- What the F1TENTH case needs of `e` holds of `e'`.
abbrev pub KeepsMirrored : (ℕ → List ℕ) → PriorityExecutable → PriorityExecutable → Type 0
KeepsMirrored vector e e' = (n : ℕ) → IsMirrored n vector e → IsMirrored n vector e'

-- A step on the executable `e0` and the memory that keeps the vectors and the settings sound.
abbrev Keeps : (ℕ → List ℕ) → ℕ → PriorityExecutable → Option (PriorityExecutable × Deques) → Type 0
Keeps vector k e0 r =
    (e : PriorityExecutable) × (m : Deques) × (r ≡ some (e, m))
    × (m.vector ≡ vector)
    × IsSound vector k e
    × KeepsMirrored vector e0 e

release_stage :
    (millis k : ℕ) (s : Strategy) (e : PriorityExecutable)
    → MayMirror s e
    → IsSound s.memory.vector k e
    → Keeps s.memory.vector k e
        (if e.is_first_in_chain && is_deadline e then release millis s e else some (e, s.memory))
release_stage millis k s e mirror sound = elim (Bool-cases (e.is_first_in_chain && is_deadline e)) [
  | inl h ↦
      let (r, m, done, same) =
        release_shared millis k s e mirror sound (ground arith) (ground arith) in
      (
        after_release millis r e,
        m,
        simp (h, done),
        same,
        record {
          own = sound.own;
          timed = sound.timed;
          within = sound.within;
          queues = sound.queues;
          timer = λ _ _. (_, refl);
        },
        λ n h. record { head = h.head; copy = h.copy },
      )
  | inr h ↦ (e, s.memory, simp h, refl, sound, λ n h. h)
]

retire_stage :
    (k : ℕ) (m : Deques) (e : PriorityExecutable)
    → IsSound m.vector k e
    → (m' : Deques) × ((if e.is_last_in_chain && is_deadline e then retire e m else some m)
        ≡ some m')
      × (m'.vector ≡ m.vector)
retire_stage k m e sound = elim (Bool-cases (e.is_last_in_chain && is_deadline e)) [
  | inl h ↦
      let (q, found, done) = retire_lem k m e sound (ground arith) (ground arith) in
      (popped m q, simp (h, done), refl)
  | inr h ↦ (m, simp h, refl)
]

rotate_stage :
    (k : ℕ) (m : Deques) (e : PriorityExecutable)
    → IsSound m.vector k e
    → (e' : PriorityExecutable) × ((if is_deadline e then rotate e else some e) ≡ some e')
      × IsSound m.vector k e'
      × KeepsMirrored m.vector e e'
rotate_stage k m e sound = elim (Bool-cases (is_deadline e)) [
  | inl h ↦ (
    record e { cur_index = (e.cur_index + 1) % ceil_div e.deadline e.period },
    simp (h, rotate_lem k m e sound h),
    record {
      own = sound.own;
      timed = sound.timed;
      within = λ dl. mod-lt (e.cur_index + 1) (instances-pos m k e sound dl);
      queues = sound.queues;
      timer = sound.timer;
    },
    λ n h. record { head = h.head; copy = h.copy },
  )
  | inr h ↦ (e, simp h, sound, λ n h. h)
]

-- What the bookkeeping for the executable `e` of key `k` leaves.
pub record Accounted (s : Strategy) (k : ℕ) (e : PriorityExecutable) (s' : Strategy) : Type 0 where
  pub vectors : s'.memory.vector ≡ s.memory.vector
  pub plain : s'.is_f1tenth ≡ s.is_f1tenth
  pub queue : s'.all_executables ≡ s.all_executables
  pub settings : PriorityExecutable
  pub sound : IsSound s.memory.vector k settings
  pub mirrored : KeepsMirrored s.memory.vector e settings
  pub map : s'.priority_map ≡ put k settings s.priority_map
  pub at :
      (j : ℕ)
      → get_priority_settings s' j ≡ (if k == j then some settings else get_priority_settings s j)

increment_counter-IsSound :
    (vector : ℕ → List ℕ) (k : ℕ) (e : PriorityExecutable)
    → IsSound vector k e
    → IsSound vector k (increment_counter e)
unfolding increment_counter
increment_counter-IsSound vector k e sound = record {
  own = sound.own;
  timed = sound.timed;
  within = sound.within;
  queues = sound.queues;
  timer = sound.timer;
}

count_stage :
    (k : ℕ) (s s0 : Strategy) (e0 e : PriorityExecutable)
    → Accounted s k e0 s0
    → s0.priority_map ≡ put k e s.priority_map
    → KeepsMirrored s.memory.vector e0 e
    → get_priority_settings s0 k ≡ some e
    → IsSound s.memory.vector k e
    → (s' : Strategy) × ((if is_counted e then count_run e.handle s0 else some s0) ≡ some s')
      × Accounted s k e0 s'
unfolding count_run store increment_counter
count_stage k s s0 e0 e acc map mirrored at sound = elim (Bool-cases (is_counted e)) [
  | inl h ↦ (
    store k (increment_counter e) s0,
    simp (h, sound.own, at),
    record {
      vectors = acc.vectors;
      plain = acc.plain;
      queue = acc.queue;
      settings = increment_counter e;
      sound = increment_counter-IsSound _ k e sound;
      mirrored = λ n h. let v = mirrored n h in record { head = v.head; copy = v.copy };
      map = ap (put k (increment_counter e)) map ∙ put-put k e (increment_counter e) s.priority_map;
      at = λ j. ground (arith, get-store s0 k j (increment_counter e), acc.at j);
    },
  )
  | inr h ↦ (s0, simp h, acc)
]

pub account_steps :
    (millis k : ℕ) (s s' : Strategy) (e0 e1 e2 : PriorityExecutable) (m1 m2 : Deques)
    → let e = record e0 { sum = e0.sum + 1 } in
      (if e.is_first_in_chain && is_deadline e then release millis s e else some (e, s.memory))
        ≡ some (e1, m1)
      → (if e1.is_last_in_chain && is_deadline e1 then retire e1 m1 else some m1) ≡ some m2
      → (if is_deadline e1 then rotate e1 else some e1) ≡ some e2
      → (if is_counted e2
          then count_run e2.handle (store k e2 (record s { memory = m2 }))
          else some (store k e2 (record s { memory = m2 })))
        ≡ some s'
      → account millis s k e0 ≡ some s'
unfolding account
account_steps millis k s s' e0 e1 e2 m1 m2 h1 h2 h3 h4 = simp (h1, h2, h3, h4)

-- For an executable with sound settings, the bookkeeping does not fault; it leaves sound settings,
-- and changes no other executable and no vector. In the F1TENTH case it must hold that each
-- executable of chain 1 has as many deques as the head of chain 0 counts instances.
pub account-Accounted :
    (millis k : ℕ) (s : Strategy) (e : PriorityExecutable)
    → MayMirror s e
    → IsSound s.memory.vector k e
    → (s' : Strategy) × (account millis s k e ≡ some s') × Accounted s k e s'
unfolding store get_priority_settings
account-Accounted millis k s e0 mirror sound0 =
    let e : PriorityExecutable = record e0 { sum = e0.sum + 1 } in
    let (e1, m1, h1, v1, sound1, mirrored1) =
      release_stage millis k s e (counted_mirror mirror) (counted e0 sound0) in
    let sound1' = subst (λ v. IsSound v k e1) (sym v1) sound1 in
    let (m2, h2, v2) = retire_stage k m1 e1 sound1' in
    let (e2, h3, sound2', mirrored2') = rotate_stage k m1 e1 sound1' in
    let sound2 = subst (λ v. IsSound v k e2) v1 sound2' in
    let mirrored2 : KeepsMirrored s.memory.vector e0 e2 = λ n h.
      subst (λ v. KeepsMirrored v e1 e2) v1 mirrored2' n
        (mirrored1 n (record { head = h.head; copy = h.copy })) in
    let (s', h4, acc) =
      count_stage k s (store k e2 (record s { memory = m2 })) e0 e2
        (stored m2 e2 (v2 ∙ v1) sound2 mirrored2) refl mirrored2
        (ground (arith, get-store (record s { memory = m2 }) k k e2)) sound2 in
    (s', account_steps millis k s s' e0 e1 e2 m1 m2 h1 h2 h3 h4, acc)
  where
    counted :
        (e : PriorityExecutable)
        → IsSound s.memory.vector k e
        → IsSound s.memory.vector k (record e { sum = e.sum + 1 })
    counted e sound = record {
      own = sound.own;
      timed = sound.timed;
      within = sound.within;
      queues = sound.queues;
      timer = sound.timer;
    }

    counted_mirror : MayMirror s e0 → MayMirror s (record e0 { sum = e0.sum + 1 })
    counted_mirror mirror h =
        let (n, mine, all) = mirror h in (n, record { head = mine.head; copy = mine.copy }, all)

    stored :
        (m : Deques) (e : PriorityExecutable)
        → m.vector ≡ s.memory.vector
        → IsSound s.memory.vector k e
        → KeepsMirrored s.memory.vector e0 e
        → Accounted s k e0 (store k e (record s { memory = m }))
    stored m e v sound mirrored = record {
      vectors = v;
      plain = refl;
      queue = refl;
      settings = e;
      sound = sound;
      mirrored = mirrored;
      map = refl;
      at = λ j. get-store (record s { memory = m }) k j e;
    }
