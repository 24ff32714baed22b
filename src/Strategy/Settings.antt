-- ===== src/Strategy/Settings.antt =====
-- The map of settings: what each configuring operation of PriorityMemoryStrategy changes, and that
-- every entry keeps the handle under which it stands.
use mathlib.Core.Path.{subst}
use deadline_driven_enhancem.Base.{
  ℕ, ◌≡◌, ◌≢◌, ◌↔◌, refl, inl, inr, true, Option, none, some, List, [], ◌∷◌, arith, ◌==◌,
  if◌then◌else◌, Option-cases, ◌>>=◌, some_eq, All, Bool-cases, ==_refl,
}
use deadline_driven_enhancem.Executable.{
  PriorityExecutable, ExecutableType, ExecutableScheduleType, chain_independent_priority as cip,
  deadline, executable, deadline_executable,
}
use deadline_driven_enhancem.Strategy.{
  Strategy, in_chain, lookup, put, modify, lookup_or_blank, get_priority_settings, store,
  set_executable_priority, set_chain_priority, set_executable_deadline, set_first_in_chain,
  set_last_in_chain, assign_deadlines_queue, assign_release_time, get_and_reset_priority,
}

pub lookup-put :
    (k j : ℕ) (e : PriorityExecutable) (m : List (ℕ × PriorityExecutable))
    → lookup j (put k e m) ≡ (if k == j then some e else lookup j m)
unfolding lookup put
lookup-put k j e [] = refl
lookup-put k j e ((i, f) ∷ m) = ground (arith, lookup-put k j e m)

pub put-put :
    (k : ℕ) (e f : PriorityExecutable) (m : List (ℕ × PriorityExecutable))
    → put k f (put k e m) ≡ put k f m
unfolding put
put-put k e f [] = ground arith
put-put k e f ((j, g) ∷ m) = ground (arith, put-put k e f m)

-- No key stands in the map twice.
abbrev pub IsUnique : List (ℕ × PriorityExecutable) → Type 0
IsUnique [] = Unit
IsUnique ((k, e) ∷ m) = (lookup k m ≡ none) × IsUnique m

pub put-IsUnique :
    (k : ℕ) (e : PriorityExecutable) (m : List (ℕ × PriorityExecutable))
    → IsUnique m
    → IsUnique (put k e m)
unfolding put lookup
put-IsUnique k e [] v = (refl, tt)
put-IsUnique k e ((j, f) ∷ m) (new, v) = elim (Bool-cases (j == k)) [
  | inl hit ↦ rw hit (subst (λ i. lookup i m ≡ none) (ground arith) new, v)
  | inr miss ↦ rw miss (ground (arith, lookup-put k j e m, new), put-IsUnique k e m v)
]

-- What holds of all that is found in such a map, holds of the whole map.
pub found-All :
    (P : ℕ → PriorityExecutable → Type 0) (m : List (ℕ × PriorityExecutable))
    → IsUnique m
    → ((k : ℕ) (e : PriorityExecutable) → lookup k m ≡ some e → P k e)
    → All (λ p. P p.0 p.1) m
unfolding lookup
found-All P [] v h = tt
found-All P ((j, f) ∷ m) (new, v) h =
    (h j f (ground arith), found-All P m v (λ k e at. h k e (ground (arith, at, new))))

-- What holds of all settings in the map, holds of those under a key, and is kept by a write.
module _ (P : ℕ → PriorityExecutable → Type 0) where
  pub All-put :
      (k : ℕ) (e : PriorityExecutable) (m : List (ℕ × PriorityExecutable))
      → P k e
      → All (λ p. P p.0 p.1) m
      → All (λ p. P p.0 p.1) (put k e m)
  unfolding put
  All-put k e [] h all = (h, tt)
  All-put k e ((j, f) ∷ m) h (here, all) = elim (Bool-cases (j == k)) [
    | inl hit ↦ rw hit (h, all)
    | inr miss ↦ rw miss (here, All-put k e m h all)
  ]

  pub All-lookup :
      (k : ℕ) (e : PriorityExecutable) (m : List (ℕ × PriorityExecutable))
      → All (λ p. P p.0 p.1) m
      → lookup k m ≡ some e
      → P k e
  unfolding lookup
  All-lookup k e [] all h = absurd (ground arith)
  All-lookup k e ((j, f) ∷ m) (here, all) h = elim (Bool-cases (j == k)) [
    | inl hit ↦ subst (λ i. P i e) (ground arith) (subst (P j) (ground arith) here)
    | inr miss ↦ All-lookup k e m all (ground arith)
  ]

pub get-store :
    (s : Strategy) (k j : ℕ) (e : PriorityExecutable)
    → get_priority_settings (store k e s) j ≡ (if k == j then some e else get_priority_settings s j)
unfolding get_priority_settings store
get-store s k j e = lookup-put k j e s.priority_map

-- Two writes to one entry.
pub modify-put :
    (f : PriorityExecutable → PriorityExecutable) (k : ℕ) (e : PriorityExecutable)
    (m : List (ℕ × PriorityExecutable))
    → modify f k (put k e m) ≡ put k (f e) m
unfolding modify lookup_or_blank
modify-put f k e m = rw (lookup_or_blank, lookup-put k k e m, ==_refl k) (put-put k e (f e) m)

pub get-modify-put :
    (f : PriorityExecutable → PriorityExecutable) (k j : ℕ) (e : PriorityExecutable)
    (m : List (ℕ × PriorityExecutable))
    → lookup j (modify f k (put k e m)) ≡ (if k == j then some (f e) else lookup j m)
unfolding modify lookup_or_blank
get-modify-put f k j e m = ground (
  arith,
  lookup-put k k e m,
  lookup-put k j e m,
  lookup-put k j (f (lookup_or_blank k (put k e m))) (put k e m),
  lookup-put k j (f e) (put k e m),
)

pub get-set_executable_deadline :
    (s : Strategy) (k p d c j : ℕ) (t : ExecutableType)
    → get_priority_settings (set_executable_deadline s k p d t c) j ≡ (
        if k == j
        then some (in_chain c (deadline_executable k p d t deadline))
        else get_priority_settings s j)
unfolding get_priority_settings set_executable_deadline
get-set_executable_deadline s k p d c j t = get-modify-put (in_chain c) k j _ s.priority_map

pub get-set_chain_priority :
    (s : Strategy) (k p c j : ℕ) (t : ExecutableType) (sc : ExecutableScheduleType)
    → get_priority_settings (set_chain_priority s k p t sc c) j
      ≡ (if k == j then some (in_chain c (executable k p t sc)) else get_priority_settings s j)
unfolding get_priority_settings set_chain_priority
get-set_chain_priority s k p c j t sc = get-modify-put (in_chain c) k j _ s.priority_map

-- The calls with which the programs configure an executable.
pub data Setting : Type 0 where
  executable_priority : ℕ → ℕ → ExecutableType → Setting
  chain_priority : ℕ → ℕ → ExecutableType → ExecutableScheduleType → ℕ → Setting
  executable_deadline : ℕ → ℕ → ℕ → ExecutableType → ℕ → Setting
  first_in_chain last_in_chain : ℕ → Setting
  deadlines_queue release_time : ℕ → ℕ → Setting
  reset_priority : ℕ → ExecutableType → Setting

abbrev pub apply : Strategy → Setting → Option Strategy
apply s (executable_priority k p t) = some (set_executable_priority s k p t)
apply s (chain_priority k p t sc c) = some (set_chain_priority s k p t sc c)
apply s (executable_deadline k p d t c) = some (set_executable_deadline s k p d t c)
apply s (first_in_chain k) = set_first_in_chain s k
apply s (last_in_chain k) = set_last_in_chain s k
apply s (deadlines_queue k q) = assign_deadlines_queue s k q
apply s (release_time k r) = assign_release_time s k r
apply s (reset_priority k t) = some (get_and_reset_priority s k t)

-- Every entry of the map holds the handle under which it stands.
abbrev pub IsKeyed : Strategy → Type 0
IsKeyed s =
    (k : ℕ) (e : PriorityExecutable) → get_priority_settings s k ≡ some e → e.handle ≡ some k

executable-handle :
    (k p : ℕ) (t : ExecutableType) (sc : ExecutableScheduleType)
    → (executable k p t sc).handle ≡ some k
unfolding executable
executable-handle k p t sc = ground arith

deadline_executable-handle :
    (k p d : ℕ) (t : ExecutableType) (sc : ExecutableScheduleType)
    → (deadline_executable k p d t sc).handle ≡ some k
unfolding deadline_executable
deadline_executable-handle k p d t sc = ground arith

pub store-IsKeyed :
    (s : Strategy) (k : ℕ) (e : PriorityExecutable)
    → e.handle ≡ some k
    → IsKeyed s
    → IsKeyed (store k e s)
store-IsKeyed s k e h keyed j f g = ground (arith, get-store s k j e, keyed j f)

-- A write through the pointer of get_priority_settings.
module _ (f : PriorityExecutable → PriorityExecutable)
    (kept : (e : PriorityExecutable) → (f e).handle ≡ e.handle) (s : Strategy) (k : ℕ)
    (keyed : IsKeyed s) where
  write-IsKeyed :
      {s' : Strategy}
      → (get_priority_settings s k >>= λ e. some (store k (f e) s)) ≡ some s'
      → IsKeyed s'
  write-IsKeyed h j g e = elim (Option-cases (get_priority_settings s k)) [
    | inl missing ↦ ground arith
    | inr (old, found) ↦ ground (arith, get-store s k j (f old), keyed j g, keyed k old, kept old)
  ]

module _ (s : Strategy) (keyed : IsKeyed s) (k : ℕ) (t : ExecutableType) where
  set_chain_priority-IsKeyed :
      (p c : ℕ) (sc : ExecutableScheduleType) → IsKeyed (set_chain_priority s k p t sc c)
  set_chain_priority-IsKeyed p c sc j g e =
      ground (arith, get-set_chain_priority s k p c j t sc, executable-handle k p t sc, keyed j g)

  set_executable_deadline-IsKeyed : (p d c : ℕ) → IsKeyed (set_executable_deadline s k p d t c)
  set_executable_deadline-IsKeyed p d c j g e = ground (
    arith,
    get-set_executable_deadline s k p d c j t,
    deadline_executable-handle k p d t deadline,
    keyed j g,
  )

  pub get_and_reset_priority-IsKeyed : IsKeyed (get_and_reset_priority s k t)
  unfolding get_and_reset_priority
  get_and_reset_priority-IsKeyed = elim (Option-cases (get_priority_settings s k)) [
    | inl e ↦
        rw (e, get_and_reset_priority)
          (store-IsKeyed s k (executable k 0 t cip) (executable-handle k 0 t cip) keyed)
    | inr (f, e) ↦ rw (e, get_and_reset_priority) keyed
  ]

-- Every configuring call that does not fault keeps each entry of the map under its own handle.
pub apply-IsKeyed :
    (s : Strategy) (c : Setting) {s' : Strategy} → IsKeyed s → apply s c ≡ some s' → IsKeyed s'
unfolding set_executable_priority set_first_in_chain set_last_in_chain assign_deadlines_queue
    assign_release_time
apply-IsKeyed s (executable_priority k p t) v h =
    subst IsKeyed (some_eq h)
      (store-IsKeyed s k (executable k p t cip) (executable-handle k p t cip) v)
apply-IsKeyed s (chain_priority k p t sc c) v h =
    subst IsKeyed (some_eq h) (set_chain_priority-IsKeyed s v k t p c sc)
apply-IsKeyed s (executable_deadline k p d t c) v h =
    subst IsKeyed (some_eq h) (set_executable_deadline-IsKeyed s v k t p d c)
apply-IsKeyed s (first_in_chain k) v h = write-IsKeyed _ (λ e. refl) s k v h
apply-IsKeyed s (last_in_chain k) v h = write-IsKeyed _ (λ e. refl) s k v h
apply-IsKeyed s (deadlines_queue k q) v h = write-IsKeyed _ (λ e. refl) s k v h
apply-IsKeyed s (release_time k r) v h = write-IsKeyed _ (λ e. refl) s k v h
apply-IsKeyed s (reset_priority k t) v h =
    subst IsKeyed (some_eq h) (get_and_reset_priority-IsKeyed s v k t)

-- The setters that write through get_priority_settings fault (by a null dereference) exactly for
-- the handles that have no settings.
pub setters_fault_iff :
    (s : Strategy) (k q r : ℕ)
    → ((set_first_in_chain s k ≡ none) ↔ (get_priority_settings s k ≡ none))
      × ((set_last_in_chain s k ≡ none) ↔ (get_priority_settings s k ≡ none))
      × ((assign_deadlines_queue s k q ≡ none) ↔ (get_priority_settings s k ≡ none))
      × ((assign_release_time s k r ≡ none) ↔ (get_priority_settings s k ≡ none))
unfolding set_first_in_chain set_last_in_chain assign_deadlines_queue assign_release_time
setters_fault_iff s k q r = elim (Option-cases (get_priority_settings s k)) [
  | inl e ↦ ground arith
  | inr (a, e) ↦ ground arith
]

-- The calls with which the programs set up the timer at the head of a DEADLINE chain.
abbrev pub configure_head : Strategy → ℕ → ℕ → ℕ → ℕ → ℕ → ℕ → Option Strategy
configure_head s k p d chain q r = do
  a ← set_first_in_chain (set_executable_deadline s k p d ExecutableType.timer chain) k
  b ← assign_deadlines_queue a k q
  assign_release_time b k r

-- Set up as the programs do it, the head of a chain has the period, deadline, chain, deque vector
-- and release time given, counts from zero, and no other handle's settings change.
pub configure_head_lem :
    (s : Strategy) (k p d chain q r : ℕ)
    → (s' : Strategy) × (configure_head s k p d chain q r ≡ some s')
      × (get_priority_settings s' k
          ≡ some
              (record (in_chain chain (deadline_executable k p d ExecutableType.timer deadline)) {
                is_first_in_chain = true;
                deadlines = some q;
                release_time = some r;
              }))
      × ((j : ℕ) → k ≢ j → get_priority_settings s' j ≡ get_priority_settings s j)
unfolding set_first_in_chain assign_deadlines_queue assign_release_time
configure_head_lem s k p d chain q r = (
  s3,
  rw (at0, at1, at2),
  ground (arith, get-store s2 k k e3),
  λ j h. ground (
    arith,
    get-store s2 k j e3,
    get-store s1 k j e2,
    get-store s0 k j e1,
    get-set_executable_deadline s k p d chain j ExecutableType.timer,
  ),
)
  where
    s0 : Strategy
    s0 = set_executable_deadline s k p d ExecutableType.timer chain

    e0 : PriorityExecutable
    e0 = in_chain chain (deadline_executable k p d ExecutableType.timer deadline)

    at0 : get_priority_settings s0 k ≡ some e0
    at0 = ground (arith, get-set_executable_deadline s k p d chain k ExecutableType.timer)

    e1 : PriorityExecutable
    e1 = record e0 { is_first_in_chain = true }

    s1 : Strategy
    s1 = store k e1 s0

    at1 : get_priority_settings s1 k ≡ some e1
    at1 = ground (arith, get-store s0 k k e1)

    e2 : PriorityExecutable
    e2 = record e1 { deadlines = some q }

    s2 : Strategy
    s2 = store k e2 s1

    at2 : get_priority_settings s2 k ≡ some e2
    at2 = ground (arith, get-store s1 k k e2)

    e3 : PriorityExecutable
    e3 = record e2 { release_time = some r }

    s3 : Strategy
    s3 = store k e3 s2
