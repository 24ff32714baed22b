-- ===== src/Strategy/Handles/Polling.antt =====
-- remove_null_handles: which handles it keeps, and how it marks the executables.
use deadline_driven_enhancem.Base.{
  ℕ, ◌+◌, ◌≡◌, refl, ap, inl, inr, Bool, true, false, Option, none, some, List, [], ◌∷◌, ◌++◌,
  arith, ◌==◌, if◌then◌else◌, Option-cases, Bool-cases,
}
use deadline_driven_enhancem.Executable.{PriorityExecutable, dont_run, allow_run}
use deadline_driven_enhancem.Strategy.{
  Strategy, lookup, lookup_or_blank, modify, get_priority_settings,
}
use deadline_driven_enhancem.Strategy.Settings.{lookup-put}
use deadline_driven_enhancem.Strategy.Handles.{
  Ready, by_index, poll, erase_null, remove_null_handles,
}

-- The handles of a vector with their readiness.
abbrev pub readiness : (ℕ → ℕ → Bool) → ℕ → List ℕ → List (ℕ × Bool)
readiness ready i [] = []
readiness ready i (h ∷ hs) = (h, ready i h) ∷ readiness ready (i + 1) hs

abbrev pub kept : List (ℕ × Bool) → List ℕ
kept [] = []
kept ((h, true) ∷ hs) = h ∷ kept hs
kept ((h, false) ∷ hs) = kept hs

-- The readiness of a handle by its last occurrence.
abbrev pub last_readiness : ℕ → List (ℕ × Bool) → Option Bool
last_readiness k [] = none
last_readiness k ((j, b) ∷ ps) = elim (last_readiness k ps) [
  | some c ↦ some c
  | none ↦ if j == k then some b else none
]

-- All the handles that a wait set speaks of, in the order of the five loops.
abbrev pub polled : Strategy → Ready → List (ℕ × Bool)
polled s w =
    readiness (by_index w.subscriptions) 0 s.subscription_handles
    ++ (readiness (by_index w.services) 0 s.service_handles
        ++ (readiness (by_index w.clients) 0 s.client_handles
            ++ (readiness (by_index w.timers) 0 s.timer_handles
                ++ readiness (λ i h. w.waitable_is_ready h) 0 s.waitable_handles)))

mark : List (ℕ × Bool) → List (ℕ × PriorityExecutable) → List (ℕ × PriorityExecutable)
mark [] m = m
mark ((h, b) ∷ ps) m = mark ps (modify (if b then allow_run else dont_run) h m)

mark-append :
    (ps qs : List (ℕ × Bool)) (m : List (ℕ × PriorityExecutable))
    → mark (ps ++ qs) m ≡ mark qs (mark ps m)
unfolding mark
mark-append [] qs m = refl
mark-append ((h, b) ∷ ps) qs m = mark-append ps qs _

module _ (ready : ℕ → ℕ → Bool) where
  poll-mark :
      (i : ℕ) (hs : List ℕ) (m : List (ℕ × PriorityExecutable))
      → (poll ready i hs m).1 ≡ mark (readiness ready i hs) m
  unfolding poll mark
  poll-mark i [] m = refl
  poll-mark i (h ∷ hs) m = poll-mark (i + 1) hs _

  poll-kept :
      (i : ℕ) (hs : List ℕ) (m : List (ℕ × PriorityExecutable))
      → erase_null (poll ready i hs m).0 ≡ kept (readiness ready i hs)
  unfolding poll erase_null
  poll-kept i [] m = refl
  poll-kept i (h ∷ hs) m = elim (Bool-cases (ready i h)) [
    | inl e ↦ rw (e, poll) (ap (◌∷◌ h) (poll-kept (i + 1) hs _))
    | inr e ↦ rw (e, poll) (poll-kept (i + 1) hs _)
  ]

lookup-modify :
    (f : PriorityExecutable → PriorityExecutable) (k j : ℕ) (m : List (ℕ × PriorityExecutable))
    → lookup j (modify f k m) ≡ (if k == j then some (f (lookup_or_blank k m)) else lookup j m)
unfolding modify
lookup-modify f k j m = lookup-put k j _ m

lookup-mark_other :
    (k : ℕ) (ps : List (ℕ × Bool)) (m : List (ℕ × PriorityExecutable))
    → last_readiness k ps ≡ none
    → lookup k (mark ps m) ≡ lookup k m
unfolding mark
lookup-mark_other k [] m h = refl
lookup-mark_other k ((j, b) ∷ ps) m h =
    let step = modify (if b then allow_run else dont_run) j m in
    ground
      (arith, lookup-mark_other k ps step, lookup-modify (if b then allow_run else dont_run) j k m)

marked :
    (b : Bool) (e : PriorityExecutable) → ((if b then allow_run else dont_run) e).can_be_run ≡ b
unfolding dont_run allow_run
marked true e = ground arith
marked false e = refl

lookup-mark :
    (k : ℕ) (b : Bool) (ps : List (ℕ × Bool)) (m : List (ℕ × PriorityExecutable))
    → last_readiness k ps ≡ some b
    → (e : PriorityExecutable) × (lookup k (mark ps m) ≡ some e) × (e.can_be_run ≡ b)
unfolding mark
lookup-mark k b [] m h = cc
lookup-mark k b ((j, c) ∷ ps) m h = elim (Option-cases (last_readiness k ps)) [
  | inr (d, later) ↦ lookup-mark k b ps _ (ground arith)
  | inl last ↦
      let f = if c then allow_run else dont_run in
      (
        f (lookup_or_blank j m),
        ground (arith, lookup-mark_other k ps (modify f j m), lookup-modify f j k m),
        ground (arith, marked c (lookup_or_blank j m)),
      )
]

remove_null_handles-mark :
    (s : Strategy) (w : Ready)
    → (remove_null_handles s w).priority_map ≡ mark (polled s w) s.priority_map
unfolding remove_null_handles
remove_null_handles-mark s w = simp (poll-mark, mark-append)

-- After remove_null_handles an executable that the wait set speaks of can be run exactly if its
-- handle was ready (at its last occurrence), and all others are as they were.
pub remove_null_handles-can_be_run :
    (s : Strategy) (w : Ready) (k : ℕ)
    → ((b : Bool)
        → last_readiness k (polled s w) ≡ some b
        → (e : PriorityExecutable) × (get_priority_settings (remove_null_handles s w) k ≡ some e)
          × (e.can_be_run ≡ b))
      × (last_readiness k (polled s w) ≡ none
          → get_priority_settings (remove_null_handles s w) k ≡ get_priority_settings s k)
unfolding get_priority_settings
remove_null_handles-can_be_run s w k = (
  λ b h. rw (remove_null_handles-mark s w) (lookup-mark k b (polled s w) s.priority_map h),
  λ h. rw (remove_null_handles-mark s w) (lookup-mark_other k (polled s w) s.priority_map h),
)

-- remove_null_handles keeps of each vector the handles that are ready, in their order.
pub remove_null_handles-kept :
    (s : Strategy) (w : Ready)
    → let s' = remove_null_handles s w in
      (s'.subscription_handles
        ≡ kept (readiness (by_index w.subscriptions) 0 s.subscription_handles))
      × (s'.service_handles ≡ kept (readiness (by_index w.services) 0 s.service_handles))
      × (s'.client_handles ≡ kept (readiness (by_index w.clients) 0 s.client_handles))
      × (s'.timer_handles ≡ kept (readiness (by_index w.timers) 0 s.timer_handles))
      × (s'.waitable_handles ≡ kept (readiness (λ i h. w.waitable_is_ready h) 0 s.waitable_handles))
unfolding remove_null_handles
remove_null_handles-kept s w =
    (simp poll-kept, simp poll-kept, simp poll-kept, simp poll-kept, simp poll-kept)
