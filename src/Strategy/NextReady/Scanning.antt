-- ===== src/Strategy/NextReady/Scanning.antt =====
-- What the scan of get_next_subscription and its siblings takes and leaves.
use mathlib.Core.List.{append_assoc}
use deadline_driven_enhancem.Base.{
  ℕ, ◌≡◌, refl, ap, inl, inr, Bool, Option, none, some, List, [], ◌∷◌, ◌++◌, arith, if◌then◌else◌,
  All, Option-cases, ◌>>=◌,
}
use deadline_driven_enhancem.Strategy.NextReady.{Scan, scan, visit}

module _ (by_handle : ℕ → Option ℕ) (group_of : ℕ → Option ℕ) (can_be_taken_from : ℕ → Bool) where
  -- The entity and group of a handle that is alive, if the group may be taken from.
  abbrev pub servable : ℕ → Option (ℕ × ℕ)
  servable h = do x ← by_handle h; g ← group_of x; if can_be_taken_from g then some (x, g) else none

  abbrev if_busy : ℕ → List ℕ
  if_busy h = elim (by_handle h >>= group_of) [
    | none ↦ []
    | some g ↦ if can_be_taken_from g then [] else h ∷ []
  ]

  -- The handles that are alive and whose group is in use.
  abbrev pub busy : List ℕ → List ℕ
  busy [] = []
  busy (h ∷ hs) = if_busy h ++ busy hs

  -- Either no handle is servable, and those in use stay; or the first that is servable is taken, and
  -- of those before it the ones in use stay, of those behind it all.
  pub data Scanned (hs : List ℕ) : Scan → Type 0 where
    nothing : All (λ h. servable h ≡ none) hs → Scanned hs (none, busy hs)
    taken :
        (before : List ℕ) (h : ℕ) (after : List ℕ) (x g : ℕ)
        → hs ≡ before ++ (h ∷ after)
        → All (λ j. servable j ≡ none) before
        → servable h ≡ some (x, g)
        → Scanned hs (some (x, g), busy before ++ after)

  skipped :
      (h : ℕ) (hs : List ℕ) (r : Scan)
      → servable h ≡ none
      → Scanned hs r
      → Scanned (h ∷ hs) (r.0, if_busy h ++ r.1)
  skipped h hs r e (nothing none_before) = nothing (e, none_before)
  skipped h hs r e (taken before j after x g split none_before found) =
      rw (← append_assoc) (taken (h ∷ before) j after x g (ap (◌∷◌ h) split) (e, none_before) found)

  visit_skipped :
      (h : ℕ) (hs : List ℕ) (r : Scan)
      → servable h ≡ none
      → visit by_handle group_of can_be_taken_from h hs r ≡ (r.0, if_busy h ++ r.1)
  unfolding visit
  visit_skipped h hs r e = ground arith

  visit_taken :
      (h x g : ℕ) (hs : List ℕ) (r : Scan)
      → servable h ≡ some (x, g)
      → visit by_handle group_of can_be_taken_from h hs r ≡ (some (x, g), hs)
  unfolding visit
  visit_taken h x g hs r e = ground arith

  -- The scan takes the first handle that is alive and whose group may be taken from, drops those
  -- before it that are not alive or have no group, and keeps all others in their order; where there
  -- is no such handle, it takes nothing and keeps those whose group is in use.
  pub scan-Scanned : (hs : List ℕ) → Scanned hs (scan by_handle group_of can_be_taken_from hs)
  unfolding scan
  scan-Scanned [] = nothing tt
  scan-Scanned (h ∷ hs) =
      let r = scan by_handle group_of can_be_taken_from hs in
      elim (Option-cases (servable h)) [
        | inl e ↦ rw (visit_skipped h hs r e) (skipped h hs r e (scan-Scanned hs))
        | inr ((x, g), e) ↦ rw (visit_taken h x g hs r e) (taken [] h hs x g refl tt e)
      ]
