-- ===== src/Strategy/Handles/WaitSet.antt =====
-- add_handles_to_wait_set, and what it and the sizes given to rcl_wait_set_resize agree on.
use mathlib.Core.Path.{fun_ext}
use mathlib.Core.List.{append_assoc, append-nil}
use deadline_driven_enhancem.Base.{
  ℕ, ◌≡◌, refl, ◌∙◌, Bool, true, false, List, [], ◌∷◌, ◌++◌, arith, if◌then◌else◌, Bool-cases, inl,
  inr,
}
use deadline_driven_enhancem.Strategy.{Strategy}

pub data Kind : Type 0 where
  subscription client service timer guard_condition waitable : Kind

-- The entries of an rcl wait set, the first added first. `accepts` says for which entries rcl (or
-- Waitable::add_to_wait_set) reports success.
abbrev pub WaitSet : Type 0
WaitSet = List (Kind × ℕ)

module _ (accepts : Kind × ℕ → Bool) where
  -- One loop; it stops at the first entry that is refused.
  unfoldable pub add_all : Kind → List ℕ → WaitSet → WaitSet × Bool
  add_all kind [] w = (w, true)
  add_all kind (h ∷ hs) w =
      let rest = add_all kind hs (w ++ ((kind, h) ∷ [])) in
      if accepts (kind, h) then rest else (w, false)

  and_then : WaitSet × Bool → (WaitSet → WaitSet × Bool) → WaitSet × Bool
  and_then (w, true) k = k w
  and_then (w, false) k = (w, false)

  unfoldable pub add_handles_to_wait_set : Strategy → WaitSet → WaitSet × Bool
  unfolding add_all and_then
  add_handles_to_wait_set s w0 = and_then (add_all subscription s.subscription_handles w0) λ w1.
      and_then (add_all client s.client_handles w1) λ w2.
        and_then (add_all service s.service_handles w2) λ w3.
          and_then (add_all timer s.timer_handles w3) λ w4.
            and_then (add_all guard_condition s.guard_conditions w4)
              λ w5. add_all waitable s.waitable_handles w5

-- The entries that a strategy has for the wait set, in order.
abbrev pub tagged : Kind → List ℕ → List (Kind × ℕ)
tagged kind [] = []
tagged kind (h ∷ hs) = (kind, h) ∷ tagged kind hs

abbrev pub entries : Strategy → List (Kind × ℕ)
entries s =
    tagged subscription s.subscription_handles
    ++ (tagged client s.client_handles
        ++ (tagged service s.service_handles
            ++ (tagged timer s.timer_handles
                ++ (tagged guard_condition s.guard_conditions
                    ++ tagged waitable s.waitable_handles))))

-- The entries up to the first that is refused, and whether none is.
abbrev pub accepted : (Kind × ℕ → Bool) → List (Kind × ℕ) → List (Kind × ℕ) × Bool
accepted accepts [] = ([], true)
accepted accepts (e ∷ es) =
    let rest = accepted accepts es in if accepts e then (e ∷ rest.0, rest.1) else ([], false)

module _ (accepts : Kind × ℕ → Bool) where
  run : List (Kind × ℕ) → WaitSet → WaitSet × Bool
  run [] w = (w, true)
  run (e ∷ es) w = let rest = run es (w ++ (e ∷ [])) in if accepts e then rest else (w, false)

  add_all-run :
      (kind : Kind) (hs : List ℕ) (w : WaitSet) → add_all accepts kind hs w ≡ run (tagged kind hs) w
  unfolding add_all run
  add_all-run kind [] w = refl
  add_all-run kind (h ∷ hs) w = ground (arith, add_all-run kind hs (w ++ ((kind, h) ∷ [])))

  and_then-run :
      (es fs : List (Kind × ℕ)) (w : WaitSet)
      → and_then accepts (run es w) (run fs) ≡ run (es ++ fs) w
  unfolding run and_then
  and_then-run [] fs w = refl
  and_then-run (e ∷ es) fs w = elim (Bool-cases (accepts e)) [
    | inl h ↦ rw (h, run) (and_then-run es fs (w ++ (e ∷ [])))
    | inr h ↦ rw (h, run)
  ]

  add_first :
      (kind : Kind) (hs : List ℕ) (es : List (Kind × ℕ)) {k : WaitSet → WaitSet × Bool}
      → ((v : WaitSet) → k v ≡ run es v)
      → (w : WaitSet)
      → and_then accepts (add_all accepts kind hs w) k ≡ run (tagged kind hs ++ es) w
  add_first kind hs es h w =
      rw (add_all-run kind hs w, fun_ext h) (and_then-run (tagged kind hs) es w)

  run-accepted :
      (es : List (Kind × ℕ)) (w : WaitSet)
      → run es w ≡ (w ++ (accepted accepts es).0, (accepted accepts es).1)
  unfolding run
  run-accepted [] w = simp append-nil
  run-accepted (e ∷ es) w = elim (Bool-cases (accepts e)) [
    | inl h ↦ rw (h, run, run-accepted es (w ++ (e ∷ [])), append_assoc)
    | inr h ↦ rw (h, run, append-nil)
  ]

  -- add_handles_to_wait_set adds the subscriptions, clients, services, timers, guard conditions and
  -- waitables in this order up to the first that is refused, and reports whether none was.
  pub add_handles_to_wait_set-accepted :
      (s : Strategy) (w : WaitSet)
      → add_handles_to_wait_set accepts s w
        ≡ (w ++ (accepted accepts (entries s)).0, (accepted accepts (entries s)).1)
  unfolding add_handles_to_wait_set
  add_handles_to_wait_set-accepted s w =
      add_first subscription s.subscription_handles _
        (add_first client s.client_handles _ (
          add_first service s.service_handles _ (
            add_first timer s.timer_handles _ (
              add_first guard_condition s.guard_conditions _
                (add_all-run waitable s.waitable_handles)))))
        w
      ∙ run-accepted (entries s) w
