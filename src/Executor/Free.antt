-- ===== src/Executor/Free.antt =====
-- The callback groups of what the choices of the memory strategy give to get_next_ready_executable of
-- priority_executor.cpp.
use mathlib.Core.Path.{subst}
use deadline_driven_enhancem.Base.{
  ℕ, ◌≡◌, refl, ap, sym, ◌∙◌, inl, inr, Bool, true, Option, none, some, List, [], ◌∷◌, arith, ◌>>=◌,
  Bool-cases, Option-cases, some_eq, >>=-eq-some,
}
use deadline_driven_enhancem.Graph.{Graph, AnyExecutable}
use deadline_driven_enhancem.Executable.{
  PriorityExecutable, ExecutableType, subscription, service, client, timer, waitable,
}
use deadline_driven_enhancem.Strategy.{Strategy, get_priority_settings}
use deadline_driven_enhancem.Strategy.NextReady.{Scan, scan}
use deadline_driven_enhancem.Strategy.NextReady.Scanning.{scan-Scanned, Scanned, nothing, taken}
use deadline_driven_enhancem.Selection.{Offer, skip, offer, offer_entity, dispatch, account, select}
use deadline_driven_enhancem.Selection.Choice.{refuses-cases, select-refused, select-offered}

-- The group of an AnyExecutable, if any, may be taken from.
abbrev pub IsFree : (ℕ → Bool) → AnyExecutable → Type 0
IsFree flags any = (group : ℕ) → any.callback_group ≡ some group → flags group ≡ true

module _ (g : Graph) (any : AnyExecutable) where
  data IsFreeOffer : Offer → Type 0 where
    passed : IsFreeOffer skip
    free_offer : {any' : AnyExecutable} → IsFree g.can_be_taken_from any' → IsFreeOffer (offer any')

  offered-IsFree :
      (any' : AnyExecutable) → IsFreeOffer (offer any') → IsFree g.can_be_taken_from any'
  offered-IsFree any' (free_offer f) = f

  module _ (free : IsFree g.can_be_taken_from any) where
    offer_entity-free :
        (group_of : ℕ → Option ℕ) (set : ℕ → AnyExecutable → AnyExecutable) (found : Option ℕ)
        → IsFreeOffer (offer_entity g group_of set any found)
    unfolding offer_entity
    offer_entity-free group_of set none = free_offer free
    offer_entity-free group_of set (some x) = elim (Option-cases (group_of x)) [
      | inl h ↦ rw (h, offer_entity) passed
      | inr (group, h) ↦ elim (Bool-cases (g.can_be_taken_from group)) [
        | inl f ↦
            rw (h, f, offer_entity)
              (free_offer (λ j at. subst (λ i. g.can_be_taken_from i ≡ true) (some_eq at) f))
        | inr f ↦ rw (h, f, offer_entity) passed
      ]
    ]

    dispatch-free : (e : PriorityExecutable) → IsFreeOffer (dispatch g e any)
    unfolding dispatch
    dispatch-free e = by_type e.type refl
      where
        by_type : (t : ExecutableType) → e.type ≡ t → IsFreeOffer (dispatch g e any)
        by_type subscription h =
            rw (h, dispatch)
              (offer_entity-free g.group_by_subscription (λ x a. record a { subscription = some x })
                (e.handle >>= g.subscription_by_handle))
        by_type service h =
            rw (h, dispatch)
              (offer_entity-free g.group_by_service (λ x a. record a { service = some x })
                (e.handle >>= g.service_by_handle))
        by_type client h =
            rw (h, dispatch)
              (offer_entity-free g.group_by_client (λ x a. record a { client = some x })
                (e.handle >>= g.client_by_handle))
        by_type timer h =
            rw (h, dispatch)
              (offer_entity-free g.group_by_timer (λ x a. record a { timer = some x })
                (e.handle >>= g.timer_by_handle))
        by_type waitable h =
            rw (h, dispatch)
              (offer_entity-free g.group_by_waitable (λ x a. record a { waitable = some x })
                e.waitable)

    -- The loop of the memory strategy.
    abbrev pub IsFreeResult : Option (Strategy × AnyExecutable) → Type 0
    IsFreeResult r =
        (s' : Strategy) (any' : AnyExecutable)
        → r ≡ some (s', any')
        → IsFree g.can_be_taken_from any'

    pub select-free :
        (millis : ℕ) (s : Strategy) (ks : List ℕ) → IsFreeResult (select g millis s any ks)
    unfolding select
    select-free millis s [] s' any' h =
        subst (IsFree g.can_be_taken_from) (ap (λ p. p.1) (some_eq h)) free
    select-free millis s (k ∷ ks) s' any' h =
        let (e, found, _) = >>=-eq-some (get_priority_settings s k) _ h in
        elim (refuses-cases g millis s any e) [
          | inl r ↦
              select-free millis s ks s' any'
                (sym (select-refused g millis s any k ks e found r) ∙ h)
          | inr (any'', run, offered) ↦
              let (t, _, done) =
                >>=-eq-some (account millis (record s { all_executables = ks }) k e) _
                  (sym (select-offered g millis s any k ks e any'' found run offered) ∙ h) in
              subst (IsFree g.can_be_taken_from) (ap (λ p. p.1) (some_eq done))
                (offered-IsFree any'' (subst IsFreeOffer offered (dispatch-free e)))
        ]

-- The scans of the executor that does not use priorities.
module _ (by_handle : ℕ → Option ℕ) (group_of : ℕ → Option ℕ) (flags : ℕ → Bool) where
  Scanned-free :
      (hs : List ℕ) (r : Scan)
      → Scanned by_handle group_of flags hs r
      → (x group : ℕ) → r.0 ≡ some (x, group)
      → flags group ≡ true
  Scanned-free hs r (nothing _) x group h = cc
  Scanned-free hs r (taken _ j _ y other _ _ found) x group h = ground (arith, found)

  pub chosen-IsFree :
      (hs : List ℕ) (make : ℕ → ℕ → AnyExecutable) (any : AnyExecutable)
      → ((x group : ℕ) → (make x group).callback_group ≡ some group)
      → IsFree flags any
      → IsFree flags (elim (scan by_handle group_of flags hs).0 [
        | none ↦ any
        | some (x, group) ↦ make x group
      ])
  chosen-IsFree hs make any at free =
      by_scan (scan by_handle group_of flags hs).0
        (Scanned-free hs _ (scan-Scanned by_handle group_of flags hs))
    where
      by_scan :
          (taken : Option (ℕ × ℕ))
          → ((x group : ℕ) → taken ≡ some (x, group) → flags group ≡ true)
          → IsFree flags (elim taken [ none ↦ any | some (x, group) ↦ make x group ])
      by_scan none f = free
      by_scan (some (x, group)) f =
          λ j h. subst (λ i. flags i ≡ true) (some_eq (sym (at x group) ∙ h)) (f x group refl)
