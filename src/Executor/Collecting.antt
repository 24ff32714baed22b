-- ===== src/Executor/Collecting.antt =====
-- collect_entities of priority_memory_strategy.hpp in a strategy that is set up: every handle that it
-- takes in has sound settings.
use mathlib.Core.Path.{subst}
use deadline_driven_enhancem.Base.{
  ℕ, ◌≡◌, ◌≢◌, refl, inl, inr, Bool, Option, none, some, List, [], ◌∷◌, ◌++◌, arith, ◌==◌, All,
  All-map, All-append, Bool-cases, Option-cases,
}
use deadline_driven_enhancem.Executable.{
  PriorityExecutable, ExecutableType, subscription, service, client, timer, waitable, executable,
  chain_independent_priority,
}
use deadline_driven_enhancem.Graph.{Node}
use deadline_driven_enhancem.Strategy.{
  Strategy, get_priority_settings, get_and_reset_priority, store,
}
use deadline_driven_enhancem.Strategy.Settings.{get-store, All-put}
use deadline_driven_enhancem.Strategy.Handles.{clear_handles}
use deadline_driven_enhancem.Strategy.Collect.{
  push, collect_subscription, collect_service, collect_client, collect_timer, collect_waitable,
  collect_entities,
}
use deadline_driven_enhancem.Strategy.Collect.Consistency.{
  collect_entities_inv, get_and_reset_priority-has,
}
use deadline_driven_enhancem.Selection.Accounting.{IsSound, IsMirrored, AllMirrored}
use deadline_driven_enhancem.Selection.Totality.{IsSetUp}

abbrev pub Known : Strategy → ℕ → Type 0
Known s k = get_priority_settings s k ≢ none

-- A strategy that is set up, and settings for every handle in its vectors.
pub record IsCollected (s : Strategy) : Type 0 where
  pub set_up : IsSetUp s
  pub subscriptions : All (Known s) s.subscription_handles
  pub services : All (Known s) s.service_handles
  pub clients : All (Known s) s.client_handles
  pub timers : All (Known s) s.timer_handles
  pub waitables : All (Known s) s.waitable_handles

executable-IsSound :
    (vector : ℕ → List ℕ) (h : ℕ) (t : ExecutableType)
    → IsSound vector h (executable h 0 t chain_independent_priority)
unfolding executable
executable-IsSound vector h t = record {
  own = refl;
  timed = λ dl. cc;
  within = λ dl. cc;
  queues = λ dl. cc;
  timer = λ dl _. cc;
}

executable-IsMirrored :
    (n : ℕ) (vector : ℕ → List ℕ) (h : ℕ) (t : ExecutableType)
    → IsMirrored n vector (executable h 0 t chain_independent_priority)
unfolding executable
executable-IsMirrored n vector h t = record { head = λ dl _ _. cc; copy = λ _ one. ground arith }

pub store-Known :
    (s : Strategy) (k j : ℕ) (e : PriorityExecutable) → Known s j → Known (store k e s) j
store-Known s k j e h gone = ground (arith, get-store s k j e, h)

-- Sound settings under a key keep a strategy set up.
pub store-IsSetUp :
    (s : Strategy) (k : ℕ) (e : PriorityExecutable)
    → IsSound s.memory.vector k e
    → ((n : ℕ) → AllMirrored n s.memory.vector s.priority_map → IsMirrored n s.memory.vector e)
    → IsSetUp s
    → IsSetUp (store k e s)
unfolding store
store-IsSetUp s k e sound mirrored v = record {
  shared = v.shared;
  mirrored = λ h.
      All-put (λ _. IsMirrored v.shared s.memory.vector) k e s.priority_map
        (mirrored v.shared (v.mirrored h)) (v.mirrored h);
  sound = sound_at;
  known = All-map _ s.all_executables (λ j. store-Known s k j e) v.known;
}
  where
    sound_at :
        (j : ℕ) (f : PriorityExecutable)
        → get_priority_settings (store k e s) j ≡ some f
        → IsSound s.memory.vector j f
    sound_at j f at = elim (Bool-cases (k == j)) [
      | inl hit ↦
          subst (λ i. IsSound s.memory.vector i f) (ground arith)
            (subst (IsSound s.memory.vector k) (ground (arith, get-store s k j e)) sound)
      | inr miss ↦ v.sound j f (ground (arith, get-store s k j e))
    ]

get_and_reset_priority-IsSetUp :
    (s : Strategy) (h : ℕ) (t : ExecutableType) → IsSetUp s → IsSetUp (get_and_reset_priority s h t)
unfolding get_and_reset_priority
get_and_reset_priority-IsSetUp s h t v = elim (Option-cases (get_priority_settings s h)) [
  | inl missing ↦
      rw (missing, get_and_reset_priority)
        (store-IsSetUp s h _ (executable-IsSound s.memory.vector h t)
          (λ n all. executable-IsMirrored n s.memory.vector h t) v)
  | inr (f, found) ↦ rw (found, get_and_reset_priority) v
]

get_and_reset_priority-IsCollected :
    (s : Strategy) (h : ℕ) (t : ExecutableType)
    → IsCollected s
    → IsCollected (get_and_reset_priority s h t)
unfolding get_and_reset_priority store
get_and_reset_priority-IsCollected s h t v = elim (Option-cases (get_priority_settings s h)) [
  | inl missing ↦
      let e = executable h 0 t chain_independent_priority in
      rw (missing, get_and_reset_priority)
        (record {
          set_up =
              store-IsSetUp s h e (executable-IsSound s.memory.vector h t)
                (λ n all. executable-IsMirrored n s.memory.vector h t) v.set_up;
          subscriptions =
              All-map _ s.subscription_handles (λ j. store-Known s h j e) v.subscriptions;
          services = All-map _ s.service_handles (λ j. store-Known s h j e) v.services;
          clients = All-map _ s.client_handles (λ j. store-Known s h j e) v.clients;
          timers = All-map _ s.timer_handles (λ j. store-Known s h j e) v.timers;
          waitables = All-map _ s.waitable_handles (λ j. store-Known s h j e) v.waitables;
        })
  | inr (f, found) ↦ rw (found, get_and_reset_priority) v
]

push-IsCollected :
    (s : Strategy) (h : ℕ) (t : ExecutableType) → IsCollected s → IsCollected (push s h t)
unfolding push get_priority_settings
push-IsCollected s h t v =
    let s' = get_and_reset_priority s h t in
    let w : IsCollected s' = get_and_reset_priority-IsCollected s h t v in
    record {
      set_up = record {
        shared = w.set_up.shared;
        mirrored = w.set_up.mirrored;
        sound = w.set_up.sound;
        known = (get_and_reset_priority-has s h t, w.set_up.known);
      };
      subscriptions = w.subscriptions;
      services = w.services;
      clients = w.clients;
      timers = w.timers;
      waitables = w.waitables;
    }

push-Known : (s : Strategy) (h : ℕ) (t : ExecutableType) → Known (push s h t) h
unfolding push get_priority_settings
push-Known s h t = get_and_reset_priority-has s h t

-- A handle with settings at the end of a vector.
module _ (s : Strategy) (h : ℕ) (v : IsCollected s) (known : Known s h) where
  subscription-IsCollected :
      IsCollected (record s { subscription_handles = s.subscription_handles ++ (h ∷ []) })
  unfolding get_priority_settings
  subscription-IsCollected = record {
    set_up = record {
      shared = v.set_up.shared;
      mirrored = v.set_up.mirrored;
      sound = v.set_up.sound;
      known = v.set_up.known;
    };
    subscriptions =
        All-append (Known s) s.subscription_handles (h ∷ []) v.subscriptions (known, tt);
    services = v.services;
    clients = v.clients;
    timers = v.timers;
    waitables = v.waitables;
  }

  service-IsCollected : IsCollected (record s { service_handles = s.service_handles ++ (h ∷ []) })
  unfolding get_priority_settings
  service-IsCollected = record {
    set_up = record {
      shared = v.set_up.shared;
      mirrored = v.set_up.mirrored;
      sound = v.set_up.sound;
      known = v.set_up.known;
    };
    subscriptions = v.subscriptions;
    services = All-append (Known s) s.service_handles (h ∷ []) v.services (known, tt);
    clients = v.clients;
    timers = v.timers;
    waitables = v.waitables;
  }

  client-IsCollected : IsCollected (record s { client_handles = s.client_handles ++ (h ∷ []) })
  unfolding get_priority_settings
  client-IsCollected = record {
    set_up = record {
      shared = v.set_up.shared;
      mirrored = v.set_up.mirrored;
      sound = v.set_up.sound;
      known = v.set_up.known;
    };
    subscriptions = v.subscriptions;
    services = v.services;
    clients = All-append (Known s) s.client_handles (h ∷ []) v.clients (known, tt);
    timers = v.timers;
    waitables = v.waitables;
  }

  timer-IsCollected : IsCollected (record s { timer_handles = s.timer_handles ++ (h ∷ []) })
  unfolding get_priority_settings
  timer-IsCollected = record {
    set_up = record {
      shared = v.set_up.shared;
      mirrored = v.set_up.mirrored;
      sound = v.set_up.sound;
      known = v.set_up.known;
    };
    subscriptions = v.subscriptions;
    services = v.services;
    clients = v.clients;
    timers = All-append (Known s) s.timer_handles (h ∷ []) v.timers (known, tt);
    waitables = v.waitables;
  }

  waitable-IsCollected :
      IsCollected (record s { waitable_handles = s.waitable_handles ++ (h ∷ []) })
  unfolding get_priority_settings
  waitable-IsCollected = record {
    set_up = record {
      shared = v.set_up.shared;
      mirrored = v.set_up.mirrored;
      sound = v.set_up.sound;
      known = v.set_up.known;
    };
    subscriptions = v.subscriptions;
    services = v.services;
    clients = v.clients;
    timers = v.timers;
    waitables = All-append (Known s) s.waitable_handles (h ∷ []) v.waitables (known, tt);
  }

collect_subscription-IsCollected :
    (s : Strategy) (h : ℕ) → IsCollected s → IsCollected (collect_subscription s h)
unfolding collect_subscription
collect_subscription-IsCollected s h v = elim (Option-cases (get_priority_settings s h)) [
  | inl missing ↦ rw (missing, collect_subscription) v
  | inr (f, found) ↦
      rw (found, collect_subscription)
        (push-IsCollected _ h subscription
          (subscription-IsCollected s h v (λ gone. cc (gone, found))))
]

collect_service-IsCollected :
    (s : Strategy) (h : ℕ) → IsCollected s → IsCollected (collect_service s h)
unfolding collect_service
collect_service-IsCollected s h v = elim (Option-cases (get_priority_settings s h)) [
  | inl missing ↦ rw (missing, collect_service) v
  | inr (f, found) ↦
      rw (found, collect_service)
        (service-IsCollected (push s h service) h (push-IsCollected s h service v)
          (push-Known s h service))
]

-- Without any handle.
clear_handles-IsCollected : (s : Strategy) → IsSetUp s → IsCollected (clear_handles s)
unfolding clear_handles get_priority_settings
clear_handles-IsCollected s v = record {
  set_up = record { shared = v.shared; mirrored = v.mirrored; sound = v.sound; known = tt };
  subscriptions = tt;
  services = tt;
  clients = tt;
  timers = tt;
  waitables = tt;
}

pub collect_entities-IsCollected :
    (take : ℕ → Bool) (s : Strategy) (nodes : List (Option Node))
    → IsSetUp s
    → IsCollected (collect_entities take (clear_handles s) nodes).0
unfolding collect_client collect_timer collect_waitable
collect_entities-IsCollected take s nodes v =
    collect_entities_inv IsCollected collect_subscription-IsCollected collect_service-IsCollected
      (λ s h w.
        client-IsCollected (push s h client) h (push-IsCollected s h client w)
          (push-Known s h client))
      (λ s h w.
        timer-IsCollected (push s h timer) h (push-IsCollected s h timer w) (push-Known s h timer))
      (λ s h w.
        waitable-IsCollected (push s h waitable) h (push-IsCollected s h waitable w)
          (push-Known s h waitable))
      take (clear_handles s) nodes (clear_handles-IsCollected s v)
