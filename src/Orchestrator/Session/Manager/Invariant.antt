-- ===== src/Orchestrator/Session/Manager/Invariant.antt =====
-- What holds of the manager of the sessions after any sequence of its operations
-- (src/orchestrator/src/session.rs).
use himmelblau.Common.{
  ℕ, ◌+◌, ◌≡◌, refl, sym, subst, Bool, false, String, some, List, [], ◌∷◌, map, arith, eq_iff,
  if◌then◌else◌, any-none, retain, sum_by, All, All-retain, Bool-cases, inl, inr, Option-cases,
}
use himmelblau.Orchestrator.{ContainerInstance}
use himmelblau.Orchestrator.Session.{Session, LogLevel, log}
use himmelblau.Orchestrator.Session.Log.{Bounded, log-Bounded}
use himmelblau.Orchestrator.Session.Manager.{
  SessionManager, Request, has_id, contains_key, find, remove, session_for, finish_create, log_to,
  cancel_session, clean, cleanup_stale_sessions, destroy_all, shutdown_sessions, created_message,
}

-- One session for each id.
abbrev pub Distinct : List Session → Type 0
Distinct [] = Unit
Distinct (s ∷ ss) = All (λ d. has_id s.session_id d ≡ false) ss × Distinct ss

retain-Distinct : (p : Session → Bool) (ss : List Session) → Distinct ss → Distinct (retain p ss)
retain-Distinct p [] d = tt
retain-Distinct p (s ∷ ss) d =
    ground
      (arith, All-retain (λ x. has_id s.session_id x ≡ false) p ss d.0, retain-Distinct p ss d.1)

module _ (g : ContainerInstance → ℕ) where
  abbrev weight : Session → ℕ
  weight s = g s.container

  -- The logs are within their bounds, there is one session for each id, and each container that the
  -- pool gave is a session's or was given to podman to be destroyed.
  abbrev pub Sound : SessionManager → Type 0
  Sound m =
      All Bounded m.sessions
      × Distinct m.sessions
      × (sum_by g m.received ≡ sum_by weight m.sessions + sum_by g m.destroyed)

  remove-none :
      (id : String) (ss : List Session)
      → All (λ d. has_id id d ≡ false) ss
      → sum_by weight (remove id ss) ≡ sum_by weight ss
  unfolding remove
  remove-none id [] h = refl
  remove-none id (s ∷ ss) h = ground (arith, remove-none id ss h.1)

  sum_by-remove :
      (id : String) (s : Session) (ss : List Session)
      → Distinct ss
      → find id ss ≡ some s
      → sum_by weight ss ≡ g s.container + sum_by weight (remove id ss)
  unfolding find remove has_id
  sum_by-remove id s [] d e = cc
  sum_by-remove id s (x ∷ ss) d e = elim (Bool-cases (has_id id x)) [
    | inl hit ↦
        let same : x.session_id ≡ id = (eq_iff x.session_id id).0 hit in
        let rest = remove-none id ss (subst (λ i. All (λ y. has_id i y ≡ false) ss) same d.0) in
        ground arith
    | inr miss ↦ ground (arith, sum_by-remove id s ss d.1)
  ]

  removed-Sound :
      (id : String) (s : Session) (m : SessionManager)
      → find id m.sessions ≡ some s
      → Sound m
      → Sound (record m { sessions = remove id m.sessions; destroyed = s.container ∷ m.destroyed })
  unfolding remove
  removed-Sound id s m e h = (
    All-retain Bounded _ m.sessions h.0,
    retain-Distinct _ m.sessions h.1,
    omega (arith, sum_by-remove id s m.sessions h.1 e, h.2),
  )

  clean-Sound : (ids : List String) (m : SessionManager) → Sound m → Sound (clean ids m).1
  unfolding clean
  clean-Sound [] m h = h
  clean-Sound (id ∷ ids) m h = elim (Option-cases (find id m.sessions)) [
    | inl missing ↦ ground (arith, clean-Sound ids m h)
    | inr (s, e) ↦
        let m' = record m {
          sessions = remove id m.sessions;
          destroyed = s.container ∷ m.destroyed;
        } in
        ground (arith, clean-Sound ids m' (removed-Sound id s m e h))
  ]

  destroy_all-Sound :
      (accepts : ContainerInstance → Bool) (ss : List Session) (m : SessionManager)
      → m.sessions ≡ []
      → sum_by g m.received ≡ sum_by weight ss + sum_by g m.destroyed
      → Sound (destroy_all accepts ss m).1
  destroy_all-Sound accepts [] m e h = ground arith
  destroy_all-Sound accepts (s ∷ ss) m e h =
      destroy_all-Sound accepts ss (record m { destroyed = s.container ∷ m.destroyed }) e
        (omega (arith, h))

  finish_create-Sound :
      (now epoch : ℕ) (r : Request) (c : ContainerInstance) (m : SessionManager)
      → Sound m
      → Sound (finish_create now epoch r c m).1
  unfolding finish_create contains_key session_for log
  finish_create-Sound now epoch r c m h = ground (
    arith,
    log-Bounded now epoch LogLevel.info (created_message c) (session_for now r c) (omega arith, tt),
    any-none (has_id r.session_id) m.sessions,
  )

  module _ (now epoch : ℕ) (level : LogLevel) (message : List ℕ) (id : String) where
    abbrev logged : Session → Session
    logged s = if has_id id s then log now epoch level message s else s

    logged-All : (ss : List Session) → All Bounded ss → All Bounded (map logged ss)
    logged-All [] h = tt
    logged-All (s ∷ ss) h =
        ground (arith, logged-All ss h.1, log-Bounded now epoch level message s h.0)

    logged-ids :
        (other : String) (ss : List Session)
        → All (λ d. has_id other d ≡ false) ss
        → All (λ d. has_id other d ≡ false) (map logged ss)
    unfolding log has_id
    logged-ids other [] h = tt
    logged-ids other (s ∷ ss) h = (
      elim (Bool-cases (has_id id s)) [ inl e ↦ ground arith | inr e ↦ ground arith ],
      logged-ids other ss h.1,
    )

    same_id : (s : Session) → (logged s).session_id ≡ s.session_id
    unfolding log
    same_id s = ground (arith, Bool-cases (has_id id s))

    logged-Distinct : (ss : List Session) → Distinct ss → Distinct (map logged ss)
    logged-Distinct [] d = tt
    logged-Distinct (s ∷ ss) d = (
      subst (λ i. All (λ x. has_id i x ≡ false) (map logged ss)) (sym (same_id s))
          (logged-ids s.session_id ss d.0),
      logged-Distinct ss d.1,
    )

    logged-sum : (ss : List Session) → sum_by weight (map logged ss) ≡ sum_by weight ss
    unfolding log
    logged-sum [] = refl
    logged-sum (s ∷ ss) = ground (arith, logged-sum ss)

    log_to-Sound : (m : SessionManager) → Sound m → Sound (log_to now epoch level message id m)
    unfolding log_to
    log_to-Sound m h = (
      logged-All m.sessions h.0,
      logged-Distinct m.sessions h.1,
      omega (arith, logged-sum m.sessions, h.2),
    )

-- What tasks do to the manager, one operation at a time. A `create_session` is two of them: its check
-- changes nothing, and what it does with a container is `create`.
pub data Operation : Type 0 where
  create : ℕ → ℕ → Request → ContainerInstance → Operation
  log_message : ℕ → ℕ → LogLevel → List ℕ → String → Operation
  cancel : ℕ → ℕ → (ContainerInstance → Bool) → String → Operation
  cleanup : ℕ → Operation
  shutdown : (ContainerInstance → Bool) → Operation

abbrev pub operate : Operation → SessionManager → SessionManager
operate (create now epoch r c) m = (finish_create now epoch r c m).1
operate (log_message now epoch level message id) m = log_to now epoch level message id m
operate (cancel now epoch accepts id) m = (cancel_session now epoch accepts id m).2
operate (cleanup now) m = (cleanup_stale_sessions now m).1
operate (shutdown accepts) m = (shutdown_sessions accepts m).1

abbrev pub operate_all : List Operation → SessionManager → SessionManager
operate_all [] m = m
operate_all (o ∷ os) m = operate_all os (operate o m)

-- `SessionManager::new`
abbrev pub empty : ℕ → ℕ → SessionManager
empty idle_timeout terminal_retention = record {
  sessions = [];
  idle_timeout = idle_timeout;
  terminal_retention = terminal_retention;
  received = [];
  destroyed = [];
}

module _ (g : ContainerInstance → ℕ) where
  cancel_session-Sound :
      (now epoch : ℕ) (accepts : ContainerInstance → Bool) (id : String) (m : SessionManager)
      → Sound g m
      → Sound g (cancel_session now epoch accepts id m).2
  unfolding cancel_session
  cancel_session-Sound now epoch accepts id m h = elim (Option-cases (find id m.sessions)) [
    | inl e ↦ ground arith
    | inr (s, e) ↦ ground (arith, removed-Sound g id s m e h)
  ]

  operate-Sound : (o : Operation) (m : SessionManager) → Sound g m → Sound g (operate o m)
  unfolding cleanup_stale_sessions shutdown_sessions
  operate-Sound (create now epoch r c) m h = finish_create-Sound g now epoch r c m h
  operate-Sound (log_message now epoch level message id) m h =
      log_to-Sound g now epoch level message id m h
  operate-Sound (cancel now epoch accepts id) m h = cancel_session-Sound now epoch accepts id m h
  operate-Sound (cleanup now) m h = clean-Sound g _ m h
  operate-Sound (shutdown accepts) m h =
      destroy_all-Sound g accepts m.sessions (record m { sessions = [] }) refl h.2

  operate_all-keeps :
      (os : List Operation) (m : SessionManager) → Sound g m → Sound g (operate_all os m)
  operate_all-keeps [] m h = h
  operate_all-keeps (o ∷ os) m h = operate_all-keeps os (operate o m) (operate-Sound o m h)

-- Whatever operations tasks run, in whatever order: each session logs no more than 64 entries of no
-- more than 512 bytes, no two sessions have the same id, and each container that the pool gave is that
-- of one session, or was given to podman to be destroyed.
pub operate_all-Sound :
    (g : ContainerInstance → ℕ) (idle_timeout terminal_retention : ℕ) (os : List Operation)
    → Sound g (operate_all os (empty idle_timeout terminal_retention))
operate_all-Sound g idle_timeout terminal_retention os = operate_all-keeps g os _ (tt, tt, refl)
