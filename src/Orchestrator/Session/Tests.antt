-- ===== src/Orchestrator/Session/Tests.antt =====
-- Runs of the manager of the sessions, and the theorems on them.
use himmelblau.Common.{
  ℕ, ◌≤◌, ◌≡◌, ◌⊎◌, refl, true, false, not, String, none, some, List, [], ◌∷◌, ◌++◌, retain,
  byte_len, codes, ok,
}
use himmelblau.Orchestrator.{ContainerInstance}
use himmelblau.Orchestrator.Session.{
  truncated_log_suffix, truncate_log_message, is_stale, owned_by, new,
}
use himmelblau.Orchestrator.Session.Log.{truncate_log_message_lem}
use himmelblau.Orchestrator.Session.Manager.{
  SessionManager, Request, finish_create, create_session, get_session, cancel_session, active_count,
  cleanup_stale_sessions, shutdown_sessions,
}
use himmelblau.Orchestrator.Session.Manager.Cleanup.{cleanup_stale_sessions_lem}
use himmelblau.Orchestrator.Session.Manager.Invariant.{
  Operation, create, operate_all, empty, Sound, operate_all-Sound,
}

abbrev box : String → ContainerInstance
box name = record { id = name; name = name }

abbrev asks : String → Request
asks id = record {
  session_id = id;
  provider = "entra";
  owner_uid = 1000;
  username = some "alice";
  issuer_url = none;
  dag_auth_url = none;
  dag_user_code = some "code";
}

abbrev two : List Operation
two = create 0 0 (asks "a") (box "c1") ∷ create 50 0 (asks "b") (box "c2") ∷ []

abbrev manager : SessionManager
manager = operate_all two (empty 60 10)

truncate_log_message_lem_example :
    ((byte_len (codes "hello") ≤ 512) × (truncate_log_message (codes "hello") ≡ codes "hello"))
    ⊎ ((kept : List ℕ) × (rest : List ℕ) × (codes "hello" ≡ kept ++ rest)
        × (truncate_log_message (codes "hello") ≡ kept ++ truncated_log_suffix)
        × (509 ≤ byte_len (truncate_log_message (codes "hello")))
        × (byte_len (truncate_log_message (codes "hello")) ≤ 512))
truncate_log_message_lem_example = truncate_log_message_lem (codes "hello")

operate_all-Sound_example : Sound (λ c. 1) (operate_all two (empty 60 10))
operate_all-Sound_example = operate_all-Sound (λ c. 1) 60 10 two

cleanup_stale_sessions_lem_example :
    (cleanup_stale_sessions 70 manager).1.sessions
    ≡ retain
        (λ s. not (is_stale manager.idle_timeout manager.terminal_retention 70 s))
        manager.sessions
cleanup_stale_sessions_lem_example =
    cleanup_stale_sessions_lem 70 manager (operate_all-Sound (λ c. 1) 60 10 two).1

one_left : active_count (cleanup_stale_sessions 70 manager).1 ≡ 1
unfolding active_count cleanup_stale_sessions finish_create
one_left = refl

-- The second session of a name is refused after the pool gave a container for it, which is destroyed.
raced :
    (create_session 0 0
      (asks "a")
      (some (box "c2"))
      (operate_all (create 0 0 (asks "a") (box "c1") ∷ []))
      (empty 60 10)).1.destroyed
    ≡ box "c2" ∷ []
unfolding create_session finish_create
raced = refl

cancelled_twice :
    (cancel_session 1 0 (λ c. true) "a" (cancel_session 1 0 (λ c. true) "a" manager).2).0 ≡ ok false
unfolding cancel_session finish_create
cancelled_twice = refl

found : get_session "c" manager ≡ none
unfolding get_session finish_create
found = refl

owner : owned_by 1000 (new 0 "a" "entra" 1000 (box "c1")) ≡ true
unfolding owned_by
owner = refl

stopped : (shutdown_sessions (λ c. false) manager).0 ≡ 0
unfolding shutdown_sessions finish_create
stopped = refl
