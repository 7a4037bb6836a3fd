-- ===== src/Orchestrator/Session/Manager.antt =====
-- The manager of the sessions (src/orchestrator/src/session.rs): the map of the sessions as a list with
-- one session for each id, the containers that it got from the pool, and those that it told podman to
-- destroy.
pub mod Cleanup
pub mod Invariant
use himmelblau.Common.{
  ℕ, ◌+◌, Bool, true, false, not, String, Option, none, some, List, [], ◌∷◌, ◌++◌, map, Result, ok,
  err, str_eq, if◌then◌else◌, codes, length, any, retain,
}
use himmelblau.Orchestrator.{ContainerInstance}
use himmelblau.Orchestrator.Session.{
  Session, SessionState, SessionRuntime, CollectedInput, Metadata, LogLevel, log, new, is_stale,
}

pub record SessionManager : Type 0 where
  pub sessions : List Session
  pub idle_timeout : ℕ
  pub terminal_retention : ℕ
  pub received : List ContainerInstance
  pub destroyed : List ContainerInstance

-- The arguments of `create_session`.
pub record Request : Type 0 where
  pub session_id : String
  pub provider : String
  pub owner_uid : ℕ
  pub username : Option String
  pub issuer_url : Option String
  pub dag_auth_url : Option String
  pub dag_user_code : Option String

pub data SessionError : Type 0 where
  already_exists : SessionError
  container_failed : SessionError

unfoldable pub has_id : String → Session → Bool
has_id id s = str_eq s.session_id id

unfoldable pub contains_key : String → List Session → Bool
unfolding has_id
contains_key id sessions = any (has_id id) sessions

unfoldable pub find : String → List Session → Option Session
unfolding has_id
find id [] = none
find id (s ∷ ss) = if has_id id s then some s else find id ss

unfoldable pub remove : String → List Session → List Session
unfolding has_id
remove id sessions = retain (λ s. not (has_id id s)) sessions

unfoldable pub get_session : String → SessionManager → Option Session
unfolding find
get_session id m = find id m.sessions

unfoldable pub active_count : SessionManager → ℕ
active_count m = length m.sessions

abbrev pub destroy : ContainerInstance → SessionManager → SessionManager
destroy c m = record m { destroyed = c ∷ m.destroyed }

abbrev input : String → Bool → Option String → List CollectedInput
input name sensitive none = []
input name sensitive (some v) = record { name = name; value = v; sensitive = sensitive } ∷ []

abbrev metadata : String → Option String → List Metadata
metadata name none = []
metadata name (some v) = record { name = name; value = v } ∷ []

-- The new session, with what the request gives.
unfoldable pub session_for : ℕ → Request → ContainerInstance → Session
session_for now r c =
    let s = new now r.session_id r.provider r.owner_uid c in
    record s {
      runtime = record s.runtime {
        collected_inputs =
            input "username" false r.username ++ input "dag_user_code" true r.dag_user_code;
        metadata =
            metadata "issuer_url" r.issuer_url
            ++ metadata "dag_auth_url" r.dag_auth_url
            ++ metadata "dag_user_code" r.dag_user_code;
      };
    }

abbrev pub created_message : ContainerInstance → List ℕ
created_message c = codes "Session created with container '" ++ codes c.name ++ codes "'"

-- The part of `create_session` after the pool gave a container.
unfoldable pub finish_create :
    ℕ
    → ℕ
    → Request
    → ContainerInstance
    → SessionManager
    → Result Session SessionError × SessionManager
unfolding contains_key session_for log
finish_create now epoch r c m =
    let got = record m { received = c ∷ m.received } in
    let s = log now epoch LogLevel.info (created_message c) (session_for now r c) in
    if contains_key r.session_id m.sessions
    then (err SessionError.already_exists, destroy c got)
    else (ok s, record got { sessions = s ∷ got.sessions })

-- `meanwhile` is what other tasks do to the manager while the pool finds a container.
unfoldable pub create_session :
    ℕ
    → ℕ
    → Request
    → Option ContainerInstance
    → (SessionManager → SessionManager)
    → SessionManager
    → Result Session SessionError × SessionManager
unfolding contains_key finish_create
create_session now epoch r acquired meanwhile m =
    if contains_key r.session_id m.sessions
    then (err SessionError.already_exists, m)
    else elim acquired [
      | some c ↦ finish_create now epoch r c (meanwhile m)
      | none ↦ (err SessionError.container_failed, meanwhile m)
    ]

-- A session that something is logged to, by its id.
unfoldable pub log_to : ℕ → ℕ → LogLevel → List ℕ → String → SessionManager → SessionManager
unfolding log has_id
log_to now epoch level message id m = record m {
  sessions = map (λ s. if has_id id s then log now epoch level message s else s) m.sessions;
}

abbrev cancelled : ℕ → String → Session → Session
cancelled now why s = record s {
  runtime = record s.runtime {
    state = SessionState.cancelled;
    detail = some why;
    last_activity = now;
    terminal_since = some now;
  };
}

-- The result, the session that was cancelled, and the manager. `accepts` says for which containers
-- podman destroys them without an error.
unfoldable pub cancel_session :
    ℕ
    → ℕ
    → (ContainerInstance → Bool)
    → String
    → SessionManager
    → Result Bool (Unit {0}) × Option Session × SessionManager
unfolding find remove log
cancel_session now epoch accepts id m = elim (find id m.sessions) [
  | some s ↦
      let last =
        log now epoch LogLevel.info (codes "Cancelling session")
          (cancelled now "Session cancelled by request" s) in
      (
        (if accepts s.container then ok true else err tt),
        some last,
        destroy s.container (record m { sessions = remove id m.sessions }),
      )
  | none ↦ (ok false, none, m)
]

abbrev pub stale_ids : ℕ → ℕ → ℕ → List Session → List String
stale_ids idle retention now [] = []
stale_ids idle retention now (s ∷ ss) =
    let rest = stale_ids idle retention now ss in
    if is_stale idle retention now s then s.session_id ∷ rest else rest

-- One session after the other is removed, and its container destroyed.
unfoldable pub clean : List String → SessionManager → ℕ × SessionManager
unfolding find remove
clean [] m = (0, m)
clean (id ∷ ids) m = elim (find id m.sessions) [
  | some s ↦
      let (n, m') =
        clean ids (destroy s.container (record m { sessions = remove id m.sessions })) in
      (n + 1, m')
  | none ↦ clean ids m
]

unfoldable pub cleanup_stale_sessions : ℕ → SessionManager → ℕ × SessionManager
unfolding clean is_stale
cleanup_stale_sessions now m =
    clean (stale_ids m.idle_timeout m.terminal_retention now m.sessions) m

abbrev pub destroy_all :
    (ContainerInstance → Bool) → List Session → SessionManager → ℕ × SessionManager
destroy_all accepts [] m = (0, m)
destroy_all accepts (s ∷ ss) m =
    let (n, m') = destroy_all accepts ss (destroy s.container m) in
    (if accepts s.container then n + 1 else n, m')

unfoldable pub shutdown_sessions : (ContainerInstance → Bool) → SessionManager → ℕ × SessionManager
shutdown_sessions accepts m = destroy_all accepts m.sessions (record m { sessions = [] })
