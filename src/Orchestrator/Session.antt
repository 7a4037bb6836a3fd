-- ===== src/Orchestrator/Session.antt =====
-- The sessions of the orchestrator and their manager (src/orchestrator/src/session.rs). Within one
-- operation the clock is read once: `now` for `Instant`, `epoch` for the time of a log entry.
pub mod Log
pub mod Manager
mod Tests
use himmelblau.Common.{
  ℕ, ◌+◌, ◌-◌, Bool, true, false, ◌||◌, String, Option, none, some, List, [], ◌∷◌, ◌++◌, ltb, leb,
  ◌==◌, if◌then◌else◌, codes, utf8_len, byte_len, length,
}
use himmelblau.Orchestrator.{ContainerInstance}

pub data SessionState : Type 0 where
  in_progress : SessionState
  waiting_for_input : SessionState
  completed : SessionState
  failed : SessionState
  cancelled : SessionState

pub data LogLevel : Type 0 where
  debug : LogLevel
  info : LogLevel
  warn : LogLevel
  error : LogLevel

-- A message is the list of its characters.
pub record SessionLogEntry : Type 0 where
  pub timestamp_epoch_s : ℕ
  pub level : LogLevel
  pub message : List ℕ

pub record CollectedInput : Type 0 where
  pub name : String
  pub value : String
  pub sensitive : Bool

pub record Metadata : Type 0 where
  pub name : String
  pub value : String

-- The tokens and the definition of the provider, which these operations only hold, are left out.
pub record SessionRuntime : Type 0 where
  pub state : SessionState
  pub current_step_index : ℕ
  pub last_activity : ℕ
  pub terminal_since : Option ℕ
  pub detail : Option String
  pub collected_inputs : List CollectedInput
  pub metadata : List Metadata
  pub logs : List SessionLogEntry

pub record Session : Type 0 where
  pub session_id : String
  pub provider : String
  pub owner_uid : ℕ
  pub container : ContainerInstance
  pub runtime : SessionRuntime

abbrev pub max_session_log_entries : ℕ
max_session_log_entries = 64

abbrev pub max_session_log_message_bytes : ℕ
max_session_log_message_bytes = 512

abbrev pub truncated_log_suffix : List ℕ
truncated_log_suffix = codes "...<truncated>"

-- The loop of `truncate_log_message`: `n` bytes are in the buffer.
unfoldable pub push_chars : ℕ → List ℕ → List ℕ
push_chars n [] = []
push_chars n (c ∷ cs) =
    let rest = push_chars (n + utf8_len c) cs in
    if ltb max_session_log_message_bytes (n + utf8_len c + byte_len truncated_log_suffix)
    then []
    else c ∷ rest

unfoldable pub truncate_log_message : List ℕ → List ℕ
unfolding push_chars
truncate_log_message message =
    if leb (byte_len message) max_session_log_message_bytes
    then message
    else push_chars 0 message ++ truncated_log_suffix

abbrev remove_first : List SessionLogEntry → List SessionLogEntry
remove_first [] = []
remove_first (e ∷ es) = es

unfoldable pub push_log : SessionLogEntry → List SessionLogEntry → List SessionLogEntry
push_log e logs =
    (if length logs == max_session_log_entries then remove_first logs else logs) ++ (e ∷ [])

unfoldable pub log : ℕ → ℕ → LogLevel → List ℕ → Session → Session
unfolding truncate_log_message push_log
log now epoch level message s =
    let entry : SessionLogEntry = record {
      timestamp_epoch_s = epoch;
      level = level;
      message = truncate_log_message message;
    } in
    record s {
      runtime = record s.runtime { last_activity = now; logs = push_log entry s.runtime.logs };
    }

-- `Session::new`, with the default runtime.
abbrev pub new : ℕ → String → String → ℕ → ContainerInstance → Session
new now session_id provider owner_uid container = record {
  session_id = session_id;
  provider = provider;
  owner_uid = owner_uid;
  container = container;
  runtime = record {
    state = SessionState.in_progress;
    current_step_index = 0;
    last_activity = now;
    terminal_since = none;
    detail = none;
    collected_inputs = [];
    metadata = [];
    logs = [];
  };
}

unfoldable pub owned_by : ℕ → Session → Bool
owned_by uid s = s.owner_uid == uid

abbrev retained : ℕ → ℕ → Option ℕ → Bool
retained terminal_retention now none = false
retained terminal_retention now (some since) = leb terminal_retention (now - since)

-- `duration_since` is zero for a later instant.
unfoldable pub is_stale : ℕ → ℕ → ℕ → Session → Bool
is_stale idle_timeout terminal_retention now s =
    leb idle_timeout (now - s.runtime.last_activity)
    || retained terminal_retention now s.runtime.terminal_since
