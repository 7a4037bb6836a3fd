-- ===== src/Orchestrator/Communication.antt =====
-- The commands that come over the orchestrator's socket (src/orchestrator/src/communication.rs), from
-- the check of the peer on. The flow engine runs a session: it gives its response and the session's new
-- runtime. A command runs as a whole here, but for the time in which the pool finds a container.
pub mod Others
pub mod Owner
mod Tests
use himmelblau.Common.{
  ℕ, Bool, true, false, String, Option, none, some, List, [], ◌∷◌, map, Result, ok, err, ◌==◌,
  if◌then◌else◌, not,
}
use himmelblau.Orchestrator.{ContainerInstance}
use himmelblau.Orchestrator.Session.{Session, SessionRuntime, owned_by}
use himmelblau.Orchestrator.Session.Manager.{
  SessionManager, Request, SessionError, has_id, find, get_session, create_session, cancel_session,
}
use himmelblau.Orchestrator.Command.{ProvidedInput, FlowCommand, FlowResponse, Invalid, validate}

pub data CommandError : Type 0 where
  invalid : Invalid → CommandError
  unknown_provider : String → CommandError
  create : SessionError → CommandError
  unknown_session : String → CommandError
  not_owned : String → ℕ → CommandError
  destroy_failed : CommandError
  flow : String → CommandError

-- The registry of the providers, the flow engine, the pool and podman, and the clocks; `meanwhile` is
-- what other tasks do to the manager while the pool finds a container.
pub record Server (W : Type 0) : Type 0 where
  pub detect_provider : Option String → Option String → Option String → String
  pub registered : String → Bool
  pub now : W → ℕ
  pub epoch : W → ℕ
  pub acquire_container : String → W → Option ContainerInstance × W
  pub meanwhile : SessionManager → SessionManager
  pub accepts : ContainerInstance → Bool
  pub start_session : Session → W → Result FlowResponse String × SessionRuntime × W
  pub continue_session :
      Session → List ProvidedInput → W → Result FlowResponse String × SessionRuntime × W

abbrev pub orchestrator_protocol_version : String
orchestrator_protocol_version = "0.1"

-- The session is shared: what the flow engine does to its runtime, the manager's session has too.
unfoldable pub set_runtime : String → SessionRuntime → SessionManager → SessionManager
unfolding has_id
set_runtime id runtime m = record m {
  sessions = map (λ s. if has_id id s then record s { runtime = runtime } else s) m.sessions;
}

abbrev pub status_response : Session → FlowResponse
status_response s =
    FlowResponse.session_status s.session_id s.provider s.runtime.state s.runtime.detail
      s.runtime.logs

module _ {W : Type 0} (server : Server W) (peer_uid : ℕ) where
  abbrev pub Answer : Type 0
  Answer = Result FlowResponse CommandError × SessionManager × W

  abbrev pub ran :
      String → SessionManager → Result FlowResponse String × SessionRuntime × W → Answer
  ran id m (ok response, runtime, w) = (ok response, set_runtime id runtime m, w)
  ran id m (err e, runtime, w) = (err (CommandError.flow e), set_runtime id runtime m, w)

  unfoldable pub created : Result Session SessionError × SessionManager → W → Answer
  unfolding set_runtime
  created (ok s, m) w = ran s.session_id m (server.start_session s w)
  created (err e, m) w = (err (CommandError.create e), m, w)

  unfoldable pub handle_start_session : Request → Option String → SessionManager → W → Answer
  unfolding created create_session
  handle_start_session r provider m w =
      let name = server.detect_provider provider r.username r.issuer_url in
      if server.registered name
      then (let (container, w') = server.acquire_container r.session_id w in
          created
            (create_session (server.now w') (server.epoch w') (record r { provider = name })
              container server.meanwhile m)
            w')
      else (err (CommandError.unknown_provider name), m, w)

  unfoldable pub continued :
      String → List ProvidedInput → Option Session → SessionManager → W → Answer
  unfolding owned_by set_runtime
  continued id provided_inputs (some s) m w =
      if owned_by peer_uid s
      then ran id m (server.continue_session s provided_inputs w)
      else (err (CommandError.not_owned id peer_uid), m, w)
  continued id provided_inputs none m w = (err (CommandError.unknown_session id), m, w)

  unfoldable pub handle_next_step : String → List ProvidedInput → SessionManager → W → Answer
  unfolding continued get_session
  handle_next_step id provided_inputs m w = continued id provided_inputs (get_session id m) m w

  abbrev pub cancel_answer : String → Result Bool (Unit {0}) → Result FlowResponse CommandError
  cancel_answer id (ok true) = ok (FlowResponse.ack id "session cancelled")
  cancel_answer id (ok false) = ok (FlowResponse.session_error id "session not found")
  cancel_answer id (err e) = err CommandError.destroy_failed

  unfoldable pub cancel : String → SessionManager → W → Answer
  unfolding cancel_session
  cancel id m w =
      let (r, last, m') = cancel_session (server.now w) (server.epoch w) server.accepts id m in
      (cancel_answer id r, m', w)

  unfoldable pub cancel_owned : String → Option Session → SessionManager → W → Answer
  unfolding owned_by cancel
  cancel_owned id (some s) m w =
      if owned_by peer_uid s
      then cancel id m w
      else (err (CommandError.not_owned id peer_uid), m, w)
  cancel_owned id none m w = cancel id m w

  unfoldable pub handle_cancel_session : String → SessionManager → W → Answer
  unfolding cancel_owned get_session
  handle_cancel_session id m w = cancel_owned id (get_session id m) m w

  unfoldable pub status_of : String → Option Session → SessionManager → W → Answer
  unfolding owned_by
  status_of id (some s) m w =
      if owned_by peer_uid s
      then (ok (status_response s), m, w)
      else (err (CommandError.not_owned id peer_uid), m, w)
  status_of id none m w = (ok (FlowResponse.session_error id "session not found"), m, w)

  unfoldable pub handle_get_status : String → SessionManager → W → Answer
  unfolding status_of get_session
  handle_get_status id m w = status_of id (get_session id m) m w

  unfoldable pub dispatch : FlowCommand → SessionManager → W → Answer
  unfolding handle_start_session handle_next_step handle_cancel_session handle_get_status
  dispatch (FlowCommand.start_session id provider username issuer_url dag_auth_url dag_user_code) m
        w =
      handle_start_session
        (record {
          session_id = id;
          provider = "";
          owner_uid = peer_uid;
          username = username;
          issuer_url = issuer_url;
          dag_auth_url = dag_auth_url;
          dag_user_code = dag_user_code;
        })
        provider m w
  dispatch (FlowCommand.next_step id provided_inputs) m w = handle_next_step id provided_inputs m w
  dispatch (FlowCommand.cancel_session id) m w = handle_cancel_session id m w
  dispatch (FlowCommand.get_session_status id) m w = handle_get_status id m w
  dispatch FlowCommand.ping m w = (ok (FlowResponse.pong orchestrator_protocol_version), m, w)

  abbrev pub checked : FlowCommand → Result (Unit {0}) Invalid → SessionManager → W → Answer
  checked command (ok u) m w = dispatch command m w
  checked command (err e) m w = (err (CommandError.invalid e), m, w)

  unfoldable pub process_command : FlowCommand → SessionManager → W → Answer
  unfolding dispatch validate
  process_command command m w = checked command (validate command) m w

  -- `handle_client`, with the command that it read.
  unfoldable pub handle_client :
      ℕ
      → FlowCommand
      → SessionManager
      → W
      → Option (Result FlowResponse CommandError) × SessionManager × W
  unfolding process_command
  handle_client authorized_uid command m w =
      if peer_uid == authorized_uid
      then (let (r, m', w') = process_command command m w in (some r, m', w'))
      else (none, m, w)
