-- ===== src/Oidc.antt =====
-- The OpenID Connect provider as a client of the orchestrator, and its device flow
-- (src/common/src/idprovider/openidconnect.rs): the messages, what it keeps of a flow, and what it asks
-- of its surroundings. `D` is the type of a device authorization, `T` that of a token.
pub mod Codec
pub mod Inputs
pub mod Validate
pub mod Flow
pub mod Start
use himmelblau.Common.{ℕ, Bool, String, Option, List, Result}
use himmelblau.Idp.{IdpError, UserToken}

pub data OrchestratorInputType : Type 0 where
  text : OrchestratorInputType
  password : OrchestratorInputType
  otp : OrchestratorInputType
  confirmation : OrchestratorInputType

pub record OrchestratorProvidedInput : Type 0 where
  pub name : String
  pub value : String

pub record OrchestratorRequiredInput : Type 0 where
  pub name : String
  pub input_type : OrchestratorInputType
  pub prompt : Option String
  pub optional : Bool

pub record OrchestratorTokenBundle : Type 0 where
  pub access_token : Option String
  pub id_token : Option String
  pub refresh_token : Option String
  pub authorization_code : Option String

pub record StartSession : Type 0 where
  pub session_id : String
  pub provider : Option String
  pub username : Option String
  pub issuer_url : Option String
  pub dag_auth_url : Option String
  pub dag_user_code : Option String

pub data OrchestratorCommand : Type 0 where
  start_session : StartSession → OrchestratorCommand
  next_step : String → List OrchestratorProvidedInput → OrchestratorCommand

pub data OrchestratorResponse : Type 0 where
  next_step : String → List OrchestratorRequiredInput → Option String → OrchestratorResponse
  session_complete : String → Bool → OrchestratorTokenBundle → OrchestratorResponse
  session_error : String → String → OrchestratorResponse
  error : String → OrchestratorResponse
  ack : Option String → String → OrchestratorResponse
  session_status : String → String → String → Option String → OrchestratorResponse
  pong : String → OrchestratorResponse

pub record OrchestratorFlowState : Type 0 where
  pub session_id : String
  pub required_inputs : List OrchestratorRequiredInput
  pub dag_json : Option String

pub data OidcMfaExtraData : Type 0 where
  device_flow : String → OidcMfaExtraData
  orchestrator : OrchestratorFlowState → OidcMfaExtraData

pub record OidcOrchestratorConfig : Type 0 where
  pub enabled : Bool
  pub provider : Option String
  pub poll_interval_secs : ℕ

-- `MsalError`, as far as the flow tells its errors apart; `other` has the error's text.
pub data MsalError : Type 0 where
  mfa_poll_continue : MsalError
  other : String → MsalError

-- The credential handler of this flow, `AuthCredHandler::MFA` with the fields that it uses, or
-- `AuthCredHandler::SetupPin`.
pub record Mfa : Type 0 where
  pub max_poll_attempts : Option ℕ
  pub polling_interval : Option ℕ
  pub extra_data : Option String

pub data Handler : Type 0 where
  mfa : Mfa → Handler
  setup_pin : Handler

-- serde_json, the crates for OpenID Connect, the socket of the orchestrator with its timeouts, the
-- random ids, the tenant's id, the user that the claims of a token make, and the cache of tokens.
-- `err tt` is an error that is turned into another.
pub record Client (W D T : Type 0) : Type 0 where
  pub parse_extra : String → Result OidcMfaExtraData (Unit {0})
  pub write_extra : OidcMfaExtraData → Result String (Unit {0})
  pub parse_dag : String → Result D (Unit {0})
  pub new_uuid : W → String × W
  pub send_command : OrchestratorCommand → W → Result OrchestratorResponse (Unit {0}) × W
  pub acquire_token_by_device_flow : D → W → Result T MsalError × W
  pub acquire_token_by_refresh_token : String → W → Result T MsalError × W
  pub interval : D → ℕ
  pub expires_in : D → ℕ
  pub write_dag : D → Result String (Unit {0})
  pub verification_uri_complete : D → Option String
  pub verification_uri : D → String
  pub user_code : D → String
  pub to_lowercase : String → String
  pub tenant_id : W → Result String IdpError × W
  pub user_token_from_oidc : T → String → W → Result UserToken IdpError × W
  pub refresh_token : T → Option String
  pub cache_refresh_token : String → String → W → W
