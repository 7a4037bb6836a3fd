-- ===== src/Proto.antt =====
-- The messages between the daemon and its clients, src/common/src/unix_proto.rs, and the values
-- that PAM returns, src/common/src/pam.rs. A `Uuid` is its hyphenated text throughout.
use himmelblau.Common.{ℕ, Bool, String, List}

pub record NssUser : Type 0 where
  pub name : String
  pub uid : ℕ
  pub gid : ℕ
  pub gecos : String
  pub homedir : String
  pub shell : String

pub record NssGroup : Type 0 where
  pub name : String
  pub gid : ℕ
  pub members : List String

pub record HomeDirectoryInfo : Type 0 where
  pub uid : ℕ
  pub gid : ℕ
  pub name : String
  pub aliases : List String

pub data PamAuthResponse : Type 0 where
  unknown : PamAuthResponse
  success : PamAuthResponse
  denied : String → PamAuthResponse
  password : PamAuthResponse
  mfa_code : String → PamAuthResponse
  hello_totp : String → PamAuthResponse
  -- the message and the seconds between two polls
  mfa_poll : String → ℕ → PamAuthResponse
  mfa_poll_wait : PamAuthResponse
  setup_pin : String → PamAuthResponse
  pin : PamAuthResponse
  -- the challenge, the allow list, `has_physical_security_key` and `has_cross_device`
  fido : String → List String → Bool → Bool → PamAuthResponse
  change_password : String → PamAuthResponse
  init_denied : String → PamAuthResponse

pub data PamAuthRequest : Type 0 where
  password : String → PamAuthRequest
  mfa_code : String → PamAuthRequest
  hello_totp : String → PamAuthRequest
  mfa_poll : ℕ → PamAuthRequest
  setup_pin : String → PamAuthRequest
  pin : String → PamAuthRequest
  fido : String → PamAuthRequest
  fido_unavailable : PamAuthRequest

-- The requests that the PAM client sends while it authenticates: account, service, `no_hello_pin`
-- and `force_reauth`; or one step.
pub data ClientRequest : Type 0 where
  pam_authenticate_init : String → String → Bool → Bool → ClientRequest
  pam_authenticate_step : PamAuthRequest → ClientRequest

-- The daemon's answers; `other` stands for every answer that is none to an authentication.
pub data ClientResponse : Type 0 where
  pam_authenticate_step_response : PamAuthResponse → ClientResponse
  other : ClientResponse

pub data PamResultCode : Type 0 where
  pam_success : PamResultCode
  pam_service_err : PamResultCode
  pam_system_err : PamResultCode
  pam_auth_err : PamResultCode
  pam_cred_insufficient : PamResultCode
  pam_user_unknown : PamResultCode
  pam_ignore : PamResultCode
  pam_abort : PamResultCode
