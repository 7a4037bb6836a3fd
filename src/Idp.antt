-- ===== src/Idp.antt =====
-- The interface between the resolver and an identity provider, src/common/src/idprovider/interface.rs.
-- `W` is the state of all that the modelled code does not hold: the provider, its key store, the
-- TPM, the clock and the file system. `X` is the type of the values that come from the libhimmelblau
-- and HSM crates: flows, tokens, sealed secrets, password hashes.
use himmelblau.Common.{ℕ, Bool, String, Option, List, Result}
use himmelblau.Proto.{PamAuthResponse, PamAuthRequest}

pub data IdpError : Type 0 where
  transport : IdpError
  provider_unauthorised : IdpError
  bad_request : IdpError
  not_found : String → String → IdpError
  key_store : IdpError
  tpm : IdpError

-- Times are nanoseconds since the epoch.
pub data CacheState : Type 0 where
  online : CacheState
  offline : CacheState
  offline_next_check : ℕ → CacheState

pub data UnixId : Type 0 where
  name : String → UnixId
  gid : ℕ → UnixId

pub record GroupToken : Type 0 where
  pub name : String
  pub spn : String
  pub uuid : String
  pub gidnumber : ℕ

pub record UserToken : Type 0 where
  pub name : String
  pub spn : String
  pub uuid : String
  pub real_gidnumber : Option ℕ
  pub gidnumber : ℕ
  pub displayname : String
  pub shell : Option String
  pub groups : List GroupToken
  pub tenant_id : Option String
  pub valid : Bool

pub data UserTokenState : Type 0 where
  use_cached : UserTokenState
  not_found : UserTokenState
  update : UserToken → UserTokenState

pub data AuthCredHandler (X : Type 0) : Type 0 where
  -- flow, password, extra data, PIN to reuse after a re-authentication
  mfa : X → Option String → Option String → Option String → AuthCredHandler X
  reauth_password : String → AuthCredHandler X
  setup_pin : Option X → AuthCredHandler X
  hello_totp : String → Option X → AuthCredHandler X
  change_password : String → AuthCredHandler X
  password_first : List X → Bool → AuthCredHandler X
  none : AuthCredHandler X

pub data AuthRequest : Type 0 where
  password : AuthRequest
  mfa_code : String → AuthRequest
  hello_totp : String → AuthRequest
  mfa_poll : String → ℕ → AuthRequest
  mfa_poll_wait : AuthRequest
  setup_pin : String → AuthRequest
  pin : AuthRequest
  fido : String → List String → Bool → Bool → AuthRequest
  change_password : String → AuthRequest
  init_denied : String → AuthRequest

-- `impl Into<PamAuthResponse> for AuthRequest`
unfoldable pub into : AuthRequest → PamAuthResponse
into AuthRequest.password = PamAuthResponse.password
into (AuthRequest.mfa_code msg) = PamAuthResponse.mfa_code msg
into (AuthRequest.hello_totp msg) = PamAuthResponse.hello_totp msg
into (AuthRequest.mfa_poll msg interval) = PamAuthResponse.mfa_poll msg interval
into AuthRequest.mfa_poll_wait = PamAuthResponse.mfa_poll_wait
into (AuthRequest.setup_pin msg) = PamAuthResponse.setup_pin msg
into AuthRequest.pin = PamAuthResponse.pin
into (AuthRequest.fido challenge allowed key cross) =
    PamAuthResponse.fido challenge allowed key cross
into (AuthRequest.change_password msg) = PamAuthResponse.change_password msg
into (AuthRequest.init_denied msg) = PamAuthResponse.init_denied msg

pub data AuthResult : Type 0 where
  success : UserToken → AuthResult
  denied : String → AuthResult
  next : AuthRequest → AuthResult

pub data AuthCacheAction : Type 0 where
  none : AuthCacheAction
  password_hash_update : String → AuthCacheAction

-- The trait `IdProvider`, as far as the modelled part of the resolver calls it. A `&mut` credential
-- handler comes back beside the result.
pub record IdProvider (W X : Type 0) : Type 0 where
  pub check_online : ℕ → W → Bool × W
  pub unix_user_get : UnixId → Option UserToken → W → Result UserTokenState IdpError × W
  pub unix_user_access :
      UnixId
      → List String
      → Option UserToken
      → Option String
      → Option String
      → Option String
      → W
      → Result X IdpError × W
  pub unix_user_tgts :
      UnixId → Option UserToken → W → (Option X × Option X × Option String × Option String) × W
  pub unix_user_prt_cookie :
      UnixId → Option UserToken → Option String → W → Result String IdpError × W
  pub change_auth_token : String → X → String → W → Result Bool IdpError × W
  pub unix_user_online_auth_init :
      String
      → Option UserToken
      → String
      → Bool
      → Bool
      → W
      → Result (AuthRequest × AuthCredHandler X) IdpError × W
  pub unix_user_online_auth_step :
      String
      → UserToken
      → String
      → Bool
      → AuthCredHandler X
      → PamAuthRequest
      → W
      → (AuthCredHandler X × Result (AuthResult × AuthCacheAction) IdpError) × W
  pub unix_user_offline_auth_init :
      String → Option UserToken → Bool → W → Result (AuthRequest × AuthCredHandler X) IdpError × W
  pub unix_user_offline_auth_step :
      String
      → UserToken
      → AuthCredHandler X
      → PamAuthRequest
      → Bool
      → W
      → (AuthCredHandler X × Result AuthResult IdpError) × W
  pub unix_group_get : UnixId → W → Result GroupToken IdpError × W
  pub get_cachestate : Option String → W → CacheState × W
  pub offline_break_glass : Option ℕ → W → Result (Unit {0}) IdpError × W
