-- ===== src/Resolver/Session.antt =====
-- The state of an authentication, `AuthSession` of src/common/src/resolver.rs. Its receiver
-- `shutdown_rx` is not modelled: no operation here reads it.
use Prim.Native.String.{◌++◌ as append}
use himmelblau.Common.{Bool, true, false, String, Option, Result}
use himmelblau.Idp.{
  UnixId, UserToken, CacheState, online, offline, offline_next_check, AuthCredHandler,
}
use himmelblau.Proto.{PamAuthResponse}

-- `AuthSession::InProgress`
pub record Progress (X : Type 0) : Type 0 where
  pub account_id : String
  pub service : String
  pub id : UnixId
  pub token : Option UserToken
  pub online_at_init : Bool
  pub cred_handler : AuthCredHandler X
  pub no_hello_pin : Bool
  pub force_reauth : Bool

pub data AuthSession (X : Type 0) : Type 0 where
  in_progress : Progress X → AuthSession X
  success : String → AuthSession X
  denied : AuthSession X

-- format!("NotFound: {} in {}", what, where_)
unfoldable pub not_found_msg : String → String → String
not_found_msg what where_ = append "NotFound: " (append what (append " in " where_))

abbrev pub reauth_msg : String
reauth_msg = "Re-authentication requires network connectivity."

abbrev pub is_online : CacheState → Bool
is_online online = true
is_online offline = false
is_online (offline_next_check time) = false

-- What a step comes to: the session, which is `&mut`, and the method's result.
abbrev pub Step : Type 0 → Type 0
Step X = AuthSession X × Result PamAuthResponse (Unit {0})
