-- ===== src/Resolver/Init.antt =====
-- The start of an authentication, src/common/src/resolver.rs.
pub mod Begins
pub mod Deadlock
mod Tests
use himmelblau.Common.{
  Bool, true, false, String, Option, none, some, Result, ok, err, if◌then◌else◌,
}
use himmelblau.Idp.{UnixId, UserToken, IdpError, AuthRequest, AuthCredHandler, into}
use himmelblau.Proto.{PamAuthResponse}
use himmelblau.Resolver.{Resolver, Act, pure, fail, outside, with_db, on_result, ◌>>=◌}
use himmelblau.Resolver.Cache.{check_nxset, get_cachestate, get_cached_usertoken}
use himmelblau.Resolver.Refresh.{refresh_usertoken, test_connection}
use himmelblau.Resolver.Session.{Progress, AuthSession, not_found_msg, reauth_msg, is_online}

module _ {W X : Type 0} (self : Resolver W X) where
  open self use {client, system}

  abbrev pub Started : Type 0
  Started = Result (AuthRequest × AuthCredHandler X) IdpError

  -- The provider has failed online, while this task still has the transaction.
  online_failed : String → Option UserToken → Bool → Bool → IdpError → Act W X Started
  online_failed account_id token no_hello_pin true e = pure (err e)
  online_failed account_id token no_hello_pin false e = do
    state ← get_cachestate self (some account_id)
    if is_online state
        then pure (err e)
        else outside (client.unix_user_offline_auth_init account_id token no_hello_pin)

  pub online_init : String → Option UserToken → String → Bool → Bool → Act W X Started
  unfolding online_failed get_cachestate
  online_init account_id token service no_hello_pin force_reauth = with_db do
    r ←
        outside
          (client.unix_user_online_auth_init account_id token service no_hello_pin force_reauth)
    on_result r (λ res. pure (ok res)) (online_failed account_id token no_hello_pin force_reauth)

  offline_init : String → Option UserToken → Bool → Act W X Started
  offline_init account_id token no_hello_pin =
      with_db (outside (client.unix_user_offline_auth_init account_id token no_hello_pin))

  -- The session and the first response, from what the provider has answered.
  begun :
      String
      → Option UserToken
      → String
      → Bool
      → Bool
      → Bool
      → Started
      → Act W X (AuthSession X × PamAuthResponse)
  unfolding into not_found_msg
  begun account_id token service no_hello_pin force_reauth at_init (ok (next_req, handler)) = pure (
    AuthSession.in_progress (record {
      account_id = account_id;
      service = service;
      id = UnixId.name account_id;
      token = token;
      online_at_init = at_init;
      cred_handler = handler;
      no_hello_pin = no_hello_pin;
      force_reauth = force_reauth;
    }),
    into next_req,
  )
  begun account_id token service no_hello_pin force_reauth at_init
        (err (IdpError.not_found what where_)) =
      pure (AuthSession.denied, PamAuthResponse.denied (not_found_msg what where_))
  begun account_id token service no_hello_pin force_reauth at_init (err e) = fail

  init_token : UnixId → Option UserToken → Act W X (Option UserToken)
  unfolding refresh_usertoken
  init_token id (some token) = pure (some token)
  init_token id none = refresh_usertoken self id none

  init_with :
      String
      → Option UserToken
      → String
      → Bool
      → Bool
      → Bool
      → Act W X (AuthSession X × PamAuthResponse)
  unfolding online_init offline_init begun
  init_with account_id token service no_hello_pin force_reauth true = do
    started ← online_init account_id token service no_hello_pin force_reauth
    begun account_id token service no_hello_pin force_reauth true started
  init_with account_id token service no_hello_pin true false =
      pure (AuthSession.denied, PamAuthResponse.init_denied reauth_msg)
  init_with account_id token service no_hello_pin false false = do
    started ← offline_init account_id token no_hello_pin
    begun account_id token service no_hello_pin false false started

  unfoldable pub pam_account_authenticate_init :
      String → String → Bool → Bool → Act W X (AuthSession X × PamAuthResponse)
  unfolding get_cached_usertoken get_cachestate test_connection init_token init_with
  pam_account_authenticate_init account_id service no_hello_pin force_reauth = do
    excluded ← check_nxset self (some account_id) none
    if excluded then pure (AuthSession.denied, PamAuthResponse.unknown) else (do
      (expired, cached) ← get_cached_usertoken self (UnixId.name account_id)
      token ← init_token (UnixId.name account_id) cached
      state ← get_cachestate self (some account_id)
      online_at_init ← (if is_online state then pure true else test_connection self)
      init_with account_id token service no_hello_pin force_reauth online_at_init)
