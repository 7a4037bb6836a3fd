-- ===== src/Resolver/Step.antt =====
-- One step of an authentication, src/common/src/resolver.rs.
pub mod Ends
pub mod Offline
pub mod Locks
mod Tests
use himmelblau.Common.{
  Bool, true, false, String, Option, none, some, Result, ok, err, if◌then◌else◌,
}
use himmelblau.Idp.{
  UserToken, IdpError, CacheState, AuthCredHandler, AuthResult, AuthCacheAction, into,
}
use himmelblau.Proto.{PamAuthRequest, PamAuthResponse}
use himmelblau.Resolver.{Resolver, Act, pure, outside, attempt, with_db, on_result, ◌>>=◌, ◌>>◌}
use himmelblau.Resolver.Cache.{
  check_nxset, commit_keystore, get_cachestate, set_cache_usertoken, delete_cache_usertoken,
  set_cache_userpassword, check_cache_userpassword,
}
use himmelblau.Resolver.Session.{Progress, AuthSession, Step, not_found_msg, reauth_msg, is_online}

module _ {W X : Type 0} (self : Resolver W X) where
  open self use {client, system}

  -- What a step of the provider comes to: the credential handler, which is `&mut`, and its result;
  -- `err tt` is an early `return Err(())`.
  abbrev pub Advanced : Type 0
  Advanced = AuthCredHandler X × Result (Result AuthResult IdpError) (Unit {0})

  -- Carry out the provider's cache action.
  cache_action :
      UserToken
      → Result (AuthResult × AuthCacheAction) IdpError
      → Act W X (Result AuthResult IdpError)
  unfolding set_cache_userpassword
  cache_action token (ok (res, AuthCacheAction.none)) = pure (ok res)
  cache_action token (ok (AuthResult.success t, AuthCacheAction.password_hash_update cred)) = do
    set_cache_userpassword self t.uuid cred
    pure (ok (AuthResult.success t))
  cache_action token (ok (AuthResult.next req, AuthCacheAction.password_hash_update cred)) = do
    set_cache_userpassword self token.uuid cred
    pure (ok (AuthResult.next req))
  cache_action token (ok (AuthResult.denied msg, AuthCacheAction.password_hash_update cred)) =
      pure (err IdpError.bad_request)
  cache_action token (err e) = pure (err e)

  online_step : Progress X → UserToken → PamAuthRequest → Act W X Advanced
  unfolding cache_action
  online_step p token req = do
    (handler, r, committed) ← with_db do
      (handler, r) ← outside (
          client.unix_user_online_auth_step p.account_id token p.service p.no_hello_pin
            p.cred_handler req)
      committed ← attempt (commit_keystore self)
      pure (handler, r, committed)
    on_result committed (λ u. do result ← attempt (cache_action token r); pure (handler, result))
        (λ e. pure (handler, err tt))

  offline_pin : Progress X → UserToken → PamAuthRequest → Act W X Advanced
  offline_pin p token req = with_db do
    (handler, r) ←
        outside (
          client.unix_user_offline_auth_step p.account_id token p.cred_handler req p.online_at_init)
    committed ← attempt (commit_keystore self)
    on_result committed (λ u. pure (handler, ok r)) (λ e. pure (handler, err tt))

  refuse : AuthCredHandler X → Act W X Advanced
  refuse handler = pure (handler, err tt)

  -- A PIN or a TOTP code, which the handlers that need the network do not take.
  offline_code : AuthCredHandler X → Progress X → UserToken → PamAuthRequest → Act W X Advanced
  unfolding offline_pin refuse
  offline_code (AuthCredHandler.mfa flow pw extra pin) p token req = refuse p.cred_handler
  offline_code (AuthCredHandler.setup_pin t) p token req = refuse p.cred_handler
  offline_code (AuthCredHandler.change_password old) p token req = refuse p.cred_handler
  offline_code handler p token req = offline_pin p token req

  offline_password : Result Bool (Unit {0}) → UserToken → AuthCredHandler X → Advanced
  offline_password (ok true) token handler = (handler, ok (ok (AuthResult.success token)))
  offline_password (ok false) token handler =
      (handler, ok (ok (AuthResult.denied "Offline auth failed")))
  offline_password (err e) token handler = (handler, err tt)

  pub offline_step : Progress X → UserToken → PamAuthRequest → Act W X Advanced
  unfolding check_cache_userpassword offline_password offline_code refuse
  offline_step p token (PamAuthRequest.password cred) = do
    checked ← attempt (check_cache_userpassword self token.uuid cred)
    pure (offline_password checked token p.cred_handler)
  offline_step p token (PamAuthRequest.pin cred) =
      offline_code p.cred_handler p token (PamAuthRequest.pin cred)
  offline_step p token (PamAuthRequest.hello_totp cred) =
      offline_code p.cred_handler p token (PamAuthRequest.hello_totp cred)
  offline_step p token req = refuse p.cred_handler

  -- What did the provider direct us to do next?
  pub finish : AuthSession X → Result AuthResult IdpError → Act W X (Step X)
  unfolding set_cache_usertoken delete_cache_usertoken into not_found_msg
  finish session (ok (AuthResult.success token)) = do
    excluded ← check_nxset self (some token.name) (some token.gidnumber)
    if excluded
        then (do
          purged ← attempt (delete_cache_usertoken self token.uuid)
          on_result purged (λ u. pure (AuthSession.denied, ok PamAuthResponse.unknown))
              (λ e. pure (session, err tt)))
        else (do
          stored ← attempt (set_cache_usertoken self token)
          on_result stored (λ t. pure (AuthSession.success t.spn, ok PamAuthResponse.success))
              (λ e. pure (session, err tt)))
  finish session (ok (AuthResult.denied msg)) =
      pure (AuthSession.denied, ok (PamAuthResponse.denied msg))
  finish session (ok (AuthResult.next req)) = pure (session, ok (into req))
  finish session (err (IdpError.not_found what where_)) =
      pure (session, ok (PamAuthResponse.denied (not_found_msg what where_)))
  finish session (err e) = pure (session, err tt)

  -- The session goes on with the handler that the provider left.
  advanced : Progress X → Advanced → Act W X (Step X)
  unfolding finish
  advanced p (handler, ok result) =
      finish (AuthSession.in_progress (record p { cred_handler = handler })) result
  advanced p (handler, err e) =
      pure (AuthSession.in_progress (record p { cred_handler = handler }), err tt)

  go_online : Progress X → CacheState → Bool
  go_online p state = if p.online_at_init then is_online state else false

  step_in_progress : Progress X → Option UserToken → PamAuthRequest → CacheState → Act W X (Step X)
  unfolding advanced online_step offline_step go_online finish
  step_in_progress p none req state =
      finish (AuthSession.in_progress p) (err (IdpError.not_found "token" "AuthSession"))
  step_in_progress p (some token) req state =
      if go_online p state
      then (do r ← online_step p token req; advanced p r)
      else if p.force_reauth
      then pure (AuthSession.in_progress p, ok (PamAuthResponse.denied reauth_msg))
      else (do r ← offline_step p token req; advanced p r)

  unfoldable pub pam_account_authenticate_step : AuthSession X → PamAuthRequest → Act W X (Step X)
  unfolding get_cachestate step_in_progress
  pam_account_authenticate_step (AuthSession.in_progress p) req = do
    state ← get_cachestate self (some p.account_id)
    step_in_progress p p.token req state
  pam_account_authenticate_step (AuthSession.success spn) req = do
    state ← get_cachestate self none
    finish (AuthSession.success spn) (err IdpError.bad_request)
  pam_account_authenticate_step AuthSession.denied req = do
    state ← get_cachestate self none
    finish AuthSession.denied (err IdpError.bad_request)
