-- ===== src/Resolver/Step/Locks.antt =====
-- A step of an authentication (src/common/src/resolver.rs) never waits for the database for ever.
use himmelblau.Common.{Option, none, some, Result, ok, err}
use himmelblau.Idp.{UserToken, IdpError, CacheState, AuthCredHandler, AuthResult, AuthCacheAction}
use himmelblau.Proto.{PamAuthRequest}
use himmelblau.Resolver.{Resolver}
use himmelblau.Resolver.Rules.{Free, free_rules}
use himmelblau.Resolver.Cache.Locks.{
  commit_keystore-Local, get_cachestate-Free, set_cache_usertoken-Free, delete_cache_usertoken-Free,
  set_cache_userpassword-Free, check_cache_userpassword-Free, check_nxset-Free,
}
use himmelblau.Resolver.Session.{Progress, AuthSession}
use himmelblau.Resolver.Step.{
  Advanced, cache_action, online_step, offline_pin, refuse, offline_code, offline_step, finish,
  advanced, step_in_progress, pam_account_authenticate_step,
}

module _ {W X : Type 0} (self : Resolver W X) where
  cache_action-Free :
      (token : UserToken) (r : Result (AuthResult × AuthCacheAction) IdpError)
      → Free (cache_action self token r)
  unfolding cache_action
  cache_action-Free token (ok (res, AuthCacheAction.none)) = search free_rules
  cache_action-Free token (ok (AuthResult.success t, AuthCacheAction.password_hash_update cred)) =
      search (free_rules, set_cache_userpassword-Free)
  cache_action-Free token (ok (AuthResult.next t, AuthCacheAction.password_hash_update cred)) =
      search (free_rules, set_cache_userpassword-Free)
  cache_action-Free token (ok (AuthResult.denied t, AuthCacheAction.password_hash_update cred)) =
      search free_rules
  cache_action-Free token (err e) = search free_rules

  online_step-Free :
      (p : Progress X) (token : UserToken) (req : PamAuthRequest)
      → Free (online_step self p token req)
  unfolding online_step
  online_step-Free p token req =
      search (free_rules, commit_keystore-Local, cache_action-Free) depth 12

  offline_pin-Free :
      (p : Progress X) (token : UserToken) (req : PamAuthRequest)
      → Free (offline_pin self p token req)
  unfolding offline_pin
  offline_pin-Free p token req = search (free_rules, commit_keystore-Local) depth 12

  refuse-Free : (h : AuthCredHandler X) → Free (refuse self h)
  unfolding refuse
  refuse-Free h = search free_rules

  offline_code-Free :
      (h : AuthCredHandler X) (p : Progress X) (token : UserToken) (req : PamAuthRequest)
      → Free (offline_code self h p token req)
  unfolding offline_code
  offline_code-Free (AuthCredHandler.mfa flow pw extra pin) p token req = refuse-Free p.cred_handler
  offline_code-Free (AuthCredHandler.setup_pin t) p token req = refuse-Free p.cred_handler
  offline_code-Free (AuthCredHandler.change_password old) p token req = refuse-Free p.cred_handler
  offline_code-Free handler p token req = offline_pin-Free p token req

  offline_step-Free :
      (p : Progress X) (token : UserToken) (req : PamAuthRequest)
      → Free (offline_step self p token req)
  unfolding offline_step
  offline_step-Free p token (PamAuthRequest.password cred) =
      search (free_rules, check_cache_userpassword-Free) depth 7
  offline_step-Free p token (PamAuthRequest.pin cred) = offline_code-Free p.cred_handler p token _
  offline_step-Free p token (PamAuthRequest.hello_totp cred) =
      offline_code-Free p.cred_handler p token _
  offline_step-Free p token req = refuse-Free p.cred_handler

  finish-Free :
      (session : AuthSession X) (r : Result AuthResult IdpError) → Free (finish self session r)
  unfolding finish
  finish-Free session (ok (AuthResult.success token)) =
      search (free_rules, set_cache_usertoken-Free, delete_cache_usertoken-Free, check_nxset-Free)
        depth 12
  finish-Free session (ok (AuthResult.denied msg)) = search free_rules
  finish-Free session (ok (AuthResult.next req)) = search free_rules
  finish-Free session (err (IdpError.not_found what where_)) = search free_rules
  finish-Free session (err e) = search free_rules

  advanced-Free : (p : Progress X) (r : Advanced self) → Free (advanced self p r)
  unfolding advanced
  advanced-Free p (handler, ok result) = finish-Free _ result
  advanced-Free p (handler, err e) = search free_rules

  step_in_progress-Free :
      (p : Progress X) (token : Option UserToken) (req : PamAuthRequest) (state : CacheState)
      → Free (step_in_progress self p token req state)
  unfolding step_in_progress
  step_in_progress-Free p none req state =
      finish-Free (AuthSession.in_progress p) (err (IdpError.not_found "token" "AuthSession"))
  step_in_progress-Free p (some token) req state =
      search (free_rules, online_step-Free, offline_step-Free, advanced-Free) depth 9

  pub pam_account_authenticate_step-Free :
      (session : AuthSession X) (req : PamAuthRequest)
      → Free (pam_account_authenticate_step self session req)
  unfolding pam_account_authenticate_step
  pam_account_authenticate_step-Free (AuthSession.in_progress p) req =
      search (free_rules, get_cachestate-Free, step_in_progress-Free)
  pam_account_authenticate_step-Free (AuthSession.success spn) req =
      search (free_rules, get_cachestate-Free, finish-Free)
  pam_account_authenticate_step-Free AuthSession.denied req =
      search (free_rules, get_cachestate-Free, finish-Free)
