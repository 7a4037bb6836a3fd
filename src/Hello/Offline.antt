-- ===== src/Hello/Offline.antt =====
-- Authentication while the provider is offline, by the Hello PIN and a code (the macros
-- `impl_himmelblau_offline_auth_init!`, `impl_himmelblau_offline_auth_step!` and
-- `impl_handle_hello_pin_totp_auth!` of src/common/src/idprovider/common.rs). The OpenID Connect
-- provider has no PRTs, and no authentication by password: `has_prts` and `password_auth`.
pub mod Lockout
mod Outcome
pub mod Success
mod Tests
use himmelblau.Common.{
  ℕ, Bool, true, false, ◌&&◌, ◌||◌, not, String, Option, none, some, Result, ok, err, leb, is_some,
  is_ok, if◌then◌else◌,
}
use himmelblau.Proto.{PamAuthRequest}
use himmelblau.Idp.{IdpError, UserToken, AuthRequest, AuthResult, AuthCredHandler}
use himmelblau.Hello.{
  Config, Device, Provider, Act, pure, fail, gets, outside, modify, or_fail, attempt, map_err,
  ◌>>=◌, ◌>>◌,
}
use himmelblau.Hello.Keys.{
  get_tagged_hsm_key, insert_tagged_hsm_key, fetch_hello_key_tag, fetch_hello_prt_key_tag,
  fetch_hello_refresh_token_key_tag, fetch_hello_totp_key_tag,
}
use himmelblau.Hello.Counter.{bad_pin_count, reset_bad_pin_count, handle_hello_bad_pin_count}
use himmelblau.Hello.Refresh.{RefreshCacheEntry, add}
use himmelblau.Hello.Load.{
  fetch_hello_key, check_hello_totp_setup, load_cached_prt, load_refresh_token, sealed_totp,
  keep_totp,
}

module _ {W X : Type 0} (device : Device W X) (config : Config) where
  unfoldable pub offline_auth_init : Bool → Bool → String → Act W X AuthRequest
  unfolding fetch_hello_key bad_pin_count
  offline_auth_init password_auth no_hello_pin account_id = do
    key ← attempt (fetch_hello_key device account_id)
    n ← bad_pin_count account_id
    if is_ok key && leb n config.hello_pin_retry_count && not no_hello_pin
        then pure AuthRequest.pin
        else if password_auth && (config.enable_sfa_fallback || config.offline_breakglass_enabled)
        then pure AuthRequest.password
        else pure (AuthRequest.init_denied "Network outage detected.")

  -- A bad PIN or code: denied, with the message of the count or else with this one.
  unfoldable pub deny_bad_pin : String → String → Act W X AuthResult
  unfolding handle_hello_bad_pin_count
  deny_bad_pin account_id msg = do
    early ← handle_hello_bad_pin_count device config account_id
    elim early [ some m ↦ pure (AuthResult.denied m) | none ↦ pure (AuthResult.denied msg) ]

  unfoldable pub after_prt : String → UserToken → X → Option AuthResult → Act W X AuthResult
  unfolding load_refresh_token check_hello_totp_setup reset_bad_pin_count
  after_prt account_id token storage_key (some result) = pure result
  after_prt account_id token storage_key none = do
    load_refresh_token device account_id storage_key
    setup ← check_hello_totp_setup device account_id
    if setup && config.enable_hello_totp
        then pure (
            AuthResult.next (
              AuthRequest.hello_totp "Please enter your Hello TOTP code from your Authenticator: "))
        else (do reset_bad_pin_count account_id; pure (AuthResult.success token))

  unfoldable pub after_pin :
      Bool → String → UserToken → X → String → Result X (Unit {0}) → Act W X AuthResult
  unfolding load_cached_prt after_prt deny_bad_pin
  after_pin has_prts account_id token key cred (ok storage_key) = do
    early ← (if has_prts then load_cached_prt device account_id key cred else pure none)
    after_prt account_id token storage_key early
  after_pin has_prts account_id token key cred (err e) =
      deny_bad_pin account_id "Failed to authenticate with Hello PIN."

  unfoldable pub pin_step : Bool → String → UserToken → String → Act W X AuthResult
  unfolding fetch_hello_key after_pin
  pin_step has_prts account_id token cred = do
    key ← fetch_hello_key device account_id
    or_fail IdpError.tpm (device.pin_value cred)
    r ← outside (device.ms_hello_key_load key cred)
    after_pin has_prts account_id token key cred r

  unfoldable pub after_code : String → UserToken → X → Option X → Bool → Act W X AuthResult
  unfolding keep_totp deny_bad_pin reset_bad_pin_count
  after_code account_id token sealed pending true = do
    keep_totp device account_id sealed pending
    reset_bad_pin_count account_id
    pure (AuthResult.success token)
  after_code account_id token sealed pending false =
      deny_bad_pin account_id "Failed to authenticate with Hello TOTP code."

  unfoldable pub after_totp_key :
      String → UserToken → X → Option X → String → Result X (Unit {0}) → Act W X AuthResult
  unfolding after_code deny_bad_pin
  after_totp_key account_id token sealed pending code (ok storage_key) = do
    r ← outside (device.unseal_data storage_key sealed)
    totp_record ← or_fail IdpError.tpm r
    v ← outside (device.verify_totp totp_record code)
    valid ← or_fail IdpError.tpm v
    after_code account_id token sealed pending valid
  after_totp_key account_id token sealed pending code (err e) =
      deny_bad_pin account_id "Failed to authenticate with Hello TOTP code."

  unfoldable pub totp_step : String → UserToken → String → Option X → String → Act W X AuthResult
  unfolding sealed_totp fetch_hello_key after_totp_key
  totp_step account_id token hello_pin pending code = do
    sealed ← sealed_totp device account_id pending
    key ← fetch_hello_key device account_id
    or_fail IdpError.tpm (device.pin_value hello_pin)
    r ← outside (device.ms_hello_key_load key hello_pin)
    after_totp_key account_id token sealed pending code r

  unfoldable pub offline_auth_step :
      Bool → String → UserToken → AuthCredHandler X → PamAuthRequest → Act W X AuthResult
  unfolding pin_step totp_step
  offline_auth_step has_prts account_id token handler (PamAuthRequest.pin cred) =
      pin_step has_prts account_id token cred
  offline_auth_step has_prts account_id token (AuthCredHandler.hello_totp hello_pin pending)
        (PamAuthRequest.hello_totp code) =
      totp_step account_id token hello_pin pending code
  offline_auth_step has_prts account_id token handler request = fail IdpError.bad_request
