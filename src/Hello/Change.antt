-- ===== src/Hello/Change.antt =====
-- New Hello keys and what is sealed with them (the macros `impl_change_auth_token!`,
-- `impl_setup_hello_totp!` and `seal_prt_with_existing_hello_key!` of
-- src/common/src/idprovider/common.rs).
pub mod Laws
mod Tests
use himmelblau.Common.{
  Bool, true, false, String, Option, none, some, Result, ok, err, str_eq, if◌then◌else◌,
}
use himmelblau.Idp.{IdpError, AuthRequest, AuthResult, AuthCredHandler}
use himmelblau.Hello.{
  Device, Provider, Act, pure, fail, outside, or_fail, attempt, map_err, ◌>>=◌, ◌>>◌,
}
use himmelblau.Hello.Keys.{
  insert_tagged_hsm_key, fetch_hello_key_tag, fetch_hello_prt_key_tag,
  fetch_hello_refresh_token_key_tag,
}
use himmelblau.Hello.Load.{fetch_hello_key}
use himmelblau.Hello.Online.{require_online}

module _ {W X : Type 0} (device : Device W X) where
  unfoldable pub decoupled : String → Act W X X
  decoupled cred = do
    or_fail IdpError.tpm (device.pin_value cred)
    r ← outside (device.ms_hello_key_create cred)
    or_fail IdpError.tpm r

  -- The OpenID Connect provider always passes `false`.
  unfoldable pub provision_or_create_hello_key : X → Bool → String → Act W X X
  unfolding decoupled
  provision_or_create_hello_key token amr_ngcmfa cred =
      if amr_ngcmfa
      then (do
        r ← outside (device.provision_hello_for_business_key token cred)
        or_fail IdpError.tpm r)
      else decoupled cred

  -- `token.amr_ngcmfa()` of the Himmelblau provider.
  unfoldable pub amr_of : X → Act W X Bool
  amr_of token =
      or_fail (IdpError.not_found "NGC MFA authorization in UnixUserToken" "access token")
        (device.amr_ngcmfa token)

  -- `amr` is `amr_of`, or `pure false` for the OpenID Connect provider.
  unfoldable pub change_auth_token : Act W X Bool → String → X → String → Act W X Bool
  unfolding require_online fetch_hello_key_tag provision_or_create_hello_key insert_tagged_hsm_key
  change_auth_token amr account_id token cred = do
    require_online device
    amr_ngcmfa ← amr
    spn ← or_fail IdpError.bad_request (device.spn token)
    if str_eq (device.to_lowercase account_id) (device.to_lowercase spn)
        then (do
          key ← provision_or_create_hello_key token amr_ngcmfa cred
          map_err IdpError.tpm
              (insert_tagged_hsm_key device (fetch_hello_key_tag device account_id amr_ngcmfa) key)
          pure true)
        else fail IdpError.bad_request

  -- The request to the user, and the new credential handler: the secret is stored only after a code
  -- was verified.
  unfoldable pub setup_hello_totp : String → String → Act W X (AuthResult × AuthCredHandler X)
  unfolding fetch_hello_key
  setup_hello_totp account_id hello_pin = do
    made ← outside (device.new_totp account_id)
    totp ← or_fail IdpError.tpm made
    or_fail IdpError.tpm (device.pin_value hello_pin)
    key ← fetch_hello_key device account_id
    loaded ← outside (device.ms_hello_key_load key hello_pin)
    storage_key ← or_fail IdpError.tpm loaded
    sealed ← outside (device.seal_data storage_key totp.0)
    secret ← or_fail IdpError.tpm sealed
    pure (
      AuthResult.next (AuthRequest.hello_totp totp.1),
      AuthCredHandler.hello_totp hello_pin (some secret),
    )

  -- An error is logged, no more.
  unfoldable pub store_sealed : String → Result X (Unit {0}) → Act W X (Unit {0})
  unfolding insert_tagged_hsm_key
  store_sealed tag (ok sealed) = do attempt (insert_tagged_hsm_key device tag sealed); pure tt
  store_sealed tag (err e) = pure tt

  unfoldable pub seal_refresh_token : String → String → Result X (Unit {0}) → Act W X (Unit {0})
  unfolding store_sealed fetch_hello_refresh_token_key_tag
  seal_refresh_token account_id refresh_token (ok storage_key) = do
    r ← outside (device.seal_data storage_key refresh_token)
    store_sealed (fetch_hello_refresh_token_key_tag device account_id) r
  seal_refresh_token account_id refresh_token (err e) = pure tt

  -- The PRT of the token, or else its refresh token.
  unfoldable pub seal_prt_with_existing_hello_key :
      String → Option X → String → X → String → Act W X (Unit {0})
  unfolding store_sealed seal_refresh_token fetch_hello_prt_key_tag
  seal_prt_with_existing_hello_key account_id (some prt) refresh_token hello_key pin = do
    r ← outside (device.seal_user_prt_with_hello_key prt hello_key pin)
    store_sealed (fetch_hello_prt_key_tag device account_id) r
  seal_prt_with_existing_hello_key account_id none refresh_token hello_key pin =
      elim (device.pin_value pin) [
        | ok u ↦ do
          r ← outside (device.ms_hello_key_load hello_key pin)
          seal_refresh_token account_id refresh_token r
        | err e ↦ pure tt
      ]
