-- ===== src/Hello/Load.antt =====
-- What the key store has for an account, brought into the caches of tokens: the parts of the
-- authentication by Hello PIN that count nothing (src/common/src/idprovider/common.rs).
pub mod Laws
pub mod Stored
use himmelblau.Common.{
  Bool, true, false, String, Option, none, some, ok, err, is_some, if◌then◌else◌,
}
use himmelblau.Idp.{IdpError, AuthResult}
use himmelblau.Hello.{Device, Act, pure, fail, outside, or_fail, attempt, map_err, ◌>>=◌, ◌>>◌}
use himmelblau.Hello.Keys.{
  get_tagged_hsm_key, insert_tagged_hsm_key, fetch_hello_key_tag, fetch_hello_prt_key_tag,
  fetch_hello_refresh_token_key_tag, fetch_hello_totp_key_tag,
}
use himmelblau.Hello.Refresh.{RefreshCacheEntry, add}

module _ {W X : Type 0} (device : Device W X) where
  -- What the key store has under a tag; an error counts as nothing.
  unfoldable pub stored : String → Act W X (Option X)
  unfolding get_tagged_hsm_key
  stored tag = do
    r ← attempt (get_tagged_hsm_key device tag)
    elim r [ ok o ↦ pure o | err e ↦ pure none ]

  unfoldable pub decoupled_key : String → Act W X X
  unfolding get_tagged_hsm_key fetch_hello_key_tag
  decoupled_key account_id = do
    o ←
        map_err IdpError.bad_request
          (get_tagged_hsm_key device (fetch_hello_key_tag device account_id false))
    elim o [ some key ↦ pure key | none ↦ fail IdpError.bad_request ]

  -- The key, without the type that the modelled callers drop.
  unfoldable pub fetch_hello_key : String → Act W X X
  unfolding stored decoupled_key fetch_hello_key_tag
  fetch_hello_key account_id = do
    o ← stored (fetch_hello_key_tag device account_id true)
    elim o [ some key ↦ pure key | none ↦ decoupled_key account_id ]

  unfoldable pub check_hello_totp_setup : String → Act W X Bool
  unfolding stored fetch_hello_totp_key_tag
  check_hello_totp_setup account_id = do
    o ← stored (fetch_hello_totp_key_tag device account_id)
    pure (is_some o)

  -- `load_cached_prt!`: the PRT that is stored goes into the cache. What it returns with, if anything,
  -- is the result of the authentication.
  unfoldable pub unsealed_prt : String → X → Act W X (Option AuthResult)
  unfolding add
  unsealed_prt account_id prt = do
    r ← outside (device.is_prt_expired prt)
    expired ← or_fail IdpError.tpm r
    if expired
        then pure (
            some (
              AuthResult.denied
                "Offline auth has expired. Please connect to the network to continue."))
        else (do add device account_id (RefreshCacheEntry.prt prt); pure none)

  unfoldable pub load_cached_prt : String → X → String → Act W X (Option AuthResult)
  unfolding stored unsealed_prt fetch_hello_prt_key_tag
  load_cached_prt account_id key cred = do
    o ← stored (fetch_hello_prt_key_tag device account_id)
    elim o [
      | some sealed ↦ do
        r ← outside (device.unseal_user_prt_with_hello_key sealed key cred)
        prt ← or_fail IdpError.tpm r
        unsealed_prt account_id prt
      | none ↦ pure none
    ]

  unfoldable pub load_refresh_token : String → X → Act W X (Unit {0})
  unfolding stored add fetch_hello_refresh_token_key_tag
  load_refresh_token account_id storage_key = do
    o ← stored (fetch_hello_refresh_token_key_tag device account_id)
    elim o [
      | some sealed ↦ do
        r ← outside (device.unseal_data storage_key sealed)
        token ← or_fail IdpError.tpm r
        add device account_id (RefreshCacheEntry.refresh_token token)
      | none ↦ pure tt
    ]

  -- The secret that a new enrolment left to the credential handler, or else the one that is stored.
  unfoldable pub sealed_totp : String → Option X → Act W X X
  unfolding stored fetch_hello_totp_key_tag
  sealed_totp account_id (some pending) = pure pending
  sealed_totp account_id none = do
    o ← stored (fetch_hello_totp_key_tag device account_id)
    elim o [ some sealed ↦ pure sealed | none ↦ fail IdpError.bad_request ]

  unfoldable pub keep_totp : String → X → Option X → Act W X (Unit {0})
  unfolding insert_tagged_hsm_key fetch_hello_totp_key_tag
  keep_totp account_id sealed none = pure tt
  keep_totp account_id sealed (some pending) =
      map_err IdpError.tpm
        (insert_tagged_hsm_key device (fetch_hello_totp_key_tag device account_id) sealed)
