-- ===== src/Hello/Keys.antt =====
-- The key store, `KeyStoreTxn` of src/common/src/db.rs, and the tags under which the providers keep
-- an account's Hello keys, src/common/src/idprovider/common.rs.
pub mod Laws
use Prim.Native.String.{◌++◌ as append}
use himmelblau.Common.{
  ◌≡◌, Bool, true, false, String, Option, none, some, List, [], ◌∷◌, Result, ok, err, str_eq,
  if◌then◌else◌,
}
use himmelblau.Idp.{IdpError}
use himmelblau.Hello.{
  Device, KeyRow, Provider, Act, pure, fail, gets, outside, modify, or_fail, attempt, ◌>>=◌, ◌>>◌,
}

module _ {X : Type 0} where
  unfoldable pub select : String → List (KeyRow X) → Option X
  select tag [] = none
  select tag (r ∷ rs) = if str_eq r.key tag then r.value else select tag rs

  unfoldable pub delete : String → List (KeyRow X) → List (KeyRow X)
  delete tag [] = []
  delete tag (r ∷ rs) = let rest = delete tag rs in if str_eq r.key tag then rest else r ∷ rest

  -- INSERT OR REPLACE
  unfoldable pub replace : String → X → List (KeyRow X) → List (KeyRow X)
  unfolding delete
  replace tag key rs = record { key = tag; value = some key } ∷ delete tag rs

module _ {W X : Type 0} (device : Device W X) where
  -- No statement fails.
  abbrev pub Works : Type 0
  Works = (w : W) → (device.sql w).0 ≡ true

  -- A statement that fails ends the method with `e`.
  abbrev sql : IdpError → Act W X (Unit {0})
  sql e = do done ← outside device.sql; if done then pure tt else fail e

  unfoldable pub get_tagged_hsm_key : String → Act W X (Option X)
  unfolding select
  get_tagged_hsm_key tag = do sql IdpError.key_store; gets (λ s. select tag s.hsm_data_t)

  unfoldable pub insert_tagged_hsm_key : String → X → Act W X (Unit {0})
  unfolding replace
  insert_tagged_hsm_key tag key = do
    sql IdpError.key_store
    modify (λ s. record s { hsm_data_t = replace tag key s.hsm_data_t })

  unfoldable pub delete_tagged_hsm_key : String → Act W X (Unit {0})
  unfolding delete
  delete_tagged_hsm_key tag = do
    sql IdpError.key_store
    modify (λ s. record s { hsm_data_t = delete tag s.hsm_data_t })

  unfoldable pub fetch_hello_key_tag : String → Bool → String
  fetch_hello_key_tag account_id amr_ngcmfa =
      if amr_ngcmfa
      then append (device.to_lowercase account_id) "/hello"
      else append (device.to_lowercase account_id) "/hello_decoupled"

  unfoldable pub fetch_hello_prt_key_tag : String → String
  fetch_hello_prt_key_tag account_id = append (device.to_lowercase account_id) "/hello_prt"

  unfoldable pub fetch_hello_refresh_token_key_tag : String → String
  fetch_hello_refresh_token_key_tag account_id =
      append (device.to_lowercase account_id) "/hello_refresh_token"

  unfoldable pub fetch_hello_totp_key_tag : String → String
  fetch_hello_totp_key_tag account_id = append (device.to_lowercase account_id) "/hello_totp"
