-- ===== src/Hello/Offline/Success.antt =====
-- What an offline authentication that succeeds has seen: the PIN that opens a Hello key, and the code
-- where one is asked for (src/common/src/idprovider/common.rs).
use himmelblau.Common.{◌≡◌, refl, subst, Bool, true, String, Option, List, Result, ok, err}
use himmelblau.Proto.{PamAuthRequest}
use himmelblau.Idp.{IdpError, UserToken, AuthResult, AuthCredHandler}
use himmelblau.Hello.{Config, Device, KeyRow, Provider, or_fail}
use himmelblau.Hello.Rules.{
  Leads, Leads-bind, Leads-given, Leads-fail, Leads-Ends, Ends, Ends-bind, Ends-after, Ends-outside,
  Ends-or_fail,
}
use himmelblau.Hello.Counter.{count}
use himmelblau.Hello.Load.Laws.{Stored}
use himmelblau.Hello.Load.Stored.{Source, Leads-fetch_hello_key, Leads-sealed_totp}
use himmelblau.Hello.Offline.{pin_step, after_totp_key, totp_step, offline_auth_step}
use himmelblau.Hello.Offline.Outcome.{Only, Ends-denied, Ends-after_pin, Ends-after_code}

module _ {W X : Type 0} (device : Device W X) (config : Config) (account_id : String)
    (token : UserToken) where
  -- A key that is stored for the account was loaded with the PIN.
  abbrev pub Loaded : List (KeyRow X) → String → X → Type 0
  Loaded rows pin storage_key =
      (key : X) × (w : W) × Stored device account_id rows key
      × ((device.ms_hello_key_load key pin w).0 ≡ ok storage_key)

  abbrev pub Opened : List (KeyRow X) → String → Type 0
  Opened rows pin = (storage_key : X) × Loaded rows pin storage_key

  -- The PIN's storage key unsealed the account's secret, and the code was verified with that secret.
  abbrev pub Verified : List (KeyRow X) → String → Option X → String → Type 0
  Verified rows pin pending code =
      (storage_key : X) × (sealed : X) × (totp_record : String) × (w w' : W) × Loaded rows pin
        storage_key
      × Source device account_id rows pending sealed
      × ((device.unseal_data storage_key sealed w).0 ≡ ok totp_record)
      × ((device.verify_totp totp_record code w').0 ≡ ok true)

  Ends-after_totp_key :
      (rows : List (KeyRow X)) (pin code : String) (sealed : X) (pending : Option X)
      (r : Result X (Unit {0}))
      → Source device account_id rows pending sealed
      → ((storage_key : X) → r ≡ ok storage_key → Loaded rows pin storage_key)
      → Ends
          (Only device config account_id token (Verified rows pin pending code))
          (after_totp_key device config account_id token sealed pending code r)
  unfolding after_totp_key
  Ends-after_totp_key rows pin code sealed pending (ok storage_key) source loaded =
      Ends-outside _ _ _ (λ w.
        Ends-after (λ a. (device.unseal_data storage_key sealed w).0 ≡ ok a) _ _ _
          (Ends-or_fail IdpError.tpm _)
          (λ totp_record unsealed. Ends-outside _ _ _ (λ w'.
            Ends-after (λ a. (device.verify_totp totp_record code w').0 ≡ ok a) _ _ _
              (Ends-or_fail IdpError.tpm _)
              (λ valid verified.
                Ends-after_code device config account_id token _ sealed pending valid (λ h. (
                  storage_key,
                  sealed,
                  totp_record,
                  w,
                  w',
                  loaded storage_key refl,
                  source,
                  unsealed,
                  subst (λ b. (device.verify_totp totp_record code w').0 ≡ ok b) h verified,
                ))))))
  Ends-after_totp_key rows pin code sealed pending (err e) source loaded =
      Ends-denied device config account_id token _ _

  module _ (rows : List (KeyRow X)) where
    Leads-pin_step :
        (has_prts : Bool) (cred : String)
        → Leads
            (λ s. s.hsm_data_t ≡ rows)
            (pin_step device config has_prts account_id token cred)
            (Only device config account_id token (Opened rows cred))
    unfolding pin_step
    Leads-pin_step has_prts cred =
        Leads-bind _ _ _ _ _ (Leads-fetch_hello_key device account_id rows) (λ key.
          Leads-given _ _ _ _ (λ stored. Leads-Ends rows _ _ (
            Ends-bind _ (or_fail IdpError.tpm (device.pin_value cred)) _ (λ u.
              Ends-outside _ _ _ (λ w.
                Ends-after_pin device config account_id token (Opened rows cred) has_prts key cred _
                  (λ storage_key e. (storage_key, (key, w, stored, e))))))))

    Leads-totp_step :
        (pin code : String) (pending : Option X)
        → Leads
            (λ s. s.hsm_data_t ≡ rows)
            (totp_step device config account_id token pin pending code)
            (Only device config account_id token (Verified rows pin pending code))
    unfolding totp_step
    Leads-totp_step pin code pending =
        Leads-bind _ _ _ _ _ (Leads-sealed_totp device account_id rows pending) (λ sealed.
          Leads-given _ _ _ _ (λ source.
            Leads-bind _ _ _ _ _ (Leads-fetch_hello_key device account_id rows) (λ key.
              Leads-given _ _ _ _ (λ stored. Leads-Ends rows _ _ (
                Ends-bind _ (or_fail IdpError.tpm (device.pin_value pin)) _ (λ u.
                  Ends-outside _ _ _ (λ w.
                    Ends-after_totp_key rows pin code sealed pending _ source
                      (λ storage_key e. (key, w, stored, e)))))))))

    -- The PIN opened a stored key, or the PIN of the handler opened one and the code was verified.
    abbrev pub Shown : AuthCredHandler X → PamAuthRequest → Type 0
    Shown handler (PamAuthRequest.pin cred) = Opened rows cred
    Shown (AuthCredHandler.hello_totp pin pending) (PamAuthRequest.hello_totp code) =
        Verified rows pin pending code
    Shown handler request = ⊥

    Leads-offline_auth_step :
        (has_prts : Bool) (handler : AuthCredHandler X) (request : PamAuthRequest)
        → Leads
            (λ s. s.hsm_data_t ≡ rows)
            (offline_auth_step device config has_prts account_id token handler request)
            (Only device config account_id token (Shown handler request))
    unfolding offline_auth_step
    Leads-offline_auth_step has_prts handler (PamAuthRequest.pin cred) =
        Leads-pin_step has_prts cred
    Leads-offline_auth_step has_prts (AuthCredHandler.hello_totp pin pending)
          (PamAuthRequest.hello_totp code) =
        Leads-totp_step pin code pending
    Leads-offline_auth_step has_prts handler request = Leads-fail _ _ _

  -- An offline step succeeds only for the token it was given, and only if a Hello key that was stored
  -- for the account was loaded with a PIN: the PIN of the request, or the one that the credential
  -- handler kept. In the latter case the storage key of that load unsealed a secret, the one that was
  -- pending or else the one that was stored for the account's codes, and the code of the request was
  -- verified with it. The count of bad PINs then starts anew.
  pub offline_auth_step-success :
      (has_prts : Bool) (handler : AuthCredHandler X) (request : PamAuthRequest) (s : Provider W X)
      (other : UserToken)
      → (offline_auth_step device config has_prts account_id token handler request s).0
        ≡ ok (AuthResult.success other)
      → (other ≡ token)
        × (count account_id
              (offline_auth_step device config has_prts account_id token handler request
                s).1.counter
            ≡ 0)
        × Shown s.hsm_data_t handler request
  offline_auth_step-success has_prts handler request s other e =
      (Leads-offline_auth_step s.hsm_data_t has_prts handler request).at s refl
        (AuthResult.success other) e other refl
