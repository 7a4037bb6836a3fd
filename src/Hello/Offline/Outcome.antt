-- ===== src/Hello/Offline/Outcome.antt =====
-- What follows the load of the Hello key in an offline authentication, with what a success needs
-- (src/common/src/idprovider/common.rs).
use himmelblau.Common.{
  ◌≡◌, refl, sym, subst, eq_iff, Bool, true, false, ◌&&◌, String, Option, none, some, Result, ok,
  err, arith, if◌then◌else◌,
}
use himmelblau.Idp.{IdpError, UserToken, AuthRequest, AuthResult}
use himmelblau.Hello.{Config, Device, Provider, pure, outside, or_fail, ◌>>=◌, ◌>>◌}
use himmelblau.Hello.Rules.{Ends, Ends-bind, Ends-after, Ends-pure}
use himmelblau.Hello.Counter.{count, reset_bad_pin_count, handle_hello_bad_pin_count}
use himmelblau.Hello.Counter.Laws.{count-insert}
use himmelblau.Hello.Refresh.{RefreshCacheEntry, add}
use himmelblau.Hello.Load.{unsealed_prt, load_cached_prt, keep_totp}
use himmelblau.Hello.Offline.{deny_bad_pin, after_prt, after_pin, after_code}

module _ {W X : Type 0} (device : Device W X) (config : Config) (account_id : String)
    (token : UserToken) where
  -- A success is that of the token, and is given only if `P`; the count starts anew.
  abbrev pub Only : Type 0 → AuthResult → Provider W X → Type 0
  Only P result t =
      (other : UserToken)
      → result ≡ AuthResult.success other
      → (other ≡ token) × (count account_id t.counter ≡ 0) × P

  Only-denied : (P : Type 0) (msg : String) (t : Provider W X) → Only P (AuthResult.denied msg) t
  Only-denied P msg t other e = cc

  Ends-success :
      (P : Type 0)
      → P
      → Ends (Only P) (do reset_bad_pin_count account_id; pure (AuthResult.success token))
  unfolding reset_bad_pin_count ◌>>=◌
  Ends-success P p = record {
    at = λ s result e other o. ground (
      arith,
      count-insert account_id account_id 0 s.counter,
      (eq_iff account_id account_id).1 refl,
    );
  }

  told :
      (P : Type 0) (msg : String) (early : Option String)
      → Ends (Only P) (elim early [
        | some m ↦ pure {W = W} {X = X} (AuthResult.denied m)
        | none ↦ pure (AuthResult.denied msg)
      ])
  told P msg none = Ends-pure _ _ (Only-denied P msg)
  told P msg (some m) = Ends-pure _ _ (Only-denied P m)

  pub Ends-denied :
      (P : Type 0) (msg : String) → Ends (Only P) (deny_bad_pin device config account_id msg)
  unfolding deny_bad_pin
  Ends-denied P msg =
      Ends-bind (Only P) (handle_hello_bad_pin_count device config account_id) _ (told P msg)

  -- What loading the PRT returns with is a denial.
  abbrev Refusal : Option AuthResult → Type 0
  Refusal o =
      (result : AuthResult) → o ≡ some result → (msg : String) × (result ≡ AuthResult.denied msg)

  Refusal-none : Refusal none
  Refusal-none result e = cc

  Refusal-denied : (msg : String) → Refusal (some (AuthResult.denied msg))
  Refusal-denied msg result e = (msg, ground arith)

  expired_or_kept :
      (prt : X) (expired : Bool)
      → Ends
          (λ o t. Refusal o)
          (if expired
            then pure (
                some (
                  AuthResult.denied
                    "Offline auth has expired. Please connect to the network to continue."))
            else (do add device account_id (RefreshCacheEntry.prt prt); pure none))
  expired_or_kept prt true = Ends-pure _ _ (λ t. Refusal-denied _)
  expired_or_kept prt false = Ends-bind _ _ _ (λ u. Ends-pure _ _ (λ t. Refusal-none))

  Ends-unsealed_prt : (prt : X) → Ends (λ o t. Refusal o) (unsealed_prt device account_id prt)
  unfolding unsealed_prt
  Ends-unsealed_prt prt =
      Ends-bind _ _ _ (λ r. Ends-bind _ (or_fail IdpError.tpm r) _ (expired_or_kept prt))

  sealed_prt :
      (key : X) (cred : String) (o : Option X)
      → Ends
          (λ o t. Refusal o)
          (elim o [
            | some sealed ↦ do
              r ← outside (device.unseal_user_prt_with_hello_key sealed key cred)
              prt ← or_fail IdpError.tpm r
              unsealed_prt device account_id prt
            | none ↦ pure {W = W} {X = X} none
          ])
  sealed_prt key cred none = Ends-pure _ _ (λ t. Refusal-none)
  sealed_prt key cred (some sealed) =
      Ends-bind _ _ _ (λ r. Ends-bind _ (or_fail IdpError.tpm r) _ Ends-unsealed_prt)

  Ends-load_cached_prt :
      (key : X) (cred : String)
      → Ends (λ o t. Refusal o) (load_cached_prt device account_id key cred)
  unfolding load_cached_prt
  Ends-load_cached_prt key cred = Ends-bind _ _ _ (sealed_prt key cred)

  early_prt :
      (has_prts : Bool) (key : X) (cred : String)
      → Ends
          (λ o t. Refusal o)
          (if has_prts then load_cached_prt device account_id key cred else pure none)
  early_prt true key cred = Ends-load_cached_prt key cred
  early_prt false key cred = Ends-pure _ _ (λ t. Refusal-none)

  code_or_success :
      (P : Type 0) (asks : Bool)
      → P
      → Ends (Only P) (
          if asks
          then pure (
              AuthResult.next (
                AuthRequest.hello_totp
                  "Please enter your Hello TOTP code from your Authenticator: "))
          else (do reset_bad_pin_count account_id; pure (AuthResult.success token)))
  code_or_success P true p = Ends-pure _ _ (λ t other e. cc)
  code_or_success P false p = Ends-success P p

  Ends-after_prt :
      (P : Type 0) (storage_key : X) (o : Option AuthResult)
      → P
      → Refusal o
      → Ends (Only P) (after_prt device config account_id token storage_key o)
  unfolding after_prt
  Ends-after_prt P storage_key none p r =
      Ends-bind _ _ _
        (λ u. Ends-bind _ _ _ (λ setup. code_or_success P (setup && config.enable_hello_totp) p))
  Ends-after_prt P storage_key (some result) p r =
      let (msg, e) = r result refl in
      Ends-pure _ _ (λ t. subst (λ x. Only P x t) (sym e) (Only-denied P msg t))

  pub Ends-after_pin :
      (P : Type 0) (has_prts : Bool) (key : X) (cred : String) (r : Result X (Unit {0}))
      → ((storage_key : X) → r ≡ ok storage_key → P)
      → Ends (Only P) (after_pin device config has_prts account_id token key cred r)
  unfolding after_pin
  Ends-after_pin P has_prts key cred (ok storage_key) opened =
      Ends-after Refusal _ _ _ (early_prt has_prts key cred)
        (λ o. Ends-after_prt P storage_key o (opened storage_key refl))
  Ends-after_pin P has_prts key cred (err e) opened = Ends-denied _ _

  pub Ends-after_code :
      (P : Type 0) (sealed : X) (pending : Option X) (valid : Bool)
      → (valid ≡ true → P)
      → Ends (Only P) (after_code device config account_id token sealed pending valid)
  unfolding after_code
  Ends-after_code P sealed pending true p =
      Ends-bind _ (keep_totp device account_id sealed pending) _ (λ u. Ends-success P (p refl))
  Ends-after_code P sealed pending false p = Ends-denied P _
