-- ===== src/Hello/Offline/Lockout.antt =====
-- Wrong PINs, one after the other: after too many the account has no Hello key
-- (src/common/src/idprovider/common.rs).
use himmelblau.Common.{
  ℕ, suc, ◌+◌, ◌^◌, ◌<◌, ◌≤◌, ◌≡◌, refl, sym, subst, ap, ◌∙◌, Bool, String, Option, none, some,
  List, [], ◌∷◌, Result, ok, err, arith, ◌⊎◌, inl, inr, length, All,
}
use himmelblau.Proto.{PamAuthRequest}
use himmelblau.Idp.{IdpError, UserToken, AuthResult, AuthCredHandler}
use himmelblau.Hello.{
  Config, Device, KeyRow, Provider, Act, continue, pure, or_fail, outside, ◌>>=◌, ◌>>◌,
}
use himmelblau.Hello.Keys.{Works}
use himmelblau.Hello.Counter.{count, handle_hello_bad_pin_count}
use himmelblau.Hello.Counter.Deleted.{Gone}
use himmelblau.Hello.Counter.Laws.{handle_hello_bad_pin_count_lem}
use himmelblau.Hello.Load.{fetch_hello_key}
use himmelblau.Hello.Offline.{deny_bad_pin, after_pin, pin_step, offline_auth_step}
use himmelblau.Hello.Load.Laws.{Stored, fetch_hello_key_run}

module _ {W X : Type 0} (device : Device W X) (config : Config) (account_id : String) where
  -- The PIN is one that the TPM takes, and the wrong one for the keys of the account.
  abbrev pub Wrong : List (KeyRow X) → String → Type 0
  Wrong rows cred =
      (device.pin_value cred ≡ ok tt)
      × ((key : X) (w : W)
          → Stored device account_id rows key
          → (device.ms_hello_key_load key cred w).0 ≡ err tt)

  -- After so many bad PINs there is no key, or they were counted and stay within the bound.
  abbrev Within : List (KeyRow X) → ℕ → Provider W X → Type 0
  Within rows n s =
      Gone device account_id s
      ⊎ ((count account_id s.counter ≡ n)
          × (n ≤ config.hello_pin_retry_count)
          × (s.hsm_data_t ≡ rows))

  after_handled :
      (msg : String) (r : Result (Option String) IdpError) (t : Provider W X)
      → (continue r
          (λ early. elim early [
            | some m ↦ pure (AuthResult.denied m)
            | none ↦ pure (AuthResult.denied msg)
          ])
          t).1
        ≡ t
  unfolding ◌>>=◌
  after_handled msg (ok (some m)) t = refl
  after_handled msg (ok none) t = refl
  after_handled msg (err e) t = refl

  deny_bad_pin-state :
      (msg : String) (s : Provider W X)
      → (deny_bad_pin device config account_id msg s).1
        ≡ (handle_hello_bad_pin_count device config account_id s).1
  unfolding deny_bad_pin ◌>>=◌
  deny_bad_pin-state msg s =
      let (r, t) = handle_hello_bad_pin_count device config account_id s in after_handled msg r t

  denied-Within :
      (msg : String) (n : ℕ) (rows : List (KeyRow X)) (s : Provider W X)
      → Works device
      → n + 1 < 2 ^ 32
      → count account_id s.counter ≡ n
      → s.hsm_data_t ≡ rows
      → Within rows (n + 1) (deny_bad_pin device config account_id msg s).1
  denied-Within msg n rows s works small counted same =
      let h = handle_hello_bad_pin_count_lem device config account_id s works in
      subst (Within rows (n + 1)) (sym (deny_bad_pin-state msg s)) ground arith

  abbrev msg_pin : String
  msg_pin = "Failed to authenticate with Hello PIN."

  -- The rest of the step, once the key was looked for.
  abbrev try_key : Bool → UserToken → String → X → Act W X AuthResult
  try_key has_prts token cred key = do
    or_fail IdpError.tpm (device.pin_value cred)
    r ← outside (device.ms_hello_key_load key cred)
    after_pin device config has_prts account_id token key cred r

  try_key-state :
      (has_prts : Bool) (token : UserToken) (cred : String) (key : X) (s : Provider W X)
      → ((w : W) → (device.ms_hello_key_load key cred w).0 ≡ err tt)
      → device.pin_value cred ≡ ok tt
      → try_key has_prts token cred key s
        ≡ deny_bad_pin device config account_id msg_pin
            (record s { world = (device.ms_hello_key_load key cred s.world).1 })
  unfolding after_pin ◌>>=◌
  try_key-state has_prts token cred key s wrong taken = ground (arith, wrong s.world)

  Stored-found :
      (s : Provider W X) (key : X)
      → ((◌≡◌ {A = Result X IdpError} (ok key) (err IdpError.bad_request))
          × Gone device account_id s)
        ⊎ ((k : X) × (◌≡◌ {A = Result X IdpError} (ok key) (ok k))
            × Stored device account_id s.hsm_data_t k)
      → Stored device account_id s.hsm_data_t key
  Stored-found s key found = ground arith

  Stored-Within :
      (rows : List (KeyRow X)) (n : ℕ) (s : Provider W X) (key : X)
      → Within rows n s
      → Stored device account_id s.hsm_data_t key
      → (s.hsm_data_t ≡ rows) × (count account_id s.counter ≡ n)
  Stored-Within rows n s key within found = ground arith

  -- The key was looked for in `s`, with the result `r` and the state `t`.
  tried-Within :
      (has_prts : Bool) (token : UserToken) (cred : String) (n : ℕ) (rows : List (KeyRow X))
      (s t : Provider W X) (r : Result X IdpError)
      → Works device
      → Wrong rows cred
      → n + 1 < 2 ^ 32
      → Within rows n s
      → (t.counter ≡ s.counter)
        × (t.hsm_data_t ≡ s.hsm_data_t)
        × (((r ≡ err IdpError.bad_request) × Gone device account_id s)
            ⊎ ((key : X) × (r ≡ ok key) × Stored device account_id s.hsm_data_t key))
      → Within rows (n + 1) (continue r (try_key has_prts token cred) t).1
  tried-Within has_prts token cred n rows s t (ok key) works wrong small within found =
      let stored_key = Stored-found s key found.2 in
      let still : (s.hsm_data_t ≡ rows) × (count account_id s.counter ≡ n) =
        Stored-Within rows n s key within stored_key in
      let wrong_key =
        λ (w : W). wrong.1 key w (subst (λ l. Stored device account_id l key) still.0 stored_key) in
      subst (λ p. Within rows (n + 1) p.1)
        (sym (try_key-state has_prts token cred key t wrong_key wrong.0))
        (denied-Within msg_pin n rows
          (record t { world = (device.ms_hello_key_load key cred t.world).1 }) works small
          (ap (count account_id) found.0 ∙ still.1) (found.1 ∙ still.0))
  tried-Within has_prts token cred n rows s t (err e) works wrong small within found = ground arith

  pin_step-Within :
      (has_prts : Bool) (token : UserToken) (cred : String) (n : ℕ) (rows : List (KeyRow X))
      (s : Provider W X)
      → Works device
      → Wrong rows cred
      → n + 1 < 2 ^ 32
      → Within rows n s
      → Within rows (n + 1) (pin_step device config has_prts account_id token cred s).1
  unfolding pin_step ◌>>=◌
  pin_step-Within has_prts token cred n rows s works wrong small within =
      let (r, t) = fetch_hello_key device account_id s in
      tried-Within has_prts token cred n rows s t r works wrong small within
        (fetch_hello_key_run device account_id s works)

  -- The state after these PINs were tried, one after the other.
  abbrev pub after_pins :
      Bool → UserToken → AuthCredHandler X → List String → Provider W X → Provider W X
  after_pins has_prts token handler [] s = s
  after_pins has_prts token handler (pin ∷ pins) s =
      after_pins has_prts token handler pins
        (offline_auth_step device config has_prts account_id token handler (PamAuthRequest.pin pin)
          s).1

  after_pins-Within :
      (has_prts : Bool) (token : UserToken) (handler : AuthCredHandler X) (pins : List String)
      (n : ℕ) (rows : List (KeyRow X)) (s : Provider W X)
      → Works device
      → All (Wrong rows) pins
      → n + length pins < 2 ^ 32
      → Within rows n s
      → Within rows (n + length pins) (after_pins has_prts token handler pins s)
  unfolding offline_auth_step
  after_pins-Within has_prts token handler [] n rows s works wrong small within = ground arith
  after_pins-Within has_prts token handler (pin ∷ pins) n rows s works wrong small within =
      let one =
        pin_step-Within has_prts token pin n rows s works wrong.0 (omega (arith, small)) within in
      let rest =
        after_pins-Within has_prts token handler pins (n + 1) rows
          (pin_step device config has_prts account_id token pin s).1 works wrong.1
          (omega (arith, small)) one in
      let sums : (n + 1) + length pins ≡ n + suc (length pins) = omega arith in
      subst
        (λ k. Within rows k (
          after_pins has_prts token handler pins
            (pin_step device config has_prts account_id token pin s).1))
        sums rest

  no_key :
      (f : X → Act W X AuthResult) (r : Result X IdpError) (t : Provider W X)
      → r ≡ err IdpError.bad_request
      → (continue r f t).0 ≡ err IdpError.bad_request
  no_key f r t h = ap (λ q. (continue q f t).0) h

  missing :
      (s : Provider W X) (r : Result X IdpError)
      → Gone device account_id s
      → ((r ≡ err IdpError.bad_request) × Gone device account_id s)
        ⊎ ((key : X) × (r ≡ ok key) × Stored device account_id s.hsm_data_t key)
      → r ≡ err IdpError.bad_request
  missing s r gone (inl h) = h.0
  missing s r gone (inr h) = ground arith

  pin_step-Gone :
      (has_prts : Bool) (token : UserToken) (cred : String) (s : Provider W X)
      → Works device
      → Gone device account_id s
      → (pin_step device config has_prts account_id token cred s).0 ≡ err IdpError.bad_request
  unfolding pin_step ◌>>=◌
  pin_step-Gone has_prts token cred s works gone =
      let (r, t) = fetch_hello_key device account_id s in
      no_key (try_key has_prts token cred) r t
        (missing s r gone (fetch_hello_key_run device account_id s works).2)

  -- Let SQLite not fail, and let wrong PINs be tried one after the other, more than the bound of the
  -- configuration leaves. Then no Hello key of the account is left: every PIN, the right one too, is
  -- answered with an error, until a new key is enrolled.
  pub after_pins-locked :
      (has_prts : Bool) (token : UserToken) (handler : AuthCredHandler X) (pins : List String)
      (s : Provider W X) (pin : String)
      → Works device
      → All (Wrong s.hsm_data_t) pins
      → count account_id s.counter ≤ config.hello_pin_retry_count
      → config.hello_pin_retry_count < count account_id s.counter + length pins
      → count account_id s.counter + length pins < 2 ^ 32
      → (let t = after_pins has_prts token handler pins s in
          Gone device account_id t
          × ((offline_auth_step device config has_prts account_id token handler
                (PamAuthRequest.pin pin)
                t).0
              ≡ err IdpError.bad_request))
  unfolding offline_auth_step
  after_pins-locked has_prts token handler pins s pin works wrong below above small =
      let within =
        after_pins-Within has_prts token handler pins (count account_id s.counter) s.hsm_data_t s
          works wrong small (inr (refl, below, refl)) in
      let t = after_pins has_prts token handler pins s in
      let gone : Gone device account_id t = ground arith in
      (gone, pin_step-Gone has_prts token pin t works gone)
