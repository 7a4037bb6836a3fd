-- ===== src/Pam/Handlers/Safe.antt =====
-- The handlers of src/common/src/auth.rs under the rules.
use himmelblau.Common.{
  ℕ, arith, ◌≡◌, ◌≢◌, refl, Bool, true, false, String, Option, none, some, Result, ok, err,
}
use himmelblau.Proto.{PamAuthRequest, ClientRequest, PamResultCode}
use himmelblau.Pam.{Front, AuthenticateState, PamWhatNext, Exit, Ui, value_of, state, change, ◌>>=◌}
use himmelblau.Pam.Rules.{
  Polled, Harmless-bind, Harmless-if, NoSuccess, Safe, Harmless, safe_rules, harmless_rules,
}
use himmelblau.Common.{if◌then◌else◌}
use himmelblau.Pam.Qr.{hello_totp_enroll_fallback_msg}
use himmelblau.Pam.Handlers.{
  enroll, show_totp, handle_pam_auth_response_mfapoll, handle_pam_auth_response_mfapollwait,
  handle_pam_auth_response_denied, handle_pam_auth_response_mfacode,
  handle_pam_auth_response_hellototp, handle_pam_auth_response_unknown, handle_pam_auth_init_denied,
  ask_password, ask_pin, or_ask, take_authtok, handle_pam_auth_response_password,
  handle_pam_auth_response_pin,
}

module _ {W : Type 0} (front : Front W) where
  Safe-poll :
      (f : AuthenticateState W → AuthenticateState W)
      → ((s : AuthenticateState W) → (f s).authtok ≡ s.authtok)
      → ((s : AuthenticateState W) → (f s).cfg ≡ s.cfg)
      → ((s : AuthenticateState W) (k : ℕ) → Polled k s.poll_attempt → Polled k (f s).poll_attempt)
      → Safe (change f)
  unfolding ◌>>=◌
  Safe-poll f k c p = record { leaves = λ s. tt; authtok = k; cfg = c; polled = p }

  pub handle_pam_auth_response_mfapoll-Harmless :
      (msg : String) (interval : ℕ) → Harmless (handle_pam_auth_response_mfapoll front msg interval)
  unfolding handle_pam_auth_response_mfapoll
  handle_pam_auth_response_mfapoll-Harmless msg interval =
      Harmless-bind _ _ (search safe_rules) λ shown. Harmless-bind _ _ (search safe_rules) λ _.
        Harmless-bind _ _ (search safe_rules) λ asks.
          Harmless-bind _ _ (search safe_rules depth 9) λ _.
            Harmless-bind _ _ (search safe_rules) λ fresh.
              Harmless-if fresh _ _
                (Harmless-bind _ _
                  (Safe-poll _ (λ s. refl) (λ s. refl)
                    (λ s k p. record { count = 0; bound = omega arith; counted = refl }))
                  λ _. search harmless_rules)
                (search harmless_rules)

  pub handle_pam_auth_response_denied-Harmless :
      (msg : String) → Harmless (handle_pam_auth_response_denied front msg)
  unfolding handle_pam_auth_response_denied
  handle_pam_auth_response_denied-Harmless msg = search harmless_rules depth 9

  pub handle_pam_auth_response_mfacode-Harmless :
      (msg : String) → Harmless (handle_pam_auth_response_mfacode front msg)
  unfolding handle_pam_auth_response_mfacode
  handle_pam_auth_response_mfacode-Harmless msg = search harmless_rules depth 9

  enroll-Safe : (r : Result String String) → Safe (enroll front r)
  unfolding enroll
  enroll-Safe (ok msg) = search safe_rules
  enroll-Safe (err msg) = search safe_rules

  show_totp-Safe : (msg : String) (r : Result String (Unit {0})) → Safe (show_totp front msg r)
  unfolding show_totp
  show_totp-Safe msg (ok qr) = search safe_rules
  show_totp-Safe msg (err e) = enroll-Safe (hello_totp_enroll_fallback_msg front msg)

  pub handle_pam_auth_response_hellototp-Harmless :
      (msg : String) → Harmless (handle_pam_auth_response_hellototp front msg)
  unfolding handle_pam_auth_response_hellototp
  handle_pam_auth_response_hellototp-Harmless msg = search (harmless_rules, show_totp-Safe) depth 12

  pub handle_pam_auth_init_denied-Harmless :
      (msg : String) → Harmless (handle_pam_auth_init_denied front msg)
  unfolding handle_pam_auth_init_denied
  handle_pam_auth_init_denied-Harmless msg = search harmless_rules

  pub ask_password-Safe : (issuer : Option String) → Safe (ask_password front issuer)
  unfolding ask_password
  ask_password-Safe (some url) = search safe_rules
  ask_password-Safe none = search safe_rules depth 9

  pub ask_pin-Safe : Safe (ask_pin front)
  unfolding ask_pin
  ask_pin-Safe = search safe_rules depth 9

  or_ask-Safe : (o : Option String) (act : Ui W String) → Safe act → Safe (or_ask front o act)
  or_ask-Safe (some cred) act k = search safe_rules
  or_ask-Safe none act k = k

  ends :
      (ignore : Bool)
      → PamWhatNext.finish
          (if ignore then PamResultCode.pam_ignore else PamResultCode.pam_user_unknown)
        ≢ PamWhatNext.finish PamResultCode.pam_success
  ends true e = cc
  ends false e = cc

  pub handle_pam_auth_response_unknown_lem :
      (s : AuthenticateState W) → NoSuccess (handle_pam_auth_response_unknown front s).0
  unfolding handle_pam_auth_response_unknown ◌>>=◌
  handle_pam_auth_response_unknown_lem s = ends s.opts.ignore_unknown_user

  pub handle_pam_auth_response_mfapollwait_lem :
      (s : AuthenticateState W) → NoSuccess (handle_pam_auth_response_mfapollwait front s).0
  unfolding handle_pam_auth_response_mfapollwait ◌>>=◌
  handle_pam_auth_response_mfapollwait_lem s e = cc

  password_rest :
      (authtok : Option String)
      → Harmless (do
        issuer ← state (λ s. s.cfg.oidc_issuer_url)
        cred ← or_ask front authtok (ask_password front issuer)
        value_of
            (PamWhatNext.next (ClientRequest.pam_authenticate_step (PamAuthRequest.password cred))))
  password_rest authtok = search (harmless_rules, or_ask-Safe, ask_password-Safe) depth 9

  pub handle_pam_auth_response_password_lem :
      (s : AuthenticateState W) → NoSuccess (handle_pam_auth_response_password front s).0
  unfolding handle_pam_auth_response_password ◌>>=◌
  handle_pam_auth_response_password_lem s =
      (password_rest s.authtok).ends (record s { authtok = none })

  pin_rest :
      (authtok : Option String)
      → Harmless (do
        cred ← or_ask front authtok (ask_pin front)
        value_of (PamWhatNext.next (ClientRequest.pam_authenticate_step (PamAuthRequest.pin cred))))
  pin_rest authtok = search (harmless_rules, or_ask-Safe, ask_pin-Safe) depth 9

  pub handle_pam_auth_response_pin_lem :
      (s : AuthenticateState W) → NoSuccess (handle_pam_auth_response_pin front s).0
  unfolding handle_pam_auth_response_pin ◌>>=◌
  handle_pam_auth_response_pin_lem s = (pin_rest s.authtok).ends (record s { authtok = none })

  -- The authtok that was there is gone, whether or not it was used.
  pub handle_pam_auth_response_password_authtok :
      (s : AuthenticateState W) → (handle_pam_auth_response_password front s).1.authtok ≡ none
  unfolding handle_pam_auth_response_password ◌>>=◌
  handle_pam_auth_response_password_authtok s =
      (password_rest s.authtok).authtok (record s { authtok = none })

  pub handle_pam_auth_response_pin_authtok :
      (s : AuthenticateState W) → (handle_pam_auth_response_pin front s).1.authtok ≡ none
  unfolding handle_pam_auth_response_pin ◌>>=◌
  handle_pam_auth_response_pin_authtok s =
      (pin_rest s.authtok).authtok (record s { authtok = none })

  pub handle_pam_auth_response_unknown_authtok :
      (s : AuthenticateState W) → (handle_pam_auth_response_unknown front s).1.authtok ≡ s.authtok
  unfolding handle_pam_auth_response_unknown ◌>>=◌
  handle_pam_auth_response_unknown_authtok s = refl

  pub handle_pam_auth_response_mfapollwait_authtok :
      (s : AuthenticateState W)
      → (handle_pam_auth_response_mfapollwait front s).1.authtok ≡ s.authtok
  unfolding handle_pam_auth_response_mfapollwait ◌>>=◌
  handle_pam_auth_response_mfapollwait_authtok s = refl

  pub handle_pam_auth_response_password_polled :
      (s : AuthenticateState W) (k : ℕ)
      → Polled k s.poll_attempt
      → Polled k (handle_pam_auth_response_password front s).1.poll_attempt
  unfolding handle_pam_auth_response_password ◌>>=◌
  handle_pam_auth_response_password_polled s k p =
      (password_rest s.authtok).polled (record s { authtok = none }) k p

  pub handle_pam_auth_response_pin_polled :
      (s : AuthenticateState W) (k : ℕ)
      → Polled k s.poll_attempt
      → Polled k (handle_pam_auth_response_pin front s).1.poll_attempt
  unfolding handle_pam_auth_response_pin ◌>>=◌
  handle_pam_auth_response_pin_polled s k p =
      (pin_rest s.authtok).polled (record s { authtok = none }) k p

  pub handle_pam_auth_response_unknown_polled :
      (s : AuthenticateState W) (k : ℕ)
      → Polled k s.poll_attempt
      → Polled k (handle_pam_auth_response_unknown front s).1.poll_attempt
  unfolding handle_pam_auth_response_unknown ◌>>=◌
  handle_pam_auth_response_unknown_polled s k p = p

  pub handle_pam_auth_response_password_given :
      (cred : String) (s : AuthenticateState W)
      → s.authtok ≡ some cred
      → handle_pam_auth_response_password front s ≡ (
        Exit.value
            (PamWhatNext.next (ClientRequest.pam_authenticate_step (PamAuthRequest.password cred))),
        record s { authtok = none },
      )
  unfolding handle_pam_auth_response_password take_authtok ◌>>=◌
  handle_pam_auth_response_password_given cred s given = simp (given)

  pub handle_pam_auth_response_pin_given :
      (cred : String) (s : AuthenticateState W)
      → s.authtok ≡ some cred
      → handle_pam_auth_response_pin front s ≡ (
        Exit.value
            (PamWhatNext.next (ClientRequest.pam_authenticate_step (PamAuthRequest.pin cred))),
        record s { authtok = none },
      )
  unfolding handle_pam_auth_response_pin take_authtok ◌>>=◌
  handle_pam_auth_response_pin_given cred s given = simp (given)
