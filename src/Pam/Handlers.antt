-- ===== src/Pam/Handlers.antt =====
-- The handlers of the daemon's responses in src/common/src/auth.rs.
pub mod Safe
pub mod Polling
use Prim.Native.String.{◌++◌ as append}
use himmelblau.Common.{
  ℕ, zero, suc, ◌+◌, ◌-◌, ◌*◌, ◌^◌, Bool, true, false, not, ◌&&◌, ◌||◌, String, Option, none, some,
  List, Result, ok, err, ltb, ◌==◌, str_eq, if◌then◌else◌,
}
use himmelblau.Proto.{PamAuthRequest, PamAuthResponse, ClientRequest, ClientResponse, PamResultCode}
use himmelblau.Pam.{
  ℤ, pos, negsuc, BluetoothState, Config, Options, Front, AuthenticateState, PamWhatNext, Exit, Ui,
  value_of, leave_with, ask, state, do_, change, ◌>>=◌, ◌>>◌, pam_fail, prompt,
}
use himmelblau.Pam.Qr.{generate_unicode_qr, hello_totp_enroll_fallback_msg}
use himmelblau.Pam.Texts.{contains, starts_with, is_blank}

abbrev step : PamAuthRequest → PamWhatNext
step req = PamWhatNext.next (ClientRequest.pam_authenticate_step req)

abbrev is_negative : ℤ → Bool
is_negative (pos n) = false
is_negative (negsuc n) = true

-- `as u32`, of an i32
as_u32 : ℤ → ℕ
as_u32 (pos n) = n
as_u32 (negsuc n) = 2 ^ 32 - 1 - n

-- `n + 1` on an i32, in a build that wraps.
add_one : ℕ → ℤ
add_one n = if n + 1 == 2 ^ 31 then negsuc (2 ^ 31 - 1) else pos (n + 1)

next_attempt : ℤ → ℤ
unfolding add_one
next_attempt (negsuc n) = pos 0
next_attempt (pos n) = add_one n

module _ {W : Type 0} (front : Front W) where
  open front use {print_text, prompt_echo_off, sleep}

  with_qr : String → Result String (Unit {0}) → String
  with_qr msg (ok qr) = append msg (append "\n" qr)
  with_qr msg (err e) = msg

  url_qr : String → Option String → String
  unfolding with_qr
  url_qr msg (some url) = with_qr msg (generate_unicode_qr front url)
  url_qr msg none = msg

  poll_message : String → String → String
  unfolding contains is_blank url_qr
  poll_message service msg =
      if not (contains msg "https://microsoft.com/devicelogin") && not (is_blank msg)
      then append msg "\nNo push? Check your mobile device's internet connection."
      else if not (str_eq service "gdm-password")
      then url_qr msg (front.first_url msg)
      else msg

  abbrev when : Bool → Ui W (Unit {0}) → Ui W (Unit {0})
  when b act = if b then act else value_of tt

  pub handle_pam_auth_response_mfapoll : String → ℕ → Ui W PamWhatNext
  unfolding poll_message as_u32 pam_fail
  handle_pam_auth_response_mfapoll text interval = do
    msg ← state (λ s. poll_message s.service text)
    when (not (is_blank msg)) (do_ (print_text msg))
    asks ← state (λ s. s.opts.mfa_poll_prompt && (contains s.service "ssh" && not (is_blank msg)))
    when asks (do _ ← ask (prompt_echo_off "Press enter to continue"); value_of tt)
    fresh ← state (λ s. is_negative s.poll_attempt)
    if fresh
        then (do
          change (λ s. record s { poll_attempt = pos 0; polling_interval = interval })
          do_ (sleep interval)
          value_of (step (PamAuthRequest.mfa_poll 0)))
        else pam_fail front "Unexpected error occurred." PamResultCode.pam_system_err

  pub handle_pam_auth_response_mfapollwait : Ui W PamWhatNext
  unfolding next_attempt as_u32
  handle_pam_auth_response_mfapollwait = do
    interval ← state (λ s. s.polling_interval)
    do_ (sleep interval)
    change (λ s. record s { poll_attempt = next_attempt s.poll_attempt })
    attempt ← state (λ s. s.poll_attempt)
    value_of (step (PamAuthRequest.mfa_poll (as_u32 attempt)))

  pub handle_pam_auth_response_unknown : Ui W PamWhatNext
  handle_pam_auth_response_unknown = do
    ignore ← state (λ s. s.opts.ignore_unknown_user)
    value_of (
        PamWhatNext.finish
          (if ignore then PamResultCode.pam_ignore else PamResultCode.pam_user_unknown))

  abbrev pub init_request : AuthenticateState W → ClientRequest
  init_request s =
      ClientRequest.pam_authenticate_init s.account_id s.service s.opts.no_hello_pin
        s.opts.force_reauth

  pub handle_pam_auth_response_denied : String → Ui W PamWhatNext
  handle_pam_auth_response_denied msg = do
    do_ (print_text msg)
    do_ (sleep 2)
    req ← state init_request
    value_of (PamWhatNext.next req)

  -- The swap of the authtok with nothing: what was there.
  pub take_authtok : Ui W (Option String)
  take_authtok = do
    authtok ← state (λ s. s.authtok)
    change (λ s. record s { authtok = none })
    value_of authtok

  pub ask_password : Option String → Ui W String
  unfolding prompt
  ask_password (some url) = prompt front "Cloud Password:" "No Entra Id password was supplied."
  ask_password none = do
    text ← state (λ s. s.cfg.entra_id_password_prompt)
    do_ (print_text text)
    prompt front "Entra Id Password:" "No Entra Id password was supplied."

  pub ask_pin : Ui W String
  unfolding prompt
  ask_pin = do
    text ← state (λ s. s.cfg.hello_pin_prompt)
    do_ (print_text text)
    prompt front "PIN: " "No Entra Id Hello PIN was supplied."

  abbrev pub or_ask : Option String → Ui W String → Ui W String
  or_ask (some cred) act = value_of cred
  or_ask none act = act

  pub handle_pam_auth_response_password : Ui W PamWhatNext
  unfolding take_authtok ask_password
  handle_pam_auth_response_password = do
    authtok ← take_authtok
    issuer ← state (λ s. s.cfg.oidc_issuer_url)
    cred ← or_ask authtok (ask_password issuer)
    value_of (step (PamAuthRequest.password cred))

  pub handle_pam_auth_response_pin : Ui W PamWhatNext
  unfolding take_authtok ask_pin
  handle_pam_auth_response_pin = do
    authtok ← take_authtok
    cred ← or_ask authtok ask_pin
    value_of (step (PamAuthRequest.pin cred))

  pub handle_pam_auth_response_mfacode : String → Ui W PamWhatNext
  unfolding prompt
  handle_pam_auth_response_mfacode msg = do
    do_ (print_text msg)
    cred ← prompt front "Code: " "No Entra Id auth code was supplied."
    value_of (step (PamAuthRequest.mfa_code cred))

  -- Without a QR code, the key to type in.
  enroll : Result String String → Ui W (Unit {0})
  unfolding pam_fail
  enroll (ok msg) = do_ (print_text msg)
  enroll (err msg) = pam_fail front msg PamResultCode.pam_system_err

  show_totp : String → Result String (Unit {0}) → Ui W (Unit {0})
  unfolding enroll
  show_totp msg (ok qr) = do_ (
      print_text (
        append
          "Open your authenticator app and scan this QR code to enroll. Then enter the generated code.\n"
          qr))
  show_totp msg (err e) = enroll (hello_totp_enroll_fallback_msg front msg)

  pub handle_pam_auth_response_hellototp : String → Ui W PamWhatNext
  unfolding starts_with prompt show_totp
  handle_pam_auth_response_hellototp msg = do
    service ← state (λ s. s.service)
    if starts_with msg "otpauth://" && not (str_eq service "gdm-password")
        then show_totp msg (generate_unicode_qr front msg)
        else do_ (print_text msg)
    cred ← prompt front "TOTP Code: " "No Hello TOTP code was supplied."
    value_of (step (PamAuthRequest.hello_totp cred))

  pub handle_pam_auth_init_denied : String → Ui W PamWhatNext
  unfolding pam_fail
  handle_pam_auth_init_denied msg = pam_fail front msg PamResultCode.pam_abort
