-- ===== src/Pam/Authenticate/Success.antt =====
-- When the client of src/common/src/auth.rs ends with PAM_SUCCESS.
use himmelblau.Common.{ℕ, ◌≡◌, ◌≢◌, ◌↔◌, refl, Bool, true, false, Result, ok, err}
use himmelblau.Proto.{PamAuthResponse, ClientRequest, ClientResponse, PamResultCode}
use himmelblau.Pam.{Front, AuthenticateState, PamWhatNext, Exit, ◌>>=◌, pam_fail}
use himmelblau.Pam.Rules.{NoSuccess}
use himmelblau.Pam.Choose.Safe.{
  handle_pam_auth_response_setup_pin-Harmless, handle_pam_auth_response_change_password-Harmless,
}
use himmelblau.Pam.Fido.Safe.{handle_pam_auth_response_fido-Harmless}
use himmelblau.Pam.Handlers.Safe.{
  handle_pam_auth_response_mfapoll-Harmless, handle_pam_auth_response_denied-Harmless,
  handle_pam_auth_response_mfacode-Harmless, handle_pam_auth_response_hellototp-Harmless,
  handle_pam_auth_init_denied-Harmless, handle_pam_auth_response_unknown_lem,
  handle_pam_auth_response_mfapollwait_lem, handle_pam_auth_response_password_lem,
  handle_pam_auth_response_pin_lem,
}
use himmelblau.Pam.Authenticate.{handle, answered, what_next, authenticate_request_response}

module _ {W : Type 0} (front : Front W) where
  handle-success :
      (fuel : ℕ) (resp : PamAuthResponse) (s : AuthenticateState W)
      → resp ≢ PamAuthResponse.success
      → NoSuccess (handle front fuel resp s).0
  unfolding handle
  handle-success fuel PamAuthResponse.unknown s h = handle_pam_auth_response_unknown_lem front s
  handle-success fuel PamAuthResponse.success s h = absurd (h refl)
  handle-success fuel (PamAuthResponse.denied msg) s h =
      (handle_pam_auth_response_denied-Harmless front msg).ends s
  handle-success fuel (PamAuthResponse.init_denied msg) s h =
      (handle_pam_auth_init_denied-Harmless front msg).ends s
  handle-success fuel PamAuthResponse.password s h = handle_pam_auth_response_password_lem front s
  handle-success fuel (PamAuthResponse.mfa_code msg) s h =
      (handle_pam_auth_response_mfacode-Harmless front msg).ends s
  handle-success fuel (PamAuthResponse.hello_totp msg) s h =
      (handle_pam_auth_response_hellototp-Harmless front msg).ends s
  handle-success fuel (PamAuthResponse.mfa_poll msg interval) s h =
      (handle_pam_auth_response_mfapoll-Harmless front msg interval).ends s
  handle-success fuel PamAuthResponse.mfa_poll_wait s h =
      handle_pam_auth_response_mfapollwait_lem front s
  handle-success fuel (PamAuthResponse.setup_pin msg) s h =
      (handle_pam_auth_response_setup_pin-Harmless front fuel msg).ends s
  handle-success fuel PamAuthResponse.pin s h = handle_pam_auth_response_pin_lem front s
  handle-success fuel (PamAuthResponse.fido challenge allowed key cross_device) s h =
      (handle_pam_auth_response_fido-Harmless front challenge allowed key cross_device).ends s
  handle-success fuel (PamAuthResponse.change_password msg) s h =
      (handle_pam_auth_response_change_password-Harmless front fuel msg).ends s

  what_next-NoSuccess :
      (r : Exit PamWhatNext)
      → NoSuccess r
      → what_next front r ≢ PamWhatNext.finish PamResultCode.pam_success
  what_next-NoSuccess (Exit.value what) h = h
  what_next-NoSuccess (Exit.leave what) h = h

  -- The daemon's answer is a response to a step, and it is success.
  abbrev pub says_success : Result ClientResponse (Unit {0}) → Bool
  says_success (ok (ClientResponse.pam_authenticate_step_response PamAuthResponse.success)) = true
  says_success res = false

  answered-success :
      (fuel : ℕ) (res : Result ClientResponse (Unit {0})) (s : AuthenticateState W)
      → (what_next front (answered front fuel res s).0
          ≡ PamWhatNext.finish PamResultCode.pam_success)
        ↔ (says_success res ≡ true)
  unfolding answered pam_fail handle ◌>>=◌
  answered-success fuel (err e) s = (λ h. cc, λ h. cc)
  answered-success fuel (ok ClientResponse.other) s = (λ h. cc, λ h. cc)
  answered-success fuel (ok (ClientResponse.pam_authenticate_step_response PamAuthResponse.success))
        s =
      (λ h. refl, λ h. refl)
  answered-success fuel (ok (ClientResponse.pam_authenticate_step_response resp)) s =
      (λ h. absurd (what_next-NoSuccess _ (handle-success fuel resp s (λ e. cc)) h), λ h. cc)

  -- A request ends the client with PAM_SUCCESS exactly when the daemon answers it with success:
  -- nothing that the user types, and no failure, comes to that.
  pub authenticate_request_response-success :
      (fuel : ℕ) (req : ClientRequest) (s : AuthenticateState W)
      → ((authenticate_request_response front fuel req s).0
          ≡ PamWhatNext.finish PamResultCode.pam_success)
        ↔ (says_success (front.call_and_wait req s.cfg.unix_sock_timeout s.world).0 ≡ true)
  unfolding authenticate_request_response
  authenticate_request_response-success fuel req s =
      let (res, w) = front.call_and_wait req s.cfg.unix_sock_timeout s.world in
      answered-success fuel res (record s { world = w })
