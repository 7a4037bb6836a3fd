-- ===== src/Pam/Authenticate/Authtok.antt =====
-- The authtok that PAM hands to the client of src/common/src/auth.rs is used once.
use himmelblau.Common.{ℕ, ◌≡◌, refl, Bool, true, false, String, none, some, if◌then◌else◌}
use himmelblau.Proto.{PamAuthRequest, PamAuthResponse, ClientRequest}
use himmelblau.Pam.{Front, AuthenticateState, PamWhatNext, Exit, ◌>>=◌}
use himmelblau.Pam.Choose.Safe.{
  handle_pam_auth_response_setup_pin-Harmless, handle_pam_auth_response_change_password-Harmless,
}
use himmelblau.Pam.Fido.Safe.{handle_pam_auth_response_fido-Harmless}
use himmelblau.Pam.Handlers.Safe.{
  handle_pam_auth_response_mfapoll-Harmless, handle_pam_auth_response_denied-Harmless,
  handle_pam_auth_response_mfacode-Harmless, handle_pam_auth_response_hellototp-Harmless,
  handle_pam_auth_init_denied-Harmless, handle_pam_auth_response_password_authtok,
  handle_pam_auth_response_pin_authtok, handle_pam_auth_response_unknown_authtok,
  handle_pam_auth_response_mfapollwait_authtok, handle_pam_auth_response_password_given,
  handle_pam_auth_response_pin_given,
}
use himmelblau.Pam.Authenticate.{handle}

-- The responses that ask for a password or a PIN of the user.
pub takes_authtok : PamAuthResponse → Bool
takes_authtok PamAuthResponse.password = true
takes_authtok PamAuthResponse.pin = true
takes_authtok resp = false

module _ {W : Type 0} (front : Front W) where
  -- Whatever a response leads to, the authtok is gone after one that asks for a password or a PIN, and
  -- as before after every other.
  pub handle_authtok :
      (fuel : ℕ) (resp : PamAuthResponse) (s : AuthenticateState W)
      → (handle front fuel resp s).1.authtok ≡ (if takes_authtok resp then none else s.authtok)
  unfolding handle takes_authtok ◌>>=◌
  handle_authtok fuel PamAuthResponse.unknown s = handle_pam_auth_response_unknown_authtok front s
  handle_authtok fuel PamAuthResponse.success s = refl
  handle_authtok fuel (PamAuthResponse.denied msg) s =
      (handle_pam_auth_response_denied-Harmless front msg).authtok s
  handle_authtok fuel (PamAuthResponse.init_denied msg) s =
      (handle_pam_auth_init_denied-Harmless front msg).authtok s
  handle_authtok fuel PamAuthResponse.password s = handle_pam_auth_response_password_authtok front s
  handle_authtok fuel (PamAuthResponse.mfa_code msg) s =
      (handle_pam_auth_response_mfacode-Harmless front msg).authtok s
  handle_authtok fuel (PamAuthResponse.hello_totp msg) s =
      (handle_pam_auth_response_hellototp-Harmless front msg).authtok s
  handle_authtok fuel (PamAuthResponse.mfa_poll msg interval) s =
      (handle_pam_auth_response_mfapoll-Harmless front msg interval).authtok s
  handle_authtok fuel PamAuthResponse.mfa_poll_wait s =
      handle_pam_auth_response_mfapollwait_authtok front s
  handle_authtok fuel (PamAuthResponse.setup_pin msg) s =
      (handle_pam_auth_response_setup_pin-Harmless front fuel msg).authtok s
  handle_authtok fuel PamAuthResponse.pin s = handle_pam_auth_response_pin_authtok front s
  handle_authtok fuel (PamAuthResponse.fido challenge allowed key cross_device) s =
      (handle_pam_auth_response_fido-Harmless front challenge allowed key cross_device).authtok s
  handle_authtok fuel (PamAuthResponse.change_password msg) s =
      (handle_pam_auth_response_change_password-Harmless front fuel msg).authtok s

  -- The authtok that is there answers the first request for a password, or for a PIN, without a word
  -- to the user, and is gone.
  pub authtok_given :
      (fuel : ℕ) (cred : String) (s : AuthenticateState W)
      → s.authtok ≡ some cred
      → (handle front fuel PamAuthResponse.password s ≡ (
        Exit.value
            (PamWhatNext.next (ClientRequest.pam_authenticate_step (PamAuthRequest.password cred))),
        record s { authtok = none },
      ))
        × (handle front fuel PamAuthResponse.pin s ≡ (
          Exit.value
              (PamWhatNext.next (ClientRequest.pam_authenticate_step (PamAuthRequest.pin cred))),
          record s { authtok = none },
        ))
  unfolding handle
  authtok_given fuel cred s given = (
    handle_pam_auth_response_password_given front cred s given,
    handle_pam_auth_response_pin_given front cred s given,
  )
