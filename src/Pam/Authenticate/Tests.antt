-- ===== src/Pam/Authenticate/Tests.antt =====
-- Runs of the client's loop, src/common/src/auth.rs.
use himmelblau.Common.{◌≡◌, ◌↔◌, refl, true, false, if◌then◌else◌, none, some, String, ok, arith}
use himmelblau.Proto.{PamAuthRequest, PamAuthResponse, ClientRequest, ClientResponse, PamResultCode}
use himmelblau.Pam.{Front, AuthenticateState, Options, PamWhatNext, ◌>>=◌}
use himmelblau.Pam.Sample.{front, config, start, first}
use himmelblau.Pam.Authenticate.{authenticate, handle, authenticate_request_response, requests}
use himmelblau.Pam.Authenticate.Success.{says_success, authenticate_request_response-success}
use himmelblau.Pam.Authenticate.Polls.{Passes, mfapoll_once}
use himmelblau.Pam.Authenticate.Authtok.{takes_authtok, handle_authtok}
use himmelblau.Pam.Authenticate.Loop.{Succeeds, requests-success}

authenticate_request_response-success_example :
    ((authenticate_request_response (front PamAuthResponse.pin) 3 first (start "271828")).0
      ≡ PamWhatNext.finish PamResultCode.pam_success)
    ↔ (says_success
          (front PamAuthResponse.pin)
          ((front PamAuthResponse.pin).call_and_wait first 10 "271828").0
        ≡ true)
authenticate_request_response-success_example =
    authenticate_request_response-success (front PamAuthResponse.pin) 3 first (start "271828")

requests-success_example :
    ((requests (front PamAuthResponse.success) 3 first (start "271828")).0
      ≡ some PamResultCode.pam_success)
    ↔ Succeeds (front PamAuthResponse.success) 2 first (start "271828")
requests-success_example = requests-success (front PamAuthResponse.success) 2 first (start "271828")

handle_authtok_example :
    (handle (front PamAuthResponse.pin) 3 PamAuthResponse.pin (start "271828")).1.authtok
    ≡ (if takes_authtok PamAuthResponse.pin then none else some "secret")
handle_authtok_example =
    handle_authtok (front PamAuthResponse.pin) 3 PamAuthResponse.pin (start "271828")

-- A daemon that asks to poll at the start, and denies then.
abbrev answers : ClientRequest → PamAuthResponse
answers (ClientRequest.pam_authenticate_init account service no_hello_pin force) =
    PamAuthResponse.mfa_poll "approve" 5
answers (ClientRequest.pam_authenticate_step req) = PamAuthResponse.denied "no"

abbrev denying : Front String
denying = record (front PamAuthResponse.pin) {
  call_and_wait =
      λ req timeout w. (ok (ClientResponse.pam_authenticate_step_response (answers req)), w);
}

abbrev polled : AuthenticateState String
polled =
    (authenticate_request_response denying 3
      (ClientRequest.pam_authenticate_step (PamAuthRequest.mfa_poll 0)) (start "271828")).1

mfapoll_once_example :
    (authenticate_request_response denying 3 first polled).0
    ≡ PamWhatNext.finish PamResultCode.pam_abort
mfapoll_once_example =
    mfapoll_once denying 1 0 3 5 "approve" first (start "271828") polled refl
      (Passes.pass 3 (ClientRequest.pam_authenticate_step (PamAuthRequest.mfa_poll 0))
        Passes.none_yet)
      (omega arith) refl

abbrev no_options : Options
no_options = record {
  ignore_unknown_user = false;
  mfa_poll_prompt = false;
  no_hello_pin = false;
  force_reauth = false;
}

lets_in :
    authenticate
      (front PamAuthResponse.success)
      1
      true
      none
      config
      "alice"
      "login"
      no_options
      "271828"
    ≡ some PamResultCode.pam_success
unfolding authenticate handle ◌>>=◌
lets_in = refl
