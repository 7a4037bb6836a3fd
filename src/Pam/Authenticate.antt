-- ===== src/Pam/Authenticate.antt =====
-- The client's loop, src/common/src/auth.rs. The source goes on until a handler finishes; here `fuel`
-- bounds the requests, and the rounds of a choice of PIN or password.
pub mod Success
pub mod Loop
pub mod Authtok
pub mod Polls
mod Tests
use himmelblau.Common.{ℕ, zero, suc, Bool, true, false, String, Option, none, some, Result, ok, err}
use himmelblau.Proto.{PamAuthResponse, ClientRequest, ClientResponse, PamResultCode}
use himmelblau.Pam.{
  ℤ, negsuc, Config, Options, Front, AuthenticateState, PamWhatNext, Exit, Ui, value_of, ask, state,
  ◌>>=◌, ◌>>◌, pam_fail,
}
use himmelblau.Pam.Choose.{
  handle_pam_auth_response_setup_pin, handle_pam_auth_response_change_password,
}
use himmelblau.Pam.Handlers.{
  init_request, handle_pam_auth_response_mfapoll, handle_pam_auth_response_mfapollwait,
  handle_pam_auth_response_unknown, handle_pam_auth_response_denied,
  handle_pam_auth_response_password, handle_pam_auth_response_pin, handle_pam_auth_response_mfacode,
  handle_pam_auth_response_hellototp, handle_pam_auth_init_denied,
}
use himmelblau.Pam.Fido.{handle_pam_auth_response_fido}

module _ {W : Type 0} (front : Front W) where
  pub handle : ℕ → PamAuthResponse → Ui W PamWhatNext
  handle fuel PamAuthResponse.unknown = handle_pam_auth_response_unknown front
  handle fuel PamAuthResponse.success = value_of (PamWhatNext.finish PamResultCode.pam_success)
  handle fuel (PamAuthResponse.denied msg) = handle_pam_auth_response_denied front msg
  handle fuel (PamAuthResponse.init_denied msg) = handle_pam_auth_init_denied front msg
  handle fuel PamAuthResponse.password = handle_pam_auth_response_password front
  handle fuel (PamAuthResponse.mfa_code msg) = handle_pam_auth_response_mfacode front msg
  handle fuel (PamAuthResponse.hello_totp msg) = handle_pam_auth_response_hellototp front msg
  handle fuel (PamAuthResponse.mfa_poll msg interval) =
      handle_pam_auth_response_mfapoll front msg interval
  handle fuel PamAuthResponse.mfa_poll_wait = handle_pam_auth_response_mfapollwait front
  handle fuel (PamAuthResponse.setup_pin msg) = handle_pam_auth_response_setup_pin front fuel msg
  handle fuel PamAuthResponse.pin = handle_pam_auth_response_pin front
  handle fuel (PamAuthResponse.fido challenge allowed key cross_device) =
      handle_pam_auth_response_fido front challenge allowed key cross_device
  handle fuel (PamAuthResponse.change_password msg) =
      handle_pam_auth_response_change_password front fuel msg

  answered : ℕ → Result ClientResponse (Unit {0}) → Ui W PamWhatNext
  unfolding handle pam_fail
  answered fuel (err e) = pam_fail front "An unexpected error occurred." PamResultCode.pam_ignore
  answered fuel (ok (ClientResponse.pam_authenticate_step_response resp)) = handle fuel resp
  answered fuel (ok ClientResponse.other) =
      pam_fail front "An unexpected error occurred." PamResultCode.pam_ignore

  -- A handler's early return is what comes next.
  abbrev what_next : Exit PamWhatNext → PamWhatNext
  what_next (Exit.value what) = what
  what_next (Exit.leave what) = what

  pub authenticate_request_response :
      ℕ → ClientRequest → AuthenticateState W → PamWhatNext × AuthenticateState W
  unfolding answered
  authenticate_request_response fuel req s =
      let (res, w) = front.call_and_wait req s.cfg.unix_sock_timeout s.world in
      let (exit, s') = answered fuel res (record s { world = w }) in (what_next exit, s')

  abbrev pub loop_on :
      PamWhatNext
      → (ClientRequest → Option PamResultCode × AuthenticateState W)
      → AuthenticateState W
      → Option PamResultCode × AuthenticateState W
  loop_on (PamWhatNext.next req) rest s = rest req
  loop_on (PamWhatNext.finish code) rest s = (some code, s)
  loop_on PamWhatNext.waiting rest s = (none, s)

  -- The loop of `authenticate`; none if it goes on.
  pub requests :
      ℕ → ClientRequest → AuthenticateState W → Option PamResultCode × AuthenticateState W
  unfolding authenticate_request_response
  requests zero req s = (none, s)
  requests (suc fuel) req s =
      let (what, s') = authenticate_request_response fuel req s in
      loop_on what (λ req'. requests fuel req' s') s'

  -- Without a client there is nothing to ask: `connected` says whether the daemon's socket opened.
  pub authenticate :
      ℕ → Bool → Option String → Config → String → String → Options → W → Option PamResultCode
  unfolding requests
  authenticate fuel false authtok cfg account_id service opts w = some PamResultCode.pam_ignore
  authenticate fuel true authtok cfg account_id service opts w =
      let s : AuthenticateState W = record {
        authtok = authtok;
        cfg = cfg;
        account_id = account_id;
        service = service;
        opts = opts;
        poll_attempt = negsuc 0;
        polling_interval = 2;
        world = w;
      } in
      (requests fuel (init_request front s) s).0
