-- ===== src/Pam/Authenticate/Polls.antt =====
-- The count of the polls over the requests of the client's loop, src/common/src/auth.rs.
use himmelblau.Common.{ℕ, suc, ◌+◌, ◌^◌, ◌<◌, ◌≡◌, ap, String, Result, ok, err, arith}
use himmelblau.Proto.{PamAuthResponse, ClientRequest, ClientResponse, PamResultCode}
use himmelblau.Pam.{ℤ, pos, Front, AuthenticateState, PamWhatNext, ◌>>=◌, pam_fail}
use himmelblau.Pam.Rules.{Polled}
use himmelblau.Pam.Choose.Safe.{
  handle_pam_auth_response_setup_pin-Harmless, handle_pam_auth_response_change_password-Harmless,
}
use himmelblau.Pam.Fido.Safe.{handle_pam_auth_response_fido-Harmless}
use himmelblau.Pam.Handlers.Safe.{
  handle_pam_auth_response_mfapoll-Harmless, handle_pam_auth_response_denied-Harmless,
  handle_pam_auth_response_mfacode-Harmless, handle_pam_auth_response_hellototp-Harmless,
  handle_pam_auth_init_denied-Harmless, handle_pam_auth_response_password_polled,
  handle_pam_auth_response_pin_polled, handle_pam_auth_response_unknown_polled,
}
use himmelblau.Pam.Handlers.Polling.{mfapoll_again, handle_pam_auth_response_mfapollwait_polled}
use himmelblau.Pam.Authenticate.{handle, answered, what_next, authenticate_request_response}

module _ {W : Type 0} (front : Front W) where
  Polled-suc : (k : ℕ) (a : ℤ) → Polled k a → Polled (k + 1) a
  Polled-suc k a p =
      let bound = p.bound in record { count = p.count; bound = omega arith; counted = p.counted }

  handle-Polled :
      (fuel : ℕ) (resp : PamAuthResponse) (s : AuthenticateState W) (k : ℕ)
      → k + 1 < 2 ^ 31
      → Polled k s.poll_attempt
      → Polled (k + 1) (handle front fuel resp s).1.poll_attempt
  unfolding handle ◌>>=◌
  handle-Polled fuel PamAuthResponse.unknown s k small p =
      Polled-suc k _ (handle_pam_auth_response_unknown_polled front s k p)
  handle-Polled fuel PamAuthResponse.success s k small p = Polled-suc k _ p
  handle-Polled fuel (PamAuthResponse.denied msg) s k small p =
      Polled-suc k _ ((handle_pam_auth_response_denied-Harmless front msg).polled s k p)
  handle-Polled fuel (PamAuthResponse.init_denied msg) s k small p =
      Polled-suc k _ ((handle_pam_auth_init_denied-Harmless front msg).polled s k p)
  handle-Polled fuel PamAuthResponse.password s k small p =
      Polled-suc k _ (handle_pam_auth_response_password_polled front s k p)
  handle-Polled fuel (PamAuthResponse.mfa_code msg) s k small p =
      Polled-suc k _ ((handle_pam_auth_response_mfacode-Harmless front msg).polled s k p)
  handle-Polled fuel (PamAuthResponse.hello_totp msg) s k small p =
      Polled-suc k _ ((handle_pam_auth_response_hellototp-Harmless front msg).polled s k p)
  handle-Polled fuel (PamAuthResponse.mfa_poll msg interval) s k small p =
      Polled-suc k _ ((handle_pam_auth_response_mfapoll-Harmless front msg interval).polled s k p)
  handle-Polled fuel PamAuthResponse.mfa_poll_wait s k small p =
      handle_pam_auth_response_mfapollwait_polled front s k small p
  handle-Polled fuel (PamAuthResponse.setup_pin msg) s k small p =
      Polled-suc k _ ((handle_pam_auth_response_setup_pin-Harmless front fuel msg).polled s k p)
  handle-Polled fuel PamAuthResponse.pin s k small p =
      Polled-suc k _ (handle_pam_auth_response_pin_polled front s k p)
  handle-Polled fuel (PamAuthResponse.fido challenge allowed key cross_device) s k small p =
      Polled-suc k _ (
        (handle_pam_auth_response_fido-Harmless front challenge allowed key cross_device).polled s k
          p)
  handle-Polled fuel (PamAuthResponse.change_password msg) s k small p =
      Polled-suc k _
        ((handle_pam_auth_response_change_password-Harmless front fuel msg).polled s k p)

  answered-Polled :
      (fuel : ℕ) (res : Result ClientResponse (Unit {0})) (s : AuthenticateState W) (k : ℕ)
      → k + 1 < 2 ^ 31
      → Polled k s.poll_attempt
      → Polled (k + 1) (answered front fuel res s).1.poll_attempt
  unfolding answered pam_fail ◌>>=◌
  answered-Polled fuel (ok (ClientResponse.pam_authenticate_step_response resp)) s k small p =
      handle-Polled fuel resp s k small p
  answered-Polled fuel (ok ClientResponse.other) s k small p = Polled-suc k _ p
  answered-Polled fuel (err e) s k small p = Polled-suc k _ p

  -- So many passes of the loop lead from the first state to the second, whatever each asks of the
  -- daemon and whatever fuel it has.
  pub data Passes : ℕ → AuthenticateState W → AuthenticateState W → Type 0 where
    none_yet : {s : AuthenticateState W} → Passes 0 s s
    pass :
        {k : ℕ} {s t : AuthenticateState W} (fuel : ℕ) (req : ClientRequest)
        → Passes k s t
        → Passes (suc k) s (authenticate_request_response front fuel req t).1

  Passes-Polled :
      (k n : ℕ) (s t : AuthenticateState W)
      → Passes k s t
      → n + k < 2 ^ 31
      → Polled n s.poll_attempt
      → Polled (n + k) t.poll_attempt
  unfolding authenticate_request_response
  Passes-Polled _ n s _ none_yet small p =
      let bound = p.bound in record { count = p.count; bound = omega arith; counted = p.counted }
  Passes-Polled _ n s _ (pass {k = k} {t = t} fuel req before) small p =
      let after =
        answered-Polled fuel _ _ (n + k) (omega arith)
          (Passes-Polled k n s t before (omega arith) p) in
      let bound = after.bound in
      record { count = after.count; bound = omega arith; counted = after.counted }

  -- Once the client has counted a poll, every demand of the daemon to poll that it gets in later passes
  -- of its loop aborts the authentication, whatever came in between: a denial, say, after which it
  -- starts anew. The count and the passes together are below 2^31.
  pub mfapoll_once :
      (k n fuel interval : ℕ) (msg : String) (req : ClientRequest) (s t : AuthenticateState W)
      → s.poll_attempt ≡ pos n
      → Passes k s t
      → n + k < 2 ^ 31
      → (front.call_and_wait req t.cfg.unix_sock_timeout t.world).0
        ≡ ok (ClientResponse.pam_authenticate_step_response (PamAuthResponse.mfa_poll msg interval))
      → (authenticate_request_response front fuel req t).0
        ≡ PamWhatNext.finish PamResultCode.pam_abort
  unfolding authenticate_request_response answered handle
  mfapoll_once k n fuel interval msg req s t at_n passes small demand =
      let p =
        Passes-Polled k n s t passes small
          (record { count = n; bound = omega arith; counted = at_n }) in
      rw (demand) (ap (what_next front) (mfapoll_again front p.count interval msg _ p.counted))
