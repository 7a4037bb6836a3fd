-- ===== src/Pam/Handlers/Polling.antt =====
-- How the handlers of src/common/src/auth.rs count the polls for a second factor.
use himmelblau.Common.{
  not, ◌&&◌, ℕ, ◌+◌, ◌^◌, ◌<◌, ◌≡◌, refl, Bool, true, false, String, arith, if◌then◌else◌,
}
use himmelblau.Proto.{PamAuthRequest, ClientRequest, PamResultCode}
use himmelblau.Pam.{
  pos, Front, AuthenticateState, PamWhatNext, Exit, Ui, value_of, ask, state, change, do_, ◌>>=◌,
  ◌>>◌, pam_fail,
}
use himmelblau.Pam.Rules.{Polled}
use himmelblau.Pam.Handlers.{
  next_attempt, add_one, as_u32, when, is_negative, poll_message, handle_pam_auth_response_mfapoll,
  handle_pam_auth_response_mfapollwait,
}
use himmelblau.Pam.Texts.{contains, is_blank}

module _ {W : Type 0} (front : Front W) where
  next_attempt-pos : (n : ℕ) → n + 1 < 2 ^ 31 → next_attempt (pos n) ≡ pos (n + 1)
  unfolding next_attempt add_one
  next_attempt-pos n small = ground arith

  -- An answer that says to wait is followed by one more poll, with the next number, below 2^31.
  pub mfapollwait_counts :
      (n : ℕ) (s : AuthenticateState W)
      → s.poll_attempt ≡ pos n
      → n + 1 < 2 ^ 31
      → ((handle_pam_auth_response_mfapollwait front s).0
          ≡ Exit.value (
              PamWhatNext.next
                (ClientRequest.pam_authenticate_step (PamAuthRequest.mfa_poll (n + 1)))))
        × ((handle_pam_auth_response_mfapollwait front s).1.poll_attempt ≡ pos (n + 1))
  unfolding handle_pam_auth_response_mfapollwait as_u32 ◌>>=◌
  mfapollwait_counts n s at_n small = rw (at_n, next_attempt-pos n small) (refl, refl)

  abbrev polls : ℕ → Bool → Ui W PamWhatNext
  polls interval fresh =
      if fresh
      then (do
        change (λ s. record s { poll_attempt = pos 0; polling_interval = interval })
        do_ (front.sleep interval)
        value_of
            (PamWhatNext.next (ClientRequest.pam_authenticate_step (PamAuthRequest.mfa_poll 0))))
      else pam_fail front "Unexpected error occurred." PamResultCode.pam_system_err

  abbrev Aborts : Ui W PamWhatNext → AuthenticateState W → Type 0
  Aborts m s = (m s).0 ≡ Exit.leave (PamWhatNext.finish PamResultCode.pam_abort)

  not_fresh :
      (n interval : ℕ) (s : AuthenticateState W)
      → s.poll_attempt ≡ pos n
      → Aborts (do fresh ← state (λ s. is_negative s.poll_attempt); polls interval fresh) s
  unfolding pam_fail ◌>>=◌
  not_fresh n interval s at_n = rw (at_n) refl

  after_question :
      (asks : Bool) (n interval : ℕ) (s : AuthenticateState W)
      → s.poll_attempt ≡ pos n
      → Aborts
          (do
            when front asks
                (do _ ← ask (front.prompt_echo_off "Press enter to continue"); value_of tt)
            fresh ← state (λ s. is_negative s.poll_attempt)
            polls interval fresh)
          s
  unfolding ◌>>=◌
  after_question true n interval s at_n = not_fresh n interval _ at_n
  after_question false n interval s at_n = not_fresh n interval s at_n

  after_message :
      (shows : Bool) (asks : AuthenticateState W → Bool) (msg : String) (n interval : ℕ)
      (s : AuthenticateState W)
      → s.poll_attempt ≡ pos n
      → Aborts
          (do
            when front shows (do_ (front.print_text msg))
            b ← state asks
            when front b (do _ ← ask (front.prompt_echo_off "Press enter to continue"); value_of tt)
            fresh ← state (λ s. is_negative s.poll_attempt)
            polls interval fresh)
          s
  unfolding ◌>>=◌
  after_message true asks msg n interval s at_n = after_question _ n interval _ at_n
  after_message false asks msg n interval s at_n = after_question _ n interval s at_n

  pub mfapoll_again :
      (n interval : ℕ) (msg : String) (s : AuthenticateState W)
      → s.poll_attempt ≡ pos n
      → Aborts (handle_pam_auth_response_mfapoll front msg interval) s
  unfolding handle_pam_auth_response_mfapoll ◌>>=◌
  mfapoll_again n interval msg s at_n =
      let m = poll_message front s.service msg in
      after_message (not (is_blank m))
        (λ s. s.opts.mfa_poll_prompt && (contains s.service "ssh" && not (is_blank m))) m n interval
        s at_n

  -- A wait for the daemon counts one more poll.
  pub handle_pam_auth_response_mfapollwait_polled :
      (s : AuthenticateState W) (k : ℕ)
      → k + 1 < 2 ^ 31
      → Polled k s.poll_attempt
      → Polled (k + 1) (handle_pam_auth_response_mfapollwait front s).1.poll_attempt
  handle_pam_auth_response_mfapollwait_polled s k small p =
      let bound = p.bound in
      record {
        count = p.count + 1;
        bound = omega arith;
        counted = (mfapollwait_counts p.count s p.counted (omega arith)).1;
      }
