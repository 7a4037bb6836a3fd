-- ===== src/Pam/Choose.antt =====
-- The choice of a new PIN and of a new password, with its confirmation, src/common/src/auth.rs. The
-- source asks until an answer is accepted and confirmed; here `fuel` bounds the rounds.
pub mod Safe
pub mod Accepted
mod Tests
use Prim.Native.String.{◌++◌ as append}
use himmelblau.Common.{
  ℕ, zero, suc, Bool, true, false, String, Option, none, some, Result, ok, err, ltb, ◌==◌, codes,
  byte_len, str_eq, if◌then◌else◌,
}
use himmelblau.Pin.{PolicyError, is_simple_pin, meets_intune_pin_policy}
use himmelblau.Proto.{PamAuthRequest, ClientRequest, PamResultCode}
use himmelblau.Pam.{
  Front, Config, AuthenticateState, PamWhatNext, Exit, Ui, value_of, leave_with, ask, state, do_,
  ◌>>=◌, ◌>>◌, pam_fail, prompt,
}

-- What one round of the loop comes to: `continue`, or the answer that was accepted and confirmed.
pub data Round : Type 0 where
  again : Round
  chosen : String → Round

module _ {W : Type 0} (front : Front W) where
  open front use {print_text, sleep, to_text}

  -- The `Err` of `meets_intune_pin_policy`.
  policy_msg : PolicyError → String
  policy_msg PolicyError.not_loaded = "Failed to load policy cache."
  policy_msg (PolicyError.too_few min label) =
      append "PIN is not compliant with administrator policy: must contain at least " (
        append (to_text min) (
          append " "
            (append label (append " character" (append (if min == 1 then "" else "s") ".")))))

  -- Why an answer is not accepted as a new PIN.
  pub refused_pin : ℕ → String → Ui W (Option String)
  unfolding policy_msg
  refused_pin min cred =
      if ltb (byte_len (codes cred)) min
      then value_of
          (some (append "Chosen pin is too short! " (append (to_text min) " chars required.")))
      else if is_simple_pin (codes cred)
      then value_of (
          some
            "PIN must not use repeating or predictable sequences. Avoid patterns like '111111', '123456', or '135791'.")
      else (do
        policies ← ask front.policy_cache
        value_of (elim (meets_intune_pin_policy policies (codes cred)) [
          | ok t ↦ none
          | err e ↦ some (policy_msg e)
        ]))

  -- The second answer, and whether it is the first one again.
  confirm_with : String → String → String → String → Ui W Round
  unfolding prompt
  confirm_with msg question missing first = do
    do_ (print_text msg)
    confirm ← prompt front question missing
    if str_eq first confirm then value_of (Round.chosen first) else (do
      do_ (print_text "Inputs did not match. Try again.")
      do_ (sleep 2)
      value_of Round.again)

  pin_answered : String → String → Option String → Ui W Round
  unfolding confirm_with
  pin_answered msg cred (some why) = do do_ (print_text why); do_ (sleep 2); value_of Round.again
  pin_answered msg cred none =
      confirm_with msg "Confirm PIN: " "No Entra Id Hello confirmation PIN was supplied." cred

  -- One round of the loop of `handle_pam_auth_response_setup_pin`.
  pub pin_round : String → Ui W Round
  unfolding prompt refused_pin pin_answered
  pin_round msg = do
    do_ (print_text msg)
    cred ← prompt front "New PIN: " "No Entra Id Hello PIN was supplied."
    min ← state (λ s. s.cfg.hello_pin_min_length)
    why ← refused_pin min cred
    pin_answered msg cred why

  -- One round of the loop of `handle_pam_auth_response_change_password`.
  pub password_round : String → Ui W Round
  unfolding prompt confirm_with
  password_round msg = do
    do_ (print_text msg)
    cred ← prompt front "New password: " "No Entra Id password was supplied."
    if ltb (byte_len (codes cred)) 8
        then (do
          do_ (print_text "Chosen password is too short! 8 chars required.")
          value_of Round.again)
        else confirm_with msg "Confirm password: " "No Entra Id confirmation password was supplied."
            cred

  abbrev pub after_round : Round → Ui W String → Ui W String
  after_round Round.again rest = rest
  after_round (Round.chosen cred) rest = value_of cred

  -- `loop`, for at most `fuel` rounds.
  pub rounds : ℕ → Ui W Round → Ui W String
  rounds zero round = leave_with PamWhatNext.waiting
  rounds (suc fuel) round = do r ← round; after_round r (rounds fuel round)

  pub handle_pam_auth_response_setup_pin : ℕ → String → Ui W PamWhatNext
  unfolding pin_round rounds
  handle_pam_auth_response_setup_pin fuel msg = do
    min ← state (λ s. s.cfg.hello_pin_min_length)
    pin ← rounds fuel (
        pin_round (
          append msg (append "\nThe minimum PIN length is " (append (to_text min) " characters."))))
    do_ (print_text "Enrolling the Hello PIN. Please wait...")
    value_of (PamWhatNext.next (ClientRequest.pam_authenticate_step (PamAuthRequest.setup_pin pin)))

  pub handle_pam_auth_response_change_password : ℕ → String → Ui W PamWhatNext
  unfolding password_round rounds
  handle_pam_auth_response_change_password fuel msg = do
    password ← rounds fuel (password_round msg)
    do_ (print_text "Changing the password. Please wait...")
    value_of
        (PamWhatNext.next (ClientRequest.pam_authenticate_step (PamAuthRequest.password password)))
