-- ===== src/Pam/Choose/Safe.antt =====
-- The choices of src/common/src/auth.rs under the rules.
use himmelblau.Common.{ℕ, zero, suc, String, Option, none, some}
use himmelblau.Pam.{Front, Ui}
use himmelblau.Pam.Rules.{Safe, Harmless, safe_rules, harmless_rules}
use himmelblau.Pam.Choose.{
  Round, rounds, pin_round, password_round, refused_pin, pin_answered, confirm_with, after_round,
  handle_pam_auth_response_setup_pin, handle_pam_auth_response_change_password,
}

module _ {W : Type 0} (front : Front W) where
  pub refused_pin-Safe : (min : ℕ) (cred : String) → Safe (refused_pin front min cred)
  unfolding refused_pin
  refused_pin-Safe min cred = search safe_rules depth 9

  confirm_with-Safe :
      (msg question missing first : String) → Safe (confirm_with front msg question missing first)
  unfolding confirm_with
  confirm_with-Safe msg question missing first = search safe_rules depth 12

  pin_answered-Safe :
      (msg cred : String) (why : Option String) → Safe (pin_answered front msg cred why)
  unfolding pin_answered
  pin_answered-Safe msg cred (some why) = search safe_rules depth 9
  pin_answered-Safe msg cred none =
      confirm_with-Safe msg "Confirm PIN: " "No Entra Id Hello confirmation PIN was supplied." cred

  pub pin_round-Safe : (msg : String) → Safe (pin_round front msg)
  unfolding pin_round
  pin_round-Safe msg = search (safe_rules, refused_pin-Safe, pin_answered-Safe) depth 12

  password_round-Safe : (msg : String) → Safe (password_round front msg)
  unfolding password_round
  password_round-Safe msg = search (safe_rules, confirm_with-Safe) depth 12

  pub after_round-Safe :
      (r : Round) (rest : Ui W String) → Safe rest → Safe (after_round front r rest)
  after_round-Safe Round.again rest k = k
  after_round-Safe (Round.chosen cred) rest k = search safe_rules

  pub rounds-Safe : (fuel : ℕ) (round : Ui W Round) → Safe round → Safe (rounds front fuel round)
  unfolding rounds
  rounds-Safe zero round k = search safe_rules
  rounds-Safe (suc fuel) round k =
      search (safe_rules, after_round-Safe, rounds-Safe fuel round k, k) depth 9

  pub handle_pam_auth_response_setup_pin-Harmless :
      (fuel : ℕ) (msg : String) → Harmless (handle_pam_auth_response_setup_pin front fuel msg)
  unfolding handle_pam_auth_response_setup_pin
  handle_pam_auth_response_setup_pin-Harmless fuel msg =
      search (harmless_rules, rounds-Safe, pin_round-Safe) depth 12

  pub handle_pam_auth_response_change_password-Harmless :
      (fuel : ℕ) (msg : String) → Harmless (handle_pam_auth_response_change_password front fuel msg)
  unfolding handle_pam_auth_response_change_password
  handle_pam_auth_response_change_password-Harmless fuel msg =
      search (harmless_rules, rounds-Safe, password_round-Safe) depth 12
