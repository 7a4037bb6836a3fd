-- ===== src/Pam/Fido/Safe.antt =====
-- The FIDO handler of src/common/src/auth.rs under the rules.
use himmelblau.Common.{ℕ, zero, suc, Bool, true, false, String, List, Result, ok, err}
use himmelblau.Proto.{PamResultCode}
use himmelblau.Pam.{Front, value_of}
use himmelblau.Pam.Rules.{
  Safe, Safe-bind, Safe-do_, Safe-ask, Safe-if, Safe-value_of, Harmless, safe_rules, harmless_rules,
}
use himmelblau.Pam.Fido.{
  is_on, wait_bluetooth, second_chance, finish_fido, with_hardware, handle_pam_auth_response_fido,
}

module _ {W : Type 0} (front : Front W) where
  wait_bluetooth-Safe : (n : ℕ) → Safe (wait_bluetooth front n)
  unfolding wait_bluetooth
  wait_bluetooth-Safe zero = search safe_rules
  wait_bluetooth-Safe (suc n) = Safe-bind _ _ (Safe-do_ (front.sleep 1)) λ _.
      Safe-bind _ _ (Safe-ask front.check_bluetooth) λ bt.
        Safe-if (is_on bt) (value_of true) (wait_bluetooth front n) (Safe-value_of true)
          (wait_bluetooth-Safe n)

  second_chance-Safe : (try : Bool) → Safe (second_chance front try)
  unfolding second_chance
  second_chance-Safe false = search safe_rules
  second_chance-Safe true = search (safe_rules, wait_bluetooth-Safe) depth 7

  finish_fido-Harmless :
      (msg : String) (r : Result String PamResultCode) → Harmless (finish_fido front msg r)
  unfolding finish_fido
  finish_fido-Harmless msg (ok assertion) = search harmless_rules
  finish_fido-Harmless msg (err e) = search harmless_rules

  with_hardware-Harmless :
      (challenge : String) (allowed : List String) (key phone graphical : Bool)
      → Harmless (with_hardware front challenge allowed key phone graphical)
  unfolding with_hardware
  with_hardware-Harmless challenge allowed key phone graphical =
      search (harmless_rules, finish_fido-Harmless) depth 12

  pub handle_pam_auth_response_fido-Harmless :
      (challenge : String) (allowed : List String) (key cross_device : Bool)
      → Harmless (handle_pam_auth_response_fido front challenge allowed key cross_device)
  unfolding handle_pam_auth_response_fido
  handle_pam_auth_response_fido-Harmless challenge allowed key cross_device =
      search (harmless_rules, second_chance-Safe, with_hardware-Harmless) depth 12
