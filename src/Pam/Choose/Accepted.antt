-- ===== src/Pam/Choose/Accepted.antt =====
-- Which PIN the client of src/common/src/auth.rs sends for enrolment, and that it does send one.
use himmelblau.Common.{
  ℕ, zero, suc, ◌≤◌, ◌≡◌, refl, sym, ◌∙◌, subst, Bool, true, false, String, Option, none, some,
  Result, ok, err, codes, byte_len, ltb, ltb→le, arith, if◌then◌else◌, ap,
}
use himmelblau.Pin.{PolicyError, is_simple_pin, meets_intune_pin_policy}
use himmelblau.Proto.{PamAuthRequest, ClientRequest}
use himmelblau.Pam.{
  Front, Config, AuthenticateState, PamWhatNext, Exit, value_of, ask, do_, state, or_fail, go_on,
  ◌>>=◌, ◌>>◌, pam_fail, prompt,
}
use himmelblau.Pam.Choose.Safe.{pin_round-Safe}
use himmelblau.Pam.Choose.{
  Round, rounds, pin_round, refused_pin, policy_msg, pin_answered, confirm_with, after_round,
  handle_pam_auth_response_setup_pin,
}

-- Long enough, not simple, and in accordance with the policies that were loaded.
pub record Accepted {W : Type 0} (front : Front W) (min : ℕ) (pin : String) : Type 0 where
  pub long : min ≤ byte_len (codes pin)
  pub not_simple : is_simple_pin (codes pin) ≡ false
  pub world : W
  pub meets : meets_intune_pin_policy (front.policy_cache world).0 (codes pin) ≡ ok tt

same_value : {A : Type 0} (a b : A) → Exit.value a ≡ Exit.value b → a ≡ b
same_value a b h = cc h

module _ {W : Type 0} (front : Front W) where
  no_policy_error :
      (r : Result (Unit {0}) PolicyError)
      → elim r [ ok t ↦ none | err e ↦ some (policy_msg front e) ] ≡ none
      → r ≡ ok tt
  no_policy_error (ok t) h = refl
  no_policy_error (err e) h = cc

  no_reason :
      (short simple : Bool) (cred a b : String) (s : AuthenticateState W)
      → ((if short then value_of (some a) else if simple then value_of (some b) else (do
        policies ← ask front.policy_cache
        value_of (elim (meets_intune_pin_policy policies (codes cred)) [
          | ok t ↦ none
          | err e ↦ some (policy_msg front e)
        ])))
          s).0
        ≡ Exit.value none
      → (short ≡ false)
        × (simple ≡ false)
        × (meets_intune_pin_policy (front.policy_cache s.world).0 (codes cred) ≡ ok tt)
  unfolding ◌>>=◌
  no_reason true simple cred a b s h = cc
  no_reason false true cred a b s h = cc
  no_reason false false cred a b s h = (refl, refl, no_policy_error _ (same_value _ _ h))

  refused_pin-none :
      (min : ℕ) (cred : String) (s : AuthenticateState W)
      → (refused_pin front min cred s).0 ≡ Exit.value none
      → Accepted front min cred
  unfolding refused_pin ◌>>=◌
  refused_pin-none min cred s h =
      let (long, complex, meets) =
        no_reason (ltb (byte_len (codes cred)) min) (is_simple_pin (codes cred)) cred _ _ s h in
      record { long = ltb→le _ _ long; not_simple = complex; world = s.world; meets = meets }

  confirm_with-chosen :
      (msg question missing first c : String) (s : AuthenticateState W)
      → (confirm_with front msg question missing first s).0 ≡ Exit.value (Round.chosen c)
      → first ≡ c
  unfolding confirm_with prompt pam_fail ◌>>=◌
  confirm_with-chosen msg question missing first c s h = ground arith

  pin_answered-chosen :
      (msg cred c : String) (why : Option String) (s : AuthenticateState W)
      → (pin_answered front msg cred why s).0 ≡ Exit.value (Round.chosen c)
      → (why ≡ none) × (cred ≡ c)
  unfolding pin_answered ◌>>=◌
  pin_answered-chosen msg cred c (some why) s h = cc
  pin_answered-chosen msg cred c none s h = (
    refl,
    confirm_with-chosen msg "Confirm PIN: " "No Entra Id Hello confirmation PIN was supplied." cred
        c s h,
  )

  why_chosen :
      (msg cred c : String) (r : Exit (Option String)) (s : AuthenticateState W)
      → (go_on r (pin_answered front msg cred) s).0 ≡ Exit.value (Round.chosen c)
      → (r ≡ Exit.value none) × (cred ≡ c)
  why_chosen msg cred c (Exit.value why) s h =
      let (none_given, same) = pin_answered-chosen msg cred c why s h in
      (rw (none_given) refl, same)
  why_chosen msg cred c (Exit.leave what) s h = cc

  after_prompt :
      (msg c : String) (answer : Option String) (s : AuthenticateState W)
      → ((or_fail front "No Entra Id Hello PIN was supplied." answer >>= λ cred. do
        min ← state (λ s. s.cfg.hello_pin_min_length)
        why ← refused_pin front min cred
        pin_answered front msg cred why)
          s).0
        ≡ Exit.value (Round.chosen c)
      → Accepted front s.cfg.hello_pin_min_length c
  unfolding pam_fail ◌>>=◌
  after_prompt msg c (some cred) s h =
      let (fine, same) = why_chosen msg cred c _ _ h in
      subst (Accepted front s.cfg.hello_pin_min_length) same
        (refused_pin-none s.cfg.hello_pin_min_length cred s fine)
  after_prompt msg c none s h = cc

  pin_round-chosen :
      (msg c : String) (s : AuthenticateState W)
      → (pin_round front msg s).0 ≡ Exit.value (Round.chosen c)
      → Accepted front s.cfg.hello_pin_min_length c
  unfolding pin_round prompt ◌>>=◌
  pin_round-chosen msg c s h = after_prompt msg c _ _ h

  -- The answer of the loop is one that a round has chosen.
  after_round-chosen :
      (fuel : ℕ) (msg c : String) (r : Exit Round) (s s' : AuthenticateState W)
      → (pin_round front msg s ≡ (r, s'))
      → (go_on r (λ a. after_round front a (rounds front fuel (pin_round front msg))) s').0
        ≡ Exit.value c
      → ((rounds front fuel (pin_round front msg) s').0 ≡ Exit.value c
          → Accepted front s'.cfg.hello_pin_min_length c)
      → Accepted front s.cfg.hello_pin_min_length c
  unfolding ◌>>=◌
  after_round-chosen fuel msg c (Exit.value Round.again) s s' e h rest =
      subst (λ (cfg : Config). Accepted front cfg.hello_pin_min_length c)
        (ap (λ r. r.1.cfg) (sym e) ∙ (pin_round-Safe front msg).cfg s) (rest h)
  after_round-chosen fuel msg c (Exit.value (Round.chosen d)) s s' e h rest =
      pin_round-chosen msg c s
        (ap (λ r. r.0) e ∙ ap (λ x. Exit.value (Round.chosen x)) (same_value d c h))
  after_round-chosen fuel msg c (Exit.leave what) s s' e h rest = cc

  rounds-chosen :
      (fuel : ℕ) (msg c : String) (s : AuthenticateState W)
      → (rounds front fuel (pin_round front msg) s).0 ≡ Exit.value c
      → Accepted front s.cfg.hello_pin_min_length c
  unfolding rounds ◌>>=◌
  rounds-chosen zero msg c s h = cc
  rounds-chosen (suc fuel) msg c s h =
      let (r, s') = pin_round front msg s in
      after_round-chosen fuel msg c r s s' refl h (rounds-chosen fuel msg c s')

  abbrev pub enrolls : String → PamWhatNext
  enrolls pin =
      PamWhatNext.next (ClientRequest.pam_authenticate_step (PamAuthRequest.setup_pin pin))

  sends :
      (pin : String) (r : Exit String) (s : AuthenticateState W) (min : ℕ)
      → ((c : String) → r ≡ Exit.value c → Accepted front min c)
      → (go_on r
          (λ c. do
            do_ (front.print_text "Enrolling the Hello PIN. Please wait...")
            value_of (enrolls c))
          s).0
        ≡ Exit.value (enrolls pin)
      → Accepted front min pin
  unfolding ◌>>=◌
  sends pin (Exit.value c) s min each h = subst (Accepted front min) (cc h) (each c refl)
  sends pin (Exit.leave what) s min each h = cc

  -- A PIN is sent for enrolment only if it is at least as long as the configuration demands, is not
  -- simple, and meets the policies that were loaded.
  pub handle_pam_auth_response_setup_pin-Accepted :
      (fuel : ℕ) (msg pin : String) (s : AuthenticateState W)
      → (handle_pam_auth_response_setup_pin front fuel msg s).0 ≡ Exit.value (enrolls pin)
      → Accepted front s.cfg.hello_pin_min_length pin
  unfolding handle_pam_auth_response_setup_pin ◌>>=◌
  handle_pam_auth_response_setup_pin-Accepted fuel msg pin s h =
      sends pin _ _ s.cfg.hello_pin_min_length (λ c e. rounds-chosen fuel _ c s e) h
