-- ===== src/Oidc/Inputs.antt =====
-- What the user is asked for, given the inputs that the orchestrator requires, and which input an
-- answer is for (src/common/src/idprovider/openidconnect.rs).
pub mod Answered
use Prim.Native.String.{◌++◌ as append}
use himmelblau.Common.{
  ℕ, Bool, true, false, ◌||◌, String, Option, none, some, List, [], ◌∷◌, Result, ok, err,
  if◌then◌else◌, any,
}
use himmelblau.Proto.{PamAuthRequest}
use himmelblau.Idp.{IdpError, AuthRequest}
use himmelblau.Oidc.{OrchestratorInputType, OrchestratorRequiredInput, OrchestratorProvidedInput}

abbrev pub is_password : OrchestratorRequiredInput → Bool
is_password input = elim input.input_type [ OrchestratorInputType.password ↦ true | _ ↦ false ]

abbrev pub is_code : OrchestratorRequiredInput → Bool
is_code input = elim input.input_type [
  | OrchestratorInputType.otp ↦ true
  | OrchestratorInputType.text ↦ true
  | _ ↦ false
]

abbrev pub is_confirmation : OrchestratorRequiredInput → Bool
is_confirmation input = elim input.input_type [
  | OrchestratorInputType.confirmation ↦ true
  | _ ↦ false
]

-- `iter().find`
unfoldable pub find_input :
    (OrchestratorRequiredInput → Bool)
    → List OrchestratorRequiredInput
    → Option OrchestratorRequiredInput
find_input p [] = none
find_input p (i ∷ is) = if p i then some i else find_input p is

abbrev or_else : Option String → String → String
or_else (some s) d = s
or_else none d = d

abbrev pub ask_confirmation : ℕ → Option OrchestratorRequiredInput → AuthRequest
ask_confirmation poll_interval_secs (some input) =
    AuthRequest.mfa_poll
      (or_else input.prompt "Approve sign-in in your authenticator app, then wait...")
      poll_interval_secs
ask_confirmation poll_interval_secs none =
    AuthRequest.mfa_poll "Waiting for browser authentication to complete..." poll_interval_secs

abbrev pub ask_code :
    ℕ → List OrchestratorRequiredInput → Option OrchestratorRequiredInput → AuthRequest
ask_code poll_interval_secs inputs (some input) =
    AuthRequest.mfa_code (or_else input.prompt (append "Enter value for " input.name))
ask_code poll_interval_secs inputs none =
    ask_confirmation poll_interval_secs (find_input is_confirmation inputs)

unfoldable pub auth_request_from_orchestrator_inputs :
    List OrchestratorRequiredInput → ℕ → AuthRequest
unfolding find_input
auth_request_from_orchestrator_inputs inputs poll_interval_secs =
    if any is_password inputs
    then AuthRequest.password
    else ask_code poll_interval_secs inputs (find_input is_code inputs)

unfoldable pub confirmations : List OrchestratorRequiredInput → List OrchestratorProvidedInput
confirmations [] = []
confirmations (i ∷ is) =
    let rest = confirmations is in
    if is_confirmation i then record { name = i.name; value = "true" } ∷ rest else rest

-- The only input, where there is one only.
abbrev pub or_only :
    Option OrchestratorRequiredInput
    → List OrchestratorRequiredInput
    → Option OrchestratorRequiredInput
or_only (some input) inputs = some input
or_only none (input ∷ []) = some input
or_only none inputs = none

abbrev pub provide :
    String → Option OrchestratorRequiredInput → Result (List OrchestratorProvidedInput) IdpError
provide cred (some target) = ok (record { name = target.name; value = cred } ∷ [])
provide cred none = err IdpError.bad_request

unfoldable pub orchestrator_inputs_from_pam_request :
    PamAuthRequest
    → List OrchestratorRequiredInput
    → Result (List OrchestratorProvidedInput) IdpError
unfolding confirmations find_input
orchestrator_inputs_from_pam_request (PamAuthRequest.mfa_poll n) inputs = ok (confirmations inputs)
orchestrator_inputs_from_pam_request (PamAuthRequest.password cred) inputs =
    provide cred (or_only (find_input is_password inputs) inputs)
orchestrator_inputs_from_pam_request (PamAuthRequest.mfa_code cred) inputs =
    provide cred (or_only (find_input is_code inputs) inputs)
orchestrator_inputs_from_pam_request request inputs = err IdpError.bad_request
