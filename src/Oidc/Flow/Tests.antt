-- ===== src/Oidc/Flow/Tests.antt =====
-- Runs of the OpenID Connect provider as a client of the orchestrator
-- (src/common/src/idprovider/openidconnect.rs), and the theorems on them. The world of the sample
-- counts the commands and the polls; JSON is a prefix of one letter.
use himmelblau.Common.{
  ℕ, ◌+◌, ◌≡◌, refl, true, false, String, none, some, List, [], ◌∷◌, ok, err, length, ltb, str_eq,
  if◌then◌else◌,
}
use himmelblau.Proto.{PamAuthRequest}
use himmelblau.Idp.{AuthRequest, AuthResult}
use himmelblau.Resolver.Sample.{alice}
use himmelblau.Oidc.{
  OrchestratorInputType, OrchestratorRequiredInput, OrchestratorTokenBundle, OrchestratorCommand,
  OrchestratorResponse, OrchestratorFlowState, OidcMfaExtraData, OidcOrchestratorConfig, MsalError,
  Mfa, Handler, Client,
}
use himmelblau.Oidc.Codec.{Parsed}
use himmelblau.Oidc.Inputs.{auth_request_from_orchestrator_inputs}
use himmelblau.Oidc.Validate.{Valid}
use himmelblau.Oidc.Flow.{orchestrator_try_start, mfa_step}
use himmelblau.Oidc.Start.{maybe_start_orchestrator_flow}
use himmelblau.Oidc.Flow.Checked.{skips, mfa_step-Checked}

abbrev code_input : OrchestratorRequiredInput
code_input = record {
  name = "otp";
  input_type = OrchestratorInputType.otp;
  prompt = none;
  optional = false;
}

abbrev session : OrchestratorFlowState
session = record { session_id = "s1"; required_inputs = code_input ∷ []; dag_json = some "dag" }

abbrev bundle : OrchestratorTokenBundle
bundle = record {
  access_token = none;
  id_token = none;
  refresh_token = none;
  authorization_code = none;
}

abbrev answer_to : OrchestratorCommand → OrchestratorResponse
answer_to (OrchestratorCommand.start_session start) =
    OrchestratorResponse.next_step "s1" (code_input ∷ []) none
answer_to (OrchestratorCommand.next_step id inputs) =
    OrchestratorResponse.session_complete id true bundle

-- The token endpoint has the token at the second poll.
abbrev client : Client ℕ String String
client = record {
  parse_extra =
      λ raw. if str_eq raw "state" then ok (OidcMfaExtraData.orchestrator session) else err tt;
  write_extra = λ extra. ok "state";
  parse_dag = λ raw. if str_eq raw "dag" then ok "device" else err tt;
  new_uuid = λ w. ("s1", w);
  send_command = λ command w. (ok (answer_to command), w + 1);
  acquire_token_by_device_flow =
      λ dag w. if ltb w 1 then (err MsalError.mfa_poll_continue, w + 1) else (ok "token", w + 1);
  acquire_token_by_refresh_token = λ token w. (ok "token", w);
  interval = λ dag. 5;
  expires_in = λ dag. 900;
  write_dag = λ dag. ok "dag";
  verification_uri_complete = λ dag. none;
  verification_uri = λ dag. "https://example.org/device";
  user_code = λ dag. "ABCD";
  to_lowercase = λ s. s;
  tenant_id = λ w. (ok "tenant", w);
  user_token_from_oidc = λ token tenant w. (ok alice, w);
  refresh_token = λ token. none;
  cache_refresh_token = λ account token w. w;
}

abbrev cfg : OidcOrchestratorConfig
cfg = record { enabled = true; provider = none; poll_interval_secs = 5 }

abbrev flow : String → Mfa
flow extra = record { max_poll_attempts = none; polling_interval = none; extra_data = some extra }

starts :
    (orchestrator_try_start client cfg "alice" none none none (some "dag") 0).0
    ≡ some (OidcMfaExtraData.orchestrator session)
unfolding orchestrator_try_start
starts = refl

-- Where the orchestrator goes on, the user is asked for what it requires; where it is off, nothing is
-- sent to it.
begins : maybe_start_orchestrator_flow client cfg "alice" none "device" 0 ≡ (
  ok (
      some (
        AuthRequest.mfa_code "Enter value for otp",
        record {
          max_poll_attempts = none;
          polling_interval = some 5000;
          extra_data = some "state";
        },
      )),
  1,
)
unfolding maybe_start_orchestrator_flow
begins = refl

begins_off :
    maybe_start_orchestrator_flow client (record cfg { enabled = false }) "alice" none "device" 0
    ≡ (ok none, 0)
unfolding maybe_start_orchestrator_flow
begins_off = refl

asks_code :
    auth_request_from_orchestrator_inputs (code_input ∷ []) 5
    ≡ AuthRequest.mfa_code "Enter value for otp"
unfolding auth_request_from_orchestrator_inputs
asks_code = refl

-- A device flow waits at the first poll, and signs the user in at the second.
waits :
    (mfa_step client alice.name false false cfg (flow "dag") (PamAuthRequest.mfa_poll 1) 0).0
    ≡ ok (AuthResult.next AuthRequest.mfa_poll_wait)
unfolding mfa_step
waits = refl

signs_in :
    (mfa_step client alice.name false false cfg (flow "dag") (PamAuthRequest.mfa_poll 2) 1).0
    ≡ ok (AuthResult.success alice)
unfolding mfa_step
signs_in = refl

times_out :
    (mfa_step client alice.name false false cfg (flow "dag") (PamAuthRequest.mfa_poll 181) 1).0
    ≡ ok (AuthResult.denied "Authentication timed out. Please try again.")
unfolding mfa_step
times_out = refl

abbrev another : Client ℕ String String
another = record client {
  user_token_from_oidc = λ token tenant w. (ok (record alice { name = "bob" }), w);
}

refuses_another :
    (mfa_step another alice.name false false cfg (flow "dag") (PamAuthRequest.mfa_poll 2) 1).0
      ≡ ok (AuthResult.success (record alice { name = "bob" }))
    → ⊥
unfolding mfa_step
refuses_another h = cc

-- With Hello, a code that completes the orchestrator's session leads to a new PIN.
sets_up :
    (mfa_step client alice.name true false cfg
      (flow "state")
      (PamAuthRequest.mfa_code "123456")
      1).1
    ≡ Handler.setup_pin
unfolding mfa_step
sets_up = refl

mfa_step-Checked_example :
    (skips client alice.name false false ≡ true) × Valid client alice.name alice
mfa_step-Checked_example =
    mfa_step-Checked client alice.name false false cfg (flow "dag") (PamAuthRequest.mfa_poll 2) 1
      alice signs_in

abbrev halves : List ℕ → Parsed
halves src = if ltb (length src) 2 then Parsed.eof else Parsed.value (OrchestratorResponse.pong "1")

abbrev first_byte : List ℕ
first_byte = 123 ∷ []
