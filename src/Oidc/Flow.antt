-- ===== src/Oidc/Flow.antt =====
-- The steps of a sign-in with a second device or a browser, the branch for `AuthCredHandler::MFA` of
-- `unix_user_online_auth_step` (src/common/src/idprovider/openidconnect.rs). A step gives its result,
-- always with `AuthCacheAction::None`, the credential handler that it leaves, and the world.
pub mod Checked
mod Tests
use Prim.Native.String.{◌++◌ as append}
use himmelblau.Common.{
  ℕ, ◌*◌, ◌-◌, ◌^◌, Bool, true, false, ◌||◌, not, String, Option, none, some, List, Result, ok, err,
  ltb, if◌then◌else◌,
}
use himmelblau.Proto.{PamAuthRequest}
use himmelblau.Idp.{IdpError, AuthRequest, AuthResult}
use himmelblau.Oidc.{
  StartSession, OrchestratorCommand, OrchestratorResponse, OrchestratorRequiredInput,
  OrchestratorProvidedInput, OrchestratorTokenBundle, OrchestratorFlowState, OidcMfaExtraData,
  OidcOrchestratorConfig, MsalError, Mfa, Handler, Client,
}
use himmelblau.Oidc.Validate.{token_validate}
use himmelblau.Oidc.Inputs.{
  auth_request_from_orchestrator_inputs, orchestrator_inputs_from_pam_request,
}

abbrev pub Reply : Type 0 → Type 0
Reply W = Result AuthResult IdpError × Handler × W

abbrev pub denied : {W : Type 0} → String → Handler → W → Reply W
denied msg handler w = (ok (AuthResult.denied msg), handler, w)

abbrev pub wait : {W : Type 0} → Handler → W → Reply W
wait handler w = (ok (AuthResult.next AuthRequest.mfa_poll_wait), handler, w)

abbrev pub unexpected_step : String
unexpected_step = "Unexpected authentication step. Please try signing in again."

abbrev pub corrupted : String
corrupted = "Authentication session corrupted. Please try again."

abbrev pub timed_out : String
timed_out = "Authentication timed out. Please try again."

abbrev pub setup_pin_msg : String
setup_pin_msg =
    "Set up a PIN\n A Hello PIN is a fast, secure way to signin to your device, apps, and services."

-- `saturating_mul` on u32.
abbrev pub saturating_mul : ℕ → ℕ → ℕ
saturating_mul a b = if ltb (a * b) (2 ^ 32) then a * b else 2 ^ 32 - 1

abbrev pub max_polls : Option ℕ → ℕ
max_polls none = 180
max_polls (some n) = n

abbrev started : Option String → OrchestratorResponse → Option OidcMfaExtraData
started dag_json (OrchestratorResponse.next_step session inputs message) = some (
    OidcMfaExtraData.orchestrator
      (record { session_id = session; required_inputs = inputs; dag_json = dag_json }))
started dag_json response = none

module _ {W D T : Type 0} (client : Client W D T) where
  -- Only an orchestrator that goes on with a step is used; whatever else comes of the start is no error.
  unfoldable pub orchestrator_try_start :
      OidcOrchestratorConfig
      → String
      → Option String
      → Option String
      → Option String
      → Option String
      → W
      → Option OidcMfaExtraData × W
  orchestrator_try_start cfg account_id issuer_url dag_auth_url dag_user_code dag_json w =
      let (session_id, w1) = client.new_uuid w in
      let (r, w2) =
        client.send_command
          (OrchestratorCommand.start_session (record {
            session_id = session_id;
            provider = cfg.provider;
            username = some account_id;
            issuer_url = issuer_url;
            dag_auth_url = dag_auth_url;
            dag_user_code = dag_user_code;
          }))
          w1 in
      elim r [ ok response ↦ (started dag_json response, w2) | err e ↦ (none, w2) ]

  unfoldable pub orchestrator_continue :
      OrchestratorFlowState
      → List OrchestratorProvidedInput
      → W
      → Result OrchestratorResponse (Unit {0}) × W
  orchestrator_continue state inputs w =
      client.send_command (OrchestratorCommand.next_step state.session_id inputs) w

  -- What is not this state is the JSON of a device flow.
  unfoldable pub parse_oidc_mfa_extra_data : String → OidcMfaExtraData
  parse_oidc_mfa_extra_data raw = elim (client.parse_extra raw) [
    | ok extra ↦ extra
    | err e ↦ OidcMfaExtraData.device_flow raw
  ]

  abbrev pub enrolled : Bool → Handler → Result AuthResult IdpError → W → Reply W
  enrolled skips handler (ok (AuthResult.success token)) w =
      if skips
      then (ok (AuthResult.success token), handler, w)
      else (ok (AuthResult.next (AuthRequest.setup_pin setup_pin_msg)), Handler.setup_pin, w)
  enrolled skips handler (ok result) w = (ok result, handler, w)
  enrolled skips handler (err e) w = (err e, handler, w)

  module _ (account_id : String) (hello_enabled no_hello_pin : Bool) where
    unfoldable pub finalize_mfa_success : Handler → T → W → Reply W
    unfolding token_validate
    finalize_mfa_success handler token w =
        let (r, w') = token_validate client account_id token w in
        enrolled (not hello_enabled || no_hello_pin) handler r w'

    -- What came of asking the token endpoint.
    unfoldable pub polled : Handler → Result T MsalError → W → Reply W
    unfolding finalize_mfa_success
    polled handler (ok token) w = finalize_mfa_success handler token w
    polled handler (err MsalError.mfa_poll_continue) w = wait handler w
    polled handler (err (MsalError.other msg)) w =
        denied (append "Authentication failed: " msg) handler w

    unfoldable pub poll_device_flow : Handler → D → W → Reply W
    unfolding polled
    poll_device_flow handler flow w =
        let (r, w') = client.acquire_token_by_device_flow flow w in polled handler r w'

    unfoldable pub poll_parsed : Handler → Result D (Unit {0}) → W → Reply W
    unfolding poll_device_flow
    poll_parsed handler (ok dag) w = poll_device_flow handler dag w
    poll_parsed handler (err e) w = denied corrupted handler w

    unfoldable pub device_flow_step : Mfa → String → PamAuthRequest → W → Reply W
    unfolding poll_parsed
    device_flow_step flow dag_json (PamAuthRequest.mfa_poll poll_attempt) w =
        if ltb (max_polls flow.max_poll_attempts) poll_attempt
        then denied timed_out (Handler.mfa flow) w
        else poll_parsed (Handler.mfa flow) (client.parse_dag dag_json) w
    device_flow_step flow dag_json request w = denied unexpected_step (Handler.mfa flow) w

    -- A refresh token of the orchestrator is exchanged.
    unfoldable pub exchanged : Handler → Result T MsalError → W → Reply W
    unfolding finalize_mfa_success
    exchanged handler (ok token) w = finalize_mfa_success handler token w
    exchanged handler (err e) w =
        denied "Authentication flow completed but token exchange failed. Please try again." handler
          w

    unfoldable pub exchange : Handler → Option String → W → Reply W
    unfolding exchanged
    exchange handler (some token) w =
        let (r, w') = client.acquire_token_by_refresh_token token w in exchanged handler r w'
    exchange handler none w =
        denied "Authentication did not return a refresh token. Please try again." handler w

    unfoldable pub completed : Handler → Option D → OrchestratorTokenBundle → W → Reply W
    unfolding poll_device_flow exchange
    completed handler (some dag) tokens w = poll_device_flow handler dag w
    completed handler none tokens w = exchange handler tokens.refresh_token w

    -- The new state of the flow is kept, and the next request is made; `?` on its JSON.
    unfoldable pub keep_extra :
        OidcOrchestratorConfig → Mfa → AuthRequest → Result String (Unit {0}) → W → Reply W
    keep_extra cfg flow request (ok json) w = (
      ok (AuthResult.next request),
      Handler.mfa (record flow {
        extra_data = some json;
        polling_interval = some (saturating_mul cfg.poll_interval_secs 1000);
      }),
      w,
    )
    keep_extra cfg flow request (err e) w = (err IdpError.bad_request, Handler.mfa flow, w)

    unfoldable pub fall_back : OidcOrchestratorConfig → Mfa → Option String → W → Reply W
    unfolding keep_extra
    fall_back cfg flow (some dag_json) w =
        keep_extra cfg flow AuthRequest.mfa_poll_wait
          (client.write_extra (OidcMfaExtraData.device_flow dag_json)) w
    fall_back cfg flow none w =
        denied "Browser authentication backend unavailable. Please try again." (Handler.mfa flow) w

    unfoldable pub responded :
        OidcOrchestratorConfig
        → Mfa
        → OrchestratorFlowState
        → Option D
        → Result OrchestratorResponse (Unit {0})
        → W
        → Reply W
    unfolding completed keep_extra fall_back auth_request_from_orchestrator_inputs
    responded cfg flow state dag (ok (OrchestratorResponse.next_step session inputs message)) w =
        keep_extra cfg flow (auth_request_from_orchestrator_inputs inputs cfg.poll_interval_secs)
          (client.write_extra (
            OidcMfaExtraData.orchestrator (record {
              session_id = session;
              required_inputs = inputs;
              dag_json = state.dag_json;
            })))
          w
    responded cfg flow state dag (ok (OrchestratorResponse.session_complete session success tokens))
          w =
        if success
        then completed (Handler.mfa flow) dag tokens w
        else denied "Authentication failed in browser flow." (Handler.mfa flow) w
    responded cfg flow state dag (ok (OrchestratorResponse.session_error session error)) w =
        denied (append "Authentication failed: " error) (Handler.mfa flow) w
    responded cfg flow state dag (ok (OrchestratorResponse.error error)) w =
        denied (append "Authentication failed: " error) (Handler.mfa flow) w
    responded cfg flow state dag (ok other) w =
        denied "Authentication session returned an unexpected state. Please try again."
          (Handler.mfa flow) w
    responded cfg flow state dag (err e) w = fall_back cfg flow state.dag_json w

    unfoldable pub send_on :
        OidcOrchestratorConfig
        → Mfa
        → OrchestratorFlowState
        → Option D
        → Result (List OrchestratorProvidedInput) IdpError
        → W
        → Reply W
    unfolding orchestrator_continue responded
    send_on cfg flow state dag (ok inputs) w =
        let (r, w') = orchestrator_continue state inputs w in responded cfg flow state dag r w'
    send_on cfg flow state dag (err e) w = denied unexpected_step (Handler.mfa flow) w

    -- The answer of the user goes to the orchestrator.
    unfoldable pub pass_on :
        OidcOrchestratorConfig
        → Mfa
        → OrchestratorFlowState
        → Option D
        → PamAuthRequest
        → W
        → Reply W
    unfolding send_on orchestrator_inputs_from_pam_request
    pass_on cfg flow state dag request w =
        send_on cfg flow state dag
          (orchestrator_inputs_from_pam_request request state.required_inputs) w

    unfoldable pub poll_first :
        OidcOrchestratorConfig → Mfa → OrchestratorFlowState → Option D → ℕ → W → Reply W
    unfolding poll_device_flow pass_on
    poll_first cfg flow state (some dag) poll_attempt w = poll_device_flow (Handler.mfa flow) dag w
    poll_first cfg flow state none poll_attempt w =
        pass_on cfg flow state none (PamAuthRequest.mfa_poll poll_attempt) w

    unfoldable pub with_dag :
        OidcOrchestratorConfig
        → Mfa
        → OrchestratorFlowState
        → Option D
        → PamAuthRequest
        → W
        → Reply W
    unfolding poll_first pass_on
    with_dag cfg flow state dag (PamAuthRequest.mfa_poll poll_attempt) w =
        if ltb (max_polls flow.max_poll_attempts) poll_attempt
        then denied timed_out (Handler.mfa flow) w
        else poll_first cfg flow state dag poll_attempt w
    with_dag cfg flow state dag request w = pass_on cfg flow state dag request w

    unfoldable pub with_parsed :
        OidcOrchestratorConfig
        → Mfa
        → OrchestratorFlowState
        → Result D (Unit {0})
        → PamAuthRequest
        → W
        → Reply W
    unfolding with_dag
    with_parsed cfg flow state (ok dag) request w = with_dag cfg flow state (some dag) request w
    with_parsed cfg flow state (err e) request w = denied corrupted (Handler.mfa flow) w

    unfoldable pub orchestrator_step :
        OidcOrchestratorConfig
        → Mfa
        → OrchestratorFlowState
        → Option String
        → PamAuthRequest
        → W
        → Reply W
    unfolding with_parsed
    orchestrator_step cfg flow state (some raw) request w =
        with_parsed cfg flow state (client.parse_dag raw) request w
    orchestrator_step cfg flow state none request w = with_dag cfg flow state none request w

    unfoldable pub parsed_step :
        OidcOrchestratorConfig → Mfa → OidcMfaExtraData → PamAuthRequest → W → Reply W
    unfolding device_flow_step orchestrator_step
    parsed_step cfg flow (OidcMfaExtraData.device_flow dag_json) request w =
        device_flow_step flow dag_json request w
    parsed_step cfg flow (OidcMfaExtraData.orchestrator state) request w =
        orchestrator_step cfg flow state state.dag_json request w

    unfoldable pub stored_step :
        OidcOrchestratorConfig → Mfa → Option String → PamAuthRequest → W → Reply W
    unfolding parsed_step parse_oidc_mfa_extra_data
    stored_step cfg flow (some raw) request w =
        parsed_step cfg flow (parse_oidc_mfa_extra_data raw) request w
    stored_step cfg flow none request w =
        denied "Authentication session data missing. Please try again." (Handler.mfa flow) w

    unfoldable pub mfa_step : OidcOrchestratorConfig → Mfa → PamAuthRequest → W → Reply W
    unfolding stored_step
    mfa_step cfg flow request w = stored_step cfg flow flow.extra_data request w
