-- ===== src/Oidc/Flow/Checked.antt =====
-- A sign-in with a second device or a browser succeeds only by a token that was validated
-- (src/common/src/idprovider/openidconnect.rs).
use himmelblau.Common.{
  ℕ, ◌≡◌, Bool, true, false, ◌||◌, not, String, Option, none, some, List, Result, ok, err, ltb,
  arith, if◌then◌else◌, Bool-cases, inl, inr,
}
use himmelblau.Proto.{PamAuthRequest}
use himmelblau.Idp.{IdpError, UserToken, AuthRequest, AuthResult}
use himmelblau.Oidc.{
  OrchestratorResponse, OrchestratorProvidedInput, OrchestratorTokenBundle, OrchestratorFlowState,
  OidcMfaExtraData, OidcOrchestratorConfig, MsalError, Mfa, Handler, Client,
}
use himmelblau.Oidc.Validate.{Valid, token_validate, token_validate-Valid}
use himmelblau.Oidc.Inputs.{orchestrator_inputs_from_pam_request}
use himmelblau.Oidc.Flow.{
  Reply, denied, saturating_mul, max_polls, timed_out, enrolled, finalize_mfa_success, polled,
  poll_device_flow, poll_parsed, device_flow_step, exchanged, exchange, fall_back, send_on,
  poll_first, with_parsed, stored_step, completed, keep_extra, responded, orchestrator_continue,
  pass_on, with_dag, orchestrator_step, parsed_step, mfa_step,
}

not_success :
    (msg : String) (user : UserToken)
    → ◌≡◌ {A = Result AuthResult IdpError}
        (ok (AuthResult.denied msg))
        (ok (AuthResult.success user))
    → ⊥
not_success msg user e = cc

next_not_success :
    (request : AuthRequest) (user : UserToken)
    → ◌≡◌ {A = Result AuthResult IdpError}
        (ok (AuthResult.next request))
        (ok (AuthResult.success user))
    → ⊥
next_not_success request user e = cc

error_not_success :
    (x : IdpError) (user : UserToken)
    → ◌≡◌ {A = Result AuthResult IdpError} (err x) (ok (AuthResult.success user))
    → ⊥
error_not_success x user e = cc

module _ {W D T : Type 0} (client : Client W D T) (account_id : String)
    (hello_enabled no_hello_pin : Bool) where
  abbrev pub skips : Bool
  skips = not hello_enabled || no_hello_pin

  -- A success is of a user that some token names, who is the one that was asked for, and no Hello PIN is
  -- to be set up.
  abbrev pub Checked : Reply W → Type 0
  Checked reply =
      (user : UserToken)
      → reply.0 ≡ ok (AuthResult.success user)
      → (skips ≡ true) × Valid client account_id user

  Checked-denied : (msg : String) (handler : Handler) (w : W) → Checked (denied msg handler w)
  Checked-denied msg handler w user e = absurd (not_success msg user e)

  Checked-next :
      (request : AuthRequest) (handler : Handler) (w : W)
      → Checked (ok (AuthResult.next request), handler, w)
  Checked-next request handler w user e = absurd (next_not_success request user e)

  setup_not_success :
      (t user : UserToken) (b : Bool) (handler : Handler) (w : W)
      → b ≡ false
      → (enrolled client b handler (ok (AuthResult.success t)) w).0 ≡ ok (AuthResult.success user)
      → ⊥
  setup_not_success t user true handler w asked e = cc
  setup_not_success t user false handler w asked e = next_not_success _ user e

  Checked-enrolled :
      (handler : Handler) (r : Result AuthResult IdpError) (w : W)
      → ((user : UserToken) → r ≡ ok (AuthResult.success user) → Valid client account_id user)
      → Checked (enrolled client skips handler r w)
  Checked-enrolled handler (ok (AuthResult.success t)) w valid user e = elim (Bool-cases skips) [
    | inl skipped ↦ (skipped, valid user (ground arith))
    | inr asked ↦ absurd (setup_not_success t user skips handler w asked e)
  ]
  Checked-enrolled handler (ok (AuthResult.denied msg)) w valid user e =
      absurd (not_success msg user e)
  Checked-enrolled handler (ok (AuthResult.next request)) w valid user e =
      absurd (next_not_success request user e)
  Checked-enrolled handler (err x) w valid user e = absurd (error_not_success x user e)

  Checked-finalize :
      (handler : Handler) (token : T) (w : W)
      → Checked (finalize_mfa_success client account_id hello_enabled no_hello_pin handler token w)
  unfolding finalize_mfa_success
  Checked-finalize handler token w =
      let (r, w') = token_validate client account_id token w in
      Checked-enrolled handler r w' (token_validate-Valid client account_id token w)

  Checked-polled :
      (handler : Handler) (r : Result T MsalError) (w : W)
      → Checked (polled client account_id hello_enabled no_hello_pin handler r w)
  unfolding polled
  Checked-polled handler (ok token) w = Checked-finalize handler token w
  Checked-polled handler (err MsalError.mfa_poll_continue) w = Checked-next _ handler w
  Checked-polled handler (err (MsalError.other msg)) w = Checked-denied _ handler w

  Checked-device_flow :
      (handler : Handler) (dag : D) (w : W)
      → Checked (poll_device_flow client account_id hello_enabled no_hello_pin handler dag w)
  unfolding poll_device_flow
  Checked-device_flow handler dag w =
      let (r, w') = client.acquire_token_by_device_flow dag w in Checked-polled handler r w'

  Checked-poll_parsed :
      (handler : Handler) (r : Result D (Unit {0})) (w : W)
      → Checked (poll_parsed client account_id hello_enabled no_hello_pin handler r w)
  unfolding poll_parsed
  Checked-poll_parsed handler (ok dag) w = Checked-device_flow handler dag w
  Checked-poll_parsed handler (err e) w = Checked-denied _ handler w

  Checked-if : (b : Bool) (x y : Reply W) → Checked x → Checked y → Checked (if b then x else y)
  Checked-if true x y cx cy = cx
  Checked-if false x y cx cy = cy

  Checked-device_flow_step :
      (flow : Mfa) (dag_json : String) (request : PamAuthRequest) (w : W)
      → Checked
          (device_flow_step client account_id hello_enabled no_hello_pin flow dag_json request w)
  unfolding device_flow_step
  Checked-device_flow_step flow dag_json (PamAuthRequest.mfa_poll n) w =
      Checked-if (ltb (max_polls flow.max_poll_attempts) n) _ _
        (Checked-denied _ (Handler.mfa flow) w) (Checked-poll_parsed (Handler.mfa flow) _ w)
  Checked-device_flow_step flow dag_json request w = Checked-denied _ (Handler.mfa flow) w

  Checked-exchanged :
      (handler : Handler) (r : Result T MsalError) (w : W)
      → Checked (exchanged client account_id hello_enabled no_hello_pin handler r w)
  unfolding exchanged
  Checked-exchanged handler (ok token) w = Checked-finalize handler token w
  Checked-exchanged handler (err e) w = Checked-denied _ handler w

  Checked-exchange :
      (handler : Handler) (token : Option String) (w : W)
      → Checked (exchange client account_id hello_enabled no_hello_pin handler token w)
  unfolding exchange
  Checked-exchange handler (some token) w =
      let (r, w') = client.acquire_token_by_refresh_token token w in Checked-exchanged handler r w'
  Checked-exchange handler none w = Checked-denied _ handler w

  Checked-completed :
      (handler : Handler) (dag : Option D) (tokens : OrchestratorTokenBundle) (w : W)
      → Checked (completed client account_id hello_enabled no_hello_pin handler dag tokens w)
  unfolding completed
  Checked-completed handler (some dag) tokens w = Checked-device_flow handler dag w
  Checked-completed handler none tokens w = Checked-exchange handler tokens.refresh_token w

  Checked-keep_extra :
      (cfg : OidcOrchestratorConfig) (flow : Mfa) (request : AuthRequest)
      (r : Result String (Unit {0})) (w : W)
      → Checked (keep_extra client account_id hello_enabled no_hello_pin cfg flow request r w)
  unfolding keep_extra
  Checked-keep_extra cfg flow request (ok json) w =
      Checked-next request
        (Handler.mfa (record flow {
          extra_data = some json;
          polling_interval = some (saturating_mul cfg.poll_interval_secs 1000);
        }))
        w
  Checked-keep_extra cfg flow request (err e) w = λ user h. absurd (error_not_success _ user h)

  Checked-fall_back :
      (cfg : OidcOrchestratorConfig) (flow : Mfa) (dag_json : Option String) (w : W)
      → Checked (fall_back client account_id hello_enabled no_hello_pin cfg flow dag_json w)
  unfolding fall_back
  Checked-fall_back cfg flow (some dag_json) w =
      Checked-keep_extra cfg flow _ (client.write_extra _) w
  Checked-fall_back cfg flow none w = Checked-denied _ (Handler.mfa flow) w

  Checked-responded :
      (cfg : OidcOrchestratorConfig) (flow : Mfa) (state : OrchestratorFlowState) (dag : Option D)
      (r : Result OrchestratorResponse (Unit {0})) (w : W)
      → Checked (responded client account_id hello_enabled no_hello_pin cfg flow state dag r w)
  unfolding responded
  Checked-responded cfg flow state dag (ok (OrchestratorResponse.next_step session inputs message))
        w =
      Checked-keep_extra cfg flow _ (client.write_extra _) w
  Checked-responded cfg flow state dag
        (ok (OrchestratorResponse.session_complete session success tokens)) w =
      Checked-if success _ _ (Checked-completed (Handler.mfa flow) dag tokens w)
        (Checked-denied _ (Handler.mfa flow) w)
  Checked-responded cfg flow state dag (ok (OrchestratorResponse.session_error session error)) w =
      Checked-denied _ (Handler.mfa flow) w
  Checked-responded cfg flow state dag (ok response) w = Checked-denied _ (Handler.mfa flow) w
  Checked-responded cfg flow state dag (err e) w = Checked-fall_back cfg flow state.dag_json w

  Checked-send_on :
      (cfg : OidcOrchestratorConfig) (flow : Mfa) (state : OrchestratorFlowState) (dag : Option D)
      (r : Result (List OrchestratorProvidedInput) IdpError) (w : W)
      → Checked (send_on client account_id hello_enabled no_hello_pin cfg flow state dag r w)
  unfolding send_on
  Checked-send_on cfg flow state dag (ok inputs) w =
      let (r, w') = orchestrator_continue client state inputs w in
      Checked-responded cfg flow state dag r w'
  Checked-send_on cfg flow state dag (err e) w = Checked-denied _ (Handler.mfa flow) w

  Checked-pass_on :
      (cfg : OidcOrchestratorConfig) (flow : Mfa) (state : OrchestratorFlowState) (dag : Option D)
      (request : PamAuthRequest) (w : W)
      → Checked (pass_on client account_id hello_enabled no_hello_pin cfg flow state dag request w)
  unfolding pass_on
  Checked-pass_on cfg flow state dag request w =
      Checked-send_on cfg flow state dag
        (orchestrator_inputs_from_pam_request request state.required_inputs) w

  Checked-poll_first :
      (cfg : OidcOrchestratorConfig) (flow : Mfa) (state : OrchestratorFlowState) (dag : Option D)
      (n : ℕ) (w : W)
      → Checked (poll_first client account_id hello_enabled no_hello_pin cfg flow state dag n w)
  unfolding poll_first
  Checked-poll_first cfg flow state (some dag) n w = Checked-device_flow (Handler.mfa flow) dag w
  Checked-poll_first cfg flow state none n w =
      Checked-pass_on cfg flow state none (PamAuthRequest.mfa_poll n) w

  Checked-with_dag :
      (cfg : OidcOrchestratorConfig) (flow : Mfa) (state : OrchestratorFlowState) (dag : Option D)
      (request : PamAuthRequest) (w : W)
      → Checked (with_dag client account_id hello_enabled no_hello_pin cfg flow state dag request w)
  unfolding with_dag
  Checked-with_dag cfg flow state dag (PamAuthRequest.mfa_poll n) w =
      Checked-if (ltb (max_polls flow.max_poll_attempts) n) _
        (poll_first client account_id hello_enabled no_hello_pin cfg flow state dag n w)
        (Checked-denied timed_out (Handler.mfa flow) w) (Checked-poll_first cfg flow state dag n w)
  Checked-with_dag cfg flow state dag request w = Checked-pass_on cfg flow state dag request w

  Checked-orchestrator :
      (cfg : OidcOrchestratorConfig) (flow : Mfa) (state : OrchestratorFlowState)
      (r : Result D (Unit {0})) (request : PamAuthRequest) (w : W)
      → Checked
          (with_parsed client account_id hello_enabled no_hello_pin cfg flow state r request w)
  unfolding with_parsed
  Checked-orchestrator cfg flow state (ok dag) request w =
      Checked-with_dag cfg flow state (some dag) request w
  Checked-orchestrator cfg flow state (err e) request w = Checked-denied _ (Handler.mfa flow) w

  Checked-orchestrator_step :
      (cfg : OidcOrchestratorConfig) (flow : Mfa) (state : OrchestratorFlowState)
      (raw : Option String) (request : PamAuthRequest) (w : W)
      → Checked (
          orchestrator_step client account_id hello_enabled no_hello_pin cfg flow state raw request
            w)
  unfolding orchestrator_step
  Checked-orchestrator_step cfg flow state (some raw) request w =
      Checked-orchestrator cfg flow state _ request w
  Checked-orchestrator_step cfg flow state none request w =
      Checked-with_dag cfg flow state none request w

  Checked-parsed_step :
      (cfg : OidcOrchestratorConfig) (flow : Mfa) (extra : OidcMfaExtraData)
      (request : PamAuthRequest) (w : W)
      → Checked (parsed_step client account_id hello_enabled no_hello_pin cfg flow extra request w)
  unfolding parsed_step
  Checked-parsed_step cfg flow (OidcMfaExtraData.device_flow dag_json) request w =
      Checked-device_flow_step flow dag_json request w
  Checked-parsed_step cfg flow (OidcMfaExtraData.orchestrator state) request w =
      Checked-orchestrator_step cfg flow state state.dag_json request w

  Checked-stored_step :
      (cfg : OidcOrchestratorConfig) (flow : Mfa) (raw : Option String) (request : PamAuthRequest)
      (w : W)
      → Checked (stored_step client account_id hello_enabled no_hello_pin cfg flow raw request w)
  unfolding stored_step
  Checked-stored_step cfg flow (some raw) request w = Checked-parsed_step cfg flow _ request w
  Checked-stored_step cfg flow none request w = Checked-denied _ (Handler.mfa flow) w

  -- Whatever the orchestrator reports, and whatever the state of the flow, a step succeeds only with a
  -- user that some token names and whose name is, but for the case of its letters, the account that is
  -- signing in; and only if Hello is off or no PIN is wanted.
  pub mfa_step-Checked :
      (cfg : OidcOrchestratorConfig) (flow : Mfa) (request : PamAuthRequest) (w : W)
      → Checked (mfa_step client account_id hello_enabled no_hello_pin cfg flow request w)
  unfolding mfa_step
  mfa_step-Checked cfg flow request w = Checked-stored_step cfg flow flow.extra_data request w
