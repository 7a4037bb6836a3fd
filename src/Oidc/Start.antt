-- ===== src/Oidc/Start.antt =====
-- How a sign-in with a second device or a browser begins: `mfa_from_oidc_device` and
-- `maybe_start_orchestrator_flow` (src/common/src/idprovider/openidconnect.rs). The text that shows the
-- code to the user is left out of the flow.
use himmelblau.Common.{
  ℕ, ◌*◌, ◌/◌, ◌%◌, ◌^◌, ◌==◌, ◌≤◌, String, Option, none, some, Result, ok, err, if◌then◌else◌,
  arith,
}
use himmelblau.Idp.{IdpError, AuthRequest}
use himmelblau.Oidc.{OidcMfaExtraData, OidcOrchestratorConfig, Mfa, Client}
use himmelblau.Oidc.Inputs.{auth_request_from_orchestrator_inputs}
use himmelblau.Oidc.Flow.{saturating_mul, orchestrator_try_start}

-- `as u32`
abbrev as_u32 : ℕ → ℕ
as_u32 n = n % 2 ^ 32

abbrev max_attempts : ℕ → ℕ → ℕ
max_attempts polling_interval expires_in =
    if polling_interval == 0 then 0 else expires_in / polling_interval

module _ {W D T : Type 0} (client : Client W D T) where
  abbrev device_mfa : D → Mfa
  device_mfa details = record {
    max_poll_attempts =
        some (max_attempts (as_u32 (client.interval details)) (as_u32 (client.expires_in details)));
    polling_interval = some (as_u32 (as_u32 (client.interval details) * 1000));
    extra_data = none;
  }

  abbrev with_json : Mfa → Result String (Unit {0}) → Result (Mfa × String) IdpError
  with_json flow (ok json) = ok (flow, json)
  with_json flow (err e) = err IdpError.bad_request

  unfoldable pub mfa_from_oidc_device : D → Result (Mfa × String) IdpError
  mfa_from_oidc_device details = with_json (device_mfa details) (client.write_dag details)

  module _ (cfg : OidcOrchestratorConfig) (account_id : String) (issuer_url : Option String) where
    abbrev Begun : Type 0
    Begun = Result (Option (AuthRequest × Mfa)) IdpError × W

    abbrev serialized : AuthRequest → Result String (Unit {0}) → W → Begun
    serialized request (ok json) w = (
      ok (
          some (
            request,
            record {
              max_poll_attempts = none;
              polling_interval = some (saturating_mul cfg.poll_interval_secs 1000);
              extra_data = some json;
            },
          )),
      w,
    )
    serialized request (err e) w = (err IdpError.bad_request, w)

    unfoldable pub on_started : Option OidcMfaExtraData → W → Begun
    unfolding auth_request_from_orchestrator_inputs
    on_started (some (OidcMfaExtraData.orchestrator state)) w =
        serialized
          (auth_request_from_orchestrator_inputs state.required_inputs cfg.poll_interval_secs)
          (client.write_extra (OidcMfaExtraData.orchestrator state)) w
    on_started (some (OidcMfaExtraData.device_flow dag_json)) w = (ok none, w)
    on_started none w = (ok none, w)

    abbrev dag_auth_url : D → Option String → Option String
    dag_auth_url details (some complete) = some complete
    dag_auth_url details none = some (client.verification_uri details)

    unfoldable pub start_with : D → Result (Mfa × String) IdpError → W → Begun
    unfolding on_started orchestrator_try_start
    start_with details (ok (flow, dag_json)) w =
        let (extra_data, w') =
          orchestrator_try_start client cfg account_id issuer_url
            (dag_auth_url details (client.verification_uri_complete details))
            (some (client.user_code details)) (some dag_json) w in
        on_started extra_data w'
    start_with details (err e) w = (err e, w)

    unfoldable pub maybe_start_orchestrator_flow : D → W → Begun
    unfolding start_with mfa_from_oidc_device
    maybe_start_orchestrator_flow details w =
        if cfg.enabled then start_with details (mfa_from_oidc_device details) w else (ok none, w)

  attempts_bounded :
      (interval expires_in : ℕ) → max_attempts interval expires_in * interval ≤ expires_in
  attempts_bounded interval expires_in = ground arith
