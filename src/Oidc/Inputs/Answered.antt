-- ===== src/Oidc/Inputs/Answered.antt =====
-- The user is never asked for an answer that is then refused (src/common/src/idprovider/openidconnect.rs).
use himmelblau.Common.{ℕ, ◌≡◌, String, List, Mem, ok, All}
use himmelblau.Proto.{PamAuthRequest}
use himmelblau.Idp.{AuthRequest}
use himmelblau.Oidc.{OrchestratorRequiredInput, OrchestratorProvidedInput}
use himmelblau.Oidc.Inputs.{orchestrator_inputs_from_pam_request}

-- The answer is one to the request.
abbrev pub Answers : AuthRequest → PamAuthRequest → Type 0
Answers AuthRequest.password answer = (cred : String) × (answer ≡ PamAuthRequest.password cred)
Answers (AuthRequest.mfa_code msg) answer =
    (cred : String) × (answer ≡ PamAuthRequest.mfa_code cred)
Answers (AuthRequest.mfa_poll msg interval) answer =
    (attempt : ℕ) × (answer ≡ PamAuthRequest.mfa_poll attempt)
Answers request answer = ⊥

-- Each input that is provided is named as one of those that are required.
abbrev pub Required : List OrchestratorRequiredInput → List OrchestratorProvidedInput → Type 0
Required inputs provided =
    All (λ p. (i : OrchestratorRequiredInput) × Mem i inputs × (p.name ≡ i.name)) provided

-- The inputs that are provided are those that the orchestrator required.
abbrev pub Accepted : List OrchestratorRequiredInput → PamAuthRequest → Type 0
Accepted inputs answer =
    (provided : List OrchestratorProvidedInput) × (orchestrator_inputs_from_pam_request answer
        inputs
      ≡ ok provided)
    × Required inputs provided
