-- ===== src/Resolver/Unseal.antt =====
-- The one-shot unsealing by a PIN, src/common/src/resolver.rs.
pub mod Success
mod Tests
use himmelblau.Common.{Bool, true, false, String, ok, err}
use himmelblau.Proto.{PamAuthRequest, PamAuthResponse}
use himmelblau.Resolver.{Resolver, Act, pure, fail, ◌>>=◌}
use himmelblau.Resolver.Session.{AuthSession, Step}
use himmelblau.Resolver.Init.{pam_account_authenticate_init}
use himmelblau.Resolver.Step.{pam_account_authenticate_step}

module _ {W X : Type 0} (self : Resolver W X) where
  unsealed : Step X → Act W X Bool
  unsealed (session, ok PamAuthResponse.success) = pure true
  unsealed (session, ok resp) = pure false
  unsealed (session, err e) = fail

  unseal_with : String → AuthSession X → PamAuthResponse → Act W X Bool
  unfolding pam_account_authenticate_step unsealed
  unseal_with cred session PamAuthResponse.pin = do
    r ← pam_account_authenticate_step self session (PamAuthRequest.pin cred)
    unsealed r
  unseal_with cred session PamAuthResponse.success = pure true
  unseal_with cred session resp = pure false

  pub pam_try_unseal : String → String → Act W X Bool
  unfolding pam_account_authenticate_init unseal_with
  pam_try_unseal account_id cred = do
    (session, resp) ← pam_account_authenticate_init self account_id "try_unseal" false false
    unseal_with cred session resp
