-- ===== src/Resolver/Unseal/Success.antt =====
-- When `pam_try_unseal` of src/common/src/resolver.rs says yes.
use himmelblau.Common.{◌≡◌, ◌≢◌, refl, true, false, String, ok, err}
use himmelblau.Proto.{PamAuthRequest, PamAuthResponse}
use himmelblau.Resolver.{Resolver, Store, Outcome, done, failed, blocked, continue, ◌>>=◌}
use himmelblau.Resolver.Session.{AuthSession, Step}
use himmelblau.Resolver.Init.{pam_account_authenticate_init}
use himmelblau.Resolver.Init.Begins.{pam_account_authenticate_init-Begins}
use himmelblau.Resolver.Step.{pam_account_authenticate_step}
use himmelblau.Resolver.Unseal.{unsealed, unseal_with, pam_try_unseal}

module _ {W X : Type 0} (self : Resolver W X) where
  from_unsealed :
      (r : Outcome (Step X)) (s : Store W X)
      → (continue r (unsealed self) s).0 ≡ done true
      → (session : AuthSession X) × (r ≡ done (session, ok PamAuthResponse.success))
  unfolding unsealed ◌>>=◌
  from_unsealed (done (session, ok PamAuthResponse.success)) s h = (session, refl)
  from_unsealed (done (session, ok resp)) s h = cc
  from_unsealed (done (session, err e)) s h = cc
  from_unsealed failed s h = cc
  from_unsealed blocked s h = cc

  -- That the session has asked for a PIN, and the step with this PIN came to a success.
  abbrev pub PinTaken : String → AuthSession X × PamAuthResponse → Store W X → Type 0
  PinTaken cred (session, resp) s =
      (resp ≡ PamAuthResponse.pin)
      × (session' : AuthSession X) × ((pam_account_authenticate_step self session
            (PamAuthRequest.pin cred) s).0
          ≡ done (session', ok PamAuthResponse.success))

  from_unseal_with :
      (cred : String) (session : AuthSession X) (resp : PamAuthResponse) (s : Store W X)
      → resp ≢ PamAuthResponse.success
      → (unseal_with self cred session resp s).0 ≡ done true
      → PinTaken cred (session, resp) s
  unfolding unseal_with ◌>>=◌
  from_unseal_with cred session PamAuthResponse.pin s no_success h =
      let (after, e) = from_unsealed _ _ h in (refl, after, e)
  from_unseal_with cred session PamAuthResponse.success s no_success h = absurd (no_success refl)
  from_unseal_with cred session resp s no_success h = cc

  from_init :
      (cred : String) (r : Outcome (AuthSession X × PamAuthResponse)) (s : Store W X)
      → ((a : AuthSession X × PamAuthResponse) → r ≡ done a → a.1 ≢ PamAuthResponse.success)
      → (continue r (λ a. unseal_with self cred a.0 a.1) s).0 ≡ done true
      → (a : AuthSession X × PamAuthResponse) × (r ≡ done a) × PinTaken cred a s
  unfolding ◌>>=◌
  from_init cred (done a) s no_success h =
      (a, refl, from_unseal_with cred a.0 a.1 s (no_success a refl) h)
  from_init cred failed s no_success h = cc
  from_init cred blocked s no_success h = cc

  -- The one-shot unsealing says yes only if the authentication started by asking for a PIN and its
  -- next step, with the given PIN, ended in success; the start alone never suffices.
  pub pam_try_unseal-true :
      (account_id cred : String) (s : Store W X)
      → (pam_try_unseal self account_id cred s).0 ≡ done true
      → (a : AuthSession X × PamAuthResponse) × ((pam_account_authenticate_init self account_id
            "try_unseal" false false s).0
          ≡ done a)
        × PinTaken cred a
            (pam_account_authenticate_init self account_id "try_unseal" false false s).1
  unfolding pam_try_unseal ◌>>=◌
  pam_try_unseal-true account_id cred s h =
      from_init cred _ _
        (λ a e.
          ((pam_account_authenticate_init-Begins self account_id "try_unseal" false false).at s a
            e).not_success)
        h
