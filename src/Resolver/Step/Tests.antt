-- ===== src/Resolver/Step/Tests.antt =====
-- Runs of the steps of an authentication, src/common/src/resolver.rs.
use himmelblau.Common.{ℕ, ◌≡◌, refl, ◌⊎◌, true, false, String, some, ok, err}
use himmelblau.Idp.{UserToken, online, offline}
use himmelblau.Proto.{PamAuthRequest, PamAuthResponse}
use himmelblau.Db.Accounts.{update_account, has_account, get_account_password}
use himmelblau.Resolver.{◌>>=◌, Outcome, done}
use himmelblau.Db.Groups.{update_groups}
use himmelblau.Resolver.Cache.{
  allowed_groups, transact, commit_keystore, check_nxset, in_nxset, check_cache_userpassword,
}
use himmelblau.Resolver.Rules.{Concludes}
use himmelblau.Resolver.Session.{AuthSession}
use himmelblau.Resolver.Step.{finish, pam_account_authenticate_step}
use himmelblau.Resolver.Step.Ends.{
  Ends, pam_account_authenticate_step-Concludes, finish_excluded,
  pam_account_authenticate_step_over,
}
use himmelblau.Resolver.Step.Offline.{pam_account_authenticate_step_password}
use himmelblau.Idp.{AuthResult}
use himmelblau.Resolver.Sample.{alice, resolver, asks_pin, store, progress}

pam_account_authenticate_step-Concludes_example :
    Concludes Ends
      (pam_account_authenticate_step
        (resolver online asks_pin true)
        (AuthSession.in_progress (progress false))
        (PamAuthRequest.pin "271828"))
      (store 5)
pam_account_authenticate_step-Concludes_example =
    pam_account_authenticate_step-Concludes (resolver online asks_pin true) (progress false)
      (PamAuthRequest.pin "271828") (store 5) refl

abbrev root : UserToken
root = record alice { name = "root"; uuid = "u-root" }

finish_excluded_example :
    (((finish
          (resolver online asks_pin true)
          AuthSession.denied
          (ok (AuthResult.success root))
          (store 5)).0
        ≡ Outcome.done (AuthSession.denied, ok PamAuthResponse.unknown))
      × (has_account "u-root"
            (finish
              (resolver online asks_pin true)
              AuthSession.denied
              (ok (AuthResult.success root))
              (store 5)).1.db.account_t
          ≡ false))
    ⊎ ((finish
          (resolver online asks_pin true)
          AuthSession.denied
          (ok (AuthResult.success root))
          (store 5)).0
        ≡ Outcome.done (AuthSession.denied, err tt))
unfolding in_nxset
finish_excluded_example =
    finish_excluded (resolver online asks_pin true) AuthSession.denied root (store 5) refl refl

pam_account_authenticate_step_over_example :
    ((pam_account_authenticate_step
        (resolver online asks_pin true)
        AuthSession.denied
        (PamAuthRequest.pin "271828")
        (store 5)).0
      ≡ Outcome.done (AuthSession.denied, err tt))
    × ((pam_account_authenticate_step
          (resolver online asks_pin true)
          AuthSession.denied
          (PamAuthRequest.pin "271828")
          (store 5)).1.db
        ≡ (store 5).db)
pam_account_authenticate_step_over_example =
    pam_account_authenticate_step_over (resolver online asks_pin true) AuthSession.denied
      (PamAuthRequest.pin "271828") (store 5) refl (λ p e. cc)

signs_in :
    (pam_account_authenticate_step
      (resolver offline asks_pin true)
      (AuthSession.in_progress (progress false))
      (PamAuthRequest.password "secret")
      (store 5)).0
    ≡ done (AuthSession.success "alice@example.org", ok PamAuthResponse.success)
unfolding pam_account_authenticate_step check_cache_userpassword get_account_password
    commit_keystore check_nxset in_nxset transact update_groups update_account allowed_groups ◌>>=◌
signs_in = refl

pam_account_authenticate_step_password_example :
    (blob : String) × (w : ℕ) × (get_account_password "u-alice" (store 5).db ≡ ok (some blob))
    × (((resolver offline asks_pin true).system.verify_password blob "secret" w).0 ≡ ok true)
pam_account_authenticate_step_password_example =
    pam_account_authenticate_step_password (resolver offline asks_pin true) (progress false) alice
      "secret" "alice@example.org" (store 5) refl refl (λ e. cc) signs_in
