-- ===== src/Resolver/Init/Tests.antt =====
-- Runs of the start of an authentication, src/common/src/resolver.rs.
use himmelblau.Common.{◌≡◌, refl, true, false, String, none, err}
use himmelblau.Idp.{IdpError, online}
use himmelblau.Proto.{PamAuthResponse}
use himmelblau.Resolver.{Outcome, done, ◌>>=◌}
use himmelblau.Resolver.Cache.{in_nxset, check_nxset}
use himmelblau.Resolver.Session.{AuthSession}
use himmelblau.Resolver.Init.{online_init, pam_account_authenticate_init}
use himmelblau.Resolver.Init.Begins.{Begins, pam_account_authenticate_init_lem}
use himmelblau.Resolver.Init.Deadlock.{online_init_failure}
use himmelblau.Resolver.Sample.{resolver, asks_pin, store}

refuses_root :
    (pam_account_authenticate_init
      (resolver online asks_pin true)
      "root"
      "login"
      false
      false
      (store 5)).0
    ≡ done (AuthSession.denied, PamAuthResponse.unknown)
unfolding pam_account_authenticate_init check_nxset in_nxset ◌>>=◌
refuses_root = refl

pam_account_authenticate_init_lem_example :
    Begins {X = String} (AuthSession.denied, PamAuthResponse.unknown)
pam_account_authenticate_init_lem_example =
    pam_account_authenticate_init_lem (resolver online asks_pin true) "root" "login" false false
      (store 5) AuthSession.denied PamAuthResponse.unknown refuses_root

online_init_failure_example :
    (online_init
      (resolver online (err IdpError.bad_request) true)
      "alice"
      none
      "login"
      false
      false
      (store 5)).0
    ≡ Outcome.blocked
online_init_failure_example =
    online_init_failure (resolver online (err IdpError.bad_request) true) "alice" none "login" false
      IdpError.bad_request 5 (store 5) refl refl
