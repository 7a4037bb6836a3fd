-- ===== src/Resolver/Unseal/Tests.antt =====
-- A run of the one-shot unsealing, src/common/src/resolver.rs.
use himmelblau.Common.{◌≡◌, refl, true, false, String}
use himmelblau.Idp.{online}
use himmelblau.Proto.{PamAuthResponse}
use himmelblau.Db.Accounts.{get_account, update_account}
use himmelblau.Db.{nocase_eq}
use himmelblau.Db.Groups.{update_groups}
use himmelblau.Resolver.{done, ◌>>=◌}
use himmelblau.Resolver.Session.{AuthSession}
use himmelblau.Resolver.Cache.{in_nxset, check_nxset, commit_keystore, transact, allowed_groups}
use himmelblau.Resolver.Init.{pam_account_authenticate_init}
use himmelblau.Resolver.Unseal.{pam_try_unseal}
use himmelblau.Resolver.Unseal.Success.{PinTaken, pam_try_unseal-true}
use himmelblau.Resolver.Sample.{resolver, asks_pin, store}

unseals : (pam_try_unseal (resolver online asks_pin true) "alice" "271828" (store 5)).0 ≡ done true
unfolding pam_try_unseal in_nxset check_nxset commit_keystore transact allowed_groups get_account
    update_account update_groups nocase_eq ◌>>=◌
unseals = refl

pam_try_unseal-true_example :
    (a : AuthSession String × PamAuthResponse) × ((pam_account_authenticate_init
        (resolver online asks_pin true)
        "alice"
        "try_unseal"
        false
        false
        (store 5)).0
      ≡ done a)
    × PinTaken
        (resolver online asks_pin true)
        "271828"
        a
        (pam_account_authenticate_init
          (resolver online asks_pin true)
          "alice"
          "try_unseal"
          false
          false
          (store 5)).1
pam_try_unseal-true_example =
    pam_try_unseal-true (resolver online asks_pin true) "alice" "271828" (store 5) unseals
