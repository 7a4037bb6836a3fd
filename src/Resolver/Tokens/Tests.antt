-- ===== src/Resolver/Tokens/Tests.antt =====
-- Requests for tokens, and the theorems on them (src/common/src/resolver.rs).
use himmelblau.Common.{some, ℕ, ◌≡◌, ◌≢◌, refl, true, false, String, none, []}
use himmelblau.Idp.{UnixId, online}
use himmelblau.Db.Accounts.{get_account}
use himmelblau.Resolver.{Resolver, Outcome, blocked, ◌>>=◌}
use himmelblau.Resolver.Cache.{in_nxset}
use himmelblau.Resolver.Tokens.{
  get_user_accesstoken, get_user_tgts, get_user_prt_cookie, change_auth_token, offline_break_glass,
}
use himmelblau.Resolver.Tokens.Excluded.{get_user_accesstoken_excluded}
use himmelblau.Resolver.Tokens.Locks.{get_user_accesstoken_ends}
use himmelblau.Resolver.Sample.{resolver, asks_pin, store}

abbrev self : Resolver ℕ String
self = resolver online asks_pin true

-- The provider has no access token for alice; her new PIN is set.
refused :
    (get_user_accesstoken self (UnixId.gid 1000) [] none none none (store 5)).0 ≡ Outcome.done none
unfolding get_user_accesstoken get_account ◌>>=◌
refused = refl

no_tickets : (get_user_tgts self (UnixId.name "root") (store 5)).0 ≡ Outcome.done none
unfolding get_user_tgts ◌>>=◌
no_tickets = refl

no_cookie : (get_user_prt_cookie self (UnixId.gid 1000) none (store 5)).0 ≡ Outcome.done none
unfolding get_user_prt_cookie get_account ◌>>=◌
no_cookie = refl

new_pin : (change_auth_token self "alice" "token" "271828" (store 5)).0 ≡ Outcome.done true
unfolding change_auth_token ◌>>=◌
new_pin = refl

glass : (offline_break_glass self none (store 5)).0 ≡ Outcome.done tt
unfolding offline_break_glass ◌>>=◌
glass = refl

root_excluded :
    (get_user_accesstoken self (UnixId.name "root") [] none none none (store 5)
      ≡ (Outcome.done none, store 5))
    × (get_user_tgts self (UnixId.name "root") (store 5) ≡ (Outcome.done none, store 5))
    × (get_user_prt_cookie self (UnixId.name "root") none (store 5) ≡ (Outcome.done none, store 5))
    × (change_auth_token self "root" "token" "271828" (store 5) ≡ (Outcome.done false, store 5))
unfolding in_nxset
root_excluded = get_user_accesstoken_excluded self "root" [] none "token" "271828" (store 5) refl

get_user_accesstoken_ends_example :
    (((get_user_accesstoken self (UnixId.gid 1000) [] (some "app") none (some "cnf") (store 5)).0
        ≢ blocked)
      × ((get_user_accesstoken self
            (UnixId.gid 1000)
            []
            (some "app")
            none
            (some "cnf")
            (store 5)).1.db_held
          ≡ false))
    × (((change_auth_token self "alice" "271828" "token" (store 5)).0 ≢ blocked)
        × ((change_auth_token self "alice" "271828" "token" (store 5)).1.db_held ≡ false))
get_user_accesstoken_ends_example =
    get_user_accesstoken_ends self (UnixId.gid 1000) [] (some "app") none (some "cnf") "alice"
      "token" "271828" (store 5) refl
