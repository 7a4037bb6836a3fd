-- ===== src/Resolver/Nss/Tests.antt =====
-- Runs of the answers to NSS and to account management, src/common/src/resolver.rs.
use himmelblau.Common.{◌≡◌, ◌↔◌, refl, true, none, [], ◌∷◌, ◌⊎◌, Mem}
use himmelblau.Idp.{UnixId, GroupToken, online}
use himmelblau.Db.Accounts.{get_accounts}
use himmelblau.Db.Groups.{get_groups, get_group}
use himmelblau.Resolver.{done, ◌>>=◌}
use himmelblau.Resolver.Cache.{query, id_in_nxset, get_cached_usertokens, get_cached_grouptokens}
use himmelblau.Resolver.Nss.{
  is_allowed, nss_user, get_nssaccounts, get_nssaccount, get_initgroups, pam_account_beginsession,
  pam_account_allowed, token_abs_homedirectory, get_nssgroups, get_nssgroup,
}
use himmelblau.Resolver.Nss.Access.{is_allowed_iff, local_user_hidden}
use himmelblau.Resolver.Sample.{alice, resolver, asks_pin, store}

is_allowed_iff_example : (is_allowed (resolver online asks_pin true) "alice" alice ≡ true) ↔ (
    (alice.valid ≡ true)
    × (Mem "alice" (resolver online asks_pin true).pam_allow_groups
        ⊎ ((g : GroupToken) × Mem g alice.groups
            × Mem g.uuid (resolver online asks_pin true).pam_allow_groups)))
is_allowed_iff_example = is_allowed_iff (resolver online asks_pin true) "alice" alice

local_user_hidden_example :
    (get_nssaccount (resolver online asks_pin true) (UnixId.name "root") (store 5)
      ≡ (done none, store 5))
    × (get_initgroups (resolver online asks_pin true) "root" (store 5) ≡ (done none, store 5))
    × (pam_account_beginsession (resolver online asks_pin true) "root" (store 5)
        ≡ (done none, store 5))
    × (pam_account_allowed (resolver online asks_pin true) "root" (store 5) ≡ (done none, store 5))
unfolding id_in_nxset
local_user_hidden_example =
    local_user_hidden (resolver online asks_pin true) "root" "g-staff" [] (store 5) refl refl

-- The alias of the home directory comes before its attribute.
lives_at : token_abs_homedirectory (resolver online asks_pin true) alice ≡ "/home/alice@example.org"
unfolding token_abs_homedirectory
lives_at = refl

lists_alice :
    (get_nssaccounts (resolver online asks_pin true) (store 5)).0
    ≡ done (nss_user (resolver online asks_pin true) alice ∷ [])
unfolding get_nssaccounts get_cached_usertokens get_accounts query ◌>>=◌
lists_alice = refl

lists_no_group : (get_nssgroups (resolver online asks_pin true) (store 5)).0 ≡ done []
unfolding get_nssgroups get_cached_grouptokens get_groups query ◌>>=◌
lists_no_group = refl

finds_no_group :
    (get_nssgroup (resolver online asks_pin true) (UnixId.gid 2000) (store 5)).0 ≡ done none
unfolding get_nssgroup get_group ◌>>=◌
finds_no_group = refl
