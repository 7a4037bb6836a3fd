-- ===== src/Resolver/Tokens/Excluded.antt =====
-- Local users are given nothing of the provider's (src/common/src/resolver.rs).
use himmelblau.Common.{◌≡◌, true, false, String, Option, none, some, List, arith}
use himmelblau.Idp.{UnixId}
use himmelblau.Resolver.{Resolver, Store, Outcome, ◌>>=◌}
use himmelblau.Resolver.Cache.{id_in_nxset, in_nxset}
use himmelblau.Resolver.Tokens.{
  for_user, get_user_accesstoken, get_user_tgts, get_user_prt_cookie, change_auth_token,
}

-- An id of the exclusion set gets no access token, no tickets and no cookie, and a name of the set no
-- new PIN; asking for one touches neither the cache nor the identity provider.
pub get_user_accesstoken_excluded :
    {W X : Type 0} (self : Resolver W X) (account_id : String) (scopes : List String)
    (sso_nonce : Option String) (token : X) (new_tok : String) (s : Store W X)
    → in_nxset (some account_id) none s.nxset ≡ true
    → (get_user_accesstoken self (UnixId.name account_id) scopes none none none s
        ≡ (Outcome.done none, s))
      × (get_user_tgts self (UnixId.name account_id) s ≡ (Outcome.done none, s))
      × (get_user_prt_cookie self (UnixId.name account_id) sso_nonce s ≡ (Outcome.done none, s))
      × (change_auth_token self account_id token new_tok s ≡ (Outcome.done false, s))
unfolding get_user_accesstoken get_user_tgts get_user_prt_cookie change_auth_token for_user
    id_in_nxset ◌>>=◌
get_user_accesstoken_excluded self account_id scopes sso_nonce token new_tok s h =
    (ground arith, ground arith, ground arith, ground arith)
