-- ===== src/Resolver/Refresh.antt =====
-- How the resolver answers with a user's or a group's token, src/common/src/resolver.rs: from the
-- cache, or refreshed from the identity provider.
pub mod Exclusion
pub mod Freshness
pub mod Locks
mod Tests
use himmelblau.Common.{
  ℕ, Bool, true, false, String, Option, none, some, Result, ok, err, leb, if◌then◌else◌,
}
use himmelblau.Idp.{
  UnixId, UserToken, GroupToken, UserTokenState, IdpError, CacheState, online, offline,
  offline_next_check,
}
use himmelblau.Resolver.{Resolver, Act, pure, gets, outside, with_db, ◌>>=◌, ◌>>◌}
use himmelblau.Resolver.Cache.{
  check_nxset, id_in_nxset, commit_keystore, get_cachestate, get_cached_usertoken,
  get_cached_grouptoken, set_cache_usertoken, set_cache_grouptoken, delete_cache_usertoken,
  delete_cache_grouptoken, set_nxcache,
}

module _ {W X : Type 0} (self : Resolver W X) where
  open self use {client, system}

  purge : Option UserToken → Act W X (Unit {0})
  unfolding delete_cache_usertoken
  purge (some tok) = delete_cache_usertoken self tok.uuid
  purge none = pure tt

  refreshed :
      UnixId → Option UserToken → Result UserTokenState IdpError → Act W X (Option UserToken)
  unfolding set_cache_usertoken purge set_nxcache
  refreshed account_id token (ok (UserTokenState.update n_tok)) = do
    n_tok' ← set_cache_usertoken self n_tok
    pure (some n_tok')
  refreshed account_id token (ok UserTokenState.not_found) = do
    purge token
    set_nxcache self account_id
    pure none
  refreshed account_id token (ok UserTokenState.use_cached) = pure token
  refreshed account_id token (err e) = pure token

  unfoldable pub refresh_usertoken : UnixId → Option UserToken → Act W X (Option UserToken)
  unfolding refreshed
  refresh_usertoken account_id token = do
    user_get_result ←
        with_db do r ← outside (client.unix_user_get account_id token); commit_keystore self; pure r
    refreshed account_id token user_get_result

  refreshed_group : Option GroupToken → Result GroupToken IdpError → Act W X (Option GroupToken)
  unfolding set_cache_grouptoken delete_cache_grouptoken
  refreshed_group token (err e) = pure token
  refreshed_group token (ok n_tok) = do
    denied ← check_nxset self (some n_tok.name) (some n_tok.gidnumber)
    if denied
        then (do delete_cache_grouptoken self n_tok.uuid; pure none)
        else (do set_cache_grouptoken self n_tok; pure (some n_tok))

  unfoldable pub refresh_grouptoken : UnixId → Option GroupToken → Act W X (Option GroupToken)
  unfolding refreshed_group
  refresh_grouptoken grp_id token = do
    group_get_result ← outside (client.unix_group_get grp_id)
    refreshed_group token group_get_result

  reach : CacheState → Act W X Bool
  reach offline = pure false
  reach (offline_next_check time) = do now ← outside system.now; outside (client.check_online now)
  reach online = pure true

  unfoldable pub test_connection : Act W X Bool
  unfolding get_cachestate reach
  test_connection = do state ← get_cachestate self none; reach state

  -- Which cache state is asked for: by name, or by the spn of the token that was found.
  pub state_key : UnixId → Option UserToken → Option String
  state_key (UnixId.name name) item = some name
  state_key (UnixId.gid g) (some token) = some token.spn
  state_key (UnixId.gid g) none = none

  by_state : UnixId → Option UserToken → Bool → CacheState → Act W X (Option UserToken)
  unfolding refresh_usertoken test_connection
  by_state account_id item expired offline = pure item
  by_state account_id item false (offline_next_check time) = pure item
  by_state account_id item false online = pure item
  by_state account_id item true (offline_next_check time) = do
    now ← outside system.now
    connected ← (if leb time now then test_connection else pure false)
    if connected then refresh_usertoken account_id item else pure item
  by_state account_id item true online = refresh_usertoken account_id item

  unfoldable pub get_usertoken : UnixId → Act W X (Option UserToken)
  unfolding get_cached_usertoken get_cachestate state_key by_state
  get_usertoken account_id = do
    excluded ← gets (λ s. id_in_nxset account_id s.nxset)
    if excluded then pure none else (do
      (expired, item) ← get_cached_usertoken self account_id
      state ← get_cachestate self (state_key account_id item)
      by_state account_id item expired state)

  -- In Himmelblau only cached group tokens are used: the state is taken to be offline.
  unfoldable pub get_grouptoken : UnixId → Act W X (Option GroupToken)
  unfolding get_cached_grouptoken
  get_grouptoken grp_id = do (expired, item) ← get_cached_grouptoken self grp_id; pure item
