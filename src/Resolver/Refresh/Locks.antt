-- ===== src/Resolver/Refresh/Locks.antt =====
-- Answering with a user's token (src/common/src/resolver.rs) never waits for the database for ever.
use himmelblau.Common.{◌≡◌, ◌≢◌, true, false, Option, none, some, Bool, Result, ok, err}
use himmelblau.Idp.{
  UnixId, UserToken, UserTokenState, IdpError, CacheState, online, offline, offline_next_check,
}
use himmelblau.Resolver.{Resolver, Store, blocked}
use himmelblau.Resolver.Rules.{Free, free_rules}
use himmelblau.Resolver.Cache.Locks.{
  commit_keystore-Local, get_cachestate-Free, get_cached_usertoken-Free, set_nxcache-Free,
  set_cache_usertoken-Free, delete_cache_usertoken-Free,
}
use himmelblau.Resolver.Refresh.{
  purge, refreshed, refresh_usertoken, reach, test_connection, by_state, get_usertoken,
}

module _ {W X : Type 0} (self : Resolver W X) where
  purge-Free : (token : Option UserToken) → Free (purge self token)
  unfolding purge
  purge-Free (some tok) = delete_cache_usertoken-Free self tok.uuid
  purge-Free none = search free_rules

  refreshed-Free :
      (id : UnixId) (token : Option UserToken) (r : Result UserTokenState IdpError)
      → Free (refreshed self id token r)
  unfolding refreshed
  refreshed-Free id token (ok (UserTokenState.update t)) =
      search (free_rules, set_cache_usertoken-Free) depth 9
  refreshed-Free id token (ok UserTokenState.not_found) =
      search (free_rules, purge-Free, set_nxcache-Free) depth 9
  refreshed-Free id token (ok UserTokenState.use_cached) = search free_rules
  refreshed-Free id token (err e) = search free_rules

  pub refresh_usertoken-Free :
      (id : UnixId) (token : Option UserToken) → Free (refresh_usertoken self id token)
  unfolding refresh_usertoken
  refresh_usertoken-Free id token =
      search (free_rules, refreshed-Free, commit_keystore-Local) depth 9

  reach-Free : (state : CacheState) → Free (reach self state)
  unfolding reach
  reach-Free offline = search free_rules
  reach-Free (offline_next_check time) = search free_rules depth 7
  reach-Free online = search free_rules

  pub test_connection-Free : Free (test_connection self)
  unfolding test_connection
  test_connection-Free = search (free_rules, get_cachestate-Free, reach-Free)

  by_state-Free :
      (id : UnixId) (item : Option UserToken) (expired : Bool) (state : CacheState)
      → Free (by_state self id item expired state)
  unfolding by_state
  by_state-Free id item true offline = search free_rules
  by_state-Free id item false offline = search free_rules
  by_state-Free id item false (offline_next_check time) = search free_rules
  by_state-Free id item false online = search free_rules
  by_state-Free id item true (offline_next_check time) =
      search (free_rules, test_connection-Free, refresh_usertoken-Free) depth 9
  by_state-Free id item true online = refresh_usertoken-Free id item

  pub get_usertoken-Free : (id : UnixId) → Free (get_usertoken self id)
  unfolding get_usertoken
  get_usertoken-Free id =
      search (free_rules, get_cached_usertoken-Free, get_cachestate-Free, by_state-Free) depth 9

  -- If no transaction is open, a request for a user's token does not wait for ever, and leaves no
  -- transaction open, whatever the cache and the provider answer.
  pub get_usertoken_ends :
      (id : UnixId) (s : Store W X)
      → s.db_held ≡ false
      → ((get_usertoken self id s).0 ≢ blocked) × ((get_usertoken self id s).1.db_held ≡ false)
  get_usertoken_ends id s held = (get_usertoken-Free id).at s held
