-- ===== src/Resolver/Refresh/Freshness.antt =====
-- When a user's token comes from the cache, src/common/src/resolver.rs.
use himmelblau.Common.{ℕ, ◌≡◌, ◌<◌, refl, true, false, Bool, some, ok, leb, arith}
use himmelblau.Idp.{UnixId, UserToken, CacheState, online, offline, offline_next_check}
use himmelblau.Db.Accounts.{get_account}
use himmelblau.Resolver.{Resolver, Store, Outcome, ◌>>=◌}
use himmelblau.Resolver.Cache.{from_secs, id_in_nxset}
use himmelblau.Resolver.Cache.Reads.{get_cachestate_lem, get_cached_usertoken_found}
use himmelblau.Resolver.Refresh.{by_state, state_key, get_usertoken}

module _ {W X : Type 0} (self : Resolver W X) where
  open self use {client, system}

  by_state_fresh :
      (id : UnixId) (t : UserToken) (state : CacheState) (s : Store W X)
      → by_state self id (some t) false state s ≡ (Outcome.done (some t), s)
  unfolding by_state ◌>>=◌
  by_state_fresh id t online s = refl
  by_state_fresh id t offline s = refl
  by_state_fresh id t (offline_next_check time) s = refl

  -- For an id that is not in the exclusion set, with no transaction open, a token that the database
  -- has for it and that has not expired is the answer, whatever the state of the connection, and the
  -- tables stay as they are.
  pub get_usertoken_fresh :
      (id : UnixId) (t : UserToken) (ex n : ℕ) (w : W) (s : Store W X)
      → s.db_held ≡ false
      → id_in_nxset id s.nxset ≡ false
      → get_account id s.db ≡ ok (some (t, ex))
      → system.now s.world ≡ (n, w)
      → n < from_secs ex
      → ((get_usertoken self id s).0 ≡ Outcome.done (some t))
        × ((get_usertoken self id s).1.db ≡ s.db)
  unfolding get_usertoken ◌>>=◌
  get_usertoken_fresh id t ex n w s held allowed found clock fresh =
      let cached = get_cached_usertoken_found self id t ex n w s held found clock in
      let (w', state) =
        get_cachestate_lem self (state_key self id (some t)) (record s { world = w }) held in
      let stays =
        by_state_fresh id t (client.get_cachestate (state_key self id (some t)) w).0
          (record s { world = w' }) in
      let early : leb (from_secs ex) n ≡ false = ground arith in
      rw (allowed, cached, early, state, stays) (refl, refl)

  -- While the provider is offline, a token in the database is the answer even when it has expired,
  -- and the tables stay as they are.
  pub get_usertoken_offline :
      (id : UnixId) (t : UserToken) (ex n : ℕ) (w v : W) (s : Store W X)
      → s.db_held ≡ false
      → id_in_nxset id s.nxset ≡ false
      → get_account id s.db ≡ ok (some (t, ex))
      → system.now s.world ≡ (n, w)
      → client.get_cachestate (state_key self id (some t)) w ≡ (offline, v)
      → ((get_usertoken self id s).0 ≡ Outcome.done (some t))
        × ((get_usertoken self id s).1.db ≡ s.db)
  unfolding get_usertoken by_state ◌>>=◌
  get_usertoken_offline id t ex n w v s held allowed found clock off =
      let cached = get_cached_usertoken_found self id t ex n w s held found clock in
      let (w', state) =
        get_cachestate_lem self (state_key self id (some t)) (record s { world = w }) held in
      rw (allowed, cached, state, off) (stays (leb (from_secs ex) n) w')
    where
      stays :
          (expired : Bool) (w' : W)
          → ((by_state self id (some t) expired offline (record s { world = w' })).0
              ≡ Outcome.done (some t))
            × ((by_state self id (some t) expired offline (record s { world = w' })).1.db ≡ s.db)
      stays true w' = (refl, refl)
      stays false w' = (refl, refl)
