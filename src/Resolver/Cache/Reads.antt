-- ===== src/Resolver/Cache/Reads.antt =====
-- The reads of the cache in src/common/src/resolver.rs: what they answer, and that they leave the
-- tables as they are.
use himmelblau.Common.{ℕ, ◌≡◌, false, Option, some, String, ok, leb, arith}
use himmelblau.Idp.{UnixId, UserToken}
use himmelblau.Db.Accounts.{get_account}
use himmelblau.Resolver.{Resolver, Store, Outcome, ◌>>=◌}
use himmelblau.Resolver.Cache.{
  from_secs, get_cached_usertoken, get_cachestate, commit_keystore, commit,
}

module _ {W X : Type 0} (self : Resolver W X) where
  open self use {client, system}

  -- The provider's cache state, whether or not its transaction can be committed.
  pub get_cachestate_lem :
      (id : Option String) (s : Store W X)
      → s.db_held ≡ false
      → (w : W) × (get_cachestate self id s
          ≡ (Outcome.done (client.get_cachestate id s.world).0, record s { world = w }))
  unfolding get_cachestate commit_keystore commit ◌>>=◌
  get_cachestate_lem id s held =
      let w = (client.get_cachestate id s.world).1 in ((system.commit w).1, ground arith)

  -- A token of the database, and whether its expiry has come.
  pub get_cached_usertoken_found :
      (id : UnixId) (t : UserToken) (ex n : ℕ) (w : W) (s : Store W X)
      → s.db_held ≡ false
      → get_account id s.db ≡ ok (some (t, ex))
      → system.now s.world ≡ (n, w)
      → get_cached_usertoken self id s
        ≡ (Outcome.done (leb (from_secs ex) n, some t), record s { world = w })
  unfolding get_cached_usertoken ◌>>=◌
  get_cached_usertoken_found id t ex n w s held found clock = ground arith
