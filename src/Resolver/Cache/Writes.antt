-- ===== src/Resolver/Cache/Writes.antt =====
-- The transactions of src/common/src/resolver.rs that write: by whether they can be committed.
use himmelblau.Common.{◌≡◌, refl, true, false, ok, err, Result, String, arith}
use himmelblau.Db.{Tables, CacheError}
use himmelblau.Db.Accounts.{delete_account}
use himmelblau.Resolver.{Resolver, Store, Outcome, ◌>>=◌}
use himmelblau.Resolver.Cache.{transact, commit, delete_cache_usertoken}

module _ {W X : Type 0} (self : Resolver W X) where
  open self use {system}

  pub transact_committed :
      (f : Tables X → Result (Tables X) CacheError) (t : Tables X) (w : W) (s : Store W X)
      → s.db_held ≡ false
      → f s.db ≡ ok t
      → system.commit s.world ≡ (true, w)
      → transact self f s ≡ (Outcome.done tt, record s { db = t; world = w })
  unfolding transact commit ◌>>=◌
  transact_committed f t w s held written committed = ground arith

  pub transact_lost :
      (f : Tables X → Result (Tables X) CacheError) (t : Tables X) (w : W) (s : Store W X)
      → s.db_held ≡ false
      → f s.db ≡ ok t
      → system.commit s.world ≡ (false, w)
      → transact self f s ≡ (Outcome.failed, record s { world = w })
  unfolding transact commit ◌>>=◌
  transact_lost f t w s held written lost = ground arith

  pub transact_refused :
      (f : Tables X → Result (Tables X) CacheError) (e : CacheError) (s : Store W X)
      → s.db_held ≡ false
      → f s.db ≡ err e
      → transact self f s ≡ (Outcome.failed, s)
  unfolding transact commit ◌>>=◌
  transact_refused f e s held refused = ground arith

  pub delete_cache_usertoken_committed :
      (uuid : String) (w : W) (s : Store W X)
      → s.db_held ≡ false
      → system.commit s.world ≡ (true, w)
      → delete_cache_usertoken self uuid s
        ≡ (Outcome.done tt, record s { db = delete_account uuid s.db; world = w })
  unfolding delete_cache_usertoken
  delete_cache_usertoken_committed uuid w s held committed =
      transact_committed (λ t. ok (delete_account uuid t)) (delete_account uuid s.db) w s held refl
        committed

  pub delete_cache_usertoken_lost :
      (uuid : String) (w : W) (s : Store W X)
      → s.db_held ≡ false
      → system.commit s.world ≡ (false, w)
      → delete_cache_usertoken self uuid s ≡ (Outcome.failed, record s { world = w })
  unfolding delete_cache_usertoken
  delete_cache_usertoken_lost uuid w s held lost =
      transact_lost (λ t. ok (delete_account uuid t)) (delete_account uuid s.db) w s held refl lost
