-- ===== src/Resolver/Cache/Password.antt =====
-- The check of a cached password, `check_cache_userpassword` of src/common/src/resolver.rs.
use himmelblau.Common.{
  ◌≡◌, refl, true, false, Bool, String, Option, none, some, Result, ok, err, arith,
}
use himmelblau.Db.Accounts.{get_account_password}
use himmelblau.Db.{CacheError}
use himmelblau.Resolver.{
  Resolver, Store, Outcome, continue, done, failed, blocked, from_result, pure, ◌>>=◌, ◌>>◌,
}
use himmelblau.Resolver.Cache.{check_cache_userpassword, check_password, commit_keystore, commit}

module _ {W X : Type 0} (self : Resolver W X) where
  check_password-true :
      (cred : String) (stored : Option X) (s : Store W X)
      → (check_password self cred stored s).0 ≡ done true
      → (blob : X) × (stored ≡ some blob)
        × ((self.system.verify_password blob cred s.world).0 ≡ ok true)
  unfolding check_password ◌>>=◌
  check_password-true cred none s h = cc
  check_password-true cred (some blob) s h = (blob, refl, ground arith)

  after_check :
      (cred : String) (b : Outcome Bool) (s : Store W X)
      → (continue b (λ answer. do commit_keystore self; pure answer) s).0 ≡ done true
      → b ≡ done true
  unfolding commit_keystore commit ◌>>=◌
  after_check cred (done b) s h = ground arith
  after_check cred failed s h = cc
  after_check cred blocked s h = cc

  checked :
      (cred : String) (r : Result (Option X) CacheError) (s : Store W X)
      → ((do
        stored ← from_result r
        answer ← check_password self cred stored
        commit_keystore self
        pure answer)
          s).0
        ≡ done true
      → (blob : X) × (r ≡ ok (some blob))
        × ((self.system.verify_password blob cred s.world).0 ≡ ok true)
  unfolding ◌>>=◌
  checked cred (ok stored) s h =
      let (blob, e, v) = check_password-true cred stored s (after_check cred _ _ h) in
      (blob, rw (e) refl, v)
  checked cred (err e) s h = cc

  -- A yes means that a stored hash was verified.
  pub check_cache_userpassword-true :
      (u cred : String) (s : Store W X)
      → s.db_held ≡ false
      → (check_cache_userpassword self u cred s).0 ≡ done true
      → (blob : X) × (get_account_password u s.db ≡ ok (some blob))
        × ((self.system.verify_password blob cred s.world).0 ≡ ok true)
  unfolding check_cache_userpassword ◌>>=◌
  check_cache_userpassword-true u cred s held h =
      checked cred (get_account_password u s.db) (record s { db_held = true }) (ground arith)
