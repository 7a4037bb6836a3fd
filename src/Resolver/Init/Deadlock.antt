-- ===== src/Resolver/Init/Deadlock.antt =====
-- What a failure of the provider at the start of an authentication comes to,
-- src/common/src/resolver.rs.
use himmelblau.Common.{◌≡◌, false, String, Option, err, arith, Bool}
use himmelblau.Idp.{UserToken, IdpError}
use himmelblau.Resolver.{Resolver, Store, Outcome, ◌>>=◌}
use himmelblau.Resolver.Cache.{get_cachestate}
use himmelblau.Resolver.Init.{online_failed, online_init}

module _ {W X : Type 0} (self : Resolver W X) where
  open self use {client}

  -- When the provider fails online at the start of an authentication that need not be a
  -- re-authentication, the resolver asks for the cache state while it holds the open transaction,
  -- and waits for its own mutex for ever.
  pub online_init_failure :
      (account_id : String) (token : Option UserToken) (service : String) (no_hello_pin : Bool)
      (e : IdpError) (w : W) (s : Store W X)
      → s.db_held ≡ false
      → client.unix_user_online_auth_init account_id token service no_hello_pin false s.world
        ≡ (err e, w)
      → (online_init self account_id token service no_hello_pin false s).0 ≡ Outcome.blocked
  unfolding online_init online_failed get_cachestate ◌>>=◌
  online_init_failure account_id token service no_hello_pin e w s held failed = ground arith
