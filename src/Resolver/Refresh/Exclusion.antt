-- ===== src/Resolver/Refresh/Exclusion.antt =====
-- Local users and groups are never looked up, src/common/src/resolver.rs.
use himmelblau.Common.{◌≡◌, true, none, arith}
use himmelblau.Idp.{UnixId}
use himmelblau.Resolver.{Resolver, Store, Outcome, ◌>>=◌}
use himmelblau.Resolver.Cache.{id_in_nxset}
use himmelblau.Resolver.Refresh.{get_usertoken}

-- An id of the exclusion set has no token, and asking for one touches neither the cache nor the
-- identity provider.
pub get_usertoken_excluded :
    {W X : Type 0} (self : Resolver W X) (id : UnixId) (s : Store W X)
    → id_in_nxset id s.nxset ≡ true
    → get_usertoken self id s ≡ (Outcome.done none, s)
unfolding get_usertoken ◌>>=◌
get_usertoken_excluded self id s h = ground arith
