-- ===== src/Resolver/Refresh/Tests.antt =====
-- Runs of the answers with a user's token, src/common/src/resolver.rs.
use himmelblau.Common.{◌≡◌, refl, true, some, arith}
use himmelblau.Idp.{UnixId, online}
use himmelblau.Db.Accounts.{get_account}
use himmelblau.Resolver.{Outcome}
use himmelblau.Resolver.Cache.{id_in_nxset}
use himmelblau.Resolver.Refresh.{get_usertoken}
use himmelblau.Resolver.Refresh.Freshness.{get_usertoken_fresh}
use himmelblau.Resolver.Sample.{alice, resolver, asks_pin, store}

get_usertoken_fresh_example :
    ((get_usertoken (resolver online asks_pin true) (UnixId.gid 1000) (store 5)).0
      ≡ Outcome.done (some alice))
    × ((get_usertoken (resolver online asks_pin true) (UnixId.gid 1000) (store 5)).1.db
        ≡ (store 5).db)
unfolding id_in_nxset get_account
get_usertoken_fresh_example =
    get_usertoken_fresh (resolver online asks_pin true) (UnixId.gid 1000) alice 10 5 6 (store 5)
      refl refl refl refl (omega arith)
