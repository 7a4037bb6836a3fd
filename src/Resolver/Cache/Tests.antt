-- ===== src/Resolver/Cache/Tests.antt =====
-- Runs of the cache of src/common/src/resolver.rs.
use himmelblau.Common.{◌≡◌, refl, true, []}
use himmelblau.Idp.{online}
use himmelblau.Db.Groups.{clear}
use himmelblau.Resolver.{◌>>=◌}
use himmelblau.Resolver.Cache.{clear_cache, commit}
use himmelblau.Resolver.Sample.{resolver, asks_pin, store}

clears :
    (clear_cache (resolver online asks_pin true) (store 5)).1.db
    ≡ record { account_t = []; group_t = []; memberof_t = [] }
unfolding clear_cache clear commit ◌>>=◌
clears = refl
