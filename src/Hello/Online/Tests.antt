-- ===== src/Hello/Online/Tests.antt =====
-- A provider that goes offline by break glass, and the theorems on it.
use himmelblau.Common.{ℕ, ◌≡◌, refl, true, false, String, none, [], ok, err, arith}
use himmelblau.Idp.{IdpError, CacheState}
use himmelblau.Hello.{Provider, ◌>>=◌}
use himmelblau.Hello.Refresh.{RefreshCacheEntry, add}
use himmelblau.Hello.Online.{check_online, offline_break_glass, require_online, unix_user_access}
use himmelblau.Hello.Online.Laws.{offline_break_glass-check_online}
use himmelblau.Hello.Sample.{device, config, provider}

abbrev online : Provider ℕ String
online = record provider { state = CacheState.online }

offline_break_glass-check_online_example :
    (let t =
        (offline_break_glass device
          (record config { offline_breakglass_enabled = true })
          none
          online).1 in
      check_online device 59 t ≡ (ok false, t))
offline_break_glass-check_online_example =
    offline_break_glass-check_online device (record config { offline_breakglass_enabled = true })
      none 59 online refl (omega arith)

redeemed :
    (unix_user_access device "alice" none []
      (add device "alice" (RefreshCacheEntry.prt "prt") online).1).0
    ≡ ok "prt"
unfolding unix_user_access add require_online ◌>>=◌
redeemed = refl

nothing_cached :
    (unix_user_access device "alice" none [] online).0
    ≡ err (IdpError.not_found "account_id" "refresh_cache")
unfolding unix_user_access require_online ◌>>=◌
nothing_cached = refl
