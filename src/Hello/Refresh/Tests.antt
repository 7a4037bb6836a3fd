-- ===== src/Hello/Refresh/Tests.antt =====
-- Runs of the caches of tokens, and the theorems on them.
use himmelblau.Common.{ℕ, ◌≡◌, refl, String, some, [], ◌∷◌, ok}
use himmelblau.Hello.{Provider, Device, get, ◌>>=◌}
use himmelblau.Hello.Refresh.{cached_token, prt_age, export_broker_prts, import_broker_prts}
use himmelblau.Hello.Refresh.Laws.{fresh, held, cached_token_lem}
use himmelblau.Hello.Sample.{device, provider}

-- A day and a second after the epoch.
abbrev late : Device ℕ String
late = record device { now = λ w. (86401, w) }

abbrev two_tokens : Provider ℕ String
two_tokens = record provider {
  refresh_cache = record { account = "alice"; value = record { token = "prt"; iat = 0 } } ∷ [];
  refresh_token_cache =
      record { account = "alice"; value = record { token = "token"; iat = 1 } } ∷ [];
}

cached_token_lem_example :
    (cached_token late "alice" two_tokens).0
    ≡ held {W = ℕ} {X = String} late
        (fresh 86401 (get "alice" two_tokens.refresh_cache))
        (fresh 86401 (get "alice" two_tokens.refresh_token_cache))
cached_token_lem_example =
    cached_token_lem late 86401 "alice" two_tokens (λ w. refl) (tt, tt) (tt, tt)

aged : (prt_age late "alice" two_tokens).0 ≡ ok (some 86401)
unfolding prt_age ◌>>=◌
aged = refl

moved :
    (import_broker_prts late (export_broker_prts two_tokens.refresh_cache) provider).1.refresh_cache
    ≡ two_tokens.refresh_cache
unfolding import_broker_prts export_broker_prts ◌>>=◌
moved = refl
