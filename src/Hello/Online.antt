-- ===== src/Hello/Online.antt =====
-- Whether the provider is online (src/common/src/idprovider/common.rs, and `attempt_online` of
-- src/common/src/idprovider/himmelblau.rs), and access tokens for a user.
pub mod Laws
mod Tests
use himmelblau.Common.{
  ℕ, ◌+◌, Bool, true, false, String, Option, none, some, List, Result, ok, err, leb, if◌then◌else◌,
}
use himmelblau.Idp.{IdpError, CacheState, UserToken}
use himmelblau.Hello.{
  Config, Device, Provider, Act, pure, fail, gets, outside, modify, or_fail, ◌>>=◌, ◌>>◌,
}
use himmelblau.Hello.Refresh.{RefreshCacheEntry, cached_token}

-- OFFLINE_NEXT_CHECK
abbrev pub offline_next_check_secs : ℕ
offline_next_check_secs = 15

module _ {W X : Type 0} (device : Device W X) where
  unfoldable pub set_state : CacheState → Act W X (Unit {0})
  set_state state = modify (λ s. record s { state = state })

  unfoldable pub attempt_online : ℕ → Act W X Bool
  unfolding set_state
  attempt_online now = do
    answered ← outside device.probe
    if answered
        then (set_state CacheState.online >> pure true)
        else (set_state (CacheState.offline_next_check (now + offline_next_check_secs))
            >> pure false)

  abbrev pub check_state : ℕ → CacheState → Act W X Bool
  check_state now CacheState.online = pure true
  check_state now (CacheState.offline_next_check at_time) =
      if leb at_time now then attempt_online now else pure false
  check_state now CacheState.offline = pure false

  unfoldable pub check_online : ℕ → Act W X Bool
  unfolding attempt_online
  check_online now = do state ← gets (λ s. s.state); check_state now state

  abbrev pub break_glass_ttl : Config → Option ℕ → ℕ
  break_glass_ttl config (some ttl) = ttl
  break_glass_ttl config none = config.offline_breakglass_ttl

  unfoldable pub offline_break_glass : Config → Option ℕ → Act W X (Unit {0})
  unfolding set_state
  offline_break_glass config ttl =
      if config.offline_breakglass_enabled
      then (do
        now ← outside device.now
        set_state (CacheState.offline_next_check (now + break_glass_ttl config ttl)))
      else pure tt

  -- The start of `impl_unix_user_access!` and of `impl_change_auth_token!`.
  unfoldable pub require_online : Act W X (Unit {0})
  unfolding check_online
  require_online = do
    init ← outside device.delayed_init
    or_fail IdpError.bad_request init
    now ← outside device.now
    online ← check_online now
    if online then pure tt else fail IdpError.bad_request

  abbrev spn_or : String → Option UserToken → String
  spn_or id none = id
  spn_or id (some token) = token.spn

  unfoldable pub redeem : List String → RefreshCacheEntry X → Act W X X
  redeem scopes (RefreshCacheEntry.prt prt) = do
    r ← outside (device.exchange_prt prt scopes)
    or_fail IdpError.bad_request r
  redeem scopes (RefreshCacheEntry.refresh_token token) = do
    r ← outside (device.redeem_refresh_token token scopes)
    or_fail IdpError.bad_request r

  unfoldable pub unix_user_access : String → Option UserToken → List String → Act W X X
  unfolding require_online cached_token redeem
  unix_user_access id old_token scopes = do
    require_online
    entry ← cached_token device (spn_or id old_token)
    redeem scopes entry
