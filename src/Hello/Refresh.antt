-- ===== src/Hello/Refresh.antt =====
-- The caches of PRTs and of refresh tokens, `RefreshCache` (src/common/src/idprovider/common.rs). The
-- names of accounts are in lower case in both.
pub mod Laws
mod Tests
use himmelblau.Common.{
  ℕ, ◌+◌, ◌-◌, ◌≤◌, Bool, true, false, String, Option, none, some, List, [], ◌∷◌, map, Result, ok,
  err, ltb, if◌then◌else◌,
}
use himmelblau.Idp.{IdpError}
use himmelblau.Hello.{
  Device, Entry, Issued, Provider, Act, get, without, insert, pure, fail, gets, outside, modify,
  ◌>>=◌, ◌>>◌,
}

pub data RefreshCacheEntry (X : Type 0) : Type 0 where
  prt : X → RefreshCacheEntry X
  refresh_token : String → RefreshCacheEntry X

unfoldable pub remove_all : {V : Type 0} → List String → List (Entry V) → List (Entry V)
unfolding without
remove_all [] es = es
remove_all (k ∷ ks) es = remove_all ks (without k es)

-- `export_broker_prts`, up to the JSON: the PRTs with the times at which they were issued.
unfoldable pub export_broker_prts : {X : Type 0} → List (Entry (Issued X)) → List (Entry (Issued X))
export_broker_prts [] = []
export_broker_prts (e ∷ es) =
    record { account = e.account; value = record { token = e.value.token; iat = e.value.iat } }
    ∷ export_broker_prts es

module _ {W X : Type 0} (device : Device W X) where
  -- The keys of the entries of more than a day ago, which reads the clock for each.
  unfoldable pub expired : {V : Type 0} → List (Entry (Issued V)) → Act W X (List String)
  expired [] = pure []
  expired (e ∷ es) = do
    now ← outside device.now
    rest ← expired es
    pure (if ltb (e.value.iat + 86400) now then e.account ∷ rest else rest)

  unfoldable pub purge : Act W X (Unit {0})
  unfolding expired remove_all
  purge = do
    old_prts ← (λ s. expired s.refresh_cache s)
    modify (λ s. record s { refresh_cache = remove_all old_prts s.refresh_cache })
    old_tokens ← (λ s. expired s.refresh_token_cache s)
    modify (λ s. record s { refresh_token_cache = remove_all old_tokens s.refresh_token_cache })

  abbrev pub cached : Option (Issued X) → Option (Issued String) → Act W X (RefreshCacheEntry X)
  cached (some e) o = pure (RefreshCacheEntry.prt e.token)
  cached none (some e) = pure (RefreshCacheEntry.refresh_token e.token)
  cached none none = fail (IdpError.not_found "account_id" "refresh_cache")

  -- `RefreshCache::refresh_token`
  unfoldable pub cached_token : String → Act W X (RefreshCacheEntry X)
  unfolding purge get
  cached_token account_id = do
    purge
    found ← gets (λ s. get (device.to_lowercase account_id) s.refresh_cache)
    token ← gets (λ s. get (device.to_lowercase account_id) s.refresh_token_cache)
    cached found token

  -- `SystemTime::elapsed`, which fails for a time to come.
  abbrev elapsed : Option (Issued X) → ℕ → Option ℕ
  elapsed none now = none
  elapsed (some e) now = if ltb now e.iat then none else some (now - e.iat)

  unfoldable pub prt_age : String → Act W X (Option ℕ)
  unfolding get
  prt_age account_id = do
    entry ← gets (λ s. get (device.to_lowercase account_id) s.refresh_cache)
    now ← outside device.now
    pure (elapsed entry now)

  unfoldable pub add : String → RefreshCacheEntry X → Act W X (Unit {0})
  unfolding without
  add account_id (RefreshCacheEntry.prt token) = do
    now ← outside device.now
    modify (λ s. record s {
      refresh_cache =
          insert (device.to_lowercase account_id) (record { token = token; iat = now })
            s.refresh_cache;
    })
  add account_id (RefreshCacheEntry.refresh_token token) = do
    now ← outside device.now
    modify (λ s. record s {
      refresh_token_cache =
          insert (device.to_lowercase account_id) (record { token = token; iat = now })
            s.refresh_token_cache;
    })

  abbrev import_all : List (Entry (Issued X)) → List (Entry (Issued X)) → List (Entry (Issued X))
  import_all [] es = es
  import_all (e ∷ rest) es = import_all rest (insert (device.to_lowercase e.account) e.value es)

  unfoldable pub import_broker_prts : List (Entry (Issued X)) → Act W X (Unit {0})
  unfolding without
  import_broker_prts entries =
      modify (λ s. record s { refresh_cache = import_all entries s.refresh_cache })
