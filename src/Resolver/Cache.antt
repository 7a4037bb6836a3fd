-- ===== src/Resolver/Cache.antt =====
-- The cached tokens of the resolver, src/common/src/resolver.rs: expiry, negative cache, exclusion
-- set.
pub mod Password
pub mod Locks
pub mod Reads
pub mod Writes
pub mod Reload
mod Tests
use himmelblau.Common.{
  ℕ, ◌+◌, ◌*◌, ◌/◌, Bool, true, false, not, ◌&&◌, ◌||◌, String, Option, none, some, List, [], ◌∷◌,
  Result, ok, err, leb, retain, if◌then◌else◌,
}
use himmelblau.Idp.{
  UnixId, UserToken, GroupToken, UserTokenState, IdpError, CacheState, online, offline,
  offline_next_check,
}
use himmelblau.Db.{Tables, CacheError}
use himmelblau.Db.Accounts.{
  get_account, get_accounts, update_account, delete_account, update_account_password,
  get_account_password,
}
use himmelblau.Db.Groups.{
  get_group, get_groups, update_group, update_groups, delete_group, invalidate as invalidate_tables,
  clear,
}
use himmelblau.Resolver.{
  Resolver, Store, Outcome, Act, pure, fail, outside, outside_, gets, from_result, attempt, with_db,
  on_option, ◌>>=◌, ◌>>◌, contains,
}

-- `Duration::from_secs`, in nanoseconds.
abbrev pub from_secs : ℕ → ℕ
from_secs n = n * 1_000_000_000

abbrev pub as_secs : ℕ → ℕ
as_secs t = t / 1_000_000_000

-- `check_nxset`, on the members of the set.
unfoldable pub in_nxset : Option String → Option ℕ → List UnixId → Bool
unfolding contains
in_nxset (some name) (some gid) ids =
    contains (UnixId.name name) ids || contains (UnixId.gid gid) ids
in_nxset (some name) none ids = contains (UnixId.name name) ids
in_nxset none (some gid) ids = contains (UnixId.gid gid) ids
in_nxset none none ids = false

-- The two parts of an account id that callers of `check_nxset` pass on.
unfoldable pub id_in_nxset : UnixId → List UnixId → Bool
unfolding in_nxset
id_in_nxset (UnixId.name name) ids = in_nxset (some name) none ids
id_in_nxset (UnixId.gid gid) ids = in_nxset none (some gid) ids

-- `token.groups.retain(…)` of `set_cache_usertoken`
unfoldable pub allowed_groups : List UnixId → List GroupToken → List GroupToken
unfolding contains
allowed_groups ids groups =
    retain (λ g. not (contains (UnixId.gid g.gidnumber) ids || contains (UnixId.name g.name) ids))
      groups

module _ {W X : Type 0} (self : Resolver W X) where
  open self use {client, system}

  -- COMMIT TRANSACTION with these tables.
  unfoldable pub commit : Tables X → Act W X (Unit {0})
  commit t s =
      let (done, w) = system.commit s.world in
      if done
      then (Outcome.done tt, record s { db = t; world = w })
      else (Outcome.failed, record s { world = w })

  -- A transaction that writes the tables and commits; on an error it is dropped.
  unfoldable pub transact : (Tables X → Result (Tables X) CacheError) → Act W X (Unit {0})
  unfolding commit
  transact f = with_db do r ← gets (λ s. f s.db); t ← from_result r; commit t

  -- A transaction that the provider alone has used, for its key store.
  unfoldable pub commit_keystore : Act W X (Unit {0})
  unfolding commit
  commit_keystore = do t ← gets (λ s. s.db); commit t

  unfoldable pub query : {A : Type 0} → (Tables X → A) → Act W X A
  query f = with_db (gets (λ s. f s.db))

  unfoldable pub get_cachestate : Option String → Act W X CacheState
  get_cachestate account_id =
      with_db do
        state ← outside (client.get_cachestate account_id)
        _ ← attempt commit_keystore
        pure state

  unfoldable pub clear_cache : Act W X (Unit {0})
  clear_cache = do
    outside_ system.nxcache_clear
    with_db do outside_ system.clear_hello_keys; t ← gets (λ s. s.db); commit (clear t)
    removed ← outside system.remove_server_config
    if removed then pure tt else fail

  unfoldable pub invalidate : Act W X (Unit {0})
  invalidate = do outside_ system.nxcache_clear; transact (λ t. ok (invalidate_tables t))

  unfoldable pub get_cached_usertokens : Act W X (List UserToken)
  get_cached_usertokens = query get_accounts

  unfoldable pub get_cached_grouptokens : Act W X (List GroupToken)
  get_cached_grouptokens = query get_groups

  unfoldable pub set_nxcache : UnixId → Act W X (Unit {0})
  set_nxcache id = do
    now ← outside system.now
    outside_ (system.nxcache_put id (now + from_secs self.timeout_seconds))

  unfoldable pub check_nxcache : UnixId → Act W X (Option ℕ)
  check_nxcache id = outside (system.nxcache_get id)

  -- One entry of the local passwd or group file, unless the administrator opted in to it.
  exclude : String × ℕ → List UnixId → List UnixId
  exclude (name, gid) ids =
      if contains (UnixId.gid gid) self.allow_id_overrides
        || contains (UnixId.name name) self.allow_id_overrides
      then ids
      else UnixId.gid gid ∷ (UnixId.name name ∷ ids)

  exclude_all : List (String × ℕ) → List UnixId → List UnixId
  unfolding exclude
  exclude_all [] ids = ids
  exclude_all (e ∷ es) ids = exclude_all es (exclude e ids)

  unfoldable pub reload_nxset : List (String × ℕ) → Act W X (Unit {0})
  unfolding exclude_all
  reload_nxset entries s = (Outcome.done tt, record s { nxset = exclude_all entries [] })

  unfoldable pub check_nxset : Option String → Option ℕ → Act W X Bool
  check_nxset name idnumber = gets (λ s. in_nxset name idnumber s.nxset)

  -- Whether a token that expires at `ex` has expired, with the token.
  stamped : {T : Type 0} → ℕ → T → Act W X (Bool × T)
  stamped ex_time item = do now ← outside system.now; pure (leb ex_time now, item)

  -- Not in the database: the negative cache says for how long that stands.
  missing : {T : Type 0} → UnixId → Act W X (Bool × Option T)
  unfolding check_nxcache stamped
  missing id = do
    cached ← check_nxcache id
    on_option cached (λ ex_time. stamped ex_time none) (pure (true, none))

  found_or_missing : {T : Type 0} → UnixId → Option (T × ℕ) → Act W X (Bool × Option T)
  unfolding missing stamped
  found_or_missing id (some (ut, ex)) = stamped (from_secs ex) (some ut)
  found_or_missing id none = missing id

  unfoldable pub get_cached_usertoken : UnixId → Act W X (Bool × Option UserToken)
  unfolding found_or_missing
  get_cached_usertoken account_id = with_db do
    r ← gets (λ s. get_account account_id s.db)
    found ← from_result r
    found_or_missing account_id found

  unfoldable pub get_cached_grouptoken : UnixId → Act W X (Bool × Option GroupToken)
  unfolding found_or_missing
  get_cached_grouptoken grp_id =
      with_db do
        r ← gets (λ s. get_group grp_id s.db)
        found ← from_result r
        found_or_missing grp_id found

  -- The shell that the token asks for if it exists on this system, else the default.
  unfoldable pub choose_shell : Option String → Act W X (Option String)
  choose_shell none = pure (some self.default_shell)
  choose_shell (some shell) = do
    exists ← outside (system.shell_exists shell)
    pure (some (if exists then shell else self.default_shell))

  -- `groups` first, so that the account's relationships can be made.
  store_token : UserToken → ℕ → Tables X → Result (Tables X) CacheError
  store_token token expire t = elim (update_groups token.groups expire t) [
    | ok t' ↦ update_account token expire t'
    | err e ↦ err e
  ]

  -- The `&mut UserToken` comes back as the result.
  unfoldable pub set_cache_usertoken : UserToken → Act W X UserToken
  unfolding choose_shell store_token
  set_cache_usertoken token = do
    now ← outside system.now
    shell ← choose_shell token.shell
    groups ← gets (λ s. allowed_groups s.nxset token.groups)
    let token' = record token { shell = shell; groups = groups }
    transact (store_token token' (as_secs (now + from_secs self.timeout_seconds)))
    pure token'

  unfoldable pub set_cache_grouptoken : GroupToken → Act W X (Unit {0})
  set_cache_grouptoken token = do
    now ← outside system.now
    transact (update_group token (as_secs (now + from_secs self.timeout_seconds)))

  unfoldable pub delete_cache_usertoken : String → Act W X (Unit {0})
  delete_cache_usertoken a_uuid = transact (λ t. ok (delete_account a_uuid t))

  unfoldable pub delete_cache_grouptoken : String → Act W X (Unit {0})
  delete_cache_grouptoken g_uuid = transact (λ t. ok (delete_group g_uuid t))

  unfoldable pub set_cache_userpassword : String → String → Act W X (Unit {0})
  set_cache_userpassword a_uuid cred = with_db do
    hashed ← outside (system.hash_password cred)
    blob ← from_result hashed
    t ← gets (λ s. s.db)
    commit (update_account_password a_uuid blob t)

  -- Without a stored hash nothing is verified and the answer is no.
  check_password : String → Option X → Act W X Bool
  check_password cred none = pure false
  check_password cred (some blob) = do
    verified ← outside (system.verify_password blob cred)
    from_result verified

  unfoldable pub check_cache_userpassword : String → String → Act W X Bool
  unfolding check_password
  check_cache_userpassword a_uuid cred = with_db do
    r ← gets (λ s. get_account_password a_uuid s.db)
    stored ← from_result r
    answer ← check_password cred stored
    commit_keystore
    pure answer
