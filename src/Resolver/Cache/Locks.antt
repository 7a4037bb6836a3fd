-- ===== src/Resolver/Cache/Locks.antt =====
-- The operations on the cache (src/common/src/resolver.rs) give the database's mutex back.
use himmelblau.Common.{Option, none, some, ℕ, String, arith}
use himmelblau.Idp.{UnixId, UserToken}
use himmelblau.Db.{Tables}
use himmelblau.Resolver.{Resolver}
use himmelblau.Resolver.Rules.{Local, Free, local_rules, free_rules}
use himmelblau.Resolver.Cache.{
  commit, commit_keystore, get_cachestate, get_cached_usertoken, get_cached_grouptoken,
  found_or_missing, missing, stamped, check_nxcache, set_nxcache, choose_shell, set_cache_usertoken,
  transact, delete_cache_usertoken, set_cache_userpassword, check_cache_userpassword,
  check_password, check_nxset,
}

module _ {W X : Type 0} (self : Resolver W X) where
  pub commit-Local : (t : Tables X) → Local (commit self t)
  unfolding commit
  commit-Local t = record { at = λ s. ground arith }

  pub commit_keystore-Local : Local (commit_keystore self)
  unfolding commit_keystore
  commit_keystore-Local = search (local_rules, commit-Local)

  pub get_cachestate-Free : (id : Option String) → Free (get_cachestate self id)
  unfolding get_cachestate
  get_cachestate-Free id = search (free_rules, commit_keystore-Local) depth 9

  stamped-Local : {T : Type 0} (ex : ℕ) (item : T) → Local (stamped self ex item)
  unfolding stamped
  stamped-Local ex item = search local_rules

  found_or_missing-Local :
      {T : Type 0} (id : UnixId) (r : Option (T × ℕ)) → Local (found_or_missing self id r)
  unfolding found_or_missing missing check_nxcache
  found_or_missing-Local id (some (ut, ex)) = search (local_rules, stamped-Local) depth 8
  found_or_missing-Local id none = search (local_rules, stamped-Local) depth 8

  pub get_cached_usertoken-Free : (id : UnixId) → Free (get_cached_usertoken self id)
  unfolding get_cached_usertoken
  get_cached_usertoken-Free id = search (free_rules, found_or_missing-Local) depth 9

  pub get_cached_grouptoken-Free : (id : UnixId) → Free (get_cached_grouptoken self id)
  unfolding get_cached_grouptoken
  get_cached_grouptoken-Free id = search (free_rules, found_or_missing-Local) depth 9

  pub set_nxcache-Free : (id : UnixId) → Free (set_nxcache self id)
  unfolding set_nxcache
  set_nxcache-Free id = search free_rules depth 9

  choose_shell-Local : (shell : Option String) → Local (choose_shell self shell)
  unfolding choose_shell
  choose_shell-Local none = search local_rules
  choose_shell-Local (some shell) = search local_rules

  transact-Free : (f : Tables X → _) → Free (transact self f)
  unfolding transact
  transact-Free f = search (free_rules, commit-Local) depth 9

  pub set_cache_usertoken-Free : (token : UserToken) → Free (set_cache_usertoken self token)
  unfolding set_cache_usertoken
  set_cache_usertoken-Free token = search (free_rules, choose_shell-Local, transact-Free) depth 12

  pub delete_cache_usertoken-Free : (uuid : String) → Free (delete_cache_usertoken self uuid)
  unfolding delete_cache_usertoken
  delete_cache_usertoken-Free uuid = search (transact-Free)

  pub set_cache_userpassword-Free :
      (uuid cred : String) → Free (set_cache_userpassword self uuid cred)
  unfolding set_cache_userpassword
  set_cache_userpassword-Free uuid cred = search (free_rules, commit-Local) depth 12

  check_password-Local :
      (cred : String) (stored : Option X) → Local (check_password self cred stored)
  unfolding check_password
  check_password-Local cred none = search local_rules
  check_password-Local cred (some blob) = search local_rules

  pub check_cache_userpassword-Free :
      (uuid cred : String) → Free (check_cache_userpassword self uuid cred)
  unfolding check_cache_userpassword
  check_cache_userpassword-Free uuid cred =
      search (free_rules, check_password-Local, commit_keystore-Local) depth 12

  pub check_nxset-Free : (name : Option String) (gid : Option ℕ) → Free (check_nxset self name gid)
  unfolding check_nxset
  check_nxset-Free name gid = search free_rules
