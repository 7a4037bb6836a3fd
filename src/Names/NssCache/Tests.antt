-- ===== src/Names/NssCache/Tests.antt =====
-- Runs of the NSS module's file (src/common/src/nss_cache.rs), and the theorem on it.
use himmelblau.Common.{
  ◌-◌, ◌≡◌, ◌&&◌, refl, true, none, some, [], ok, leb, is_some, str_eq, if◌then◌else◌,
}
use himmelblau.Proto.{NssUser}
use himmelblau.Idp.{UnixId}
use himmelblau.Names.Tables.{Mode}
use himmelblau.Names.NssCache.{NssCache, new_cache, insert_nss_user, get_nss_user, get_nss_users}
use himmelblau.Names.NssCache.Laws.{get_nss_user-insert_nss_user}

abbrev joe : NssUser
joe = record {
  name = "joe";
  uid = 1000;
  gid = 100;
  gecos = "Joe";
  homedir = "/home/joe";
  shell = "/bin/sh";
}

abbrev fresh_cache : NssCache
fresh_cache = record { conn = some []; writable = true }

created : new_cache none true true Mode.read_write ≡ ok fresh_cache
unfolding new_cache
created = refl

by_uid :
    get_nss_user true 172800 (UnixId.gid 1000) (insert_nss_user true 0 joe fresh_cache) ≡ some joe
unfolding get_nss_user insert_nss_user
by_uid = refl

too_old : get_nss_users true 172801 (insert_nss_user true 0 joe fresh_cache) ≡ []
unfolding get_nss_users insert_nss_user
too_old = refl

get_nss_user-insert_nss_user_example :
    get_nss_user true 60 (UnixId.name "joe") (insert_nss_user true 0 joe fresh_cache) ≡ (
      if is_some fresh_cache.conn && (fresh_cache.writable && (true && str_eq joe.name "joe"))
      then (if leb (60 - 0) 172800 then some joe else none)
      else get_nss_user true 60 (UnixId.name "joe") fresh_cache)
get_nss_user-insert_nss_user_example = get_nss_user-insert_nss_user true 0 60 joe "joe" fresh_cache
