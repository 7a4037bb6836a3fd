-- ===== src/Names/Tables/Tests.antt =====
-- Runs of the tables of names and of fixed ids (src/common/src/mapping.rs,
-- src/common/src/idmap_cache.rs), and the theorems on them.
use himmelblau.Common.{◌≡◌, refl, true, false, none, some, [], ◌∷◌, ok}
use himmelblau.Names.Tables.{
  MappedNameCache, Mode, new_names, insert_mapping, StaticUser, StaticIdCache, new_static,
  insert_user, insert_group, get_group_by_name, list_users, list_groups,
}

abbrev names : MappedNameCache
names = record { conn = some []; writable = true }

abbrev ids : StaticIdCache
ids = record { conn = some (record { static_users = []; static_groups = [] }); writable = true }

abbrev joe : StaticUser
joe = record { name = "joe"; uid = 1000; gid = 100 }

created_names : new_names none true true Mode.read_write ≡ ok names
unfolding new_names
created_names = refl

not_root : new_names none false true Mode.read_write ≡ ok (record { conn = none; writable = false })
unfolding new_names
not_root = refl

created_ids : new_static none true true true ≡ ok ids
unfolding new_static
created_ids = refl

no_at : insert_mapping true "joe" "joseph" names ≡ names
unfolding insert_mapping
no_at = refl

listed : list_users true (insert_user true joe ids).1 ≡ joe ∷ []
unfolding list_users insert_user
listed = refl

groups_listed :
    list_groups true (insert_group true (record { name = "staff"; gid = 100 }) ids).1
    ≡ record { name = "staff"; gid = 100 } ∷ []
unfolding list_groups insert_group
groups_listed = refl

group_found :
    get_group_by_name true "staff" (insert_group true (record { name = "staff"; gid = 100 }) ids).1
    ≡ some (record { name = "staff"; gid = 100 })
unfolding get_group_by_name insert_group
group_found = refl
