-- ===== src/Names/Tables.antt =====
-- The table of mapped names (src/common/src/mapping.rs) and those of fixed ids
-- (src/common/src/idmap_cache.rs). A table is the list of its rows, one for each primary key; `runs` is
-- whether SQLite runs the statement, and `opens` whether the directory and the file can be made and
-- opened.
pub mod Laws
mod Tests
use himmelblau.Common.{
  ℕ, Bool, true, false, ◌||◌, ◌&&◌, not, String, Option, none, some, List, [], ◌∷◌, Result, ok, err,
  ◌==◌, if◌then◌else◌, retain, codes, str_eq, any,
}

pub record Mapping : Type 0 where
  pub upn : String
  pub mapped_name : String

pub data Mode : Type 0 where
  read_only : Mode
  read_write : Mode

pub record MappedNameCache : Type 0 where
  pub conn : Option (List Mapping)
  pub writable : Bool

abbrev is_read_write : Mode → Bool
is_read_write Mode.read_only = false
is_read_write Mode.read_write = true

-- `new`, for a database that is there or not.
unfoldable pub new_names :
    Option (List Mapping) → Bool → Bool → Mode → Result MappedNameCache (Unit {0})
new_names (some rows) is_root opens mode =
    if opens
    then ok (record { conn = some rows; writable = is_root && is_read_write mode })
    else err tt
new_names none is_root opens mode =
    if is_root
    then (if not opens
        then err tt
        else if is_read_write mode
        then ok (record { conn = some []; writable = true })
        else ok (record { conn = none; writable = false }))
    else ok (record { conn = none; writable = false })

abbrev pub has_at : String → Bool
has_at s = any (λ c. c == 64) (codes s)

-- INSERT OR REPLACE
abbrev replace_mapping : String → String → List Mapping → List Mapping
replace_mapping upn mapped_name rows =
    record { upn = upn; mapped_name = mapped_name } ∷ retain (λ r. not (str_eq r.upn upn)) rows

abbrev written : Bool → String → String → MappedNameCache → Option (List Mapping) → MappedNameCache
written runs upn mapped_name m (some rows) =
    if m.writable && runs
    then record m { conn = some (replace_mapping upn mapped_name rows) }
    else m
written runs upn mapped_name m none = m

-- An error of SQLite is dropped.
unfoldable pub insert_mapping : Bool → String → String → MappedNameCache → MappedNameCache
insert_mapping runs upn mapped_name m =
    if not (has_at upn) || str_eq upn mapped_name then m else written runs upn mapped_name m m.conn

abbrev pub select_mapping : String → List Mapping → Option String
select_mapping upn [] = none
select_mapping upn (r ∷ rs) = if str_eq r.upn upn then some r.mapped_name else select_mapping upn rs

abbrev or_upn : String → Option String → String
or_upn upn (some mapped_name) = mapped_name
or_upn upn none = upn

abbrev pub looked_up : Bool → String → Option (List Mapping) → String
looked_up runs upn (some rows) =
    if has_at upn && runs then or_upn upn (select_mapping upn rows) else upn
looked_up runs upn none = upn

unfoldable pub get_mapped_name : Bool → String → MappedNameCache → String
get_mapped_name runs upn m = looked_up runs upn m.conn

pub record StaticUser : Type 0 where
  pub name : String
  pub uid : ℕ
  pub gid : ℕ

pub record StaticGroup : Type 0 where
  pub name : String
  pub gid : ℕ

pub record StaticTables : Type 0 where
  pub static_users : List StaticUser
  pub static_groups : List StaticGroup

pub record StaticIdCache : Type 0 where
  pub conn : Option StaticTables
  pub writable : Bool

unfoldable pub new_static :
    Option StaticTables → Bool → Bool → Bool → Result StaticIdCache (Unit {0})
new_static (some tables) is_root opens writable =
    if opens then ok (record { conn = some tables; writable = writable && is_root }) else err tt
new_static none is_root opens writable =
    if writable && is_root
    then (if opens
        then ok (record {
          conn = some (record { static_users = []; static_groups = [] });
          writable = true;
        })
        else err tt)
    else ok (record { conn = none; writable = false })

abbrev pub Written : Type 0
Written = Result (Unit {0}) (Unit {0}) × StaticIdCache

abbrev add_user : StaticUser → StaticTables → StaticTables
add_user u t = record t {
  static_users = u ∷ retain (λ x. not (str_eq x.name u.name)) t.static_users;
}

abbrev add_group : StaticGroup → StaticTables → StaticTables
add_group g t = record t {
  static_groups = g ∷ retain (λ x. not (str_eq x.name g.name)) t.static_groups;
}

-- The write goes to a connection that is there and may be written; else nothing is done.
abbrev execute :
    Bool → (StaticTables → StaticTables) → StaticIdCache → Option StaticTables → Written
execute runs change c (some tables) =
    if c.writable
    then (if runs then (ok tt, record c { conn = some (change tables) }) else (err tt, c))
    else (ok tt, c)
execute runs change c none = (ok tt, c)

unfoldable pub insert_user : Bool → StaticUser → StaticIdCache → Written
insert_user runs u c = execute runs (add_user u) c c.conn

unfoldable pub insert_group : Bool → StaticGroup → StaticIdCache → Written
insert_group runs g c = execute runs (add_group g) c c.conn

abbrev pub select_user : String → List StaticUser → Option StaticUser
select_user name [] = none
select_user name (u ∷ us) = if str_eq u.name name then some u else select_user name us

abbrev pub select_group : String → List StaticGroup → Option StaticGroup
select_group name [] = none
select_group name (g ∷ gs) = if str_eq g.name name then some g else select_group name gs

abbrev pub user_in : Bool → String → Option StaticTables → Option StaticUser
user_in runs name (some t) = if runs then select_user name t.static_users else none
user_in runs name none = none

abbrev pub group_in : Bool → String → Option StaticTables → Option StaticGroup
group_in runs name (some t) = if runs then select_group name t.static_groups else none
group_in runs name none = none

unfoldable pub get_user_by_name : Bool → String → StaticIdCache → Option StaticUser
get_user_by_name runs name c = user_in runs name c.conn

unfoldable pub get_group_by_name : Bool → String → StaticIdCache → Option StaticGroup
get_group_by_name runs name c = group_in runs name c.conn

abbrev users_in : Bool → Option StaticTables → List StaticUser
users_in runs (some t) = if runs then t.static_users else []
users_in runs none = []

abbrev groups_in : Bool → Option StaticTables → List StaticGroup
groups_in runs (some t) = if runs then t.static_groups else []
groups_in runs none = []

unfoldable pub list_users : Bool → StaticIdCache → List StaticUser
list_users runs c = users_in runs c.conn

unfoldable pub list_groups : Bool → StaticIdCache → List StaticGroup
list_groups runs c = groups_in runs c.conn
