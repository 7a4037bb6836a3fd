-- ===== src/Names/NssCache.antt =====
-- The file in which the NSS module finds users when the daemon does not answer
-- (src/common/src/nss_cache.rs). `runs` is whether SQLite runs a statement, times are seconds, and the
-- rows are in the order of their row ids.
pub mod Laws
mod Tests
use himmelblau.Common.{
  ℕ, ◌-◌, ◌*◌, Bool, true, false, ◌&&◌, not, String, Option, none, some, List, [], ◌∷◌, ◌++◌,
  Result, ok, err, leb, ◌==◌, if◌then◌else◌, retain, str_eq,
}
use himmelblau.Proto.{NssUser}
use himmelblau.Idp.{UnixId}
use himmelblau.Names.Tables.{Mode}

pub record NssRow : Type 0 where
  pub user : NssUser
  pub last_updated : ℕ

pub record NssCache : Type 0 where
  pub conn : Option (List NssRow)
  pub writable : Bool

abbrev pub max_age_secs : ℕ
max_age_secs = 48 * 3600

abbrev is_read_write : Mode → Bool
is_read_write Mode.read_only = false
is_read_write Mode.read_write = true

-- `new`, for a database that is there or not; `opens` as for the other tables.
unfoldable pub new_cache : Option (List NssRow) → Bool → Bool → Mode → Result NssCache (Unit {0})
new_cache (some rows) is_root opens mode =
    if opens
    then ok (record { conn = some rows; writable = is_root && is_read_write mode })
    else err tt
new_cache none is_root opens mode =
    if is_root
    then (if not opens
        then err tt
        else if is_read_write mode
        then ok (record { conn = some []; writable = true })
        else ok (record { conn = none; writable = false }))
    else ok (record { conn = none; writable = false })

-- INSERT OR REPLACE: the new row has a new row id.
abbrev pub replace_row : ℕ → NssUser → List NssRow → List NssRow
replace_row now user rows =
    retain (λ r. not (str_eq r.user.name user.name)) rows
    ++ (record { user = user; last_updated = now } ∷ [])

abbrev stored : Bool → ℕ → NssUser → NssCache → Option (List NssRow) → NssCache
stored runs now user c (some rows) =
    if c.writable && runs then record c { conn = some (replace_row now user rows) } else c
stored runs now user c none = c

-- An error of SQLite is dropped.
unfoldable pub insert_nss_user : Bool → ℕ → NssUser → NssCache → NssCache
insert_nss_user runs now user c = stored runs now user c c.conn

abbrev pub is_asked : UnixId → NssRow → Bool
is_asked (UnixId.name n) r = str_eq r.user.name n
is_asked (UnixId.gid uid) r = r.user.uid == uid

abbrev pub first_row : UnixId → List NssRow → Option NssRow
first_row id [] = none
first_row id (r ∷ rs) = if is_asked id r then some r else first_row id rs

abbrev pub is_recent : ℕ → NssRow → Bool
is_recent now r = leb (now - r.last_updated) max_age_secs

abbrev pub recent_user : ℕ → Option NssRow → Option NssUser
recent_user now (some r) = if is_recent now r then some r.user else none
recent_user now none = none

abbrev pub found_user : Bool → ℕ → UnixId → Option (List NssRow) → Option NssUser
found_user runs now id (some rows) = if runs then recent_user now (first_row id rows) else none
found_user runs now id none = none

unfoldable pub get_nss_user : Bool → ℕ → UnixId → NssCache → Option NssUser
get_nss_user runs now id c = found_user runs now id c.conn

unfoldable pub recent_users : ℕ → List NssRow → List NssUser
recent_users now [] = []
recent_users now (r ∷ rs) =
    let rest = recent_users now rs in if is_recent now r then r.user ∷ rest else rest

unfoldable pub users_of : Bool → ℕ → Option (List NssRow) → List NssUser
unfolding recent_users
users_of runs now (some rows) = if runs then recent_users now rows else []
users_of runs now none = []

unfoldable pub get_nss_users : Bool → ℕ → NssCache → List NssUser
unfolding users_of
get_nss_users runs now c = users_of runs now c.conn
