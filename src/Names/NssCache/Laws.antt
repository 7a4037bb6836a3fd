-- ===== src/Names/NssCache/Laws.antt =====
-- What the NSS module finds after a user was written (src/common/src/nss_cache.rs).
use himmelblau.Common.{
  ℕ, ◌-◌, ◌≡◌, Bool, true, false, ◌&&◌, String, none, some, List, [], ◌∷◌, leb, arith,
  if◌then◌else◌, str_eq, eq_iff, Bool-cases, inl, inr, is_some, Option-cases,
}
use himmelblau.Proto.{NssUser}
use himmelblau.Idp.{UnixId}
use himmelblau.Names.NssCache.{
  NssRow, NssCache, replace_row, insert_nss_user, first_row, get_nss_user,
}

first_row-same :
    (now : ℕ) (user : NssUser) (name : String) (rows : List NssRow)
    → str_eq user.name name ≡ true
    → first_row (UnixId.name name) (replace_row now user rows)
      ≡ some (record { user = user; last_updated = now })
first_row-same now user name [] h = ground arith
first_row-same now user name (r ∷ rs) h = ground (
  arith,
  first_row-same now user name rs h,
  eq_iff r.user.name user.name,
  eq_iff r.user.name name,
  eq_iff user.name name,
)

first_row-others :
    (now : ℕ) (user : NssUser) (name : String) (rows : List NssRow)
    → str_eq user.name name ≡ false
    → first_row (UnixId.name name) (replace_row now user rows) ≡ first_row (UnixId.name name) rows
first_row-others now user name [] h = ground arith
first_row-others now user name (r ∷ rs) h = ground (
  arith,
  first_row-others now user name rs h,
  eq_iff r.user.name user.name,
  eq_iff r.user.name name,
  eq_iff user.name name,
)

-- A user that was written is found by its name for 48 hours and not after, whatever was written for the
-- name before; what is found by other names is as before, as is everything where the file cannot be
-- written or SQLite does not write.
pub get_nss_user-insert_nss_user :
    (runs : Bool) (written now : ℕ) (user : NssUser) (name : String) (c : NssCache)
    → get_nss_user true now (UnixId.name name) (insert_nss_user runs written user c) ≡ (
        if is_some c.conn && (c.writable && (runs && str_eq user.name name))
        then (if leb (now - written) 172800 then some user else none)
        else get_nss_user true now (UnixId.name name) c)
unfolding get_nss_user insert_nss_user
get_nss_user-insert_nss_user runs written now user name c = elim (Option-cases c.conn) [
  | inl closed ↦ ground arith
  | inr (rows, e) ↦ elim (Bool-cases (str_eq user.name name)) [
    | inl hit ↦ ground (arith, first_row-same written user name rows hit)
    | inr miss ↦ ground (arith, first_row-others written user name rows miss)
  ]
]
