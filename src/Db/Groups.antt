-- ===== src/Db/Groups.antt =====
-- The operations of src/common/src/db.rs on `group_t`, on a group's members, and on all tables.
pub mod Conflicts
mod Tests
use himmelblau.Common.{
  ℕ, ◌^◌, Bool, not, ◌&&◌, ◌||◌, String, Option, none, some, List, [], ◌∷◌, ◌++◌, map, retain,
  Result, ok, err, ltb, ◌==◌, if◌then◌else◌, str_eq,
}
use himmelblau.Idp.{UnixId, UserToken, GroupToken}
use himmelblau.Db.{
  CacheError, AccountRow, GroupRow, Member, Tables, Found, filter_some, collect, single,
}

abbrev group_data : GroupRow → Option GroupToken × ℕ
group_data r = (r.token, r.expiry)

-- WHERE uuid = :grp_id OR name = :grp_id OR spn = :grp_id
pub group_is : UnixId → GroupRow → Bool
group_is (UnixId.name n) r = str_eq r.uuid n || str_eq r.name n || str_eq r.spn n
group_is (UnixId.gid g) r = r.gidnumber == g

-- The rows that INSERT OR REPLACE removes: those that share a key or a unique column.
pub clashes : GroupToken → GroupRow → Bool
clashes g r =
    str_eq r.uuid g.uuid || str_eq r.name g.name || str_eq r.spn g.spn || r.gidnumber == g.gidnumber

abbrev pub group_row : GroupToken → ℕ → GroupRow
group_row g expire = record {
  uuid = g.uuid;
  name = g.name;
  spn = g.spn;
  gidnumber = g.gidnumber;
  token = some g;
  expiry = expire;
}

pub replace_group : GroupToken → ℕ → List GroupRow → List GroupRow
unfolding clashes
replace_group g expire rs = retain (λ r. not (clashes g r)) rs ++ group_row g expire ∷ []

expire_groups : List GroupRow → List GroupRow
expire_groups [] = []
expire_groups (r ∷ rs) = record r { expiry = 0 } ∷ expire_groups rs

module _ {X : Type 0} where
  unfoldable pub get_group : UnixId → Tables X → Found GroupToken
  unfolding single group_is
  get_group id t = single (map group_data (retain (group_is id) t.group_t))

  unfoldable pub get_groups : Tables X → List GroupToken
  unfolding filter_some
  get_groups t = filter_some (map (λ (r : GroupRow). r.token) t.group_t)

  unfoldable pub update_group : GroupToken → ℕ → Tables X → Result (Tables X) CacheError
  unfolding replace_group
  update_group g expire t =
      if ltb expire (2 ^ 63)
      then ok (record t { group_t = replace_group g expire t.group_t })
      else err CacheError.parse

  -- `groups.iter().try_for_each(|g| dbtxn.update_group(g, expire))`
  unfoldable pub update_groups : List GroupToken → ℕ → Tables X → Result (Tables X) CacheError
  unfolding update_group
  update_groups [] expire t = ok t
  update_groups (g ∷ gs) expire t = elim (update_group g expire t) [
    | ok t' ↦ update_groups gs expire t'
    | err e ↦ err e
  ]

  pub delete_group : String → Tables X → Tables X
  delete_group g_uuid t = record t {
    memberof_t = retain (λ m. not (str_eq m.g_uuid g_uuid)) t.memberof_t;
    group_t = retain (λ r. not (str_eq r.uuid g_uuid)) t.group_t;
  }

  -- The join of `account_t` and `memberof_t`: a row of the answer for each pair that fits.
  join_members : String → AccountRow X → List Member → List (Option UserToken)
  join_members g_uuid r [] = []
  join_members g_uuid r (m ∷ ms) =
      let rest = join_members g_uuid r ms in
      if str_eq r.uuid m.a_uuid && str_eq m.g_uuid g_uuid then r.token ∷ rest else rest

  join_accounts : String → List (AccountRow X) → List Member → List (Option UserToken)
  unfolding join_members
  join_accounts g_uuid [] ms = []
  join_accounts g_uuid (r ∷ rs) ms = join_members g_uuid r ms ++ join_accounts g_uuid rs ms

  -- One token that serde_json cannot read fails the whole query.
  pub get_group_members : String → Tables X → Option (List UserToken)
  unfolding collect join_accounts
  get_group_members g_uuid t = collect (join_accounts g_uuid t.account_t t.memberof_t)

  expire_accounts : List (AccountRow X) → List (AccountRow X)
  expire_accounts [] = []
  expire_accounts (r ∷ rs) = record r { expiry = 0 } ∷ expire_accounts rs

  -- UPDATE group_t SET expiry = 0, and the same of account_t
  unfoldable pub invalidate : Tables X → Tables X
  unfolding expire_accounts expire_groups
  invalidate t = record t {
    group_t = expire_groups t.group_t;
    account_t = expire_accounts t.account_t;
  }

  unfoldable pub clear : Tables X → Tables X
  clear t = record { account_t = []; group_t = []; memberof_t = [] }
