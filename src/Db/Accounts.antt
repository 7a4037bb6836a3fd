-- ===== src/Db/Accounts.antt =====
-- The operations of src/common/src/db.rs on `account_t` and on an account's memberships.
pub mod Unique
pub mod Lookup
pub mod Password
pub mod Names
pub mod Invalidate
mod Tests
use himmelblau.Common.{
  ℕ, ◌^◌, Bool, not, ◌&&◌, ◌||◌, String, Option, none, some, List, [], ◌∷◌, ◌++◌, map, retain, any,
  Result, ok, err, ltb, ◌==◌, if◌then◌else◌, str_eq,
}
use himmelblau.Idp.{UnixId, UserToken, GroupToken}
use himmelblau.Db.{CacheError, AccountRow, Member, Tables, Found, nocase_eq, filter_some, single}

pub memberships : UserToken → List Member → List Member
memberships a ms =
    retain (λ m. not (str_eq m.a_uuid a.uuid)) ms
    ++ map (λ (g : GroupToken). record { g_uuid = g.uuid; a_uuid = a.uuid }) a.groups

module _ {X : Type 0} where
  abbrev account_data : AccountRow X → Option UserToken × ℕ
  account_data r = (r.token, r.expiry)

  -- WHERE uuid = :id OR name = :id COLLATE NOCASE OR spn = :id COLLATE NOCASE
  pub account_is : UnixId → AccountRow X → Bool
  account_is (UnixId.name n) r = str_eq r.uuid n || nocase_eq r.name n || nocase_eq r.spn n
  account_is (UnixId.gid g) r = r.gidnumber == g

  unfoldable pub get_account : UnixId → Tables X → Found UserToken
  unfolding single account_is
  get_account id t = single (map account_data (retain (account_is id) t.account_t))

  unfoldable pub get_accounts : Tables X → List UserToken
  unfolding filter_some
  get_accounts t = filter_some (map (λ (r : AccountRow X). r.token) t.account_t)

  -- NOT uuid = :uuid AND (name = :name OR spn = :spn OR gidnumber = :gidnumber)
  pub conflicts : UserToken → AccountRow X → Bool
  conflicts a r =
      not (str_eq r.uuid a.uuid)
      && (str_eq r.name a.name || str_eq r.spn a.spn || r.gidnumber == a.gidnumber)

  -- The row after UPDATE or INSERT: only the password is kept.
  abbrev pub account_row : UserToken → ℕ → Option X → AccountRow X
  account_row a expire password = record {
    uuid = a.uuid;
    name = a.name;
    spn = a.spn;
    gidnumber = a.gidnumber;
    password = password;
    token = some a;
    expiry = expire;
  }

  pub set_account : UserToken → ℕ → List (AccountRow X) → List (AccountRow X)
  set_account a expire [] = []
  set_account a expire (r ∷ rs) =
      (if str_eq r.uuid a.uuid then account_row a expire r.password else r)
      ∷ set_account a expire rs

  pub has_account : String → List (AccountRow X) → Bool
  has_account uuid rs = any (λ r. str_eq r.uuid uuid) rs

  pub upsert_account : UserToken → ℕ → List (AccountRow X) → List (AccountRow X)
  unfolding conflicts set_account has_account
  upsert_account a expire rs =
      let kept = retain (λ r. not (conflicts a r)) rs in
      if has_account a.uuid kept
      then set_account a expire kept
      else kept ++ account_row a expire none ∷ []

  -- `i64::try_from(expire)` fails from 2^63 on.
  unfoldable pub update_account : UserToken → ℕ → Tables X → Result (Tables X) CacheError
  unfolding upsert_account memberships
  update_account a expire t =
      if ltb expire (2 ^ 63)
      then ok (record t {
        account_t = upsert_account a expire t.account_t;
        memberof_t = memberships a t.memberof_t;
      })
      else err CacheError.parse

  pub delete_account : String → Tables X → Tables X
  delete_account a_uuid t = record t {
    memberof_t = retain (λ m. not (str_eq m.a_uuid a_uuid)) t.memberof_t;
    account_t = retain (λ r. not (str_eq r.uuid a_uuid)) t.account_t;
  }

  set_password : String → X → List (AccountRow X) → List (AccountRow X)
  set_password a_uuid blob [] = []
  set_password a_uuid blob (r ∷ rs) =
      (if str_eq r.uuid a_uuid then record r { password = some blob } else r)
      ∷ set_password a_uuid blob rs

  pub update_account_password : String → X → Tables X → Tables X
  unfolding set_password
  update_account_password a_uuid blob t = record t {
    account_t = set_password a_uuid blob t.account_t;
  }

  -- SELECT password FROM account_t WHERE uuid = :a_uuid AND password IS NOT NULL
  passwords : String → List (AccountRow X) → List X
  unfolding filter_some
  passwords a_uuid rs =
      filter_some (map (λ (r : AccountRow X). r.password) (retain (λ r. str_eq r.uuid a_uuid) rs))

  single_password : List X → Result (Option X) CacheError
  single_password [] = ok none
  single_password (p ∷ []) = ok (some p)
  single_password (p ∷ (q ∷ ps)) = err CacheError.too_many_results

  -- The stored hash that `check_account_password` verifies against, if there is one.
  unfoldable pub get_account_password : String → Tables X → Result (Option X) CacheError
  unfolding passwords single_password
  get_account_password a_uuid t = single_password (passwords a_uuid t.account_t)
