-- ===== src/Db/Accounts/Tests.antt =====
-- Runs of the operations on accounts, src/common/src/db.rs.
use himmelblau.Common.{
  ℕ, ◌≡◌, refl, true, String, none, some, List, [], ◌∷◌, ok, err, arith, str_eq→ne,
}
use himmelblau.Idp.{UnixId, UserToken}
use himmelblau.Db.{CacheError, AccountRow, Tables, nocase_eq}
use himmelblau.Db.Accounts.{
  account_row, has_account, conflicts, set_account, upsert_account, memberships, get_account,
  update_account, get_accounts,
}
use himmelblau.Db.Accounts.Unique.{IsUnique}
use himmelblau.Db.Accounts.Lookup.{get_account-update_account}
use himmelblau.Db.Accounts.Names.{get_account-nocase_twins}

abbrev user : String → String → ℕ → UserToken
user uuid name gid = record {
  name = name;
  spn = name;
  uuid = uuid;
  real_gidnumber = none;
  gidnumber = gid;
  displayname = "";
  shell = none;
  groups = [];
  tenant_id = none;
  valid = true;
}

abbrev tables : List (AccountRow ℕ) → Tables ℕ
tables rows = record { account_t = rows; group_t = []; memberof_t = [] }

abbrev two : List (AccountRow ℕ)
two = account_row (user "1" "ada" 100) 7 (some 42) ∷ (account_row (user "2" "bob" 200) 7 none ∷ [])

two-IsUnique : IsUnique two
two-IsUnique = (
  (
    record {
      uuid = str_eq→ne _ _ refl;
      name = str_eq→ne _ _ refl;
      spn = str_eq→ne _ _ refl;
      gidnumber = λ e. omega arith;
    },
    tt,
  ),
  (tt, tt),
)

-- Bob's row goes, since its name is taken; Ada's takes the new name.
abbrev renamed : Tables ℕ
renamed = tables (account_row (user "1" "bob" 100) 9 (some 42) ∷ [])

renames : update_account (user "1" "bob" 100) 9 (tables two) ≡ ok renamed
unfolding update_account upsert_account conflicts set_account has_account memberships
renames = refl

get_account-update_account_example :
    get_account (UnixId.gid 100) renamed ≡ ok (some (user "1" "bob" 100, 9))
get_account-update_account_example =
    get_account-update_account (user "1" "bob" 100) 9 (tables two) renamed two-IsUnique renames

abbrev twin : String → String → ℕ → AccountRow ℕ
twin uuid name gid = account_row (user uuid name gid) 7 none

get_account-nocase_twins_example :
    get_account (UnixId.name "ADA") (tables (twin "1" "ada" 100 ∷ (twin "2" "Ada" 200 ∷ [])))
    ≡ err CacheError.too_many_results
unfolding update_account upsert_account conflicts set_account has_account memberships nocase_eq
get_account-nocase_twins_example =
    get_account-nocase_twins (user "1" "ada" 100) (user "2" "Ada" 200) 7 "ADA"
      (tables (twin "1" "ada" 100 ∷ [])) (tables (twin "1" "ada" 100 ∷ (twin "2" "Ada" 200 ∷ [])))
      (str_eq→ne _ _ refl) (str_eq→ne _ _ refl) (str_eq→ne _ _ refl) (λ e. omega arith) refl refl
      refl refl

lists_both : get_accounts (tables two) ≡ user "1" "ada" 100 ∷ (user "2" "bob" 200 ∷ [])
unfolding get_accounts
lists_both = refl
