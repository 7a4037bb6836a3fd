-- ===== src/Db/Groups/Tests.antt =====
-- Runs of the operations on groups, src/common/src/db.rs.
use himmelblau.Common.{true, ℕ, ◌≡◌, refl, String, none, some, List, [], ◌∷◌, ok, arith}
use himmelblau.Idp.{UnixId, UserToken, GroupToken}
use himmelblau.Db.{GroupRow, Tables}
use himmelblau.Db.Accounts.{account_row}
use himmelblau.Db.Groups.{
  group_row, replace_group, get_group, update_group, update_groups, get_groups, delete_group,
  get_group_members, clear,
}
use himmelblau.Db.Groups.Conflicts.{get_group-same_name}

abbrev group : String → String → ℕ → GroupToken
group uuid name gid = record { name = name; spn = uuid; uuid = uuid; gidnumber = gid }

abbrev tables : List GroupRow → Tables ℕ
tables rows = record { account_t = []; group_t = rows; memberof_t = [] }

abbrev staff : GroupToken
staff = group "1" "staff" 100

abbrev other_staff : GroupToken
other_staff = group "2" "staff" 200

writes_both :
    update_groups (staff ∷ (other_staff ∷ [])) 7 (tables [])
    ≡ ok (tables (group_row other_staff 7 ∷ []))
unfolding update_groups update_group replace_group
writes_both = refl

writes_one : update_group staff 7 (tables []) ≡ ok (tables (group_row staff 7 ∷ []))
unfolding update_group replace_group
writes_one = refl

get_group-same_name_example :
    get_group (UnixId.gid 100) (tables (group_row other_staff 7 ∷ [])) ≡ ok none
get_group-same_name_example =
    get_group-same_name staff other_staff 7 (tables []) (tables (group_row other_staff 7 ∷ [])) refl
      (λ e. omega arith) writes_both

abbrev ada : UserToken
ada = record {
  name = "ada";
  spn = "ada";
  uuid = "7";
  real_gidnumber = none;
  gidnumber = 700;
  displayname = "";
  shell = none;
  groups = staff ∷ [];
  tenant_id = none;
  valid = true;
}

-- Ada is a member of the group with the uuid 1, and it is the only group.
abbrev joined : Tables ℕ
joined = record {
  account_t = account_row ada 9 none ∷ [];
  group_t = group_row staff 7 ∷ [];
  memberof_t = record { g_uuid = "1"; a_uuid = "7" } ∷ [];
}

finds_member : get_group_members "1" joined ≡ some (ada ∷ [])
unfolding get_group_members
finds_member = refl

lists_group : get_groups joined ≡ staff ∷ []
unfolding get_groups
lists_group = refl

forgets_group : get_group_members "1" (delete_group "1" joined) ≡ some []
unfolding get_group_members delete_group
forgets_group = refl

forgets_all : get_groups (clear joined) ≡ []
unfolding get_groups clear
forgets_all = refl
