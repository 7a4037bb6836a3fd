-- ===== src/Resolver/Nss.antt =====
-- What the resolver answers to NSS and to PAM account management, src/common/src/resolver.rs.
pub mod Access
mod Tests
use Prim.Native.Char.{code}
use himmelblau.Common.{
  ℕ, Bool, true, false, ◌&&◌, String, Option, none, some, List, [], ◌∷◌, ◌++◌, map, any, ◌==◌,
  str_eq, if◌then◌else◌,
}
use Prim.Native.String.{◌++◌ as append}
use mathlib.Core.Option
use himmelblau.Idp.{UnixId, UserToken, GroupToken}
use himmelblau.Proto.{NssUser, NssGroup, HomeDirectoryInfo}
use himmelblau.Db.Groups.{get_group_members}
use himmelblau.Resolver.{Resolver, HomeAttr, UidAttr, Outcome, Act, pure, ◌>>=◌}
use himmelblau.Resolver.Cache.{query, get_cached_usertokens, get_cached_grouptokens}
use himmelblau.Resolver.Refresh.{get_usertoken, get_grouptoken}

-- `token.spn.split('@').collect()[0]`
cn_of : String → String
cn_of String.[] = ""
cn_of (String.◌∷◌ c s) = if code c == b'@' then "" else String.◌∷◌ c (cn_of s)

home_name : HomeAttr → UserToken → String
unfolding cn_of
home_name HomeAttr.uuid token = token.uuid
home_name HomeAttr.spn token = token.spn
home_name HomeAttr.name token = token.name
home_name HomeAttr.cn token = cn_of token.spn

module _ {W X : Type 0} (self : Resolver W X) where
  pub token_homedirectory_alias : UserToken → Option String
  unfolding home_name
  token_homedirectory_alias token = Option.map (λ t. home_name t token) self.home_alias

  pub token_homedirectory_attr : UserToken → String
  unfolding home_name
  token_homedirectory_attr token = home_name self.home_attr token

  pub token_homedirectory : UserToken → String
  unfolding token_homedirectory_alias token_homedirectory_attr
  token_homedirectory token = elim (token_homedirectory_alias token) [
    | some alias ↦ alias
    | none ↦ token_homedirectory_attr token
  ]

  pub token_abs_homedirectory : UserToken → String
  unfolding token_homedirectory
  token_abs_homedirectory token = append self.home_prefix (token_homedirectory token)

  pub token_uidattr : UserToken → String
  token_uidattr token = elim self.uid_attr_map [
    | UidAttr.spn ↦ token.spn
    | UidAttr.name ↦ token.name
  ]

  pub token_gidattr : GroupToken → String
  token_gidattr token = elim self.gid_attr_map [
    | UidAttr.spn ↦ token.spn
    | UidAttr.name ↦ token.name
  ]

  abbrev real_gid : UserToken → ℕ
  real_gid tok = elim tok.real_gidnumber [ some gid ↦ gid | none ↦ tok.gidnumber ]

  pub nss_user : UserToken → NssUser
  unfolding token_abs_homedirectory token_uidattr
  nss_user tok = record {
    homedir = token_abs_homedirectory tok;
    name = token_uidattr tok;
    uid = tok.gidnumber;
    gid = real_gid tok;
    gecos = tok.displayname;
    shell = elim tok.shell [ some shell ↦ shell | none ↦ self.default_shell ];
  }

  pub get_nssaccounts : Act W X (List NssUser)
  unfolding get_cached_usertokens nss_user
  get_nssaccounts = do tokens ← get_cached_usertokens self; pure (map nss_user tokens)

  pub get_nssaccount : UnixId → Act W X (Option NssUser)
  unfolding get_usertoken nss_user
  get_nssaccount account_id = do
    token ← get_usertoken self account_id
    pure (Option.map nss_user token)

  abbrev or_empty : Option (List UserToken) → List UserToken
  or_empty (some tokens) = tokens
  or_empty none = []

  pub get_groupmembers : String → Act W X (List String)
  unfolding token_uidattr
  get_groupmembers g_uuid = do
    members ← query self (get_group_members g_uuid)
    pure (map token_uidattr (or_empty members))

  pub nss_group : GroupToken → Act W X NssGroup
  unfolding get_groupmembers token_gidattr
  nss_group tok = do
    members ← get_groupmembers tok.uuid
    pure (record { name = token_gidattr tok; gid = tok.gidnumber; members = members })

  nss_groups : List GroupToken → Act W X (List NssGroup)
  unfolding nss_group
  nss_groups [] = pure []
  nss_groups (tok ∷ toks) = do
    group ← nss_group tok
    groups ← nss_groups toks
    pure (group ∷ groups)

  pub get_nssgroups : Act W X (List NssGroup)
  unfolding get_cached_grouptokens nss_groups
  get_nssgroups = do toks ← get_cached_grouptokens self; nss_groups toks

  nss_group_of : Option GroupToken → Act W X (Option NssGroup)
  unfolding nss_group
  nss_group_of none = pure none
  nss_group_of (some tok) = do group ← nss_group tok; pure (some group)

  pub get_nssgroup : UnixId → Act W X (Option NssGroup)
  unfolding get_grouptoken nss_group_of
  get_nssgroup grp_id = do token ← get_grouptoken self grp_id; nss_group_of token

  pub get_initgroups : String → Act W X (Option (List ℕ))
  unfolding get_usertoken
  get_initgroups account_id = do
    token ← get_usertoken self (UnixId.name account_id)
    pure (Option.map (λ (tok : UserToken). map (λ (g : GroupToken). g.gidnumber) tok.groups) token)

  -- `user_set` of `pam_account_allowed`: the uuids of the groups, and the account itself.
  abbrev pub user_set : String → UserToken → List String
  user_set account_id tok = map (λ (g : GroupToken). g.uuid) tok.groups ++ account_id ∷ []

  -- The intersection of the two sets is not empty, and the token is valid.
  pub is_allowed : String → UserToken → Bool
  is_allowed account_id tok =
      any (λ s. any (str_eq s) self.pam_allow_groups) (user_set account_id tok) && tok.valid

  allow : String → List String → Option UserToken → Option Bool
  unfolding is_allowed
  allow account_id [] token = some true
  allow account_id (g ∷ gs) token = Option.map (is_allowed account_id) token

  pub pam_account_allowed : String → Act W X (Option Bool)
  unfolding get_usertoken allow
  pam_account_allowed account_id = do
    token ← get_usertoken self (UnixId.name account_id)
    pure (allow account_id self.pam_allow_groups token)

  pub pam_account_beginsession : String → Act W X (Option HomeDirectoryInfo)
  unfolding get_usertoken token_homedirectory_attr token_homedirectory_alias
  pam_account_beginsession account_id = do
    token ← get_usertoken self (UnixId.name account_id)
    pure (
        Option.map
          (λ (tok : UserToken). record {
            uid = tok.gidnumber;
            gid = real_gid tok;
            name = token_homedirectory_attr tok;
            aliases = elim (token_homedirectory_alias tok) [ some s ↦ s ∷ [] | none ↦ [] ];
          })
          token)
