-- ===== src/Resolver/Sample.antt =====
-- A resolver over a small outside world, for the runs in the Tests modules beside the code of
-- src/common/src/resolver.rs: the world is a clock, and a password is its own hash.
use himmelblau.Common.{
  ℕ, suc, Bool, true, false, String, none, some, [], ◌∷◌, Result, ok, err, str_eq,
}
use himmelblau.Idp.{
  UnixId, UserToken, UserTokenState, IdpError, IdProvider, CacheState, AuthRequest, AuthCredHandler,
  AuthResult, AuthCacheAction,
}
use himmelblau.Db.{AccountRow}
use himmelblau.Resolver.{Resolver, System, Store, HomeAttr, UidAttr}
use himmelblau.Resolver.Session.{Progress}

abbrev pub alice : UserToken
alice = record {
  name = "alice";
  spn = "alice@example.org";
  uuid = "u-alice";
  real_gidnumber = none;
  gidnumber = 1000;
  displayname = "Alice";
  shell = none;
  groups = (record { name = "staff"; spn = "staff"; uuid = "g-staff"; gidnumber = 2000 }) ∷ [];
  tenant_id = none;
  valid = true;
}

-- The provider is in this state; online it accepts every credential as alice's, and at the start of
-- an authentication it gives this answer.
abbrev pub provider :
    CacheState → Result (AuthRequest × AuthCredHandler String) IdpError → IdProvider ℕ String
provider state begin = record {
  check_online = λ now w. (true, w);
  unix_user_get = λ id token w. (ok UserTokenState.use_cached, w);
  unix_user_access = λ id scopes token client nonce extra w. (err IdpError.bad_request, w);
  unix_user_tgts = λ id token w. ((none, none, none, none), w);
  unix_user_prt_cookie = λ id token nonce w. (err IdpError.bad_request, w);
  change_auth_token = λ id token new w. (ok true, w);
  unix_user_online_auth_init = λ id token service pin reauth w. (begin, w);
  unix_user_online_auth_step = λ id token service pin handler req w.
      ((handler, ok (AuthResult.success alice, AuthCacheAction.none)), w);
  unix_user_offline_auth_init = λ id token pin w. (begin, w);
  unix_user_offline_auth_step =
      λ id token handler req at_init w. ((handler, ok (AuthResult.success alice)), w);
  unix_group_get = λ id w. (err (IdpError.not_found "group" "directory"), w);
  get_cachestate = λ id w. (state, w);
  offline_break_glass = λ ttl w. (ok tt, w);
}

abbrev pub system : Bool → System ℕ String
system commits = record {
  now = λ w. (w, suc w);
  commit = λ w. (commits, w);
  shell_exists = λ shell w. (true, w);
  nxcache_put = λ id ex w. w;
  nxcache_get = λ id w. (none, w);
  nxcache_clear = λ w. w;
  hash_password = λ cred w. (ok cred, w);
  verify_password = λ blob cred w. (ok (str_eq blob cred), w);
  clear_hello_keys = λ w. w;
  remove_server_config = λ w. (true, w);
}

abbrev pub resolver :
    CacheState → Result (AuthRequest × AuthCredHandler String) IdpError → Bool → Resolver ℕ String
resolver state begin commits = record {
  client = provider state begin;
  system = system commits;
  timeout_seconds = 300;
  pam_allow_groups = "g-staff" ∷ [];
  default_shell = "/bin/bash";
  home_prefix = "/home/";
  home_attr = HomeAttr.uuid;
  home_alias = some HomeAttr.spn;
  uid_attr_map = UidAttr.spn;
  gid_attr_map = UidAttr.name;
  allow_id_overrides = [];
}

abbrev pub asks_pin : Result (AuthRequest × AuthCredHandler String) IdpError
asks_pin = ok (AuthRequest.pin, AuthCredHandler.none)

abbrev pub alice_row : AccountRow String
alice_row = record {
  uuid = "u-alice";
  name = "alice";
  spn = "alice@example.org";
  gidnumber = 1000;
  password = some "secret";
  token = some alice;
  expiry = 10;
}

-- Alice is in the cache, with her password; root is a local user.
abbrev pub store : ℕ → Store ℕ String
store clock = record {
  db = record { account_t = alice_row ∷ []; group_t = []; memberof_t = [] };
  db_held = false;
  nxset = UnixId.name "root" ∷ (UnixId.gid 0 ∷ []);
  world = clock;
}

abbrev pub progress : Bool → Progress String
progress reauth = record {
  account_id = "alice";
  service = "login";
  id = UnixId.name "alice";
  token = some alice;
  online_at_init = true;
  cred_handler = AuthCredHandler.none;
  no_hello_pin = false;
  force_reauth = reauth;
}
