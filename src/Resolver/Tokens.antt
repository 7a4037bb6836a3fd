-- ===== src/Resolver/Tokens.antt =====
-- What the resolver gives a user that is signed in: access tokens, Kerberos tickets, cookies for single
-- sign-on and a new PIN (src/common/src/resolver.rs).
pub mod Excluded
pub mod Locks
mod Tests
use himmelblau.Common.{
  ℕ, Bool, true, false, String, Option, none, some, List, Result, ok, err, if◌then◌else◌,
}
use himmelblau.Idp.{UnixId, UserToken, IdpError}
use himmelblau.Resolver.{
  Resolver, Act, pure, fail, outside, gets, from_result, attempt, with_db, on_option, on_result,
  ◌>>=◌, ◌>>◌,
}
use himmelblau.Resolver.Cache.{id_in_nxset, in_nxset, commit_keystore}
use himmelblau.Resolver.Refresh.{get_usertoken}

-- The ids of the user, its tickets of the cloud and of the domain, the domain's names, and the tenant.
pub record Tickets (X : Type 0) : Type 0 where
  pub uid : ℕ
  pub gid : ℕ
  pub cloud_ccache : Option X
  pub ad_ccache : Option X
  pub top_level_names : Option String
  pub tenant_id : Option String

abbrev or_gid : ℕ → Option ℕ → ℕ
or_gid gid (some real) = real
or_gid gid none = gid

module _ {W X : Type 0} (self : Resolver W X) where
  open self use {client, system}

  -- A transaction in which the provider alone works; an error of its commit is `none`.
  unfoldable pub ask_provider : {A : Type 0} → (W → A × W) → Act W X (Option A)
  unfolding commit_keystore
  ask_provider f = with_db do
    a ← outside f
    r ← attempt (commit_keystore self)
    on_result r (λ u. pure (some a)) (λ e. pure none)

  -- A method for a user that is not excluded and whose token is found; `none` for others.
  unfoldable pub for_user :
      {A : Type 0} → UnixId → (UserToken → Act W X (Option A)) → Act W X (Option A)
  unfolding id_in_nxset get_usertoken
  for_user account_id f = do
    excluded ← gets (λ s. id_in_nxset account_id s.nxset)
    if excluded then pure none else (do
      r ← attempt (get_usertoken self account_id)
      on_result r (λ o. on_option o f (pure none)) (λ e. pure none))

  -- A result of the provider without its error.
  abbrev pub answer_of : {A : Type 0} → Option (Result A IdpError) → Option A
  answer_of (some (ok a)) = some a
  answer_of (some (err e)) = none
  answer_of none = none

  unfoldable pub get_user_accesstoken :
      UnixId → List String → Option String → Option String → Option String → Act W X (Option X)
  unfolding for_user ask_provider
  get_user_accesstoken account_id scopes client_id redirect_uri req_cnf =
      for_user account_id λ token. do
        r ←
            ask_provider (
              client.unix_user_access account_id scopes (some token) client_id redirect_uri req_cnf)
        pure (answer_of r)

  abbrev tickets_of :
      UserToken → Option (Option X × Option X × Option String × Option String) → Option (Tickets X)
  tickets_of token (some (cloud, ad, names, tenant)) = some (record {
    uid = token.gidnumber;
    gid = or_gid token.gidnumber token.real_gidnumber;
    cloud_ccache = cloud;
    ad_ccache = ad;
    top_level_names = names;
    tenant_id = tenant;
  })
  tickets_of token none = none

  unfoldable pub get_user_tgts : UnixId → Act W X (Option (Tickets X))
  unfolding for_user ask_provider
  get_user_tgts account_id = for_user account_id λ token. do
    r ← ask_provider (client.unix_user_tgts account_id (some token))
    pure (tickets_of token r)

  unfoldable pub get_user_prt_cookie : UnixId → Option String → Act W X (Option String)
  unfolding for_user ask_provider
  get_user_prt_cookie account_id sso_nonce = for_user account_id λ token. do
    r ← ask_provider (client.unix_user_prt_cookie account_id (some token) sso_nonce)
    pure (answer_of r)

  unfoldable pub change_auth_token : String → X → String → Act W X Bool
  unfolding in_nxset commit_keystore
  change_auth_token account_id token new_tok = do
    excluded ← gets (λ s. in_nxset (some account_id) none s.nxset)
    if excluded then pure false else (do
      r ← with_db (do
        r ← outside (client.change_auth_token account_id token new_tok)
        commit_keystore self
        pure r)
      from_result r)

  unfoldable pub offline_break_glass : Option ℕ → Act W X (Unit {0})
  offline_break_glass ttl = do r ← outside (client.offline_break_glass ttl); from_result r
