-- ===== src/Resolver/Tokens/Locks.antt =====
-- Giving tokens (src/common/src/resolver.rs) never waits for the database for ever.
use himmelblau.Common.{◌≡◌, ◌≢◌, false, String, Option, none, some, List, Result, ok, err}
use himmelblau.Idp.{UnixId, UserToken}
use himmelblau.Resolver.{Resolver, Store, Act, pure, on_option, on_result, blocked, ◌>>=◌}
use himmelblau.Resolver.Rules.{Free, free_rules}
use himmelblau.Resolver.Cache.Locks.{commit_keystore-Local}
use himmelblau.Resolver.Refresh.Locks.{get_usertoken-Free}
use himmelblau.Resolver.Tokens.{ask_provider, for_user, get_user_accesstoken, change_auth_token}

module _ {W X : Type 0} (self : Resolver W X) where
  ask_provider-Free : {A : Type 0} (f : W → A × W) → Free (ask_provider self f)
  unfolding ask_provider
  ask_provider-Free f = search (free_rules, commit_keystore-Local) depth 12

  found-Free :
      {A : Type 0} (f : UserToken → Act W X (Option A)) (o : Option UserToken)
      → ((token : UserToken) → Free (f token))
      → Free (on_option o f (pure none))
  unfolding ◌>>=◌
  found-Free f (some token) free = free token
  found-Free f none free = search free_rules

  asked-Free :
      {A : Type 0} (f : UserToken → Act W X (Option A)) (r : Result (Option UserToken) (Unit {0}))
      → ((token : UserToken) → Free (f token))
      → Free (on_result r (λ o. on_option o f (pure none)) (λ e. pure none))
  unfolding ◌>>=◌
  asked-Free f (ok o) free = found-Free f o free
  asked-Free f (err e) free = search free_rules

  for_user-Free :
      {A : Type 0} (id : UnixId) (f : UserToken → Act W X (Option A))
      → ((token : UserToken) → Free (f token))
      → Free (for_user self id f)
  unfolding for_user
  for_user-Free id f free = search (free_rules, get_usertoken-Free, asked-Free) depth 12

  get_user_accesstoken-Free :
      (id : UnixId) (scopes : List String) (client_id redirect_uri req_cnf : Option String)
      → Free (get_user_accesstoken self id scopes client_id redirect_uri req_cnf)
  unfolding get_user_accesstoken
  get_user_accesstoken-Free id scopes client_id redirect_uri req_cnf =
      search (free_rules, for_user-Free, ask_provider-Free) depth 12

  change_auth_token-Free :
      (account_id : String) (token : X) (new_tok : String)
      → Free (change_auth_token self account_id token new_tok)
  unfolding change_auth_token
  change_auth_token-Free account_id token new_tok =
      search (free_rules, commit_keystore-Local) depth 12

  -- If no transaction is open, a request for an access token does not wait for ever and leaves no
  -- transaction open, whatever the cache and the provider answer; so does a change of the PIN.
  pub get_user_accesstoken_ends :
      (id : UnixId) (scopes : List String) (client_id redirect_uri req_cnf : Option String)
      (account_id new_tok : String) (token : X) (s : Store W X)
      → s.db_held ≡ false
      → (((get_user_accesstoken self id scopes client_id redirect_uri req_cnf s).0 ≢ blocked)
          × ((get_user_accesstoken self id scopes client_id redirect_uri req_cnf s).1.db_held
              ≡ false))
        × (((change_auth_token self account_id token new_tok s).0 ≢ blocked)
            × ((change_auth_token self account_id token new_tok s).1.db_held ≡ false))
  get_user_accesstoken_ends id scopes client_id redirect_uri req_cnf account_id new_tok token s
        held =
      (
        (get_user_accesstoken-Free id scopes client_id redirect_uri req_cnf).at s held,
        (change_auth_token-Free account_id token new_tok).at s held,
      )
