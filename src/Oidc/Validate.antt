-- ===== src/Oidc/Validate.antt =====
-- Whose token it is, `token_validate` (src/common/src/idprovider/openidconnect.rs).
use Prim.Native.String.{◌++◌ as append}
use himmelblau.Common.{
  ◌≡◌, Bool, String, Option, none, some, Result, ok, err, if◌then◌else◌, str_eq, str_eq→eq,
  Bool-cases, inl, inr, arith,
}
use himmelblau.Idp.{IdpError, UserToken, AuthResult}
use himmelblau.Oidc.{Client}

module _ {W D T : Type 0} (client : Client W D T) (account_id : String) where
  abbrev cache_token : Option String → W → W
  cache_token (some token) w = client.cache_refresh_token account_id token w
  cache_token none w = w

  -- The user of the token is the one that was asked for, whatever the case of the letters.
  abbrev same_user : UserToken → Bool
  same_user user = str_eq (client.to_lowercase account_id) (client.to_lowercase user.name)

  unfoldable pub compared : T → Result UserToken IdpError → W → Result AuthResult IdpError × W
  compared token (ok user) w =
      if same_user user
      then (ok (AuthResult.success user), cache_token (client.refresh_token token) w)
      else (
        ok (
            AuthResult.denied
              (append "Authenticated user " (append user.uuid " does not match requested user"))),
        w,
      )
  compared token (err e) w = (err e, w)

  unfoldable pub read_user : T → Result String IdpError → W → Result AuthResult IdpError × W
  unfolding compared
  read_user token (ok tenant_id) w =
      let (r, w') = client.user_token_from_oidc token tenant_id w in compared token r w'
  read_user token (err e) w = (err e, w)

  unfoldable pub token_validate : T → W → Result AuthResult IdpError × W
  unfolding read_user
  token_validate token w = let (r, w') = client.tenant_id w in read_user token r w'

  -- Some token that came over the network is that of this user, and it is the user that was asked for.
  abbrev pub Valid : UserToken → Type 0
  Valid user =
      (client.to_lowercase account_id ≡ client.to_lowercase user.name)
      × ((tenant_id : String) × (token : T) × (w : W) × ((client.user_token_from_oidc token
              tenant_id w).0
            ≡ ok user))

  kept :
      (token : T) (r : Result UserToken IdpError) (w : W) (user : UserToken)
      → (compared token r w).0 ≡ ok (AuthResult.success user)
      → (r ≡ ok user) × (client.to_lowercase account_id ≡ client.to_lowercase user.name)
  unfolding compared
  kept token (ok u) w user h = elim (Bool-cases (same_user u)) [
    | inl same ↦
        let e : u ≡ user = ground arith in
        (
          cc,
          ground
              (arith, str_eq→eq (client.to_lowercase account_id) (client.to_lowercase u.name) same),
        )
    | inr other ↦ absurd (ground arith)
  ]
  kept token (err e) w user h = cc

  read-Valid :
      (token : T) (r : Result String IdpError) (w : W) (user : UserToken)
      → (read_user token r w).0 ≡ ok (AuthResult.success user)
      → Valid user
  unfolding read_user
  read-Valid token (ok tenant_id) w user h =
      let (r, w') = client.user_token_from_oidc token tenant_id w in
      let (e, same) = kept token r w' user h in (same, (tenant_id, token, w, e))
  read-Valid token (err e) w user h = cc

  pub token_validate-Valid :
      (token : T) (w : W) (user : UserToken)
      → (token_validate token w).0 ≡ ok (AuthResult.success user)
      → Valid user
  unfolding token_validate
  token_validate-Valid token w user h =
      let (r, w') = client.tenant_id w in read-Valid token r w' user h
