-- ===== src/Resolver/Nss/Access.antt =====
-- Whom `pam_account_allowed` of src/common/src/resolver.rs lets in.
use himmelblau.Common.{
  ◌≡◌, refl, ◌↔◌, ◌⊎◌, inl, inr, true, String, List, ◌∷◌, none, Mem, any, any-some, any-Mem, str_eq,
  str_eq→eq, eq_refl, subst, sym, arith, any-images, any-last, any-image,
}
use himmelblau.Idp.{UnixId, GroupToken, UserToken}
use himmelblau.Resolver.{Resolver, Store, done, ◌>>=◌}
use himmelblau.Resolver.Cache.{id_in_nxset}
use himmelblau.Resolver.Refresh.Exclusion.{get_usertoken_excluded}
use himmelblau.Resolver.Nss.{
  is_allowed, user_set, get_nssaccount, get_initgroups, pam_account_beginsession,
  pam_account_allowed,
}

listed : (x : String) (xs : List String) → any (str_eq x) xs ≡ true → Mem x xs
listed x xs found =
    let (y, n, same) = any-some (str_eq x) xs found in
    subst (λ z. Mem z xs) (sym (str_eq→eq x y same)) n

module _ {W X : Type 0} (self : Resolver W X) where
  -- With a list of allowed groups, an account is let in exactly when its token is valid and the list
  -- has the account's own id or the UUID of one of the token's groups.
  pub is_allowed_iff :
      (account_id : String) (tok : UserToken)
      → (is_allowed self account_id tok ≡ true) ↔ (
          (tok.valid ≡ true)
          × (Mem account_id self.pam_allow_groups
              ⊎ ((g : GroupToken) × Mem g tok.groups × Mem g.uuid self.pam_allow_groups)))
  unfolding is_allowed
  is_allowed_iff account_id tok =
      let allowed = λ (s : String). any (str_eq s) self.pam_allow_groups in
      (
        λ h.
            let found =
              any-images allowed (λ (g : GroupToken). g.uuid) account_id tok.groups
                (ground arith) in
            (
              ground arith,
              elim found [
                | inl own ↦ inl (listed account_id self.pam_allow_groups own)
                | inr group ↦
                    inr (group.0, group.1, listed group.0.uuid self.pam_allow_groups group.2)
              ],
            ),
        λ h.
            let found : any allowed (user_set self account_id tok) ≡ true = elim h.1 [
              | inl own ↦
                  any-last allowed (λ (g : GroupToken). g.uuid) account_id tok.groups
                    (any-Mem (str_eq account_id) account_id self.pam_allow_groups own
                      (eq_refl account_id))
              | inr group ↦
                  any-image allowed (λ (g : GroupToken). g.uuid) account_id group.0 tok.groups
                    group.1
                    (any-Mem (str_eq group.0.uuid) group.0.uuid self.pam_allow_groups group.2
                      (eq_refl group.0.uuid))
            ] in
            ground (arith, found, h.0),
      )

  -- A name of the exclusion set, a local user's say, is never answered from the cache or the
  -- provider: there is no NSS account, there are no groups and there is no home directory for it, and
  -- where an allowed group is demanded account management knows no such user.
  pub local_user_hidden :
      (name g : String) (gs : List String) (s : Store W X)
      → id_in_nxset (UnixId.name name) s.nxset ≡ true
      → self.pam_allow_groups ≡ g ∷ gs
      → (get_nssaccount self (UnixId.name name) s ≡ (done none, s))
        × (get_initgroups self name s ≡ (done none, s))
        × (pam_account_beginsession self name s ≡ (done none, s))
        × (pam_account_allowed self name s ≡ (done none, s))
  unfolding get_nssaccount get_initgroups pam_account_beginsession pam_account_allowed ◌>>=◌
  local_user_hidden name g gs s excluded groups =
      let hidden = get_usertoken_excluded self (UnixId.name name) s excluded in
      (rw (hidden) refl, rw (hidden) refl, rw (hidden) refl, rw (hidden, groups) refl)
