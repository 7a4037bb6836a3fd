-- ===== src/Db/Accounts/Lookup.antt =====
-- What the queries of src/common/src/db.rs answer after a write.
use himmelblau.Common.{
  ℕ, String, ◌≡◌, refl, inl, inr, true, false, not, List, [], ◌∷◌, Option, none, some, ok, arith,
  All, retain, any, retain-none, retain-append, All-map, All-both, any-none, Bool-cases, str_eq,
  str_eq→eq,
}
use himmelblau.Idp.{UserToken, UnixId}
use himmelblau.Db.{AccountRow, Tables, single}
use himmelblau.Db.Accounts.{
  account_row, account_is, conflicts, set_account, has_account, upsert_account, update_account,
  delete_account, get_account,
}
use himmelblau.Db.Accounts.Unique.{Apart-others, IsUnique, Spared, spared, retain-IsUnique}

module _ {X : Type 0} where
  -- A spared row with the account's gidnumber is the account's own.
  other_gid :
      (a : UserToken) (r : AccountRow X)
      → Spared a r
      → str_eq r.uuid a.uuid ≡ false
      → account_is (UnixId.gid a.gidnumber) r ≡ false
  unfolding conflicts account_is
  other_gid a r s h = ground arith

  others_gid :
      (a : UserToken) (rs : List (AccountRow X))
      → All (Spared a) rs
      → All (λ r. str_eq r.uuid a.uuid ≡ false) rs
      → retain (account_is (UnixId.gid a.gidnumber)) rs ≡ []
  others_gid a rs s h = retain-none (account_is (UnixId.gid a.gidnumber)) rs (
      All-map (λ r. Spared a r × (str_eq r.uuid a.uuid ≡ false)) _ rs (λ r p. other_gid a r p.0 p.1)
        (All-both (Spared a) (λ r. str_eq r.uuid a.uuid ≡ false) rs s h))

  own_gid :
      (a : UserToken) (e : ℕ) (p : Option X)
      → account_is (UnixId.gid a.gidnumber) (account_row a e p) ≡ true
  unfolding account_is
  own_gid a e p = ground arith

  -- Rows that are apart from the account's own do not have its uuid, and are not rewritten.
  set_account-others :
      (a : UserToken) (e : ℕ) (rs : List (AccountRow X))
      → All (λ r. str_eq r.uuid a.uuid ≡ false) rs
      → set_account a e rs ≡ rs
  unfolding set_account
  set_account-others a e [] h = refl
  set_account-others a e (r ∷ rs) h = ground (arith, set_account-others a e rs h.1)

  set_account-gid :
      (a : UserToken) (e : ℕ) (rs : List (AccountRow X))
      → IsUnique rs
      → All (Spared a) rs
      → any (λ r. str_eq r.uuid a.uuid) rs ≡ true
      → (p : Option X) × (retain (account_is (UnixId.gid a.gidnumber)) (set_account a e rs)
          ≡ account_row a e p ∷ [])
  unfolding set_account
  set_account-gid a e [] u s h = cc
  set_account-gid a e (r ∷ rs) u s h = elim (Bool-cases (str_eq r.uuid a.uuid)) [
    | inl x ↦
        let others = Apart-others a.uuid r rs (str_eq→eq _ _ x) u.0 in
        (
          r.password,
          rw (
            x,
            set_account-others a e rs others,
            own_gid a e r.password,
            others_gid a rs s.1 others,
          ),
        )
    | inr y ↦
        let (p, rest) = set_account-gid a e rs u.1 s.1 (ground arith) in
        (p, rw (y, other_gid a r s.0 y) rest)
  ]

  upsert_account-gid :
      (a : UserToken) (e : ℕ) (rs : List (AccountRow X))
      → IsUnique rs
      → (p : Option X) × (retain (account_is (UnixId.gid a.gidnumber)) (upsert_account a e rs)
          ≡ account_row a e p ∷ [])
  unfolding upsert_account has_account
  upsert_account-gid a e rs u =
      let kept = retain (λ r. not (conflicts a r)) rs in
      elim (Bool-cases (any (λ r. str_eq r.uuid a.uuid) kept)) [
        | inl old ↦
            let (p, found) =
              set_account-gid a e kept (retain-IsUnique (λ r. not (conflicts a r)) rs u)
                (spared a rs) old in
            (p, rw old found)
        | inr new ↦ (
          none,
          rw (
            new,
            retain-append (account_is (UnixId.gid a.gidnumber)) kept (account_row a e none ∷ []),
            others_gid a kept (spared a rs) (any-none (λ r. str_eq r.uuid a.uuid) kept new),
            own_gid a e none,
          ),
        )
      ]

  -- If the keys of the table are unique, a query by the gidnumber of an account that was just updated
  -- finds that account alone, with the new expiry, whichever of its keys other rows had taken.
  pub get_account-update_account :
      (a : UserToken) (e : ℕ) (t t' : Tables X)
      → IsUnique t.account_t
      → update_account a e t ≡ ok t'
      → get_account (UnixId.gid a.gidnumber) t' ≡ ok (some (a, e))
  unfolding update_account get_account single
  get_account-update_account a e t t' u h =
      let (p, found) = upsert_account-gid a e t.account_t u in ground (arith, found)

  gone :
      (uuid : String) (rs : List (AccountRow X))
      → any (λ r. str_eq r.uuid uuid) (retain (λ r. not (str_eq r.uuid uuid)) rs) ≡ false
  gone uuid [] = refl
  gone uuid (r ∷ rs) = ground (arith, gone uuid rs)

  -- A deleted account has no row.
  pub has_account-delete_account :
      (uuid : String) (t : Tables X) → has_account uuid (delete_account uuid t).account_t ≡ false
  unfolding has_account delete_account
  has_account-delete_account uuid t = gone uuid t.account_t
