-- ===== src/Db/Accounts/Password.antt =====
-- The cached password hash of an account under the writes of src/common/src/db.rs.
use himmelblau.Common.{
  ℕ, ◌≡◌, refl, true, false, not, ◌++◌, String, List, [], ◌∷◌, none, some, ok, arith, eq_iff,
  retain, any, All, Bool-cases, inl, inr, str_eq, str_eq→eq,
}
use himmelblau.Idp.{UserToken}
use himmelblau.Db.{AccountRow, Tables, filter_some}
use himmelblau.Db.Accounts.{
  account_row, conflicts, set_account, has_account, upsert_account, update_account, delete_account,
  get_account_password, passwords, single_password, update_account_password, set_password,
}
use himmelblau.Db.Accounts.Unique.{Apart-others, IsUnique}

module _ {X : Type 0} where
  passwords-set_account :
      (a : UserToken) (e : ℕ) (rs : List (AccountRow X))
      → passwords a.uuid (set_account a e rs) ≡ passwords a.uuid rs
  unfolding passwords set_account filter_some
  passwords-set_account a e [] = refl
  passwords-set_account a e (r ∷ rs) =
      ground (arith, passwords-set_account a e rs, eq_iff a.uuid a.uuid)

  passwords-purge :
      (a : UserToken) (rs : List (AccountRow X))
      → passwords a.uuid (retain (λ r. not (conflicts a r)) rs) ≡ passwords a.uuid rs
  unfolding passwords conflicts filter_some
  passwords-purge a [] = refl
  passwords-purge a (r ∷ rs) = ground (arith, passwords-purge a rs)

  passwords-append :
      (a : UserToken) (e : ℕ) (rs : List (AccountRow X))
      → passwords a.uuid (rs ++ account_row a e none ∷ []) ≡ passwords a.uuid rs
  unfolding passwords filter_some
  passwords-append a e [] = ground (arith, eq_iff a.uuid a.uuid)
  passwords-append a e (r ∷ rs) = ground (arith, passwords-append a e rs)

  passwords-upsert_account :
      (a : UserToken) (e : ℕ) (rs : List (AccountRow X))
      → passwords a.uuid (upsert_account a e rs) ≡ passwords a.uuid rs
  unfolding upsert_account
  passwords-upsert_account a e rs =
      let kept = retain (λ r. not (conflicts a r)) rs in
      ground
        (arith, passwords-set_account a e kept, passwords-append a e kept, passwords-purge a rs)

  -- Updating an account keeps its cached password hash, which a plain INSERT OR REPLACE would null.
  pub get_account_password-update_account :
      (a : UserToken) (e : ℕ) (t t' : Tables X)
      → update_account a e t ≡ ok t'
      → get_account_password a.uuid t' ≡ get_account_password a.uuid t
  unfolding update_account get_account_password
  get_account_password-update_account a e t t' h =
      ground (arith, passwords-upsert_account a e t.account_t)

  passwords-others :
      (uuid : String) (blob : X) (rs : List (AccountRow X))
      → All (λ q. str_eq q.uuid uuid ≡ false) rs
      → passwords uuid (set_password uuid blob rs) ≡ []
  unfolding passwords set_password filter_some
  passwords-others uuid blob [] h = refl
  passwords-others uuid blob (r ∷ rs) h = ground (arith, passwords-others uuid blob rs h.1)

  passwords-set_password :
      (uuid : String) (blob : X) (rs : List (AccountRow X))
      → IsUnique rs
      → any (λ r. str_eq r.uuid uuid) rs ≡ true
      → passwords uuid (set_password uuid blob rs) ≡ blob ∷ []
  unfolding passwords set_password filter_some
  passwords-set_password uuid blob [] u h = cc
  passwords-set_password uuid blob (r ∷ rs) u h = elim (Bool-cases (str_eq r.uuid uuid)) [
    | inl x ↦
        let rest = passwords-others uuid blob rs (Apart-others uuid r rs (str_eq→eq _ _ x) u.0) in
        ground (arith, rest)
    | inr y ↦ ground (arith, passwords-set_password uuid blob rs u.1)
  ]

  -- If the keys of the table are unique, a hash that is stored for an account of the table is the one
  -- that a check verifies against.
  pub get_account_password-update_account_password :
      (uuid : String) (blob : X) (t : Tables X)
      → IsUnique t.account_t
      → has_account uuid t.account_t ≡ true
      → get_account_password uuid (update_account_password uuid blob t) ≡ ok (some blob)
  unfolding get_account_password update_account_password single_password has_account
  get_account_password-update_account_password uuid blob t u h =
      rw (passwords-set_password uuid blob t.account_t u h)

  -- A deleted account has no password hash left.
  pub get_account_password-delete_account :
      (uuid : String) (t : Tables X) → get_account_password uuid (delete_account uuid t) ≡ ok none
  unfolding get_account_password delete_account single_password
  get_account_password-delete_account uuid t = rw (gone t.account_t)
    where
      gone :
          (rs : List (AccountRow X))
          → passwords uuid (retain (λ r. not (str_eq r.uuid uuid)) rs) ≡ []
      gone [] = refl
      gone (r ∷ rs) = ground (arith, gone rs)
