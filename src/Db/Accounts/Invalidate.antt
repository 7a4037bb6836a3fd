-- ===== src/Db/Accounts/Invalidate.antt =====
-- What `invalidate` of src/common/src/db.rs does to the answers about accounts.
use himmelblau.Common.{
  ℕ, ◌≡◌, refl, String, List, [], ◌∷◌, Option, none, some, ok, err, map, retain, arith,
}
use himmelblau.Idp.{UnixId, UserToken}
use himmelblau.Db.{AccountRow, Tables, Found, single, filter_some}
use himmelblau.Db.Accounts.{account_is, account_data, get_account, passwords, get_account_password}
use himmelblau.Db.Groups.{invalidate}

-- The same answer, with an expiry that has long come.
pub outdated : Found UserToken → Found UserToken
outdated (ok (some (t, e))) = ok (some (t, 0))
outdated (ok none) = ok none
outdated (err e) = err e

long_expired : Option UserToken × ℕ → Option UserToken × ℕ
long_expired (t, e) = (t, 0)

single-long_expired :
    (xs : List (Option UserToken × ℕ)) → single (map long_expired xs) ≡ outdated (single xs)
unfolding single long_expired outdated
single-long_expired [] = refl
single-long_expired ((some t, e) ∷ []) = refl
single-long_expired ((none, e) ∷ []) = refl
single-long_expired (x ∷ (y ∷ xs)) = refl

module _ {X : Type 0} where
  account_is_same :
      (id : UnixId) (r : AccountRow X) → account_is id (record r { expiry = 0 }) ≡ account_is id r
  unfolding account_is
  account_is_same (UnixId.name n) r = refl
  account_is_same (UnixId.gid g) r = refl

  rows_expired :
      (id : UnixId) (t : Tables X) (rs : List (AccountRow X))
      → map account_data
          (retain (account_is id) (invalidate (record t { account_t = rs })).account_t)
        ≡ map long_expired (map account_data (retain (account_is id) rs))
  unfolding invalidate long_expired
  rows_expired id t [] = refl
  rows_expired id t (r ∷ rs) = ground (arith, rows_expired id t rs, account_is_same id r)

  kept_passwords :
      (uuid : String) (t : Tables X) (rs : List (AccountRow X))
      → passwords uuid (invalidate (record t { account_t = rs })).account_t ≡ passwords uuid rs
  unfolding invalidate passwords filter_some
  kept_passwords uuid t [] = refl
  kept_passwords uuid t (r ∷ rs) = ground (arith, kept_passwords uuid t rs)

  -- After an invalidation every query for an account finds what it found before, but expired, and
  -- every account keeps its password hash.
  pub get_account-invalidate :
      (id : UnixId) (uuid : String) (t : Tables X)
      → (get_account id (invalidate t) ≡ outdated (get_account id t))
        × (get_account_password uuid (invalidate t) ≡ get_account_password uuid t)
  unfolding get_account get_account_password
  get_account-invalidate id uuid t = (
    rw (rows_expired id t t.account_t) (single-long_expired _),
    rw (kept_passwords uuid t t.account_t) refl,
  )
