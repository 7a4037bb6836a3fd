-- ===== src/Db/Accounts/Names.antt =====
-- Queries by name of src/common/src/db.rs: the unique columns distinguish the case of letters, the
-- query does not.
use himmelblau.Common.{ℕ, ◌≡◌, ◌≢◌, true, String, [], ok, err, arith, ne→str_eq}
use himmelblau.Idp.{UserToken, UnixId}
use himmelblau.Db.{Tables, CacheError, nocase_eq, single}
use himmelblau.Db.Accounts.{
  account_is, conflicts, set_account, has_account, upsert_account, update_account, get_account,
}

-- Two accounts whose names are equal up to the case of letters, and which share no key, can both be
-- stored, and then a query by a name that is equal to both fails: neither account is found.
pub get_account-nocase_twins :
    {X : Type 0} (a b : UserToken) (e : ℕ) (n : String) (t t' : Tables X)
    → a.uuid ≢ b.uuid
    → a.name ≢ b.name
    → a.spn ≢ b.spn
    → a.gidnumber ≢ b.gidnumber
    → nocase_eq a.name n ≡ true
    → nocase_eq b.name n ≡ true
    → update_account a e (record { account_t = []; group_t = []; memberof_t = [] }) ≡ ok t
    → update_account b e t ≡ ok t'
    → get_account (UnixId.name n) t' ≡ err CacheError.too_many_results
unfolding update_account upsert_account conflicts set_account has_account get_account account_is
    single
get_account-nocase_twins a b e n t t' u m s g an bn ha hb =
    ground (arith, ne→str_eq a.uuid b.uuid u, ne→str_eq a.name b.name m, ne→str_eq a.spn b.spn s)
