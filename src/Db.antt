-- ===== src/Db.antt =====
-- The cache database, src/common/src/db.rs: three tables as lists of rows, and each operation of
-- `CacheTxn` as a function on them. A statement of SQLite answers as its documentation says; that it
-- can fail is modelled where a transaction commits (Resolver/State). Foreign keys are not enforced:
-- the program never turns SQLite's `foreign_keys` on.
pub mod Accounts
pub mod Groups
use himmelblau.Common.{
  ℕ, ◌+◌, Bool, true, false, ◌&&◌, String, Option, none, some, List, [], ◌∷◌, Result, ok, err, leb,
  ◌==◌, if◌then◌else◌, codes,
}
use himmelblau.Idp.{UserToken, GroupToken}

pub data CacheError : Type 0 where
  cryptography : CacheError
  parse : CacheError
  too_many_results : CacheError

-- The column `token` is what serde_json reads back from it: `none` for bytes that it cannot read.
pub record AccountRow (X : Type 0) : Type 0 where
  pub uuid : String
  pub name : String
  pub spn : String
  pub gidnumber : ℕ
  pub password : Option X
  pub token : Option UserToken
  pub expiry : ℕ

pub record GroupRow : Type 0 where
  pub uuid : String
  pub name : String
  pub spn : String
  pub gidnumber : ℕ
  pub token : Option GroupToken
  pub expiry : ℕ

pub record Member : Type 0 where
  pub g_uuid : String
  pub a_uuid : String

pub record Tables (X : Type 0) : Type 0 where
  pub account_t : List (AccountRow X)
  pub group_t : List GroupRow
  pub memberof_t : List Member

-- SQLite's collation NOCASE: the letters A to Z compare as a to z.
unfoldable pub fold_ascii : ℕ → ℕ
fold_ascii c = if leb b'A' c && leb c b'Z' then c + 32 else c

unfoldable pub same_folded : List ℕ → List ℕ → Bool
unfolding fold_ascii
same_folded [] [] = true
same_folded [] (d ∷ ds) = false
same_folded (c ∷ cs) [] = false
same_folded (c ∷ cs) (d ∷ ds) = fold_ascii c == fold_ascii d && same_folded cs ds

unfoldable pub nocase_eq : String → String → Bool
unfolding same_folded
nocase_eq s t = same_folded (codes s) (codes t)

unfoldable pub filter_some : {A : Type 0} → List (Option A) → List A
filter_some [] = []
filter_some (some a ∷ xs) = a ∷ filter_some xs
filter_some (none ∷ xs) = filter_some xs

unfoldable pub collect : {A : Type 0} → List (Option A) → Option (List A)
collect [] = some []
collect (none ∷ xs) = none
collect (some a ∷ xs) = elim (collect xs) [ none ↦ none | some as' ↦ some (a ∷ as') ]

-- The rows of a query that is to have at most one, and the token in it.
abbrev pub Found : Type 0 → Type 0
Found T = Result (Option (T × ℕ)) CacheError

unfoldable pub single : {T : Type 0} → List (Option T × ℕ) → Found T
single [] = ok none
single ((some t, expiry) ∷ []) = ok (some (t, expiry))
single ((none, expiry) ∷ []) = ok none
single (x ∷ (y ∷ rows)) = err CacheError.too_many_results
