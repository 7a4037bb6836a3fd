-- ===== src/Db/Accounts/Unique.antt =====
-- The keys and unique columns of `account_t` under the statements of src/common/src/db.rs.
use himmelblau.Common.{
  ℕ, ◌≡◌, sym, ◌≢◌, inl, inr, Bool, true, false, not, String, List, [], ◌∷◌, ◌++◌, Option, none, ok,
  arith, eq_iff, All, retain, any, All-map, All-both, All-append, str_eq→eq, str_eq→ne, ne→str_eq,
  ◌∙◌, if◌then◌else◌, All-retain, retain-All, any-none, Bool-cases, str_eq,
}
use himmelblau.Idp.{UserToken}
use himmelblau.Db.{AccountRow, Tables}
use himmelblau.Db.Accounts.{
  account_row, conflicts, set_account, has_account, upsert_account, update_account, delete_account,
}

module _ {X : Type 0} where
  -- Two rows that share no key.
  pub record Apart (r q : AccountRow X) : Type 0 where
    pub uuid : r.uuid ≢ q.uuid
    pub name : r.name ≢ q.name
    pub spn : r.spn ≢ q.spn
    pub gidnumber : r.gidnumber ≢ q.gidnumber

  -- What PRIMARY KEY and UNIQUE of `account_t` demand.
  abbrev pub IsUnique : List (AccountRow X) → Type 0
  IsUnique [] = Unit {0}
  IsUnique (r ∷ rs) = All (Apart r) rs × IsUnique rs

  pub retain-IsUnique :
      (p : AccountRow X → Bool) (rs : List (AccountRow X)) → IsUnique rs → IsUnique (retain p rs)
  retain-IsUnique p [] u = tt
  retain-IsUnique p (r ∷ rs) u =
      ground (arith, retain-IsUnique p rs u.1, All-retain (Apart r) p rs u.0)

  -- A row that the purge spares shares no key with the account, unless it is the account's own.
  Apart-row :
      (a : UserToken) (e : ℕ) (p : Option X) (r : AccountRow X)
      → conflicts a r ≡ false
      → r.uuid ≢ a.uuid
      → Apart r (account_row a e p)
  unfolding conflicts
  Apart-row a e p r c n =
      ground (arith, eq_iff r.uuid a.uuid, eq_iff r.name a.name, eq_iff r.spn a.spn)

  Apart-sym : (r q : AccountRow X) → Apart r q → Apart q r
  Apart-sym r q h = record {
    uuid = λ e. h.uuid (sym e);
    name = λ e. h.name (sym e);
    spn = λ e. h.spn (sym e);
    gidnumber = λ e. h.gidnumber (sym e);
  }

  -- Rows apart from one with this uuid have another.
  pub Apart-others :
      (uuid : String) (r : AccountRow X) (rs : List (AccountRow X))
      → r.uuid ≡ uuid
      → All (Apart r) rs
      → All (λ q. str_eq q.uuid uuid ≡ false) rs
  Apart-others uuid r rs e h =
      All-map (Apart r) (λ q. str_eq q.uuid uuid ≡ false) rs
        (λ q d. ne→str_eq _ _ (λ f. d.uuid (e ∙ sym f))) h

  -- What the purge leaves of the rows, as far as the new row is concerned.
  abbrev pub Spared : UserToken → AccountRow X → Type 0
  Spared a r = conflicts a r ≡ false

  set_row : UserToken → ℕ → AccountRow X → AccountRow X
  set_row a e r = if str_eq r.uuid a.uuid then account_row a e r.password else r

  set_row-Apart :
      (a : UserToken) (e : ℕ) (r q : AccountRow X)
      → Spared a r
      → Spared a q
      → Apart r q
      → Apart (set_row a e r) (set_row a e q)
  unfolding set_row
  set_row-Apart a e r q sr sq h = elim (Bool-cases (str_eq r.uuid a.uuid)) [
    | inl x ↦ elim (Bool-cases (str_eq q.uuid a.uuid)) [
      | inl y ↦ absurd (h.uuid (str_eq→eq _ _ x ∙ sym (str_eq→eq _ _ y)))
      | inr y ↦ rw (x, y) (Apart-sym _ _ (Apart-row a e r.password q sq (str_eq→ne _ _ y)))
    ]
    | inr x ↦ elim (Bool-cases (str_eq q.uuid a.uuid)) [
      | inl y ↦ rw (x, y) (Apart-row a e q.password r sr (str_eq→ne _ _ x))
      | inr y ↦ rw (x, y) h
    ]
  ]

  set_account-All :
      (a : UserToken) (e : ℕ) (r : AccountRow X) (rs : List (AccountRow X))
      → Spared a r
      → All (Spared a) rs
      → All (Apart r) rs
      → All (Apart (set_row a e r)) (set_account a e rs)
  unfolding set_account set_row
  set_account-All a e r [] s ss h = tt
  set_account-All a e r (q ∷ rs) s ss h =
      (set_row-Apart a e r q s ss.0 h.0, set_account-All a e r rs s ss.1 h.1)

  set_account-IsUnique :
      (a : UserToken) (e : ℕ) (rs : List (AccountRow X))
      → All (Spared a) rs
      → IsUnique rs
      → IsUnique (set_account a e rs)
  unfolding set_account set_row
  set_account-IsUnique a e [] s u = tt
  set_account-IsUnique a e (r ∷ rs) s u =
      (set_account-All a e r rs s.0 s.1 u.0, set_account-IsUnique a e rs s.1 u.1)

  append-IsUnique :
      (row : AccountRow X) (rs : List (AccountRow X))
      → All (λ r. Apart r row) rs
      → IsUnique rs
      → IsUnique (rs ++ row ∷ [])
  append-IsUnique row [] h u = (tt, tt)
  append-IsUnique row (r ∷ rs) h u =
      (All-append (Apart r) rs (row ∷ []) u.0 (h.0, tt), append-IsUnique row rs h.1 u.1)

  pub spared :
      (a : UserToken) (rs : List (AccountRow X))
      → All (Spared a) (retain (λ r. not (conflicts a r)) rs)
  spared a rs =
      All-map (λ r. not (conflicts a r) ≡ true) (Spared a) _ (λ r h. ground arith)
        (retain-All (λ r. not (conflicts a r)) rs)

  upsert_account-IsUnique :
      (a : UserToken) (e : ℕ) (rs : List (AccountRow X))
      → IsUnique rs
      → IsUnique (upsert_account a e rs)
  unfolding upsert_account has_account
  upsert_account-IsUnique a e rs u =
      let kept = retain (λ r. not (conflicts a r)) rs in
      let kept_unique = retain-IsUnique (λ r. not (conflicts a r)) rs u in
      elim (Bool-cases (any (λ r. str_eq r.uuid a.uuid) kept)) [
        | inl old ↦ rw old (set_account-IsUnique a e kept (spared a rs) kept_unique)
        | inr new ↦ rw new (
            append-IsUnique (account_row a e none) kept
              (All-map (λ r. Spared a r × (str_eq r.uuid a.uuid ≡ false))
                (λ r. Apart r (account_row a e none)) kept
                (λ r h. Apart-row a e none r h.0 (str_eq→ne _ _ h.1))
                (All-both (Spared a) (λ r. str_eq r.uuid a.uuid ≡ false) kept (spared a rs)
                  (any-none (λ r. str_eq r.uuid a.uuid) kept new)))
              kept_unique)
      ]

  -- No update of an account ever breaks a key of `account_t`: rows with different keys go to rows
  -- with different keys, so the statements cannot fail on a constraint.
  pub update_account-IsUnique :
      (a : UserToken) (e : ℕ) (t t' : Tables X)
      → IsUnique t.account_t
      → update_account a e t ≡ ok t'
      → IsUnique t'.account_t
  unfolding update_account
  update_account-IsUnique a e t t' u h = ground (arith, upsert_account-IsUnique a e t.account_t u)

  -- Deleting an account leaves a table whose keys are unique.
  pub delete_account-IsUnique :
      (uuid : String) (t : Tables X)
      → IsUnique t.account_t
      → IsUnique (delete_account uuid t).account_t
  unfolding delete_account
  delete_account-IsUnique uuid t u = retain-IsUnique (λ r. not (str_eq r.uuid uuid)) t.account_t u
