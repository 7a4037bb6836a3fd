-- ===== src/Names/Tables/Laws.antt =====
-- What the tables answer after a write (src/common/src/mapping.rs, src/common/src/idmap_cache.rs).
use himmelblau.Common.{
  ◌≡◌, refl, ap, Bool, true, false, ◌&&◌, not, String, some, List, [], ◌∷◌, arith, if◌then◌else◌,
  retain, str_eq, eq_iff, str_eq→eq, Bool-cases, inl, inr, is_some, Option-cases,
}
use himmelblau.Names.Tables.{
  Mapping, MappedNameCache, has_at, insert_mapping, select_mapping, get_mapped_name, StaticUser,
  StaticIdCache, insert_user, select_user, get_user_by_name,
}

select_mapping-others :
    (upn other : String) (rows : List Mapping)
    → str_eq upn other ≡ false
    → select_mapping other (retain (λ r. not (str_eq r.upn upn)) rows) ≡ select_mapping other rows
select_mapping-others upn other [] h = refl
select_mapping-others upn other (r ∷ rs) h = ground (
  arith,
  select_mapping-others upn other rs h,
  eq_iff r.upn upn,
  eq_iff r.upn other,
  eq_iff upn other,
)

-- The name is one of the provider's, and it is mapped to another one.
abbrev pub maps : String → String → Bool
maps upn mapped_name = has_at upn && not (str_eq upn mapped_name)

at_same : (upn other : String) → upn ≡ other → has_at upn ≡ has_at other
at_same upn other e = ap has_at e

-- A mapping that was written is the answer for its name, if that has an `@` and is not mapped to itself;
-- the answers for all other names are as before, and so are all answers where the table cannot be
-- written.
pub get_mapped_name-insert_mapping :
    (runs : Bool) (upn mapped_name other : String) (m : MappedNameCache)
    → get_mapped_name true other (insert_mapping runs upn mapped_name m) ≡ (
        if is_some m.conn && (m.writable && (runs && (maps upn mapped_name && str_eq upn other)))
        then mapped_name
        else get_mapped_name true other m)
unfolding get_mapped_name insert_mapping
get_mapped_name-insert_mapping runs upn mapped_name other m = elim (Option-cases m.conn) [
  | inl closed ↦ ground arith
  | inr (rows, e) ↦ elim (Bool-cases (str_eq upn other)) [
    | inl hit ↦ ground (arith, at_same upn other (str_eq→eq upn other hit))
    | inr miss ↦ ground (arith, select_mapping-others upn other rows miss)
  ]
]

select_user-others :
    (name other : String) (us : List StaticUser)
    → str_eq name other ≡ false
    → select_user other (retain (λ x. not (str_eq x.name name)) us) ≡ select_user other us
select_user-others name other [] h = refl
select_user-others name other (u ∷ us) h = ground (
  arith,
  select_user-others name other us h,
  eq_iff u.name name,
  eq_iff u.name other,
  eq_iff name other,
)

-- A user that was written is the answer for that name, and the answers for all other names are as
-- before, as are all answers where the table cannot be written or SQLite does not write.
pub get_user_by_name-insert_user :
    (runs : Bool) (u : StaticUser) (name : String) (c : StaticIdCache)
    → get_user_by_name true name (insert_user runs u c).1 ≡ (
        if is_some c.conn && (c.writable && (runs && str_eq u.name name))
        then some u
        else get_user_by_name true name c)
unfolding get_user_by_name insert_user
get_user_by_name-insert_user runs u name c = elim (Option-cases c.conn) [
  | inl closed ↦ ground arith
  | inr (t, e) ↦ elim (Bool-cases (str_eq u.name name)) [
    | inl hit ↦ ground arith
    | inr miss ↦ ground (arith, select_user-others u.name name t.static_users miss)
  ]
]
