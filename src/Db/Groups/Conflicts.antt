-- ===== src/Db/Groups/Conflicts.antt =====
-- `group_t` under INSERT OR REPLACE, src/common/src/db.rs: names of groups are not unique in Entra
-- Id, and the table's names are.
use himmelblau.Common.{
  ℕ, ◌≡◌, ◌≢◌, true, false, not, List, [], ◌∷◌, none, some, ok, arith, eq_iff, All, retain, All-map,
  retain-All, retain-none, retain-append,
}
use himmelblau.Idp.{GroupToken, UnixId}
use himmelblau.Db.{GroupRow, Tables, single}
use himmelblau.Db.Groups.{
  group_row, group_is, clashes, replace_group, update_group, update_groups, get_group,
}

spared :
    (g : GroupToken) (rs : List GroupRow)
    → All (λ r. clashes g r ≡ false) (retain (λ r. not (clashes g r)) rs)
spared g rs =
    All-map (λ r. not (clashes g r) ≡ true) (λ r. clashes g r ≡ false) _ (λ r h. ground arith)
      (retain-All (λ r. not (clashes g r)) rs)

-- Only the row that was written last has its uuid, name, spn or gidnumber.
replace_group-own :
    (g : GroupToken) (e : ℕ) (id : UnixId) (rs : List GroupRow)
    → ((r : GroupRow) → clashes g r ≡ false → group_is id r ≡ false)
    → group_is id (group_row g e) ≡ true
    → retain (group_is id) (replace_group g e rs) ≡ group_row g e ∷ []
unfolding replace_group
replace_group-own g e id rs others own =
    let kept = retain (λ r. not (clashes g r)) rs in
    let gone =
      retain-none (group_is id) kept
        (All-map (λ r. clashes g r ≡ false) _ kept others (spared g rs)) in
    rw (retain-append (group_is id) kept (group_row g e ∷ []), gone, own)

module _ {X : Type 0} where
  -- A group that has just been written is found by its gidnumber, with the new expiry.
  pub get_group-update_group :
      (g : GroupToken) (e : ℕ) (t t' : Tables X)
      → update_group g e t ≡ ok t'
      → get_group (UnixId.gid g.gidnumber) t' ≡ ok (some (g, e))
  unfolding update_group get_group single
  get_group-update_group g e t t' h =
      ground (
        arith,
        replace_group-own g e (UnixId.gid g.gidnumber) t.group_t (other_gid g) (own_gid g e),
      )
    where
      other_gid :
          (g : GroupToken) (r : GroupRow)
          → clashes g r ≡ false
          → group_is (UnixId.gid g.gidnumber) r ≡ false
      other_gid g r c = unfold clashes group_is in ground arith

      own_gid : (g : GroupToken) (e : ℕ) → group_is (UnixId.gid g.gidnumber) (group_row g e) ≡ true
      own_gid g e = unfold group_is in ground arith

evicted :
    (g h : GroupToken) (e : ℕ) (rs : List GroupRow)
    → g.name ≡ h.name
    → g.gidnumber ≢ h.gidnumber
    → retain (group_is (UnixId.gid g.gidnumber)) (replace_group h e (replace_group g e rs)) ≡ []
unfolding replace_group clashes group_is
evicted g h e [] m n = ground (arith, eq_iff g.name h.name)
evicted g h e (r ∷ rs) m n = ground (arith, eq_iff g.name h.name, evicted g h e rs m n)

module _ {X : Type 0} where
  -- Of two groups with one name and different gidnumbers, the second to be written evicts the first:
  -- no query by the first one's gidnumber finds it any more.
  pub get_group-same_name :
      (g h : GroupToken) (e : ℕ) (t t' : Tables X)
      → g.name ≡ h.name
      → g.gidnumber ≢ h.gidnumber
      → update_groups (g ∷ (h ∷ [])) e t ≡ ok t'
      → get_group (UnixId.gid g.gidnumber) t' ≡ ok none
  unfolding update_groups update_group get_group single
  get_group-same_name g h e t t' m n k = ground (arith, evicted g h e t.group_t m n)
