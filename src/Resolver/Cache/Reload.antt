-- ===== src/Resolver/Cache/Reload.antt =====
-- The exclusion set that `reload_nxset` of src/common/src/resolver.rs makes of the local files.
use himmelblau.Common.{ℕ, ◌≡◌, true, false, String, List, [], ◌∷◌, ◌++◌, none, some, arith, eq_refl}
use himmelblau.Idp.{UnixId}
use himmelblau.Resolver.{Resolver, Store, contains, id_eq}
use himmelblau.Resolver.Cache.{exclude, exclude_all, reload_nxset, in_nxset}

module _ {W X : Type 0} (self : Resolver W X) where
  contains-exclude :
      (id : UnixId) (e : String × ℕ) (ids : List UnixId)
      → contains id ids ≡ true
      → contains id (exclude self e ids) ≡ true
  unfolding contains exclude
  contains-exclude id (name, gid) ids h = ground arith

  contains-exclude_all :
      (id : UnixId) (es : List (String × ℕ)) (ids : List UnixId)
      → contains id ids ≡ true
      → contains id (exclude_all self es ids) ≡ true
  unfolding exclude_all
  contains-exclude_all id [] ids h = h
  contains-exclude_all id (e ∷ es) ids h =
      contains-exclude_all id es (exclude self e ids) (contains-exclude id e ids h)

  both_excluded :
      (name : String) (gid : ℕ) (ids : List UnixId)
      → contains (UnixId.gid gid) self.allow_id_overrides ≡ false
      → contains (UnixId.name name) self.allow_id_overrides ≡ false
      → (contains (UnixId.name name) (exclude self (name, gid) ids) ≡ true)
        × (contains (UnixId.gid gid) (exclude self (name, gid) ids) ≡ true)
  unfolding contains exclude id_eq
  both_excluded name gid ids g n = (ground (arith, eq_refl name), ground (arith, eq_refl name))

  excluded_among :
      (before after : List (String × ℕ)) (name : String) (gid : ℕ) (ids : List UnixId)
      → contains (UnixId.gid gid) self.allow_id_overrides ≡ false
      → contains (UnixId.name name) self.allow_id_overrides ≡ false
      → (contains (UnixId.name name) (exclude_all self (before ++ (name, gid) ∷ after) ids) ≡ true)
        × (contains (UnixId.gid gid) (exclude_all self (before ++ (name, gid) ∷ after) ids) ≡ true)
  unfolding exclude_all
  excluded_among [] after name gid ids g n =
      let (by_name, by_gid) = both_excluded name gid ids g n in
      (contains-exclude_all _ after _ by_name, contains-exclude_all _ after _ by_gid)
  excluded_among (e ∷ before) after name gid ids g n =
      excluded_among before after name gid (exclude self e ids) g n

  -- Wherever it stands in the local files, an entry whose name and id are not overridden is excluded
  -- after they are loaded, by its name and by its id.
  pub reload_nxset_lem :
      (before after : List (String × ℕ)) (name : String) (gid : ℕ) (s : Store W X)
      → contains (UnixId.gid gid) self.allow_id_overrides ≡ false
      → contains (UnixId.name name) self.allow_id_overrides ≡ false
      → (in_nxset (some name) none (reload_nxset self (before ++ (name, gid) ∷ after) s).1.nxset
          ≡ true)
        × (in_nxset none (some gid) (reload_nxset self (before ++ (name, gid) ∷ after) s).1.nxset
            ≡ true)
  unfolding reload_nxset in_nxset
  reload_nxset_lem before after name gid s g n = excluded_among before after name gid [] g n
