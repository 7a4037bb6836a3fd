-- ===== src/Names/UserMap/Inverse.antt =====
-- The two halves of the map of local users are each other's inverse (src/common/src/user_map.rs).
use himmelblau.Common.{
  ℕ, ◌≡◌, refl, true, Option, none, some, List, [], ◌∷◌, arith, Bool-cases, Option-cases, inl, inr,
  ◌↔◌,
}
use himmelblau.Names.UserMap.{
  same, UserMap, Pair, get, get_upn_from_local, get_local_from_upn, trim, split, empty, insert,
  add_line, add_lines, read,
}

same-eq : (s t : List ℕ) → same s t ≡ true → s ≡ t
unfolding same
same-eq [] [] e = refl
same-eq [] (d ∷ ds) e = cc
same-eq (c ∷ cs) [] e = cc
same-eq (c ∷ cs) (d ∷ ds) e =
    let first : c ≡ d = ground arith in let rest : cs ≡ ds = same-eq cs ds (ground arith) in cc

same_refl : (s : List ℕ) → same s s ≡ true
unfolding same
same_refl [] = refl
same_refl (c ∷ cs) = ground (arith, same_refl cs)

-- What `forward` has for a key, `backward` has the other way about.
abbrev Turns : List Pair → List Pair → Type 0
Turns forward backward =
    (key value : List ℕ) → get key forward ≡ some value → get value backward ≡ some key

added-Turns :
    (local upn : List ℕ) (forward backward : List Pair)
    → Turns forward backward
    → get upn backward ≡ none
    → Turns
        (record { key = local; value = upn } ∷ forward)
        (record { key = upn; value = local } ∷ backward)
unfolding get
added-Turns local upn forward backward h free key value e = elim (Bool-cases (same local key)) [
  | inl hit ↦
      let k : local ≡ key = same-eq local key hit in
      let v : upn ≡ value = ground arith in ground (arith, same_refl upn)
  | inr miss ↦
      let before = h key value (ground arith) in
      elim (Bool-cases (same upn value)) [
        | inl again ↦ let v : upn ≡ value = same-eq upn value again in cc
        | inr other ↦ ground arith
      ]
]

abbrev Inverse : UserMap → Type 0
Inverse m = Turns m.forward m.backward × Turns m.backward m.forward

new-Inverse :
    (local upn : List ℕ) (m : UserMap)
    → Inverse m
    → get local m.forward ≡ none
    → get upn m.backward ≡ none
    → Inverse (record {
      forward = record { key = local; value = upn } ∷ m.forward;
      backward = record { key = upn; value = local } ∷ m.backward;
    })
new-Inverse local upn m h free unused = (
  added-Turns local upn m.forward m.backward h.0 unused,
  added-Turns upn local m.backward m.forward h.1 free,
)

insert-Inverse : (local upn : List ℕ) (m : UserMap) → Inverse m → Inverse (insert local upn m)
unfolding insert
insert-Inverse local upn m h = elim (Option-cases (get local m.forward)) [
  | inl free ↦ elim (Option-cases (get upn m.backward)) [
    | inl unused ↦ let fresh = new-Inverse local upn m h free unused in ground arith
    | inr (v, e) ↦ ground arith
  ]
  | inr (v, e) ↦ ground arith
]

module _ (to_lowercase : List ℕ → List ℕ) where
  add_line-Inverse :
      (line : List ℕ) (m : UserMap) → Inverse m → Inverse (add_line to_lowercase line m)
  unfolding add_line
  add_line-Inverse line m h =
      let (local, upn) = split line in
      ground (arith, insert-Inverse (trim local) (to_lowercase (trim upn)) m h)

  add_lines-Inverse :
      (lines : List (List ℕ)) (m : UserMap) → Inverse m → Inverse (add_lines to_lowercase lines m)
  unfolding add_lines
  add_lines-Inverse [] m h = h
  add_lines-Inverse (line ∷ lines) m h =
      add_lines-Inverse lines (add_line to_lowercase line m) (add_line-Inverse line m h)

  empty-Inverse : Inverse empty
  unfolding get
  empty-Inverse = ((λ k v e. cc), (λ k v e. cc))

  read-Inverse : (file : Option (List (List ℕ))) → Inverse (read to_lowercase file)
  unfolding read
  read-Inverse none = empty-Inverse
  read-Inverse (some lines) = add_lines-Inverse lines empty empty-Inverse

  -- Whatever the file says, a local user has a name at the provider exactly when that name has the local
  -- user: no two users share one, on either side.
  pub read-inverse :
      (file : Option (List (List ℕ))) (local upn : List ℕ)
      → (get_upn_from_local (read to_lowercase file) local ≡ some upn)
        ↔ (get_local_from_upn (read to_lowercase file) upn ≡ some local)
  unfolding get_upn_from_local get_local_from_upn
  read-inverse file local upn = ((read-Inverse file).0 local upn, (read-Inverse file).1 upn local)
