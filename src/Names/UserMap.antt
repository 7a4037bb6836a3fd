-- ===== src/Names/UserMap.antt =====
-- The map between local users and those of the provider (src/common/src/user_map.rs). A text is the list
-- of its characters, and the file is the list of its lines; `to_lowercase` is that of the standard
-- library.
pub mod Inverse
mod Tests
use himmelblau.Common.{
  ℕ, Bool, true, false, ◌||◌, ◌&&◌, Option, none, some, List, [], ◌∷◌, ◌==◌, leb, if◌then◌else◌,
  is_some,
}

-- `==` on texts.
unfoldable pub same : List ℕ → List ℕ → Bool
same [] [] = true
same [] (d ∷ ds) = false
same (c ∷ cs) [] = false
same (c ∷ cs) (d ∷ ds) = (c == d) && same cs ds

pub record Pair : Type 0 where
  pub key : List ℕ
  pub value : List ℕ

pub record UserMap : Type 0 where
  pub forward : List Pair
  pub backward : List Pair

-- `HashMap::get`
unfoldable pub get : List ℕ → List Pair → Option (List ℕ)
unfolding same
get k [] = none
get k (p ∷ ps) = if same p.key k then some p.value else get k ps

unfoldable pub get_upn_from_local : UserMap → List ℕ → Option (List ℕ)
unfolding get
get_upn_from_local m username = get username m.forward

unfoldable pub get_local_from_upn : UserMap → List ℕ → Option (List ℕ)
unfolding get
get_local_from_upn m upn = get upn m.backward

-- `get_id_overrides`, in the order of the list.
unfoldable pub get_id_overrides : UserMap → List (List ℕ)
get_id_overrides m = keys m.forward
  where
    keys : List Pair → List (List ℕ)
    keys [] = []
    keys (p ∷ ps) = p.key ∷ keys ps

-- `char::is_whitespace`, the property White_Space of Unicode.
abbrev is_whitespace : ℕ → Bool
is_whitespace c =
    (leb 9 c && leb c 13)
    || c == 32
    || c == 133
    || c == 160
    || c == 5760
    || (leb 8192 c && leb c 8202)
    || (leb 8232 c && leb c 8233)
    || c == 8239
    || c == 8287
    || c == 12288

unfoldable pub trim_start : List ℕ → List ℕ
trim_start [] = []
trim_start (c ∷ cs) = let rest = trim_start cs in if is_whitespace c then rest else c ∷ cs

unfoldable pub trim_end : List ℕ → List ℕ
trim_end [] = []
trim_end (c ∷ cs) = keep c (trim_end cs)
  where
    keep : ℕ → List ℕ → List ℕ
    keep d [] = if is_whitespace d then [] else d ∷ []
    keep d (e ∷ es) = d ∷ e ∷ es

unfoldable pub trim : List ℕ → List ℕ
unfolding trim_start trim_end
trim s = trim_end (trim_start s)

abbrev starts_with : ℕ → List ℕ → Bool
starts_with c [] = false
starts_with c (d ∷ ds) = d == c

abbrev is_empty : List ℕ → Bool
is_empty [] = true
is_empty (c ∷ cs) = false

-- `splitn(2, ':')`: what stands before the first colon, and what stands after it, or nothing.
unfoldable pub split : List ℕ → List ℕ × List ℕ
split [] = ([], [])
split (c ∷ cs) = let (local, upn) = split cs in if c == 58 then ([], cs) else (c ∷ local, upn)

abbrev pub empty : UserMap
empty = record { forward = []; backward = [] }

-- A pair is taken if neither half is there yet.
unfoldable pub insert : List ℕ → List ℕ → UserMap → UserMap
unfolding get
insert local upn m =
    if is_empty local || is_empty upn
    then m
    else if is_some (get local m.forward)
    then m
    else if is_some (get upn m.backward)
    then m
    else record {
      forward = record { key = local; value = upn } ∷ m.forward;
      backward = record { key = upn; value = local } ∷ m.backward;
    }

module _ (to_lowercase : List ℕ → List ℕ) where
  unfoldable pub add_line : List ℕ → UserMap → UserMap
  unfolding trim_start trim split insert
  add_line line m =
      let (local, upn) = split line in
      if starts_with 35 (trim_start line) || is_empty (trim line)
      then m
      else insert (trim local) (to_lowercase (trim upn)) m

  unfoldable pub add_lines : List (List ℕ) → UserMap → UserMap
  unfolding add_line
  add_lines [] m = m
  add_lines (line ∷ lines) m = add_lines lines (add_line line m)

  -- `UserMap::new`; no lines for a file that cannot be read.
  unfoldable pub read : Option (List (List ℕ)) → UserMap
  unfolding add_lines
  read none = empty
  read (some lines) = add_lines lines empty
