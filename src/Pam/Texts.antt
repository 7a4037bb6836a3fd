-- ===== src/Pam/Texts.antt =====
-- Tests on texts that src/common/src/auth.rs uses, from Rust's standard library.
use himmelblau.Common.{
  ℕ, Bool, true, false, ◌&&◌, ◌||◌, String, List, [], ◌∷◌, leb, ◌==◌, codes, all,
}

abbrev is_prefix : List ℕ → List ℕ → Bool
is_prefix [] ds = true
is_prefix (c ∷ cs) [] = false
is_prefix (c ∷ cs) (d ∷ ds) = c == d && is_prefix cs ds

abbrev is_infix : List ℕ → List ℕ → Bool
is_infix cs [] = is_prefix cs []
is_infix cs (d ∷ ds) = is_prefix cs (d ∷ ds) || is_infix cs ds

-- `s.contains(t)`
unfoldable pub contains : String → String → Bool
contains s t = is_infix (codes t) (codes s)

-- `s.starts_with(t)`
unfoldable pub starts_with : String → String → Bool
starts_with s t = is_prefix (codes t) (codes s)

-- `char::is_whitespace`, the property White_Space.
is_whitespace : ℕ → Bool
is_whitespace c =
    (leb 0x09 c && leb c 0x0d)
    || c == 0x20
    || c == 0x85
    || c == 0xa0
    || c == 0x1680
    || (leb 0x2000 c && leb c 0x200a)
    || c == 0x2028
    || c == 0x2029
    || c == 0x202f
    || c == 0x205f
    || c == 0x3000

-- `s.trim().is_empty()`
unfoldable pub is_blank : String → Bool
unfolding is_whitespace
is_blank s = all is_whitespace (codes s)
