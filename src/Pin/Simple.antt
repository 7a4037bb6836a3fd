-- ===== src/Pin/Simple.antt =====
-- What `is_simple_pin` of src/common/src/hello_pin_complexity.rs rejects.
use himmelblau.Common.{some, ℕ, ◌+◌, ◌%◌, ◌≡◌, some, List, [], ◌∷◌}

-- Each digit is `step` more than the one before it, modulo 10.
abbrev pub IsProgression : ℕ → List ℕ → Type 0
IsProgression step [] = Unit {0}
IsProgression step (a ∷ []) = Unit {0}
IsProgression step (a ∷ (b ∷ ds)) = (b ≡ (a + step) % 10) × IsProgression step (b ∷ ds)
