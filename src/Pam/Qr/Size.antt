-- ===== src/Pam/Qr/Size.antt =====
-- The shape of the QR code that src/common/src/auth.rs prints.
use himmelblau.Common.{ℕ, zero, suc, ◌+◌, ◌/◌, ◌*◌, ◌≤◌, ◌≡◌, refl, length, All, arith}
use himmelblau.Pam.{QrCode}
use himmelblau.Pam.Qr.{row, rows, blocks}

module _ (qr : QrCode) where
  length-row : (n i y : ℕ) → length (row qr n i y) ≡ n
  unfolding row
  length-row zero i y = refl
  length-row (suc n) i y = omega (arith, length-row n (i + 1) y)

  length-rows : (n y : ℕ) → length (rows qr n y) ≡ n
  unfolding rows
  length-rows zero y = refl
  length-rows (suc n) y = omega (arith, length-rows n (y + 2))

  rows-wide : (n y : ℕ) → All (λ l. length l ≡ qr.size + 8) (rows qr n y)
  unfolding rows
  rows-wide zero y = tt
  rows-wide (suc n) y = (length-row (qr.size + 8) 0 y, rows-wide n (y + 2))

  -- Every line of the printed code has one character for each column of the code and of a border of
  -- four, and the lines, two modules high, cover the code's rows and its border above and below, with
  -- at most one row to spare.
  pub blocks_lem :
      All (λ l. length l ≡ qr.size + 8) (blocks qr)
      × (qr.size + 8 ≤ 2 * length (blocks qr))
      × (2 * length (blocks qr) ≤ qr.size + 9)
  unfolding blocks
  blocks_lem =
      let n = length-rows ((qr.size + 9) / 2) 0 in
      (rows-wide ((qr.size + 9) / 2) 0, omega (arith, n), omega (arith, n))
