-- ===== src/Pam/Qr/Tests.antt =====
-- A run of the printing of a QR code, src/common/src/auth.rs.
use himmelblau.Common.{true}
use himmelblau.Pam.{QrCode}

abbrev black : QrCode
black = record { size = 21; get_module = λ x y. true }
