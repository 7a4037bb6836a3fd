-- ===== src/Pam/Qr.antt =====
-- The texts for enrolling a second factor in src/common/src/auth.rs: the QR code in block characters,
-- and the message with the key to type in. The codes come from the `qrcodegen` crate.
pub mod Size
mod Tests
use Prim.Native.String.{◌++◌ as append}
use himmelblau.Common.{
  ℕ, zero, suc, ◌+◌, ◌-◌, ◌/◌, ◌*◌, Bool, true, false, String, Option, none, some, List, [], ◌∷◌,
  Result, ok, err, ltb, if◌then◌else◌,
}
use himmelblau.Pam.{ℤ, pos, negsuc, QrCode, Captures, Front}

-- `i - border`, with a border of 4
coordinate : ℕ → ℤ
coordinate i = if ltb i 4 then negsuc (3 - i) else pos (i - 4)

-- The character for a module and the one below it.
block : Bool → Bool → String
block true true = "█"
block true false = "▀"
block false true = "▄"
block false false = " "

module _ (qr : QrCode) where
  -- `for x in x0..x0 + n`, from the character at `i`
  row : ℕ → ℕ → ℕ → List String
  unfolding coordinate block
  row zero i y = []
  row (suc n) i y =
      block (qr.get_module (coordinate i) (coordinate y))
        (qr.get_module (coordinate i) (coordinate (y + 1)))
      ∷ row n (i + 1) y

  -- `for y in (-border..qr.size() + border).step_by(2)`, of which `n` are left
  rows : ℕ → ℕ → List (List String)
  unfolding row
  rows zero y = []
  rows (suc n) y = row (qr.size + 8) 0 y ∷ rows n (y + 2)

  pub blocks : List (List String)
  unfolding rows
  blocks = rows ((qr.size + 9) / 2) 0

line : List String → String
line [] = "\n"
line (c ∷ cs) = append c (line cs)

page : List (List String) → String
unfolding line
page [] = ""
page (l ∷ ls) = append (line l) (page ls)

module _ {W : Type 0} (front : Front W) where
  pub generate_unicode_qr : String → Result String (Unit {0})
  unfolding blocks page
  generate_unicode_qr content = elim (front.encode_text content) [
    | ok qr ↦ ok (page (blocks qr))
    | err e ↦ err tt
  ]

  hello_totp_urldecode_match : Option String → Result String String
  hello_totp_urldecode_match none = err "Failed to generate QR code"
  hello_totp_urldecode_match (some c) = elim (front.urldecode c) [
    | ok s ↦ ok s
    | err e ↦ err "Failed to generate QR code"
  ]

  fallback_msg : String → Result String String → Result String String → Result String String
  fallback_msg secret (ok issuer) (ok acct) = ok (
      append "Enter the setup key '" (
        append secret (
          append "' to enroll a TOTP Authenticator app. Use '" (
            append issuer
              (append "' for the code name and '" (append acct "' as the label/name."))))))
  fallback_msg secret (err msg) acct = err msg
  fallback_msg secret (ok issuer) (err msg) = err msg

  from_captures : Option Captures → Result String String
  unfolding hello_totp_urldecode_match fallback_msg
  from_captures none = err "Failed to generate QR code"
  from_captures (some cap) = elim cap.secret [
    | none ↦ err "Failed to generate QR code"
    | some secret ↦
        fallback_msg secret (hello_totp_urldecode_match cap.issuer)
          (hello_totp_urldecode_match cap.account)
  ]

  -- The regular expression is a constant that compiles.
  pub hello_totp_enroll_fallback_msg : String → Result String String
  unfolding from_captures
  hello_totp_enroll_fallback_msg url = from_captures (front.totp_captures url)
