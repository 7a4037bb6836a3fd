-- ===== src/Pin/Tests.antt =====
-- Runs of the PIN rules, src/common/src/hello_pin_complexity.rs.
use himmelblau.Common.{ℕ, ◌%◌, ◌^◌, ◌≡◌, ◌↔◌, not, some, List, ok, codes, length}
use himmelblau.Pin.{
  int, Policies, count, is_ascii_digit, is_ascii_lowercase, is_ascii_uppercase,
  is_ascii_alphanumeric, meets_intune_pin_policy,
}
use himmelblau.Pin.Policy.{Demands, meets_policy_iff}

abbrev pin : List ℕ
pin = codes "135791"

-- Whatever is asked for, at least four.
abbrev four : Policies
four key = some (int 4)

meets_policy_iff_example : (meets_intune_pin_policy (ok four) pin ≡ ok tt) ↔ (
    Demands (four "linux_passwordpolicy_minimumlength") (length pin % 2 ^ 32)
    × Demands (four "linux_passwordpolicy_minimumdigits") (count is_ascii_digit pin)
    × Demands (four "linux_passwordpolicy_minimumlowercase") (count is_ascii_lowercase pin)
    × Demands (four "linux_passwordpolicy_minimumuppercase") (count is_ascii_uppercase pin)
    × Demands
        (four "linux_passwordpolicy_minimumsymbols")
        (count (λ c. not (is_ascii_alphanumeric c)) pin))
meets_policy_iff_example = meets_policy_iff four pin
