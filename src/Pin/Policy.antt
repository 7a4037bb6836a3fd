-- ===== src/Pin/Policy.antt =====
-- What `meets_intune_pin_policy` of src/common/src/hello_pin_complexity.rs demands.
use himmelblau.Common.{
  ℕ, ◌+◌, ◌%◌, ◌^◌, ◌≤◌, ◌≡◌, ◌↔◌, refl, not, ok, some, none, List, [], ◌∷◌, String, Option, Result,
  length, retain, arith,
}
use himmelblau.Pin.{
  PolicyValue, int, text, Policies, PolicyError, count, is_ascii_digit, is_ascii_lowercase,
  is_ascii_uppercase, is_ascii_alphanumeric, check_policy, check_policies, meets_intune_pin_policy,
}

-- A policy that is a number is a lower bound; a text or a missing key asks for nothing.
abbrev pub Demands : Option PolicyValue → ℕ → Type 0
Demands (some (int min)) actual = min ≤ actual
Demands (some (text t)) actual = Unit {0}
Demands none actual = Unit {0}

check_policy-ok :
    (p : Option PolicyValue) (actual : ℕ) (label : String) (rest : Result (Unit {0}) PolicyError)
    → (check_policy p actual label rest ≡ ok tt) ↔ (Demands p actual × (rest ≡ ok tt))
unfolding check_policy
check_policy-ok (some (int min)) actual label rest = (λ h. ground arith, λ h. ground arith)
check_policy-ok (some (text t)) actual label rest = (λ h. (tt, h), λ h. h.1)
check_policy-ok none actual label rest = (λ h. (tt, h), λ h. h.1)

-- With the policy cache loaded, a PIN passes exactly when its length and its numbers of digits,
-- lower case letters, upper case letters and other characters, each as a 32 bit number, reach the
-- five minimums that the cache holds as numbers.
pub meets_policy_iff :
    (get : Policies) (pin : List ℕ)
    → (meets_intune_pin_policy (ok get) pin ≡ ok tt) ↔ (
        Demands (get "linux_passwordpolicy_minimumlength") (length pin % 2 ^ 32)
        × Demands (get "linux_passwordpolicy_minimumdigits") (count is_ascii_digit pin)
        × Demands (get "linux_passwordpolicy_minimumlowercase") (count is_ascii_lowercase pin)
        × Demands (get "linux_passwordpolicy_minimumuppercase") (count is_ascii_uppercase pin)
        × Demands
            (get "linux_passwordpolicy_minimumsymbols")
            (count (λ c. not (is_ascii_alphanumeric c)) pin))
unfolding meets_intune_pin_policy check_policies
meets_policy_iff get pin =
    let c1 =
      check_policy-ok (get "linux_passwordpolicy_minimumsymbols")
        (count (λ c. not (is_ascii_alphanumeric c)) pin) "symbol" (ok tt) in
    let c2 =
      check_policy-ok (get "linux_passwordpolicy_minimumuppercase") (count is_ascii_uppercase pin)
        "uppercase" _ in
    let c3 =
      check_policy-ok (get "linux_passwordpolicy_minimumlowercase") (count is_ascii_lowercase pin)
        "lowercase" _ in
    let c4 =
      check_policy-ok (get "linux_passwordpolicy_minimumdigits") (count is_ascii_digit pin) "digit"
        _ in
    let c5 =
      check_policy-ok (get "linux_passwordpolicy_minimumlength") (length pin % 2 ^ 32) "total" _ in
    (
      λ h.
          let (d5, r4) = c5.0 h in
          let (d4, r3) = c4.0 r4 in
          let (d3, r2) = c3.0 r3 in let (d2, r1) = c2.0 r2 in (d5, d4, d3, d2, (c1.0 r1).0),
      λ h. c5.1 (h.0, c4.1 (h.1, c3.1 (h.2, c2.1 (h.3, c1.1 (h.4, refl))))),
    )

-- The four kinds of character that are counted divide the PIN among them.
pub kinds_divide :
    (pin : List ℕ)
    → length (retain is_ascii_digit pin)
        + length (retain is_ascii_lowercase pin)
        + length (retain is_ascii_uppercase pin)
        + length (retain (λ c. not (is_ascii_alphanumeric c)) pin)
      ≡ length pin
unfolding is_ascii_alphanumeric is_ascii_digit is_ascii_lowercase is_ascii_uppercase
kinds_divide [] = refl
kinds_divide (c ∷ cs) = ground (arith, kinds_divide cs)
