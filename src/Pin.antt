-- ===== src/Pin.antt =====
-- The Hello PIN rules, src/common/src/hello_pin_complexity.rs. A PIN is the list of its characters.
pub mod Simple
pub mod Policy
mod Tests
use himmelblau.Common.{
  ℕ, ◌+◌, ◌-◌, ◌%◌, ◌^◌, Bool, true, false, not, ◌&&◌, ◌||◌, String, Option, none, some, List, [],
  ◌∷◌, map, length, retain, Result, ok, err, ltb, leb, ◌==◌, if◌then◌else◌, byte_len,
}

-- DEFAULT_HELLO_PIN_MIN_LEN
abbrev pub default_hello_pin_min_len : ℕ
default_hello_pin_min_len = 6

pub is_ascii_digit : ℕ → Bool
is_ascii_digit c = leb b'0' c && leb c b'9'

-- `c.to_digit(10)`
pub to_digit : ℕ → Option ℕ
unfolding is_ascii_digit
to_digit c = if is_ascii_digit c then some (c - b'0') else none

pub push_digit : Option ℕ → Option (List ℕ) → Option (List ℕ)
push_digit (some d) (some ds) = some (d ∷ ds)
push_digit (some d) none = none
push_digit none ds = none

-- `.map(to_digit).collect::<Option<Vec<u8>>>()`
pub digits : List ℕ → Option (List ℕ)
unfolding to_digit push_digit
digits [] = some []
digits (c ∷ cs) = push_digit (to_digit c) (digits cs)

-- `digits.windows(2).map(|pair| (10 + pair[1] - pair[0]) % 10)`, on bytes: with digits below 10
-- neither the sum nor the difference leaves u8.
pub deltas : List ℕ → List ℕ
deltas [] = []
deltas (a ∷ []) = []
deltas (a ∷ (b ∷ ds)) = ((10 + b - a) % 10) ∷ deltas (b ∷ ds)

-- `deltas.windows(2).all(|w| w[0] == w[1])`
pub all_equal : List ℕ → Bool
all_equal [] = true
all_equal (a ∷ []) = true
all_equal (a ∷ (b ∷ ds)) = a == b && all_equal (b ∷ ds)

pub is_arithmetic : Option (List ℕ) → Bool
is_arithmetic none = false
is_arithmetic (some ds) = all_equal (deltas ds)

unfoldable pub is_simple_pin : List ℕ → Bool
unfolding digits deltas all_equal is_arithmetic byte_len
is_simple_pin pin =
    if ltb (byte_len pin) default_hello_pin_min_len then true else is_arithmetic (digits pin)

-- policy_cache.rs, `PolicyValue`
pub data PolicyValue : Type 0 where
  int : ℕ → PolicyValue
  text : String → PolicyValue

pub data PolicyError : Type 0 where
  not_loaded : PolicyError
  too_few : ℕ → String → PolicyError

pub is_ascii_lowercase : ℕ → Bool
is_ascii_lowercase c = leb b'a' c && leb c b'z'

pub is_ascii_uppercase : ℕ → Bool
is_ascii_uppercase c = leb b'A' c && leb c b'Z'

pub is_ascii_alphanumeric : ℕ → Bool
unfolding is_ascii_digit is_ascii_lowercase is_ascii_uppercase
is_ascii_alphanumeric c = is_ascii_digit c || is_ascii_lowercase c || is_ascii_uppercase c

-- `.filter(p).count() as u32`
pub count : (ℕ → Bool) → List ℕ → ℕ
count p pin = length (retain p pin) % 2 ^ 32

-- The policy cache's answer to a key.
abbrev pub Policies : Type 0
Policies = String → Option PolicyValue

-- The macro `check_policy!`, with the rest of the function behind it.
pub check_policy :
    Option PolicyValue → ℕ → String → Result (Unit {0}) PolicyError → Result (Unit {0}) PolicyError
check_policy (some (int min)) actual label rest =
    if ltb actual min then err (too_few min label) else rest
check_policy (some (text t)) actual label rest = rest
check_policy none actual label rest = rest

pub check_policies : Policies → List ℕ → Result (Unit {0}) PolicyError
unfolding check_policy
check_policies get pin =
    check_policy (get "linux_passwordpolicy_minimumlength") (length pin % 2 ^ 32) "total" (
      check_policy (get "linux_passwordpolicy_minimumdigits") (count is_ascii_digit pin) "digit" (
        check_policy (get "linux_passwordpolicy_minimumlowercase") (count is_ascii_lowercase pin)
          "lowercase"
          (check_policy (get "linux_passwordpolicy_minimumuppercase") (count is_ascii_uppercase pin)
            "uppercase"
            (check_policy (get "linux_passwordpolicy_minimumsymbols")
              (count (λ c. not (is_ascii_alphanumeric c)) pin) "symbol" (ok tt)))))

-- `PolicyCache::new(POLICY_CACHE, false)` may fail, and answers the keys when it does not.
unfoldable pub meets_intune_pin_policy :
    Result Policies (Unit {0}) → List ℕ → Result (Unit {0}) PolicyError
unfolding check_policies
meets_intune_pin_policy (err e) pin = err not_loaded
meets_intune_pin_policy (ok get) pin = check_policies get pin
