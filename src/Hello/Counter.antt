-- ===== src/Hello/Counter.antt =====
-- The count of bad PINs, `BadPinCounter`, and what a bad PIN leads to, `handle_hello_bad_pin_count!`
-- (src/common/src/idprovider/common.rs).
pub mod Deleted
pub mod Laws
mod Tests
use himmelblau.Common.{
  ℕ, ◌+◌, ◌*◌, ◌%◌, ◌^◌, Bool, true, false, String, Option, none, some, List, [], ◌∷◌, Result, ok,
  err, ltb, ◌==◌, if◌then◌else◌,
}
use himmelblau.Idp.{IdpError}
use himmelblau.Hello.{
  Config, Device, Entry, Provider, Act, get, without, insert, pure, fail, gets, outside_, modify,
  map_err, ◌>>=◌, ◌>>◌,
}
use himmelblau.Hello.Keys.{
  delete_tagged_hsm_key, fetch_hello_key_tag, fetch_hello_prt_key_tag,
  fetch_hello_refresh_token_key_tag,
}

-- `*map.get(account_id).unwrap_or(&0)`
unfoldable pub count : String → List (Entry ℕ) → ℕ
unfolding get
count account_id counter = elim (get account_id counter) [ none ↦ 0 | some n ↦ n ]

abbrev pub one_more : String
one_more =
    "Failed to authenticate with Hello PIN. One more failed attempt will require multi-factor authentication and resetting your Linux Hello PIN."

abbrev pub too_many : String
too_many = "Too many incorrect PIN attempts. You will need to enroll a new Linux Hello PIN."

module _ {W X : Type 0} where
  unfoldable pub bad_pin_count : String → Act W X ℕ
  unfolding count
  bad_pin_count account_id = gets (λ s. count account_id s.counter)

  unfoldable pub reset_bad_pin_count : String → Act W X (Unit {0})
  unfolding without
  reset_bad_pin_count account_id =
      modify (λ s. record s { counter = insert account_id 0 s.counter })

module _ {W X : Type 0} (device : Device W X) where
  -- The wait holds the lock of the counter. A u32 wraps.
  unfoldable pub increment_bad_pin_count : String → Act W X (Unit {0})
  unfolding count without
  increment_bad_pin_count account_id = do
    n ← gets (λ s. (count account_id s.counter + 1) % 2 ^ 32)
    modify (λ s. record s { counter = insert account_id n s.counter })
    outside_ (device.sleep (n * 2))

  unfoldable pub delete_hello_keys : String → Act W X (Unit {0})
  unfolding delete_tagged_hsm_key fetch_hello_key_tag fetch_hello_prt_key_tag
      fetch_hello_refresh_token_key_tag
  delete_hello_keys account_id = do
    map_err IdpError.tpm (delete_tagged_hsm_key device (fetch_hello_key_tag device account_id true))
    map_err IdpError.tpm
        (delete_tagged_hsm_key device (fetch_hello_key_tag device account_id false))
    map_err IdpError.tpm (delete_tagged_hsm_key device (fetch_hello_prt_key_tag device account_id))
    map_err IdpError.tpm
        (delete_tagged_hsm_key device (fetch_hello_refresh_token_key_tag device account_id))

  -- The message with which the caller is to deny the authentication at once, if any, by the count.
  unfoldable pub judge : Config → String → ℕ → Act W X (Option String)
  unfolding delete_hello_keys
  judge config account_id n =
      if n == config.hello_pin_retry_count
      then pure (some one_more)
      else if ltb config.hello_pin_retry_count n
      then (delete_hello_keys account_id >> pure (some too_many))
      else pure none

  unfoldable pub handle_hello_bad_pin_count : Config → String → Act W X (Option String)
  unfolding increment_bad_pin_count bad_pin_count judge
  handle_hello_bad_pin_count config account_id = do
    increment_bad_pin_count account_id
    n ← bad_pin_count account_id
    judge config account_id n
