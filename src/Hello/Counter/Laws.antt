-- ===== src/Hello/Counter/Laws.antt =====
-- What a bad PIN leads to, on every branch (src/common/src/idprovider/common.rs).
use himmelblau.Common.{
  ℕ, ◌+◌, ◌*◌, ◌%◌, ◌^◌, ◌<◌, ◌≡◌, sym, subst, ap, String, none, some, List, [], ◌∷◌, ok,
  if◌then◌else◌, str_eq, eq_iff, arith, ◌∙◌,
}
use himmelblau.Hello.{Config, Device, Entry, Provider, get, without, insert, ◌>>=◌}
use himmelblau.Hello.Keys.{Works, select, fetch_hello_totp_key_tag}
use himmelblau.Hello.Counter.{
  count, bad_pin_count, increment_bad_pin_count, judge, handle_hello_bad_pin_count, one_more,
  too_many,
}
use himmelblau.Hello.Counter.Deleted.{
  Forgotten, judge_lem, same_tag, after_deletes, select-totp, delete_hello_keys_run,
}

module _ {V : Type 0} where
  pub get-without :
      (k j : String) (es : List (Entry V))
      → get j (without k es) ≡ (if str_eq k j then none else get j es)
  unfolding get without
  get-without k j [] = ground arith
  get-without k j (e ∷ es) =
      ground (arith, get-without k j es, eq_iff e.account k, eq_iff e.account j, eq_iff k j)

  pub get-insert :
      (k j : String) (v : V) (es : List (Entry V))
      → get j (insert k v es) ≡ (if str_eq k j then some v else get j es)
  unfolding get
  get-insert k j v es = ground (arith, get-without k j es)

pub count-insert :
    (k j : String) (n : ℕ) (es : List (Entry ℕ))
    → count j (insert k n es) ≡ (if str_eq k j then n else count j es)
unfolding count
count-insert k j n es = ground (arith, get-insert k j n es)

module _ {W X : Type 0} (device : Device W X) (config : Config) (account_id : String) where
  abbrev next_count : Provider W X → ℕ
  next_count s = (count account_id s.counter + 1) % 2 ^ 32

  abbrev counted : Provider W X → Provider W X
  counted s = record s {
    counter = insert account_id (next_count s) s.counter;
    world = device.sleep (next_count s * 2) s.world;
  }

  count-counted : (s : Provider W X) → count account_id (counted s).counter ≡ next_count s
  count-counted s = ground (
    arith,
    count-insert account_id account_id (next_count s) s.counter,
    same_tag device account_id account_id,
  )

  handle_run :
      (s : Provider W X)
      → handle_hello_bad_pin_count device config account_id s
        ≡ judge device config account_id (next_count s) (counted s)
  unfolding handle_hello_bad_pin_count increment_bad_pin_count bad_pin_count ◌>>=◌
  handle_run s = ap (λ n. judge device config account_id n (counted s)) (count-counted s)

  -- With an SQLite that does not fail, a bad PIN is counted. Below the bound of the configuration the
  -- keys stay and the caller goes on, at the bound the keys stay and it warns, and beyond the bound
  -- both Hello keys of the account, its PRT and its refresh token are gone.
  pub handle_hello_bad_pin_count_lem :
      (s : Provider W X)
      → Works device
      → (let n = (count account_id s.counter + 1) % 2 ^ 32 in
          let (r, t) = handle_hello_bad_pin_count device config account_id s in
          (count account_id t.counter ≡ n)
          × (n < config.hello_pin_retry_count → (r ≡ ok none) × (t.hsm_data_t ≡ s.hsm_data_t))
          × (n ≡ config.hello_pin_retry_count
              → (r ≡ ok (some one_more)) × (t.hsm_data_t ≡ s.hsm_data_t))
          × (config.hello_pin_retry_count < n
              → (r ≡ ok (some too_many)) × Forgotten device account_id t))
  handle_hello_bad_pin_count_lem s works =
      let j = judge_lem device account_id config (next_count s) (counted s) works in
      subst
        (λ p.
          (count account_id p.1.counter ≡ next_count s)
          × (next_count s < config.hello_pin_retry_count
              → (p.0 ≡ ok none) × (p.1.hsm_data_t ≡ s.hsm_data_t))
          × (next_count s ≡ config.hello_pin_retry_count
              → (p.0 ≡ ok (some one_more)) × (p.1.hsm_data_t ≡ s.hsm_data_t))
          × (config.hello_pin_retry_count < next_count s
              → (p.0 ≡ ok (some too_many)) × Forgotten device account_id p.1))
        (sym (handle_run s)) (ap (count account_id) j.0 ∙ count-counted s, j.1, j.2, j.3)

  -- With an SQLite that does not fail, a bad PIN leaves the stored secret of the account's codes as it
  -- is, whatever the count.
  pub handle-totp_kept :
      (s : Provider W X)
      → Works device
      → select
          (fetch_hello_totp_key_tag device account_id)
          (handle_hello_bad_pin_count device config account_id s).1.hsm_data_t
        ≡ select (fetch_hello_totp_key_tag device account_id) s.hsm_data_t
  unfolding after_deletes judge ◌>>=◌
  handle-totp_kept s works =
      subst
        (λ p.
          select (fetch_hello_totp_key_tag device account_id) p.1.hsm_data_t
          ≡ select (fetch_hello_totp_key_tag device account_id) s.hsm_data_t)
        (sym (handle_run s)) ground
        (
          arith,
          delete_hello_keys_run device account_id (counted s) works,
          select-totp device account_id s.hsm_data_t,
        )
