-- ===== src/Hello/Counter/Tests.antt =====
-- Bad PINs, one by one, and the theorems on them.
use himmelblau.Common.{◌+◌, ◌%◌, ◌^◌, ◌<◌, ◌≡◌, refl, String, none, some, ok}
use himmelblau.Hello.{◌>>=◌}
use himmelblau.Hello.Keys.{select, fetch_hello_totp_key_tag}
use himmelblau.Hello.Counter.{count, handle_hello_bad_pin_count, one_more, too_many}
use himmelblau.Hello.Counter.Deleted.{Forgotten}
use himmelblau.Hello.Counter.Laws.{handle_hello_bad_pin_count_lem, handle-totp_kept}
use himmelblau.Hello.Sample.{device, config, provider}

abbrev account : String
account = "alice@example.org"

handle_hello_bad_pin_count_lem_example :
    (let n = (count account provider.counter + 1) % 2 ^ 32 in
      let (r, t) = handle_hello_bad_pin_count device config account provider in
      (count account t.counter ≡ n)
      × (n < config.hello_pin_retry_count → (r ≡ ok none) × (t.hsm_data_t ≡ provider.hsm_data_t))
      × (n ≡ config.hello_pin_retry_count
          → (r ≡ ok (some one_more)) × (t.hsm_data_t ≡ provider.hsm_data_t))
      × (config.hello_pin_retry_count < n → (r ≡ ok (some too_many)) × Forgotten device account t))
handle_hello_bad_pin_count_lem_example =
    handle_hello_bad_pin_count_lem device config account provider (λ w. refl)

handle-totp_kept_example :
    select
      (fetch_hello_totp_key_tag device account)
      (handle_hello_bad_pin_count device config account provider).1.hsm_data_t
    ≡ select (fetch_hello_totp_key_tag device account) provider.hsm_data_t
handle-totp_kept_example = handle-totp_kept device config account provider (λ w. refl)

warned : (handle_hello_bad_pin_count device config account provider).0 ≡ ok (some one_more)
unfolding handle_hello_bad_pin_count ◌>>=◌
warned = refl
