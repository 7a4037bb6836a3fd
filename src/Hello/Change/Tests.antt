-- ===== src/Hello/Change/Tests.antt =====
-- A change of the PIN that is not asked for, and what is sealed with a key.
use himmelblau.Common.{ℕ, ◌≡◌, refl, Bool, true, String, some, ok}
use himmelblau.Idp.{CacheState, AuthCredHandler, AuthRequest, AuthResult}
use himmelblau.Hello.{Provider, ◌>>=◌}
use himmelblau.Hello.Keys.{select, fetch_hello_key_tag, fetch_hello_prt_key_tag}
use himmelblau.Hello.Load.{fetch_hello_key}
use himmelblau.Hello.Change.{
  amr_of, change_auth_token, setup_hello_totp, seal_prt_with_existing_hello_key,
}
use himmelblau.Hello.Change.Laws.{Made, asked_after, change_auth_token-asked}
use himmelblau.Hello.Sample.{device, provider}

abbrev account : String
account = "alice@example.org"

abbrev online : Provider ℕ String
online = record provider { state = CacheState.online }

-- The new PIN is reported as set.
set : (change_auth_token device (amr_of device account) account account "314159" online).0 ≡ ok true
unfolding change_auth_token amr_of ◌>>=◌
set = refl

-- But the old one is asked for.
old_asked :
    (fetch_hello_key device account
      (change_auth_token device (amr_of device account) account account "314159" online).1).0
    ≡ ok "271828"
unfolding change_auth_token amr_of fetch_hello_key ◌>>=◌
old_asked = refl

change_auth_token-asked_example :
    (amr_ngcmfa : Bool) × (key : String) × (spn : String) × (device.amr_ngcmfa account
      ≡ ok amr_ngcmfa)
    × (device.spn account ≡ ok spn)
    × (device.to_lowercase account ≡ device.to_lowercase spn)
    × Made device account "314159" amr_ngcmfa key
    × (select
          (fetch_hello_key_tag device account amr_ngcmfa)
          (change_auth_token device
            (amr_of device account)
            account
            account
            "314159"
            online).1.hsm_data_t
        ≡ some key)
    × ((fetch_hello_key device account
          (change_auth_token device (amr_of device account) account account "314159" online).1).0
        ≡ ok (asked_after device account online.hsm_data_t amr_ngcmfa key))
change_auth_token-asked_example =
    change_auth_token-asked device account "314159" account online true (λ w. refl) set

asks_code :
    (setup_hello_totp device account "271828" provider).0
    ≡ ok (
      AuthResult.next (AuthRequest.hello_totp "otpauth://totp/"),
      AuthCredHandler.hello_totp "271828" (some "123456"),
    )
unfolding setup_hello_totp ◌>>=◌
asks_code = refl

sealed :
    select
      (fetch_hello_prt_key_tag device account)
      (seal_prt_with_existing_hello_key device account
        (some "prt")
        "token"
        "271828"
        "271828"
        provider).1.hsm_data_t
    ≡ some "prt"
unfolding select fetch_hello_prt_key_tag seal_prt_with_existing_hello_key ◌>>=◌
sealed = refl
