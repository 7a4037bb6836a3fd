-- ===== src/Hello/Sample.antt =====
-- A device for the runs in the Tests modules: names are in lower case already, a key is the text of its
-- PIN, what is sealed is the text itself, and the world is a clock. It stands for what
-- src/common/src/idprovider/common.rs asks of the TPM, the network and the crates.
use himmelblau.Common.{ℕ, ◌+◌, true, false, String, some, [], ◌∷◌, ok, err, str_eq, if◌then◌else◌}
use himmelblau.Idp.{CacheState}
use himmelblau.Hello.{Config, Device, Provider}

abbrev pub device : Device ℕ String
device = record {
  to_lowercase = λ s. s;
  now = λ w. (w, w);
  sleep = λ n w. n + w;
  sql = λ w. (true, w);
  pin_value = λ pin. ok tt;
  ms_hello_key_load = λ key pin w. (if str_eq key pin then ok key else err tt, w);
  unseal_user_prt_with_hello_key = λ sealed key pin w. (ok sealed, w);
  is_prt_expired = λ prt w. (ok false, w);
  unseal_data = λ key sealed w. (ok sealed, w);
  verify_totp = λ totp code w. (ok (str_eq totp code), w);
  delayed_init = λ w. (ok tt, w);
  probe = λ w. (true, w);
  spn = λ token. ok token;
  amr_ngcmfa = λ token. ok false;
  provision_hello_for_business_key = λ token pin w. (ok pin, w);
  ms_hello_key_create = λ pin w. (ok pin, w);
  seal_data = λ key text w. (ok text, w);
  seal_user_prt_with_hello_key = λ prt key pin w. (ok prt, w);
  new_totp = λ account w. (ok ("123456", "otpauth://totp/"), w);
  exchange_prt = λ prt scopes w. (ok prt, w);
  redeem_refresh_token = λ token scopes w. (ok token, w);
}

abbrev pub config : Config
config = record {
  hello_pin_retry_count = 1;
  enable_sfa_fallback = false;
  offline_breakglass_enabled = false;
  offline_breakglass_ttl = 60;
  enable_hello_totp = true;
}

-- A provider that has nothing but alice's Hello key with the PIN 271828.
abbrev pub provider : Provider ℕ String
provider = record {
  state = CacheState.offline;
  counter = [];
  refresh_cache = [];
  refresh_token_cache = [];
  hsm_data_t = record { key = "alice@example.org/hello"; value = some "271828" } ∷ [];
  world = 0;
}
