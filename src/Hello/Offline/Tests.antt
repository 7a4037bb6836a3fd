-- ===== src/Hello/Offline/Tests.antt =====
-- Runs of an offline authentication, and the theorems on them.
use himmelblau.Common.{ℕ, ◌≡◌, refl, true, false, String, some, [], ◌∷◌, ok, err, arith, str_eq}
use himmelblau.Proto.{PamAuthRequest}
use himmelblau.Idp.{IdpError, AuthRequest, AuthResult, AuthCredHandler}
use himmelblau.Resolver.Sample.{alice}
use himmelblau.Hello.{◌>>=◌}
use himmelblau.Hello.Keys.{select, fetch_hello_key_tag}
use himmelblau.Hello.Counter.{count}
use himmelblau.Hello.Counter.Deleted.{Gone}
use himmelblau.Hello.Load.Laws.{Stored}
use himmelblau.Hello.Offline.{offline_auth_init, offline_auth_step}
use himmelblau.Hello.Offline.Lockout.{after_pins, after_pins-locked}
use himmelblau.Hello.Offline.Success.{Shown, offline_auth_step-success}
use himmelblau.Hello.Sample.{device, config, provider}

abbrev account : String
account = "alice@example.org"

right_pin :
    (offline_auth_step device config true account alice AuthCredHandler.none
      (PamAuthRequest.pin "271828")
      provider).0
    ≡ ok (AuthResult.success alice)
unfolding offline_auth_step ◌>>=◌
right_pin = refl

asked_for_pin : (offline_auth_init device config true false account provider).0 ≡ ok AuthRequest.pin
unfolding offline_auth_init ◌>>=◌
asked_for_pin = refl

offline_auth_step-success_example :
    (alice ≡ alice)
    × (count account
          (offline_auth_step device config true account alice AuthCredHandler.none
            (PamAuthRequest.pin "271828")
            provider).1.counter
        ≡ 0)
    × Shown device config account alice provider.hsm_data_t AuthCredHandler.none
        (PamAuthRequest.pin "271828")
offline_auth_step-success_example =
    offline_auth_step-success device config account alice true AuthCredHandler.none
      (PamAuthRequest.pin "271828") provider alice right_pin

-- A PIN that is not alice's opens no key that is stored for her.
wrong :
    (pin : String)
    → str_eq "271828" pin ≡ false
    → (key : String) (w : ℕ) → Stored device account provider.hsm_data_t key
    → (device.ms_hello_key_load key pin w).0 ≡ err tt
unfolding select fetch_hello_key_tag
wrong pin e key w found = ground arith

after_pins-locked_example :
    (let t =
        after_pins device config account true alice AuthCredHandler.none
          ("0" ∷ "1" ∷ [])
          provider in
      Gone device account t
      × ((offline_auth_step device config true account alice AuthCredHandler.none
            (PamAuthRequest.pin "271828")
            t).0
          ≡ err IdpError.bad_request))
unfolding count
after_pins-locked_example =
    after_pins-locked device config account true alice AuthCredHandler.none ("0" ∷ "1" ∷ [])
      provider "271828" (λ w. refl) ((refl, wrong "0" refl), ((refl, wrong "1" refl), tt))
      (omega arith) (omega arith) (omega arith)

abbrev enrolled : AuthCredHandler String
enrolled = AuthCredHandler.hello_totp "271828" (some "123456")

-- A code is stored once it was verified.
code_kept :
    (offline_auth_step device config true account alice enrolled
      (PamAuthRequest.hello_totp "123456")
      provider).0
    ≡ ok (AuthResult.success alice)
unfolding offline_auth_step ◌>>=◌
code_kept = refl
