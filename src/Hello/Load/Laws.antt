-- ===== src/Hello/Load/Laws.antt =====
-- Which Hello key is found for an account (src/common/src/idprovider/common.rs).
use himmelblau.Common.{
  ◌≡◌, true, false, String, Option, none, some, List, ok, err, arith, ◌⊎◌, Option-cases,
}
use himmelblau.Idp.{IdpError}
use himmelblau.Hello.{Device, KeyRow, Provider, ◌>>=◌}
use himmelblau.Hello.Keys.{Works, select, get_tagged_hsm_key, fetch_hello_key_tag}
use himmelblau.Hello.Counter.Deleted.{Gone}
use himmelblau.Hello.Load.{stored, decoupled_key, fetch_hello_key}

module _ {W X : Type 0} (device : Device W X) where
  abbrev pub tick : Provider W X → Provider W X
  tick s = record s { world = (device.sql s.world).1 }

  stored_run :
      (tag : String) (s : Provider W X)
      → Works device
      → stored device tag s ≡ (ok (select tag s.hsm_data_t), tick s)
  unfolding stored get_tagged_hsm_key ◌>>=◌
  stored_run tag s works = ground (arith, works s.world)

  decoupled_run :
      (account_id : String) (s : Provider W X)
      → Works device
      → decoupled_key device account_id s
        ≡ elim (select (fetch_hello_key_tag device account_id false) s.hsm_data_t) [
          | some key ↦ (ok key, tick s)
          | none ↦ (err IdpError.bad_request, tick s)
        ]
  unfolding decoupled_key get_tagged_hsm_key ◌>>=◌
  decoupled_run account_id s works = ground (
    arith,
    works s.world,
    Option-cases (select (fetch_hello_key_tag device account_id false) s.hsm_data_t),
  )

  -- The key is one that is stored for the account.
  abbrev pub Stored : String → List (KeyRow X) → X → Type 0
  Stored account_id rows key =
      (select (fetch_hello_key_tag device account_id true) rows ≡ some key)
      ⊎ (select (fetch_hello_key_tag device account_id false) rows ≡ some key)

  -- The key is found, unless there is none; nothing else happens.
  pub fetch_hello_key_run :
      (account_id : String) (s : Provider W X)
      → Works device
      → (let (r, t) = fetch_hello_key device account_id s in
          (t.counter ≡ s.counter)
          × (t.hsm_data_t ≡ s.hsm_data_t)
          × (((r ≡ err IdpError.bad_request) × Gone device account_id s)
              ⊎ ((key : X) × (r ≡ ok key) × Stored account_id s.hsm_data_t key)))
  unfolding fetch_hello_key ◌>>=◌
  fetch_hello_key_run account_id s works = ground (
    arith,
    stored_run (fetch_hello_key_tag device account_id true) s works,
    decoupled_run account_id (tick s) works,
    Option-cases (select (fetch_hello_key_tag device account_id true) s.hsm_data_t),
    Option-cases (select (fetch_hello_key_tag device account_id false) s.hsm_data_t),
  )

  -- The key that an authentication asks for: the one of a login by Hello for Business, or else the one
  -- that was made on the device alone.
  abbrev pub asked_key : String → List (KeyRow X) → Option X
  asked_key account_id rows = elim (select (fetch_hello_key_tag device account_id true) rows) [
    | some key ↦ some key
    | none ↦ select (fetch_hello_key_tag device account_id false) rows
  ]

  pub fetch_hello_key_lem :
      (account_id : String) (s : Provider W X)
      → Works device
      → (fetch_hello_key device account_id s).0 ≡ elim (asked_key account_id s.hsm_data_t) [
        | some key ↦ ok key
        | none ↦ err IdpError.bad_request
      ]
  unfolding fetch_hello_key ◌>>=◌
  fetch_hello_key_lem account_id s works = ground (
    arith,
    stored_run (fetch_hello_key_tag device account_id true) s works,
    decoupled_run account_id (tick s) works,
    Option-cases (select (fetch_hello_key_tag device account_id true) s.hsm_data_t),
    Option-cases (select (fetch_hello_key_tag device account_id false) s.hsm_data_t),
  )
