-- ===== src/Hello.antt =====
-- What the two identity providers share (src/common/src/idprovider/common.rs): the caches of
-- refresh tokens, the count of bad PINs, the Hello keys, and the authentication by them while the
-- provider is offline. A method is an action on the mutable part, `Provider`; `Device` is what it
-- asks of the TPM, the clock, the network and the crates.
pub mod Rules
pub mod Keys
pub mod Counter
pub mod Refresh
pub mod Online
pub mod Load
pub mod Offline
pub mod Change
pub mod Sample
use himmelblau.Common.{
  ℕ, ◌+◌, Bool, true, false, String, Option, none, some, List, [], ◌∷◌, Result, ok, err, str_eq,
  if◌then◌else◌,
}
use himmelblau.Idp.{IdpError, CacheState}

-- `HimmelblauConfig`, as far as these methods read it.
pub record Config : Type 0 where
  pub hello_pin_retry_count : ℕ
  pub enable_sfa_fallback : Bool
  pub offline_breakglass_enabled : Bool
  pub offline_breakglass_ttl : ℕ
  pub enable_hello_totp : Bool

-- `X` is the type of keys, sealed data and PRTs of the HSM crate. An answer `err tt` is an error that
-- the methods turn into one of their own. `sql` answers whether a statement of SQLite succeeded, times
-- are seconds since the epoch, `verify_totp` reads the enrolment record and checks a code against it,
-- `new_totp` makes an enrolment record and the URL that
-- shows it, and `probe` is whether the server answers the probe with success.
pub record Device (W X : Type 0) : Type 0 where
  pub to_lowercase : String → String
  pub now : W → ℕ × W
  pub sleep : ℕ → W → W
  pub sql : W → Bool × W
  pub pin_value : String → Result (Unit {0}) (Unit {0})
  pub ms_hello_key_load : X → String → W → Result X (Unit {0}) × W
  pub unseal_user_prt_with_hello_key : X → X → String → W → Result X (Unit {0}) × W
  pub is_prt_expired : X → W → Result Bool (Unit {0}) × W
  pub unseal_data : X → X → W → Result String (Unit {0}) × W
  pub verify_totp : String → String → W → Result Bool (Unit {0}) × W
  pub delayed_init : W → Result (Unit {0}) (Unit {0}) × W
  pub probe : W → Bool × W
  pub spn : X → Result String (Unit {0})
  pub amr_ngcmfa : X → Result Bool (Unit {0})
  pub provision_hello_for_business_key : X → String → W → Result X (Unit {0}) × W
  pub ms_hello_key_create : String → W → Result X (Unit {0}) × W
  pub seal_data : X → String → W → Result X (Unit {0}) × W
  pub seal_user_prt_with_hello_key : X → X → String → W → Result X (Unit {0}) × W
  pub new_totp : String → W → Result (String × String) (Unit {0}) × W
  pub exchange_prt : X → List String → W → Result X (Unit {0}) × W
  pub redeem_refresh_token : String → List String → W → Result X (Unit {0}) × W

-- A row of `hsm_data_t`; `none` for a value that serde_json cannot read.
pub record KeyRow (X : Type 0) : Type 0 where
  pub key : String
  pub value : Option X

-- An entry of one of the hash maps, which hold one for each key.
pub record Entry (V : Type 0) : Type 0 where
  pub account : String
  pub value : V

-- A token in a cache, with the time at which it was issued.
pub record Issued (V : Type 0) : Type 0 where
  pub token : V
  pub iat : ℕ

pub record Provider (W X : Type 0) : Type 0 where
  pub state : CacheState
  pub counter : List (Entry ℕ)
  pub refresh_cache : List (Entry (Issued X))
  pub refresh_token_cache : List (Entry (Issued String))
  pub hsm_data_t : List (KeyRow X)
  pub world : W

abbrev pub Act : Type 0 → Type 0 → Type 0 → Type 0
Act W X A = Provider W X → Result A IdpError × Provider W X

module _ {W X A : Type 0} where
  pub pure : A → Act W X A
  pure a s = (ok a, s)

  pub fail : IdpError → Act W X A
  fail e s = (err e, s)

  pub gets : (Provider W X → A) → Act W X A
  gets f s = (ok (f s), s)

  -- An operation of the world outside.
  pub outside : (W → A × W) → Act W X A
  outside f s = let (a, w) = f s.world in (ok a, record s { world = w })

  -- `map_err` and `?`: an error becomes `e`.
  pub or_fail : IdpError → Result A (Unit {0}) → Act W X A
  or_fail e (ok a) s = (ok a, s)
  or_fail e (err u) s = (err e, s)

  -- The method's `Result` as a value.
  pub attempt : Act W X A → Act W X (Result A IdpError)
  attempt m s = let (r, s') = m s in (ok r, s')

  -- `map_err`.
  pub map_err : IdpError → Act W X A → Act W X A
  map_err e m s = let (r, s') = m s in elim r [ ok a ↦ (ok a, s') | err f ↦ (err e, s') ]

module _ {W X : Type 0} where
  pub outside_ : (W → W) → Act W X (Unit {0})
  outside_ f s = (ok tt, record s { world = f s.world })

  pub modify : (Provider W X → Provider W X) → Act W X (Unit {0})
  modify f s = (ok tt, f s)

module _ {W X A B : Type 0} where
  abbrev pub continue : Result A IdpError → (A → Act W X B) → Act W X B
  continue (ok a) f s = f a s
  continue (err e) f s = (err e, s)

  infixl 5 ◌>>=◌ ◌>>◌
  -- Opening this opens the other combinators too.
  unfoldable pub ◌>>=◌ : Act W X A → (A → Act W X B) → Act W X B
  unfolding pure fail gets outside outside_ modify or_fail attempt map_err
  ◌>>=◌ m f s = let (r, s') = m s in continue r f s'

  abbrev pub ◌>>◌ : Act W X A → Act W X B → Act W X B
  m >> k = m >>= λ _. k

-- `HashMap::get` and `HashMap::insert`.
module _ {V : Type 0} where
  unfoldable pub get : String → List (Entry V) → Option V
  get k [] = none
  get k (e ∷ es) = if str_eq e.account k then some e.value else get k es

  unfoldable pub without : String → List (Entry V) → List (Entry V)
  without k [] = []
  without k (e ∷ es) = let rest = without k es in if str_eq e.account k then rest else e ∷ rest

  abbrev pub insert : String → V → List (Entry V) → List (Entry V)
  insert k v es = record { account = k; value = v } ∷ without k es
