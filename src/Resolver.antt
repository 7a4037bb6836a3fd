-- ===== src/Resolver.antt =====
-- The resolver, src/common/src/resolver.rs: what it holds, and how its methods run. A method is an
-- action on the mutable part, `Store`; the configuration and the collaborators are `Resolver`.
-- Cache has the cache, Refresh the answers from it, Nss the lookups for NSS, Init and
-- Step the authentication sessions.
pub mod Rules
pub mod Cache
pub mod Refresh
pub mod Nss
pub mod Session
pub mod Init
pub mod Step
pub mod Unseal
pub mod Tokens
pub mod Sample
use himmelblau.Common.{
  ℕ, Bool, true, false, String, Option, none, some, List, [], ◌∷◌, ◌||◌, Result, ok, err, ◌==◌, any,
  str_eq, if◌then◌else◌,
}
use himmelblau.Idp.{UnixId, IdProvider}
use himmelblau.Db.{Tables, CacheError}

-- unix_config.rs
pub data HomeAttr : Type 0 where
  uuid : HomeAttr
  spn : HomeAttr
  cn : HomeAttr
  name : HomeAttr

pub data UidAttr : Type 0 where
  name : UidAttr
  spn : UidAttr

-- What the resolver asks of the clock, of SQLite, of the file system, of the `lru` crate and of the
-- password hashing of the HSM crate. `commit` answers whether COMMIT TRANSACTION succeeded; the
-- file operations answer whether they did.
pub record System (W X : Type 0) : Type 0 where
  pub now : W → ℕ × W
  pub commit : W → Bool × W
  pub shell_exists : String → W → Bool × W
  pub nxcache_put : UnixId → ℕ → W → W
  pub nxcache_get : UnixId → W → Option ℕ × W
  pub nxcache_clear : W → W
  pub hash_password : String → W → Result X (Unit {0}) × W
  pub verify_password : X → String → W → Result Bool (Unit {0}) × W
  pub clear_hello_keys : W → W
  pub remove_server_config : W → Bool × W

pub record Resolver (W X : Type 0) : Type 0 where
  pub client : IdProvider W X
  pub system : System W X
  pub timeout_seconds : ℕ
  pub pam_allow_groups : List String
  pub default_shell : String
  pub home_prefix : String
  pub home_attr : HomeAttr
  pub home_alias : Option HomeAttr
  pub uid_attr_map : UidAttr
  pub gid_attr_map : UidAttr
  pub allow_id_overrides : List UnixId

-- `db_held` is the mutex of the database: a transaction holds it until it commits or is dropped.
-- `nxset` lists the members of the set.
pub record Store (W X : Type 0) : Type 0 where
  pub db : Tables X
  pub db_held : Bool
  pub nxset : List UnixId
  pub world : W

-- What a method that returns `Result<A, ()>` comes to; `blocked` if it waits for a mutex that its
-- own task holds, which is for ever.
pub data Outcome (A : Type 0) : Type 0 where
  done : A → Outcome A
  failed : Outcome A
  blocked : Outcome A

abbrev pub Act : Type 0 → Type 0 → Type 0 → Type 0
Act W X A = Store W X → Outcome A × Store W X

module _ {W X A : Type 0} where
  pub pure : A → Act W X A
  pure a s = (Outcome.done a, s)

  pub fail : Act W X A
  fail s = (Outcome.failed, s)

  -- An operation of the world outside.
  pub outside : (W → A × W) → Act W X A
  outside f s = let (a, w) = f s.world in (Outcome.done a, record s { world = w })

  pub gets : (Store W X → A) → Act W X A
  gets f s = (Outcome.done (f s), s)

  pub from_result : {E : Type 0} → Result A E → Act W X A
  unfolding pure fail
  from_result (ok a) = pure a
  from_result (err e) = fail

  -- The method's `Result` as a value, for callers that do more than pass an error on.
  pub attempt : Act W X A → Act W X (Result A (Unit {0}))
  attempt m s =
      let (r, s') = m s in
      elim r [
        | done a ↦ (Outcome.done (ok a), s')
        | failed ↦ (Outcome.done (err tt), s')
        | blocked ↦ (Outcome.blocked, s')
      ]

  -- The scope of `let mut dbtxn = self.db.write().await`.
  pub with_db : Act W X A → Act W X A
  with_db m s =
      if s.db_held
      then (Outcome.blocked, s)
      else (let (r, s') = m (record s { db_held = true }) in
          elim r [
            | done a ↦ (Outcome.done a, record s' { db_held = false })
            | failed ↦ (Outcome.failed, record s' { db_held = false })
            | blocked ↦ (Outcome.blocked, s')
          ])

module _ {W X : Type 0} where
  -- An operation of the world outside that answers nothing.
  pub outside_ : (W → W) → Act W X (Unit {0})
  outside_ f s = (Outcome.done tt, record s { world = f s.world })

module _ {W X A B E : Type 0} where
  -- A `match` on a `Result`, and on an `Option`.
  pub on_result : Result A E → (A → Act W X B) → (E → Act W X B) → Act W X B
  on_result (ok a) f g = f a
  on_result (err e) f g = g e

module _ {W X A B : Type 0} where
  pub on_option : Option A → (A → Act W X B) → Act W X B → Act W X B
  on_option (some a) f m = f a
  on_option none f m = m

  -- An error, and a wait without end, pass the rest by.
  abbrev pub continue : Outcome A → (A → Act W X B) → Act W X B
  continue (done a) f s = f a s
  continue failed f s = (Outcome.failed, s)
  continue blocked f s = (Outcome.blocked, s)

  infixl 5 ◌>>=◌ ◌>>◌
  -- Opening this opens the other combinators too.
  unfoldable pub ◌>>=◌ : Act W X A → (A → Act W X B) → Act W X B
  unfolding pure fail outside outside_ gets from_result attempt with_db on_result on_option
  ◌>>=◌ m f s = let (r, s') = m s in continue r f s'

  abbrev pub ◌>>◌ : Act W X A → Act W X B → Act W X B
  m >> k = m >>= λ _. k

pub id_eq : UnixId → UnixId → Bool
id_eq (UnixId.name n) (UnixId.name m) = str_eq n m
id_eq (UnixId.gid g) (UnixId.gid h) = g == h
id_eq (UnixId.name n) (UnixId.gid h) = false
id_eq (UnixId.gid g) (UnixId.name m) = false

unfoldable pub contains : UnixId → List UnixId → Bool
unfolding id_eq
contains id ids = any (λ i. id_eq i id) ids
