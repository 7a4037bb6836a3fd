-- ===== src/Hello/Load/Stored.antt =====
-- Where the keys and secrets come from that an authentication asks the key store for
-- (src/common/src/idprovider/common.rs).
use himmelblau.Common.{
  ◌≡◌, refl, ap, true, false, String, Option, none, some, List, arith, inl, inr, Bool-cases,
  Option-cases,
}
use himmelblau.Idp.{IdpError}
use himmelblau.Hello.{Device, KeyRow, Provider, pure, fail, ◌>>=◌}
use himmelblau.Hello.Rules.{Leads, Leads-bind, Leads-pure, Leads-fail}
use himmelblau.Hello.Keys.{
  select, get_tagged_hsm_key, fetch_hello_key_tag, fetch_hello_totp_key_tag,
}
use himmelblau.Hello.Load.{stored, decoupled_key, fetch_hello_key, sealed_totp}
use himmelblau.Hello.Load.Laws.{Stored}

module _ {W X : Type 0} (device : Device W X) (account_id : String) (rows : List (KeyRow X)) where
  -- What was found, if anything, is what the rows have under the tag.
  abbrev Under : String → Option X → Provider W X → Type 0
  Under tag o t = ((key : X) → o ≡ some key → select tag rows ≡ some key) × (t.hsm_data_t ≡ rows)

  Leads-stored : (tag : String) → Leads (λ s. s.hsm_data_t ≡ rows) (stored device tag) (Under tag)
  unfolding stored get_tagged_hsm_key ◌>>=◌
  Leads-stored tag = record {
    at = λ s p o e. (
      λ key found. ground (arith, ap (select tag) p, Bool-cases (device.sql s.world).0),
      ground (arith, Bool-cases (device.sql s.world).0),
    );
  }

  Leads-decoupled_key :
      Leads
        (λ s. s.hsm_data_t ≡ rows)
        (decoupled_key device account_id)
        (λ key t.
          (select (fetch_hello_key_tag device account_id false) rows ≡ some key)
          × (t.hsm_data_t ≡ rows))
  unfolding decoupled_key get_tagged_hsm_key ◌>>=◌
  Leads-decoupled_key = record {
    at = λ s p key e. ground (
      arith,
      ap (select (fetch_hello_key_tag device account_id false)) p,
      Bool-cases (device.sql s.world).0,
      Option-cases (select (fetch_hello_key_tag device account_id false) s.hsm_data_t),
    );
  }

  found_or_decoupled :
      (o : Option X)
      → Leads
          (Under (fetch_hello_key_tag device account_id true) o)
          (elim o [ some key ↦ pure key | none ↦ decoupled_key device account_id ])
          (λ key t. Stored device account_id rows key × (t.hsm_data_t ≡ rows))
  found_or_decoupled (some key) = Leads-pure _ _ _ (λ t under. (inl (under.0 key refl), under.1))
  found_or_decoupled none = record {
    at = λ s under key e.
        let found = Leads-decoupled_key.at s under.1 key e in (inr found.0, found.1);
  }

  -- The key is one that is stored for the account, whether or not a query failed.
  pub Leads-fetch_hello_key :
      Leads
        (λ s. s.hsm_data_t ≡ rows)
        (fetch_hello_key device account_id)
        (λ key t. Stored device account_id rows key × (t.hsm_data_t ≡ rows))
  unfolding fetch_hello_key
  Leads-fetch_hello_key =
      Leads-bind _ _ _ _ _ (Leads-stored (fetch_hello_key_tag device account_id true))
        found_or_decoupled

  -- The secret that is pending, or else the one that is stored for the account.
  abbrev pub Source : Option X → X → Type 0
  Source (some pending) sealed = pending ≡ sealed
  Source none sealed = select (fetch_hello_totp_key_tag device account_id) rows ≡ some sealed

  found_secret :
      (o : Option X)
      → Leads
          (Under (fetch_hello_totp_key_tag device account_id) o)
          (elim o [ some sealed ↦ pure sealed | none ↦ fail IdpError.bad_request ])
          (λ sealed t. Source none sealed × (t.hsm_data_t ≡ rows))
  found_secret (some sealed) = Leads-pure _ _ _ (λ t under. (under.0 sealed refl, under.1))
  found_secret none = Leads-fail _ _ _

  pub Leads-sealed_totp :
      (pending : Option X)
      → Leads
          (λ s. s.hsm_data_t ≡ rows)
          (sealed_totp device account_id pending)
          (λ sealed t. Source pending sealed × (t.hsm_data_t ≡ rows))
  unfolding sealed_totp
  Leads-sealed_totp (some pending) = Leads-pure _ _ _ (λ t p. (refl, p))
  Leads-sealed_totp none =
      Leads-bind _ _ _ _ _ (Leads-stored (fetch_hello_totp_key_tag device account_id)) found_secret
