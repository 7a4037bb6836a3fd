-- ===== src/Hello/Change/Laws.antt =====
-- What a change of the Hello PIN stores, and whether it is the key that the next authentication asks
-- for (src/common/src/idprovider/common.rs).
use Prim.Native.String.{◌++◌ as append}
use himmelblau.Common.{
  ◌≡◌, refl, ap, ◌∙◌, Bool, true, false, String, none, some, List, ok, err, arith, str_eq,
  str_eq→eq, Bool-cases, Option-cases, eq_refl, if◌then◌else◌,
}
use himmelblau.Idp.{IdpError, CacheState}
use himmelblau.Hello.{Device, KeyRow, Provider, Act, pure, fail, map_err, ◌>>=◌, ◌>>◌}
use himmelblau.Hello.Rules.{
  Keeps, Keeps-bind, Keeps-pure, Keeps-fail, Keeps-gets, Keeps-outside, Keeps-or_fail, Keeps-if,
  Leads, Leads-pure, Leads-fail, Leads-if, Leads-or_fail, Leads-given, Leads-bind, Leads-Keeps,
  Leads-answer,
}
use himmelblau.Hello.Keys.{Works, select, replace, insert_tagged_hsm_key, fetch_hello_key_tag}
use himmelblau.Hello.Keys.Laws.{select-replace, other_kind}
use himmelblau.Hello.Online.{set_state, attempt_online, check_state, require_online}
use himmelblau.Hello.Load.{fetch_hello_key}
use himmelblau.Hello.Load.Laws.{asked_key, fetch_hello_key_lem}
use himmelblau.Hello.Change.{amr_of, provision_or_create_hello_key, change_auth_token}

module _ {W X : Type 0} (device : Device W X) where
  Keeps-set_state : (state : CacheState) → Keeps (set_state device state)
  unfolding set_state ◌>>=◌
  Keeps-set_state state = record { at = λ s. refl }

  Keeps-attempt_online : (now : _) → Keeps (attempt_online device now)
  unfolding attempt_online
  Keeps-attempt_online now = Keeps-bind _ _ (Keeps-outside _) (λ answered.
      Keeps-if answered _ _ (Keeps-bind _ _ (Keeps-set_state _) (λ u. Keeps-pure _))
        (Keeps-bind _ _ (Keeps-set_state _) (λ u. Keeps-pure _)))

  Keeps-check_state : (now : _) (state : CacheState) → Keeps (check_state device now state)
  Keeps-check_state now CacheState.online = Keeps-pure _
  Keeps-check_state now CacheState.offline = Keeps-pure _
  Keeps-check_state now (CacheState.offline_next_check at_time) =
      Keeps-if _ _ _ (Keeps-attempt_online now) (Keeps-pure _)

  Keeps-require_online : Keeps (require_online device)
  unfolding require_online
  Keeps-require_online = Keeps-bind _ _ (Keeps-outside _) (λ init.
      Keeps-bind _ _ (Keeps-or_fail _ init) (λ u. Keeps-bind _ _ (Keeps-outside _) (λ now.
        Keeps-bind _ _ (Keeps-bind _ _ (Keeps-gets _) (Keeps-check_state now))
          (λ online. Keeps-if online _ _ (Keeps-pure _) (Keeps-fail _)))))

  -- What the TPM, or the provider for a login by Hello for Business, made for this PIN.
  abbrev pub Made : X → String → Bool → X → Type 0
  Made token cred true key =
      (w : W) × ((device.provision_hello_for_business_key token cred w).0 ≡ ok key)
  Made token cred false key = (w : W) × ((device.ms_hello_key_create cred w).0 ≡ ok key)

  Leads-provision :
      (rows : List (KeyRow X)) (token : X) (cred : String) (amr_ngcmfa : Bool)
      → Leads
          (λ s. s.hsm_data_t ≡ rows)
          (provision_or_create_hello_key device token amr_ngcmfa cred)
          (λ key t. Made token cred amr_ngcmfa key × (t.hsm_data_t ≡ rows))
  unfolding provision_or_create_hello_key
  Leads-provision rows token cred true = Leads-answer rows _ _
  Leads-provision rows token cred false =
      Leads-Keeps rows _ _ _ (Keeps-or_fail _ _) (λ u. Leads-answer rows _ _)

  -- The new key was stored, under the tag for `amr_ngcmfa`, for the account of the token.
  abbrev Changed :
      (Bool → Type 0) → List (KeyRow X) → String → String → X → Bool → Provider W X → Type 0
  Changed R rows account_id cred token done t =
      (amr_ngcmfa : Bool) × (key : X) × (spn : String) × R amr_ngcmfa
      × Made token cred amr_ngcmfa key
      × (t.hsm_data_t ≡ replace (fetch_hello_key_tag device account_id amr_ngcmfa) key rows)
      × (device.spn token ≡ ok spn)
      × (device.to_lowercase account_id ≡ device.to_lowercase spn)

  Leads-insert :
      (tag : String) (key : X) (rows : List (KeyRow X))
      → Leads
          (λ s. s.hsm_data_t ≡ rows)
          (map_err IdpError.tpm (insert_tagged_hsm_key device tag key))
          (λ u t. t.hsm_data_t ≡ replace tag key rows)
  unfolding insert_tagged_hsm_key ◌>>=◌
  Leads-insert tag key rows = record {
    at = λ s p u e. ground (arith, Bool-cases (device.sql s.world).0, ap (replace tag key) p);
  }

  module _ (R : Bool → Type 0) (rows : List (KeyRow X)) (account_id cred : String) (token : X) where
    store_key :
        (amr_ngcmfa : Bool) (spn : String) (key : X)
        → R amr_ngcmfa
        → Made token cred amr_ngcmfa key
        → device.spn token ≡ ok spn
        → device.to_lowercase account_id ≡ device.to_lowercase spn
        → Leads
            (λ s. s.hsm_data_t ≡ rows)
            (do
              map_err IdpError.tpm (
                  insert_tagged_hsm_key device
                    (fetch_hello_key_tag device account_id amr_ngcmfa)
                    key)
              pure true)
            (Changed R rows account_id cred token)
    store_key amr_ngcmfa spn key ra made named same =
        Leads-bind _ _ _ _ _
          (Leads-insert (fetch_hello_key_tag device account_id amr_ngcmfa) key rows)
          (λ u.
            Leads-pure _ _ _ (λ t stored. (amr_ngcmfa, key, spn, ra, made, stored, named, same)))

    checked_account :
        (amr_ngcmfa : Bool) (spn : String)
        → R amr_ngcmfa
        → device.spn token ≡ ok spn
        → Leads
            (λ s. s.hsm_data_t ≡ rows)
            (if str_eq (device.to_lowercase account_id) (device.to_lowercase spn)
              then (do
                key ← provision_or_create_hello_key device token amr_ngcmfa cred
                map_err IdpError.tpm (
                    insert_tagged_hsm_key device
                      (fetch_hello_key_tag device account_id amr_ngcmfa)
                      key)
                pure true)
              else fail IdpError.bad_request)
            (Changed R rows account_id cred token)
    checked_account amr_ngcmfa spn ra named =
        Leads-if _ _ _ _ _
          (λ same. Leads-bind _ _ _ _ _ (Leads-provision rows token cred amr_ngcmfa) (λ key.
            Leads-given _ _ _ _
              (λ made. store_key amr_ngcmfa spn key ra made named (str_eq→eq _ _ same))))
          (λ differs. Leads-fail _ _ _)

    pub change_auth_token-Changed :
        (amr : Act W X Bool)
        → Leads (λ s. s.hsm_data_t ≡ rows) amr (λ b t. R b × (t.hsm_data_t ≡ rows))
        → Leads
            (λ s. s.hsm_data_t ≡ rows)
            (change_auth_token device amr account_id token cred)
            (Changed R rows account_id cred token)
    unfolding change_auth_token
    change_auth_token-Changed amr la = Leads-Keeps rows _ _ _ Keeps-require_online (λ u.
        Leads-bind _ _ _ _ _ la (λ amr_ngcmfa. Leads-given _ _ _ _ (λ ra.
          Leads-bind _ _ _ _ _ (Leads-or_fail _ _ (device.spn token))
            (λ spn. Leads-given _ _ _ _ (λ named. checked_account amr_ngcmfa spn ra named)))))

  -- The key that an authentication asks for once `key` was stored: the new one, unless it was made on the
  -- device alone while one of a login by Hello for Business is there.
  abbrev pub asked_after : String → List (KeyRow X) → Bool → X → X
  asked_after account_id rows true key = key
  asked_after account_id rows false key =
      elim (select (fetch_hello_key_tag device account_id true) rows) [
        | some old ↦ old
        | none ↦ key
      ]

  asked-replace :
      (account_id : String) (rows : List (KeyRow X)) (amr_ngcmfa : Bool) (key : X)
      → asked_key device account_id
          (replace (fetch_hello_key_tag device account_id amr_ngcmfa) key rows)
        ≡ some (asked_after account_id rows amr_ngcmfa key)
  unfolding fetch_hello_key_tag
  asked-replace account_id rows true key =
      let account = device.to_lowercase account_id in
      ground (
        arith,
        select-replace (append account "/hello") (append account "/hello") key rows,
        eq_refl (append account "/hello"),
      )
  asked-replace account_id rows false key =
      let account = device.to_lowercase account_id in
      ground (
        arith,
        select-replace (append account "/hello_decoupled") (append account "/hello") key rows,
        select-replace (append account "/hello_decoupled") (append account "/hello_decoupled") key
            rows,
        other_kind account "/hello_decoupled" "/hello" (λ e. cc),
        eq_refl (append account "/hello_decoupled"),
        Option-cases (select (append account "/hello") rows),
      )

  Leads-amr_of :
      (rows : List (KeyRow X)) (token : X)
      → Leads
          (λ s. s.hsm_data_t ≡ rows)
          (amr_of device token)
          (λ b t. (device.amr_ngcmfa token ≡ ok b) × (t.hsm_data_t ≡ rows))
  unfolding amr_of
  Leads-amr_of rows token = Leads-or_fail _ _ (device.amr_ngcmfa token)

  select-replace_same :
      (account_id : String) (amr_ngcmfa : Bool) (key : X) (rows : List (KeyRow X))
      → select
          (fetch_hello_key_tag device account_id amr_ngcmfa)
          (replace (fetch_hello_key_tag device account_id amr_ngcmfa) key rows)
        ≡ some key
  select-replace_same account_id amr_ngcmfa key rows =
      let tag = fetch_hello_key_tag device account_id amr_ngcmfa in
      ground (arith, select-replace tag tag key rows, eq_refl tag)

  fetched :
      (account_id : String) (amr_ngcmfa : Bool) (key : X) (rows : List (KeyRow X))
      (t : Provider W X)
      → Works device
      → t.hsm_data_t ≡ replace (fetch_hello_key_tag device account_id amr_ngcmfa) key rows
      → (fetch_hello_key device account_id t).0 ≡ ok (asked_after account_id rows amr_ngcmfa key)
  fetched account_id amr_ngcmfa key rows t works stored =
      fetch_hello_key_lem device account_id t works
      ∙ ap
          (λ rows. elim (asked_key device account_id rows) [
            | some k ↦ ok k
            | none ↦ err IdpError.bad_request
          ])
          stored
      ∙ ap (λ o. elim o [ some k ↦ ok k | none ↦ err IdpError.bad_request ])
          (asked-replace account_id rows amr_ngcmfa key)

  -- With an SQLite that does not fail, where the change of the PIN succeeds, the token is the
  -- account's, and a key that was made for the new PIN, in the way for the kind of login that the token
  -- proves, is stored for the account under the tag for that kind. The next authentication asks for
  -- that new key, unless it was made on the device alone while one of a login by Hello for Business is
  -- there: then it asks for that old key.
  pub change_auth_token-asked :
      (account_id cred : String) (token : X) (s : Provider W X) (done : Bool)
      → Works device
      → (change_auth_token device (amr_of device token) account_id token cred s).0 ≡ ok done
      → (amr_ngcmfa : Bool) × (key : X) × (spn : String) × (device.amr_ngcmfa token ≡ ok amr_ngcmfa)
        × (device.spn token ≡ ok spn)
        × (device.to_lowercase account_id ≡ device.to_lowercase spn)
        × Made token cred amr_ngcmfa key
        × (select
              (fetch_hello_key_tag device account_id amr_ngcmfa)
              (change_auth_token device (amr_of device token) account_id token cred s).1.hsm_data_t
            ≡ some key)
        × ((fetch_hello_key device account_id
              (change_auth_token device (amr_of device token) account_id token cred s).1).0
            ≡ ok (asked_after account_id s.hsm_data_t amr_ngcmfa key))
  change_auth_token-asked account_id cred token s done works e =
      let (amr_ngcmfa, key, spn, ra, made, stored, named, same) =
        (change_auth_token-Changed (λ b. device.amr_ngcmfa token ≡ ok b) s.hsm_data_t account_id
            cred token (amr_of device token) (Leads-amr_of s.hsm_data_t token)).at
          s refl done e in
      let t = (change_auth_token device (amr_of device token) account_id token cred s).1 in
      let tag = fetch_hello_key_tag device account_id amr_ngcmfa in
      (
        amr_ngcmfa,
        key,
        spn,
        ra,
        named,
        same,
        made,
        ap (select tag) stored ∙ select-replace_same account_id amr_ngcmfa key s.hsm_data_t,
        fetched account_id amr_ngcmfa key s.hsm_data_t t works stored,
      )
