-- ===== src/Hello/Counter/Deleted.antt =====
-- What is left of an account's Hello keys after too many bad PINs
-- (src/common/src/idprovider/common.rs).
use Prim.Native.String.{◌++◌ as append}
use himmelblau.Common.{
  ℕ, ◌<◌, ◌≡◌, refl, sym, subst, true, false, String, none, some, List, ok, if◌then◌else◌, str_eq,
  eq_iff, arith, ◌∙◌,
}
use himmelblau.Idp.{IdpError}
use himmelblau.Hello.{Config, Device, KeyRow, Provider, map_err, ◌>>=◌}
use himmelblau.Hello.Rules.{run-ok}
use himmelblau.Hello.Keys.{
  Works, select, delete, delete_tagged_hsm_key, fetch_hello_key_tag, fetch_hello_prt_key_tag,
  fetch_hello_refresh_token_key_tag, fetch_hello_totp_key_tag,
}
use himmelblau.Hello.Keys.Laws.{select-delete, other_kind}
use himmelblau.Hello.Counter.{delete_hello_keys, judge, one_more, too_many}

module _ {W X : Type 0} (device : Device W X) (account_id : String) where
  -- No Hello key of the account is stored.
  abbrev pub Gone : Provider W X → Type 0
  Gone s =
      (select (fetch_hello_key_tag device account_id true) s.hsm_data_t ≡ none)
      × (select (fetch_hello_key_tag device account_id false) s.hsm_data_t ≡ none)

  pub deleted :
      (e : IdpError) (tag : String) (s : Provider W X)
      → Works device
      → map_err e (delete_tagged_hsm_key device tag) s
        ≡ (ok tt, record s { hsm_data_t = delete tag s.hsm_data_t; world = (device.sql s.world).1 })
  unfolding delete_tagged_hsm_key ◌>>=◌
  deleted e tag s works = ground (arith, works s.world)

  abbrev after_delete : String → Provider W X → Provider W X
  after_delete tag s = record s {
    hsm_data_t = delete tag s.hsm_data_t;
    world = (device.sql s.world).1;
  }

  pub delete_hello_keys_run :
      (s : Provider W X)
      → Works device
      → delete_hello_keys device account_id s ≡ (
        ok tt,
        after_delete (fetch_hello_refresh_token_key_tag device account_id) (
            after_delete (fetch_hello_prt_key_tag device account_id) (
              after_delete
                (fetch_hello_key_tag device account_id false)
                (after_delete (fetch_hello_key_tag device account_id true) s))),
      )
  unfolding delete_hello_keys
  delete_hello_keys_run s works =
      run-ok _ _ s tt _ (deleted IdpError.tpm _ s works)
      ∙ run-ok _ _ _ tt _ (deleted IdpError.tpm _ _ works)
      ∙ run-ok _ _ _ tt _ (deleted IdpError.tpm _ _ works)
      ∙ deleted IdpError.tpm _ _ works

  -- Nothing that a Hello PIN unlocks is stored for the account, but for the secret of its codes.
  abbrev pub Forgotten : Provider W X → Type 0
  Forgotten s =
      Gone s
      × (select (fetch_hello_prt_key_tag device account_id) s.hsm_data_t ≡ none)
      × (select (fetch_hello_refresh_token_key_tag device account_id) s.hsm_data_t ≡ none)

  unfoldable pub after_deletes : List (KeyRow X) → List (KeyRow X)
  unfolding fetch_hello_key_tag
  after_deletes rows = delete (fetch_hello_refresh_token_key_tag device account_id) (
      delete (fetch_hello_prt_key_tag device account_id) (
        delete (fetch_hello_key_tag device account_id false)
          (delete (fetch_hello_key_tag device account_id true) rows)))

  select-after_deletes :
      (rows : List (KeyRow X)) (tag : String)
      → select tag (after_deletes rows) ≡ (
          if str_eq (fetch_hello_refresh_token_key_tag device account_id) tag
          then none
          else if str_eq (fetch_hello_prt_key_tag device account_id) tag
          then none
          else if str_eq (fetch_hello_key_tag device account_id false) tag
          then none
          else if str_eq (fetch_hello_key_tag device account_id true) tag
          then none
          else select tag rows)
  unfolding after_deletes
  select-after_deletes rows tag = ground (
    arith,
    select-delete (fetch_hello_refresh_token_key_tag device account_id) tag (
        delete (fetch_hello_prt_key_tag device account_id) (
          delete (fetch_hello_key_tag device account_id false)
            (delete (fetch_hello_key_tag device account_id true) rows))),
    select-delete (fetch_hello_prt_key_tag device account_id) tag (
        delete (fetch_hello_key_tag device account_id false)
          (delete (fetch_hello_key_tag device account_id true) rows)),
    select-delete (fetch_hello_key_tag device account_id false) tag
        (delete (fetch_hello_key_tag device account_id true) rows),
    select-delete (fetch_hello_key_tag device account_id true) tag rows,
  )

  pub same_tag : (tag : String) → str_eq tag tag ≡ true
  same_tag tag = (eq_iff tag tag).1 refl

  pub select-totp :
      (rows : List (KeyRow X))
      → select (fetch_hello_totp_key_tag device account_id) (after_deletes rows)
        ≡ select (fetch_hello_totp_key_tag device account_id) rows
  unfolding fetch_hello_key_tag fetch_hello_prt_key_tag fetch_hello_refresh_token_key_tag
      fetch_hello_totp_key_tag
  select-totp rows =
      let account = device.to_lowercase account_id in
      ground (
        arith,
        select-after_deletes rows (append account "/hello_totp"),
        other_kind account "/hello" "/hello_totp" (λ e. cc),
        other_kind account "/hello_decoupled" "/hello_totp" (λ e. cc),
        other_kind account "/hello_prt" "/hello_totp" (λ e. cc),
        other_kind account "/hello_refresh_token" "/hello_totp" (λ e. cc),
      )

  abbrev deleted_all : Provider W X → Provider W X
  deleted_all s = (delete_hello_keys device account_id s).1

  Forgotten-deleted : (s : Provider W X) → Works device → Forgotten (deleted_all s)
  unfolding after_deletes
  Forgotten-deleted s works =
      let all = select-after_deletes s.hsm_data_t in
      subst (λ p. Forgotten p.1) (sym (delete_hello_keys_run s works))
        (
          (
            ground (
              arith,
              all (fetch_hello_key_tag device account_id true),
              same_tag (fetch_hello_key_tag device account_id true),
            ),
            ground (
              arith,
              all (fetch_hello_key_tag device account_id false),
              same_tag (fetch_hello_key_tag device account_id false),
            ),
          ),
          ground (
            arith,
            all (fetch_hello_prt_key_tag device account_id),
            same_tag (fetch_hello_prt_key_tag device account_id),
          ),
          ground (
            arith,
            all (fetch_hello_refresh_token_key_tag device account_id),
            same_tag (fetch_hello_refresh_token_key_tag device account_id),
          ),
        )

  pub judge_lem :
      (config : Config) (n : ℕ) (s : Provider W X)
      → Works device
      → (let (r, t) = judge device config account_id n s in
          (t.counter ≡ s.counter)
          × (n < config.hello_pin_retry_count → (r ≡ ok none) × (t.hsm_data_t ≡ s.hsm_data_t))
          × (n ≡ config.hello_pin_retry_count
              → (r ≡ ok (some one_more)) × (t.hsm_data_t ≡ s.hsm_data_t))
          × (config.hello_pin_retry_count < n → (r ≡ ok (some too_many)) × Forgotten t))
  unfolding judge ◌>>=◌
  judge_lem config n s works =
      ground (arith, delete_hello_keys_run s works, Forgotten-deleted s works)
