-- ===== src/Resolver/Step/Offline.antt =====
-- Steps of an authentication without the network, src/common/src/resolver.rs.
use himmelblau.Common.{
  subst, if◌then◌else◌, ◌≡◌, ◌≢◌, refl, true, false, Bool, String, Option, none, some, ok, arith,
}
use himmelblau.Db.Accounts.{get_account_password}
use himmelblau.Idp.{UserToken, CacheState, online, offline, offline_next_check}
use himmelblau.Proto.{PamAuthRequest, PamAuthResponse}
use himmelblau.Resolver.{
  Resolver, Store, Outcome, done, failed, blocked, attempt, pure, continue, ◌>>=◌,
}
use himmelblau.Resolver.Cache.{check_cache_userpassword}
use himmelblau.Resolver.Cache.Password.{check_cache_userpassword-true}
use himmelblau.Resolver.Cache.Reads.{get_cachestate_lem}
use himmelblau.Resolver.Session.{Progress, AuthSession, reauth_msg}
use himmelblau.Resolver.Step.{
  go_online, online_step, offline_step, offline_password, step_in_progress, advanced, finish,
  pam_account_authenticate_step,
}

module _ {W X : Type 0} (self : Resolver W X) where
  open self use {client}

  step_offline_reauth :
      (p : Progress X) (token : Option UserToken) (t : UserToken) (req : PamAuthRequest)
      (state : CacheState) (s : Store W X)
      → token ≡ some t
      → state ≢ online
      → p.force_reauth ≡ true
      → step_in_progress self p token req state s
        ≡ (Outcome.done (AuthSession.in_progress p, ok (PamAuthResponse.denied reauth_msg)), s)
  unfolding step_in_progress go_online ◌>>=◌
  step_offline_reauth p token t req online s has off reauth = absurd (off refl)
  step_offline_reauth p token t req offline s has off reauth = rw (has) (ground arith)
  step_offline_reauth p token t req (offline_next_check time) s has off reauth =
      rw (has) (ground arith)

  -- Without the network a session that was started with `force_reauth` gets no further: every step
  -- is denied, and the session and the tables stay as they are.
  pub pam_account_authenticate_step_reauth :
      (p : Progress X) (t : UserToken) (req : PamAuthRequest) (s : Store W X)
      → s.db_held ≡ false
      → p.token ≡ some t
      → p.force_reauth ≡ true
      → (client.get_cachestate (some p.account_id) s.world).0 ≢ online
      → ((pam_account_authenticate_step self (AuthSession.in_progress p) req s).0
          ≡ Outcome.done (AuthSession.in_progress p, ok (PamAuthResponse.denied reauth_msg)))
        × ((pam_account_authenticate_step self (AuthSession.in_progress p) req s).1.db ≡ s.db)
  unfolding pam_account_authenticate_step ◌>>=◌
  pam_account_authenticate_step_reauth p t req s held has reauth off =
      let (w, state) = get_cachestate_lem self (some p.account_id) s held in
      let calm = step_offline_reauth p p.token t req _ (record s { world = w }) has off reauth in
      rw (state, calm) (refl, refl)

  -- After the check of a password, only a yes leads to a success.
  yes_alone :
      (p : Progress X) (t : UserToken) (spn : String) (r : Outcome Bool) (s s' : Store W X)
      → (((do
        checked ← attempt (λ _. (r, s'))
        pure (offline_password self checked t p.cred_handler))
            >>= advanced self p)
          s).0
        ≡ done (AuthSession.success spn, ok PamAuthResponse.success)
      → r ≡ done true
  unfolding offline_password advanced finish ◌>>=◌
  yes_alone p t spn (done true) s s' h = refl
  yes_alone p t spn (done false) s s' h = cc
  yes_alone p t spn failed s s' h = cc
  yes_alone p t spn blocked s s' h = cc

  go_online-off :
      (p : Progress X) (state : CacheState) → state ≢ online → go_online self p state ≡ false
  unfolding go_online
  go_online-off p online off = absurd (off refl)
  go_online-off p offline off = ground arith
  go_online-off p (offline_next_check time) off = ground arith

  not_reauth :
      (p : Progress X) (t : UserToken) (cred spn : String) (online reauth : Bool) (s : Store W X)
      → online ≡ false
      → ((if online
            then (do r ← online_step self p t (PamAuthRequest.password cred); advanced self p r)
            else if reauth
            then pure (AuthSession.in_progress p, ok (PamAuthResponse.denied reauth_msg))
            else (do r ← offline_step self p t (PamAuthRequest.password cred); advanced self p r))
          s).0
        ≡ done (AuthSession.success spn, ok PamAuthResponse.success)
      → (check_cache_userpassword self t.uuid cred s).0 ≡ done true
  unfolding offline_step ◌>>=◌
  not_reauth p t cred spn true reauth s off h = cc
  not_reauth p t cred spn false true s off h = cc
  not_reauth p t cred spn false false s off h = yes_alone p t spn _ s _ h

  step_offline_password :
      (p : Progress X) (token : Option UserToken) (t : UserToken) (cred spn : String)
      (state : CacheState) (s : Store W X)
      → token ≡ some t
      → state ≢ online
      → (step_in_progress self p token (PamAuthRequest.password cred) state s).0
        ≡ done (AuthSession.success spn, ok PamAuthResponse.success)
      → (check_cache_userpassword self t.uuid cred s).0 ≡ done true
  unfolding step_in_progress ◌>>=◌
  step_offline_password p none t cred spn state s has off h = cc
  step_offline_password p (some t') t cred spn state s has off h =
      let same = not_reauth p t' cred spn _ _ s (go_online-off p state off) h in cc (same, has)

  -- Without the network a password step ends in success only if a hash of the password of the
  -- session's user is stored and the password has been verified against it.
  pub pam_account_authenticate_step_password :
      (p : Progress X) (t : UserToken) (cred spn : String) (s : Store W X)
      → s.db_held ≡ false
      → p.token ≡ some t
      → (client.get_cachestate (some p.account_id) s.world).0 ≢ online
      → (pam_account_authenticate_step self
          (AuthSession.in_progress p)
          (PamAuthRequest.password cred)
          s).0
        ≡ done (AuthSession.success spn, ok PamAuthResponse.success)
      → (blob : X) × (w : W) × (get_account_password t.uuid s.db ≡ ok (some blob))
        × ((self.system.verify_password blob cred w).0 ≡ ok true)
  unfolding pam_account_authenticate_step ◌>>=◌
  pam_account_authenticate_step_password p t cred spn s held has off h =
      let (w, state) = get_cachestate_lem self (some p.account_id) s held in
      let checked =
        step_offline_password p p.token t cred spn _ (record s { world = w }) has off
          (subst
            (λ r.
              (continue r.0 (step_in_progress self p p.token (PamAuthRequest.password cred)) r.1).0
              ≡ done (AuthSession.success spn, ok PamAuthResponse.success))
            state h) in
      let (blob, stored, verified) =
        check_cache_userpassword-true self t.uuid cred (record s { world = w }) held checked in
      (blob, w, stored, verified)
