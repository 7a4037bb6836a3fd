-- ===== src/Resolver/Step/Ends.antt =====
-- How a step of an authentication ends, src/common/src/resolver.rs.
use himmelblau.Common.{
  ◌≡◌, ◌≢◌, ◌↔◌, refl, ◌⊎◌, inl, inr, true, false, String, Option, none, some, Result, ok, err,
  arith, Bool-cases,
}
use himmelblau.Idp.{UserToken, IdpError, AuthRequest, AuthResult, CacheState, into}
use himmelblau.Proto.{PamAuthRequest, PamAuthResponse}
use himmelblau.Db.Accounts.{has_account, delete_account}
use himmelblau.Db.Accounts.Lookup.{has_account-delete_account}
use himmelblau.Resolver.{Resolver, Store, Outcome, ◌>>=◌}
use himmelblau.Resolver.Rules.{
  Concludes, conclude, Yields, Yields-bind, Yields-pure, Yields-if, Yields-on_result,
}
use himmelblau.Resolver.Cache.{in_nxset, check_nxset, transact}
use himmelblau.Resolver.Cache.Writes.{delete_cache_usertoken_committed, delete_cache_usertoken_lost}
use himmelblau.Resolver.Cache.Reads.{get_cachestate_lem}
use himmelblau.Resolver.Session.{Progress, AuthSession, Step}
use himmelblau.Resolver.Step.Locks.{pam_account_authenticate_step-Free}
use himmelblau.Resolver.Step.{
  Advanced, finish, advanced, step_in_progress, pam_account_authenticate_step,
}

-- The response is success exactly when the session becomes an authenticated one, and a user who is
-- not known here is left with a session that is denied.
pub record Ends {X : Type 0} (r : Step X) : Type 0 where
  pub authenticated :
      (r.1 ≡ ok PamAuthResponse.success) ↔ ((spn : String) × (r.0 ≡ AuthSession.success spn))
  pub unknown : (r.1 ≢ ok PamAuthResponse.unknown) ⊎ (r.0 ≡ AuthSession.denied)

asks :
    {X : Type 0} (p : Progress X) (req : AuthRequest)
    → Ends (AuthSession.in_progress p, ok (into req))
unfolding into
asks p AuthRequest.password = record { authenticated = (λ e. cc, λ e. cc); unknown = inl (λ e. cc) }
asks p req = record { authenticated = (λ e. cc, λ e. cc); unknown = inl (λ e. cc) }

fails : {X : Type 0} (p : Progress X) → Ends (AuthSession.in_progress p, err tt)
fails p = record { authenticated = (λ e. cc, λ e. cc); unknown = inl (λ e. cc) }

refuses :
    {X : Type 0} (p : Progress X) (msg : String)
    → Ends (AuthSession.in_progress p, ok (PamAuthResponse.denied msg))
refuses p msg = record { authenticated = (λ e. cc, λ e. cc); unknown = inl (λ e. cc) }

module _ {W X : Type 0} (self : Resolver W X) where
  finish-Ends :
      (p : Progress X) (r : Result AuthResult IdpError)
      → Yields Ends (finish self (AuthSession.in_progress p) r)
  unfolding finish
  finish-Ends p (ok (AuthResult.success token)) = Yields-bind Ends _ _ λ excluded.
      Yields-if Ends excluded _ _
        (Yields-bind Ends _ _ λ purged.
          Yields-on_result Ends purged _ _
            (λ u.
              Yields-pure Ends _
                (record { authenticated = (λ e. cc, λ e. cc); unknown = inr refl }))
            (λ e. Yields-pure Ends _ (fails p)))
        (Yields-bind Ends _ _ λ stored.
          Yields-on_result Ends stored _ _
            (λ t.
              Yields-pure Ends _ (record {
                authenticated = (λ e. (t.spn, refl), λ e. refl);
                unknown = inl (λ e. cc);
              }))
            (λ e. Yields-pure Ends _ (fails p)))
  finish-Ends p (ok (AuthResult.denied msg)) =
      Yields-pure Ends _ (record { authenticated = (λ e. cc, λ e. cc); unknown = inl (λ e. cc) })
  finish-Ends p (ok (AuthResult.next req)) = Yields-pure Ends _ (asks p req)
  finish-Ends p (err (IdpError.not_found what where_)) = Yields-pure Ends _ (refuses p _)
  finish-Ends p (err e) = Yields-pure Ends _ (fails p)

  advanced-Ends : (p : Progress X) (r : Advanced self) → Yields Ends (advanced self p r)
  unfolding advanced
  advanced-Ends p (handler, ok result) = finish-Ends _ result
  advanced-Ends p (handler, err e) = Yields-pure Ends _ (fails _)

  step_in_progress-Ends :
      (p : Progress X) (token : Option UserToken) (req : PamAuthRequest) (state : CacheState)
      → Yields Ends (step_in_progress self p token req state)
  unfolding step_in_progress
  step_in_progress-Ends p none req state =
      finish-Ends p (err (IdpError.not_found "token" "AuthSession"))
  step_in_progress-Ends p (some token) req state =
      Yields-if Ends _ _ _ (Yields-bind Ends _ _ (advanced-Ends p)) (
        Yields-if Ends _ _ _ (Yields-pure Ends _ (refuses p _))
          (Yields-bind Ends _ _ (advanced-Ends p)))

  pub pam_account_authenticate_step-Ends :
      (p : Progress X) (req : PamAuthRequest)
      → Yields Ends (pam_account_authenticate_step self (AuthSession.in_progress p) req)
  unfolding pam_account_authenticate_step
  pam_account_authenticate_step-Ends p req =
      Yields-bind Ends _ _ λ state. step_in_progress-Ends p p.token req state

  -- If no transaction is open, every step of a session in progress ends, with an error or with a
  -- response and a session, and leaves no transaction open. The response is success exactly when the
  -- session has become authenticated, and it is unknown only when the session is denied.
  pub pam_account_authenticate_step-Concludes :
      (p : Progress X) (req : PamAuthRequest) (s : Store W X)
      → s.db_held ≡ false
      → Concludes Ends (pam_account_authenticate_step self (AuthSession.in_progress p) req) s
  pam_account_authenticate_step-Concludes p req s held =
      conclude Ends _ s (pam_account_authenticate_step-Ends p req)
        (pam_account_authenticate_step-Free self (AuthSession.in_progress p) req) held

  -- A session that is authenticated or denied accepts no step: the request fails, and the session
  -- and the tables stay as they are.
  pub pam_account_authenticate_step_over :
      (session : AuthSession X) (req : PamAuthRequest) (s : Store W X)
      → s.db_held ≡ false
      → ((p : Progress X) → session ≢ AuthSession.in_progress p)
      → ((pam_account_authenticate_step self session req s).0 ≡ Outcome.done (session, err tt))
        × ((pam_account_authenticate_step self session req s).1.db ≡ s.db)
  unfolding pam_account_authenticate_step finish ◌>>=◌
  pam_account_authenticate_step_over (AuthSession.in_progress p) req s held over =
      absurd (over p refl)
  pam_account_authenticate_step_over (AuthSession.success spn) req s held over =
      let (w, state) = get_cachestate_lem self none s held in rw state (refl, refl)
  pam_account_authenticate_step_over AuthSession.denied req s held over =
      let (w, state) = get_cachestate_lem self none s held in rw state (refl, refl)

  finish_purged :
      (session : AuthSession X) (t : UserToken) (w : W) (s : Store W X)
      → s.db_held ≡ false
      → in_nxset (some t.name) (some t.gidnumber) s.nxset ≡ true
      → self.system.commit s.world ≡ (true, w)
      → finish self session (ok (AuthResult.success t)) s ≡ (
        Outcome.done (AuthSession.denied, ok PamAuthResponse.unknown),
        record s { db = delete_account t.uuid s.db; world = w },
      )
  unfolding finish check_nxset transact ◌>>=◌
  finish_purged session t w s held excluded committed =
      simp (excluded, delete_cache_usertoken_committed self t.uuid w s held committed)

  finish_lost :
      (session : AuthSession X) (t : UserToken) (w : W) (s : Store W X)
      → s.db_held ≡ false
      → in_nxset (some t.name) (some t.gidnumber) s.nxset ≡ true
      → self.system.commit s.world ≡ (false, w)
      → finish self session (ok (AuthResult.success t)) s
        ≡ (Outcome.done (session, err tt), record s { world = w })
  unfolding finish check_nxset transact ◌>>=◌
  finish_lost session t w s held excluded lost =
      simp (excluded, delete_cache_usertoken_lost self t.uuid w s held lost)

  -- Whatever the provider says, a user of the exclusion set is not authenticated: the account is
  -- purged from the cache and the session denied, or, if that cannot be committed, the step fails.
  pub finish_excluded :
      (session : AuthSession X) (t : UserToken) (s : Store W X)
      → s.db_held ≡ false
      → in_nxset (some t.name) (some t.gidnumber) s.nxset ≡ true
      → (((finish self session (ok (AuthResult.success t)) s).0
            ≡ Outcome.done (AuthSession.denied, ok PamAuthResponse.unknown))
          × (has_account t.uuid (finish self session (ok (AuthResult.success t)) s).1.db.account_t
              ≡ false))
        ⊎ ((finish self session (ok (AuthResult.success t)) s).0 ≡ Outcome.done (session, err tt))
  finish_excluded session t s held excluded =
      let w = (self.system.commit s.world).1 in
      elim (Bool-cases (self.system.commit s.world).0) [
        | inl committed ↦ inl (
            rw (finish_purged session t w s held excluded (ground arith))
              (refl, has_account-delete_account t.uuid s.db))
        | inr lost ↦ inr (rw (finish_lost session t w s held excluded (ground arith)))
      ]
