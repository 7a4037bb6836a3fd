-- ===== src/Resolver/Init/Begins.antt =====
-- What the start of an authentication returns, src/common/src/resolver.rs.
use himmelblau.Common.{◌≡◌, ◌≢◌, ◌⊎◌, inl, inr, refl, true, false, String, Option, Bool, ok, err}
use himmelblau.Idp.{UserToken, IdpError, AuthRequest, into}
use himmelblau.Proto.{PamAuthResponse}
use himmelblau.Resolver.{Resolver, Store, done}
use himmelblau.Resolver.Rules.{Yields, Yields-bind, Yields-pure, Yields-fail, Yields-if}
use himmelblau.Resolver.Session.{AuthSession}
use himmelblau.Resolver.Init.{Started, begun, init_with, pam_account_authenticate_init}

-- Neither the response nor the session says that the user is authenticated, and a user who is not
-- known here gets no session that could go on.
pub record Begins {X : Type 0} (r : AuthSession X × PamAuthResponse) : Type 0 where
  pub not_success : r.1 ≢ PamAuthResponse.success
  pub not_authenticated : (spn : String) → r.0 ≢ AuthSession.success spn
  pub refused : (r.1 ≢ PamAuthResponse.unknown) ⊎ (r.0 ≡ AuthSession.denied)

into_asks :
    (req : AuthRequest)
    → (into req ≢ PamAuthResponse.success) × (into req ≢ PamAuthResponse.unknown)
unfolding into
into_asks AuthRequest.password = (λ e. cc, λ e. cc)
into_asks req = (λ e. cc, λ e. cc)

module _ {W X : Type 0} (self : Resolver W X) where
  begun-Begins :
      (account_id : String) (token : Option UserToken) (service : String) (pin reauth online : Bool)
      (started : Started self)
      → Yields Begins (begun self account_id token service pin reauth online started)
  unfolding begun
  begun-Begins account_id token service pin reauth online (ok (req, handler)) =
      Yields-pure Begins _ (record {
        not_success = (into_asks req).0;
        not_authenticated = λ spn e. cc;
        refused = inl (into_asks req).1;
      })
  begun-Begins account_id token service pin reauth online (err (IdpError.not_found what where_)) =
      Yields-pure Begins _
        (record { not_success = λ e. cc; not_authenticated = λ spn e. cc; refused = inr refl })
  begun-Begins account_id token service pin reauth online (err e) = Yields-fail Begins

  init_with-Begins :
      (account_id : String) (token : Option UserToken) (service : String) (pin reauth online : Bool)
      → Yields Begins (init_with self account_id token service pin reauth online)
  unfolding init_with
  init_with-Begins account_id token service pin reauth true =
      Yields-bind Begins _ _
        (λ started. begun-Begins account_id token service pin reauth true started)
  init_with-Begins account_id token service pin true false =
      Yields-pure Begins _
        (record { not_success = λ e. cc; not_authenticated = λ spn e. cc; refused = inr refl })
  init_with-Begins account_id token service pin false false =
      Yields-bind Begins _ _
        (λ started. begun-Begins account_id token service pin false false started)

  pub pam_account_authenticate_init-Begins :
      (account_id service : String) (no_hello_pin force_reauth : Bool)
      → Yields Begins
          (pam_account_authenticate_init self account_id service no_hello_pin force_reauth)
  unfolding pam_account_authenticate_init
  pam_account_authenticate_init-Begins account_id service pin reauth =
      Yields-bind Begins _ _ λ excluded.
        Yields-if Begins excluded _ _
          (Yields-pure Begins _
            (record { not_success = λ e. cc; not_authenticated = λ spn e. cc; refused = inr refl }))
          (Yields-bind Begins _ _ λ cached. Yields-bind Begins _ _ λ token.
            Yields-bind Begins _ _ λ state.
              Yields-bind Begins _ _
                λ online. init_with-Begins account_id token service pin reauth online)

  -- However an authentication starts, online, offline or not at all: if it returns a session and a
  -- response, the response is not success, the session is not an authenticated one, and a user who
  -- is answered as unknown has a session that is denied.
  pub pam_account_authenticate_init_lem :
      (account_id service : String) (no_hello_pin force_reauth : Bool) (s : Store W X)
      (session : AuthSession X) (resp : PamAuthResponse)
      → (pam_account_authenticate_init self account_id service no_hello_pin force_reauth s).0
        ≡ done (session, resp)
      → Begins (session, resp)
  pam_account_authenticate_init_lem account_id service pin reauth s session resp h =
      (pam_account_authenticate_init-Begins account_id service pin reauth).at s (session, resp) h
