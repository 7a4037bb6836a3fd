-- ===== src/Pam/Authenticate/Loop.antt =====
-- The loop of the client, src/common/src/auth.rs: when it ends, and with what.
use himmelblau.Common.{ap, sym, subst, ◌∙◌, ◌↔◌, ℕ, zero, suc, ◌≡◌, refl, true, some, arith}
use himmelblau.Proto.{ClientRequest, PamResultCode}
use himmelblau.Pam.{Front, AuthenticateState, PamWhatNext}
use himmelblau.Pam.Authenticate.{authenticate_request_response, loop_on, requests}
use himmelblau.Pam.Authenticate.Success.{says_success, authenticate_request_response-success}

same_pred : (m n : ℕ) → suc m ≡ suc n → m ≡ n
same_pred m n e = omega arith

no_pred : (n : ℕ) → 0 ≡ suc n → ⊥
no_pred n e = omega arith

module _ {W : Type 0} (front : Front W) where
  -- The loop comes, with its fuel for a choice of PIN or password, to this request in this state.
  pub data Reaches
      : ℕ → ClientRequest → AuthenticateState W → ClientRequest → AuthenticateState W → Type 0 where
    here : {n : ℕ} {req : ClientRequest} {s : AuthenticateState W} → Reaches n req s req s
    goes_on :
        {n : ℕ} {req req' last : ClientRequest} {s s' : AuthenticateState W}
        → (authenticate_request_response front (suc n) req s).0 ≡ PamWhatNext.next req'
        → Reaches n req' (authenticate_request_response front (suc n) req s).1 last s'
        → Reaches (suc n) req s last s'

  abbrev pub Succeeds : ℕ → ClientRequest → AuthenticateState W → Type 0
  Succeeds fuel req s =
      (last : ClientRequest) × (s' : AuthenticateState W) × Reaches fuel req s last s'
      × (says_success front (front.call_and_wait last s'.cfg.unix_sock_timeout s'.world).0 ≡ true)

  says_finish :
      (fuel : ℕ) (req : ClientRequest) (s : AuthenticateState W)
      → says_success front (front.call_and_wait req s.cfg.unix_sock_timeout s.world).0 ≡ true
      → (authenticate_request_response front fuel req s).0
        ≡ PamWhatNext.finish PamResultCode.pam_success
  says_finish fuel req s h = (authenticate_request_response-success front fuel req s).1 h

  same_code : (a b : PamResultCode) → some a ≡ some b → a ≡ b
  same_code a b h = cc h

  -- After the first request.
  on_what :
      (fuel : ℕ) (req : ClientRequest) (s : AuthenticateState W) (what : PamWhatNext)
      → (authenticate_request_response front fuel req s).0 ≡ what
      → (loop_on front what
          (λ req'. requests front fuel req' (authenticate_request_response front fuel req s).1)
          (authenticate_request_response front fuel req s).1).0
        ≡ some PamResultCode.pam_success
      → ((n : ℕ) (req' : ClientRequest) (s' : AuthenticateState W)
          → fuel ≡ suc n
          → (requests front (suc n) req' s').0 ≡ some PamResultCode.pam_success
          → Succeeds n req' s')
      → Succeeds fuel req s
  unfolding requests
  on_what zero req s (PamWhatNext.next req') e h rest = cc
  on_what (suc n) req s (PamWhatNext.next req') e h rest =
      let (last, s', way, said) =
        rest n req' (authenticate_request_response front (suc n) req s).1 refl h in
      (last, s', goes_on e way, said)
  on_what fuel req s (PamWhatNext.finish code) e h rest = (
    req,
    s,
    here,
    (authenticate_request_response-success front fuel req s).0
        (e ∙ ap PamWhatNext.finish (same_code code PamResultCode.pam_success h)),
  )
  on_what fuel req s PamWhatNext.waiting e h rest = cc

  succeeds :
      (fuel : ℕ) (req : ClientRequest) (s : AuthenticateState W)
      → (requests front (suc fuel) req s).0 ≡ some PamResultCode.pam_success
      → Succeeds fuel req s
  unfolding requests
  succeeds zero req s h = on_what zero req s _ refl h (λ n req' s' e g. absurd (no_pred n e))
  succeeds (suc m) req s h = on_what (suc m) req s _ refl h (λ n req' s' e g.
      subst (λ k. Succeeds k req' s') (same_pred m n e)
        (succeeds m req' s' (
          subst (λ k. (requests front (suc k) req' s').0 ≡ some PamResultCode.pam_success)
            (sym (same_pred m n e)) g)))

  Reaches-success :
      (fuel : ℕ) (req last : ClientRequest) (s s' : AuthenticateState W)
      → Reaches fuel req s last s'
      → says_success front (front.call_and_wait last s'.cfg.unix_sock_timeout s'.world).0 ≡ true
      → (requests front (suc fuel) req s).0 ≡ some PamResultCode.pam_success
  unfolding requests
  Reaches-success fuel req _ s _ here said = rw (says_finish fuel req s said) refl
  Reaches-success (suc n) req last s s' (goes_on e way) said =
      rw (e) (Reaches-success n _ last _ s' way said)

  -- The client ends with PAM_SUCCESS, with fuel for the requests, exactly when its requests lead to
  -- one that the daemon answers with success.
  pub requests-success :
      (fuel : ℕ) (req : ClientRequest) (s : AuthenticateState W)
      → ((requests front (suc fuel) req s).0 ≡ some PamResultCode.pam_success) ↔ Succeeds fuel req s
  requests-success fuel req s =
      (succeeds fuel req s, λ h. Reaches-success fuel req h.0 s h.1 h.2 h.3)
