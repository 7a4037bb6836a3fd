-- ===== src/Pam/Rules.antt =====
-- Rules for the parts of the handlers in src/common/src/auth.rs, one for each way to build one: that
-- none finishes with PAM_SUCCESS, and that it leaves the authtok and
-- the configuration alone, and the count of the polls within its bounds.
use himmelblau.Common.{
  ℕ, ◌≤◌, ◌≡◌, ◌≢◌, refl, ◌∙◌, Bool, true, false, String, Option, none, some, if◌then◌else◌,
}
use himmelblau.Proto.{ClientRequest, PamResultCode}
use himmelblau.Pam.{
  ℤ, pos, Front, AuthenticateState, PamWhatNext, Exit, Ui, value_of, leave_with, ask, state, do_,
  go_on, ◌>>=◌, pam_fail, or_fail, prompt,
}

-- An early return that is not PAM_SUCCESS.
abbrev pub Leaves : {A : Type 0} → Exit A → Type 0
Leaves (Exit.value a) = Unit {0}
Leaves (Exit.leave what) = what ≢ PamWhatNext.finish PamResultCode.pam_success

-- Neither an early return nor a result that is PAM_SUCCESS.
abbrev pub NoSuccess : Exit PamWhatNext → Type 0
NoSuccess (Exit.value what) = what ≢ PamWhatNext.finish PamResultCode.pam_success
NoSuccess (Exit.leave what) = what ≢ PamWhatNext.finish PamResultCode.pam_success

-- At least one poll was counted, and at most `k` after it.
pub record Polled (k : ℕ) (attempt : ℤ) : Type 0 where
  pub count : ℕ
  pub bound : count ≤ k
  pub counted : attempt ≡ pos count

-- The part does not return early with PAM_SUCCESS, and leaves the authtok and
-- the configuration alone, and the count of the polls within its bounds.
pub record Safe {W A : Type 0} (m : Ui W A) : Type 0 where
  pub leaves : (s : AuthenticateState W) → Leaves (m s).0
  pub authtok : (s : AuthenticateState W) → (m s).1.authtok ≡ s.authtok
  pub cfg : (s : AuthenticateState W) → (m s).1.cfg ≡ s.cfg
  pub polled :
      (s : AuthenticateState W) (k : ℕ) → Polled k s.poll_attempt → Polled k (m s).1.poll_attempt

-- The handler does not finish with PAM_SUCCESS, and leaves the authtok and
-- the configuration alone, and the count of the polls within its bounds.
pub record Harmless {W : Type 0} (m : Ui W PamWhatNext) : Type 0 where
  pub ends : (s : AuthenticateState W) → NoSuccess (m s).0
  pub authtok : (s : AuthenticateState W) → (m s).1.authtok ≡ s.authtok
  pub cfg : (s : AuthenticateState W) → (m s).1.cfg ≡ s.cfg
  pub polled :
      (s : AuthenticateState W) (k : ℕ) → Polled k s.poll_attempt → Polled k (m s).1.poll_attempt

module _ {W A : Type 0} where
  pub Safe-value_of : (a : A) → Safe (value_of {W = W} a)
  unfolding ◌>>=◌
  Safe-value_of a = record {
    leaves = λ s. tt;
    authtok = λ s. refl;
    cfg = λ s. refl;
    polled = λ s k h. h;
  }

  pub Safe-ask : (f : W → A × W) → Safe (ask f)
  unfolding ◌>>=◌
  Safe-ask f = record {
    leaves = λ s. tt;
    authtok = λ s. refl;
    cfg = λ s. refl;
    polled = λ s k h. h;
  }

  pub Safe-state : (f : AuthenticateState W → A) → Safe (state f)
  unfolding ◌>>=◌
  Safe-state f = record {
    leaves = λ s. tt;
    authtok = λ s. refl;
    cfg = λ s. refl;
    polled = λ s k h. h;
  }

  pub Safe-waiting : Safe (leave_with {W = W} {A = A} PamWhatNext.waiting)
  unfolding ◌>>=◌
  Safe-waiting = record {
    leaves = λ s e. cc;
    authtok = λ s. refl;
    cfg = λ s. refl;
    polled = λ s k h. h;
  }

  pub Safe-if : (b : Bool) (m n : Ui W A) → Safe m → Safe n → Safe (if b then m else n)
  Safe-if true m n km kn = km
  Safe-if false m n km kn = kn

  pub Safe-pam_fail :
      (front : Front W) (msg : String) (ret : PamResultCode) → Safe (pam_fail {A = A} front msg ret)
  unfolding pam_fail ◌>>=◌
  Safe-pam_fail front msg ret = record {
    leaves = λ s e. cc;
    authtok = λ s. refl;
    cfg = λ s. refl;
    polled = λ s k h. h;
  }

module _ {W : Type 0} where
  pub Safe-do_ : (f : W → W) → Safe (do_ f)
  unfolding ◌>>=◌
  Safe-do_ f = record {
    leaves = λ s. tt;
    authtok = λ s. refl;
    cfg = λ s. refl;
    polled = λ s k h. h;
  }

module _ {W A B : Type 0} where
  go_on-Safe :
      (r : Exit A) (f : A → Ui W B) (s : AuthenticateState W)
      → Leaves r
      → ((a : A) → Safe (f a))
      → Leaves (go_on r f s).0
        × ((go_on r f s).1.authtok ≡ s.authtok)
        × ((go_on r f s).1.cfg ≡ s.cfg)
        × ((k : ℕ) → Polled k s.poll_attempt → Polled k (go_on r f s).1.poll_attempt)
  go_on-Safe (Exit.value a) f s h kf =
      ((kf a).leaves s, (kf a).authtok s, (kf a).cfg s, (kf a).polled s)
  go_on-Safe (Exit.leave what) f s h kf = (h, refl, refl, λ k p. p)

  pub Safe-bind : (m : Ui W A) (f : A → Ui W B) → Safe m → ((a : A) → Safe (f a)) → Safe (m >>= f)
  unfolding ◌>>=◌
  Safe-bind m f km kf = record {
    leaves = λ s. (go_on-Safe (m s).0 f (m s).1 (km.leaves s) kf).0;
    authtok = λ s. (go_on-Safe (m s).0 f (m s).1 (km.leaves s) kf).1 ∙ km.authtok s;
    cfg = λ s. (go_on-Safe (m s).0 f (m s).1 (km.leaves s) kf).2 ∙ km.cfg s;
    polled = λ s k p. (go_on-Safe (m s).0 f (m s).1 (km.leaves s) kf).3 k (km.polled s k p);
  }

module _ {W A : Type 0} where
  go_on-Harmless :
      (r : Exit A) (f : A → Ui W PamWhatNext) (s : AuthenticateState W)
      → Leaves r
      → ((a : A) → Harmless (f a))
      → NoSuccess (go_on r f s).0
        × ((go_on r f s).1.authtok ≡ s.authtok)
        × ((go_on r f s).1.cfg ≡ s.cfg)
        × ((k : ℕ) → Polled k s.poll_attempt → Polled k (go_on r f s).1.poll_attempt)
  go_on-Harmless (Exit.value a) f s h kf =
      ((kf a).ends s, (kf a).authtok s, (kf a).cfg s, (kf a).polled s)
  go_on-Harmless (Exit.leave what) f s h kf = (h, refl, refl, λ k p. p)

  pub Harmless-bind :
      (m : Ui W A) (f : A → Ui W PamWhatNext)
      → Safe m
      → ((a : A) → Harmless (f a))
      → Harmless (m >>= f)
  unfolding ◌>>=◌
  Harmless-bind m f km kf = record {
    ends = λ s. (go_on-Harmless (m s).0 f (m s).1 (km.leaves s) kf).0;
    authtok = λ s. (go_on-Harmless (m s).0 f (m s).1 (km.leaves s) kf).1 ∙ km.authtok s;
    cfg = λ s. (go_on-Harmless (m s).0 f (m s).1 (km.leaves s) kf).2 ∙ km.cfg s;
    polled = λ s k p. (go_on-Harmless (m s).0 f (m s).1 (km.leaves s) kf).3 k (km.polled s k p);
  }

module _ {W : Type 0} where
  pub Harmless-next : (req : ClientRequest) → Harmless (value_of {W = W} (PamWhatNext.next req))
  unfolding ◌>>=◌
  Harmless-next req = record {
    ends = λ s e. cc;
    authtok = λ s. refl;
    cfg = λ s. refl;
    polled = λ s k h. h;
  }

  pub Harmless-if :
      (b : Bool) (m n : Ui W PamWhatNext) → Harmless m → Harmless n → Harmless (if b then m else n)
  Harmless-if true m n km kn = km
  Harmless-if false m n km kn = kn

  pub Harmless-pam_fail :
      (front : Front W) (msg : String) (ret : PamResultCode) → Harmless (pam_fail front msg ret)
  unfolding pam_fail ◌>>=◌
  Harmless-pam_fail front msg ret = record {
    ends = λ s e. cc;
    authtok = λ s. refl;
    cfg = λ s. refl;
    polled = λ s k h. h;
  }

  or_fail-Safe :
      (front : Front W) (missing : String) (answer : Option String)
      → Safe (or_fail front missing answer)
  or_fail-Safe front missing (some cred) = Safe-value_of cred
  or_fail-Safe front missing none = Safe-pam_fail front missing PamResultCode.pam_cred_insufficient

  pub Safe-prompt : (front : Front W) (text missing : String) → Safe (prompt front text missing)
  unfolding prompt
  Safe-prompt front text missing =
      Safe-bind _ _ (Safe-ask (front.prompt_echo_off text)) (or_fail-Safe front missing)

pub ruleset safe_rules = (
  Safe-value_of, Safe-ask, Safe-state, Safe-waiting, Safe-if, Safe-pam_fail, Safe-do_, Safe-bind,
  Safe-prompt,
)

pub ruleset harmless_rules =
    (safe_rules, Harmless-bind, Harmless-next, Harmless-if, Harmless-pam_fail)
