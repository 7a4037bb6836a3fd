-- ===== src/Hello/Rules.antt =====
-- How a sequence of actions of a provider runs (src/common/src/idprovider/common.rs), when the first is
-- known to run well or to fail.
use himmelblau.Common.{
  ◌≡◌, refl, ap, arith, ◌∙◌, Bool, true, false, List, Result, ok, err, if◌then◌else◌,
}
use himmelblau.Idp.{IdpError}
use himmelblau.Hello.{KeyRow, Provider, Act, continue, pure, fail, gets, outside, or_fail, ◌>>=◌}

module _ {W X A B : Type 0} (m : Act W X A) (f : A → Act W X B) (s : Provider W X) where
  pub run-ok : (a : A) (t : Provider W X) → m s ≡ (ok a, t) → (m >>= f) s ≡ f a t
  unfolding ◌>>=◌
  run-ok a t h = ap (λ p. continue p.0 f p.1) h

  pub run-err : (e : IdpError) (t : Provider W X) → m s ≡ (err e, t) → (m >>= f) s ≡ (err e, t)
  unfolding ◌>>=◌
  run-err e t h = ap (λ p. continue p.0 f p.1) h

-- Whatever the action ends well with, it and the state then are as `Q` says.
pub record Ends {W X A : Type 0} (Q : A → Provider W X → Type 0) (m : Act W X A) : Type 0 where
  pub at : (s : Provider W X) (a : A) → (m s).0 ≡ ok a → Q a (m s).1

ok_not_err : {A : Type 0} (e : IdpError) (a : A) → ◌≡◌ {A = Result A IdpError} (err e) (ok a) → ⊥
ok_not_err e a h = cc

module _ {W X A B : Type 0} where
  continue-Ends :
      (R : A → Type 0) (Q : B → Provider W X → Type 0) (r : Result A IdpError) (f : A → Act W X B)
      (s : Provider W X) (b : B)
      → ((a : A) → r ≡ ok a → R a)
      → ((a : A) → R a → Ends Q (f a))
      → (continue r f s).0 ≡ ok b
      → Q b (continue r f s).1
  continue-Ends R Q (ok a) f s b mr fr e = (fr a (mr a refl)).at s b e
  continue-Ends R Q (err x) f s b mr fr e = cc

  -- What the first action ends with is as `R` says.
  pub Ends-after :
      (R : A → Type 0) (Q : B → Provider W X → Type 0) (m : Act W X A) (f : A → Act W X B)
      → Ends (λ a t. R a) m
      → ((a : A) → R a → Ends Q (f a))
      → Ends Q (m >>= f)
  unfolding ◌>>=◌
  Ends-after R Q m f mr fr = record {
    at = λ s b. continue-Ends R Q (m s).0 f (m s).1 b (mr.at s) fr;
  }

  pub Ends-bind :
      (Q : B → Provider W X → Type 0) (m : Act W X A) (f : A → Act W X B)
      → ((a : A) → Ends Q (f a))
      → Ends Q (m >>= f)
  unfolding ◌>>=◌
  Ends-bind Q m f fr = record {
    at = λ s b. continue-Ends (λ a. Unit {0}) Q (m s).0 f (m s).1 b (λ a e. tt) (λ a u. fr a);
  }

  -- The first action is an answer of the world outside.
  pub Ends-outside :
      (Q : B → Provider W X → Type 0) (g : W → A × W) (f : A → Act W X B)
      → ((w : W) → Ends Q (f (g w).0))
      → Ends Q (outside g >>= f)
  unfolding ◌>>=◌
  Ends-outside Q g f fr = record { at = λ s b. (fr s.world).at _ b }

module _ {W X A : Type 0} where
  pub Ends-pure :
      (Q : A → Provider W X → Type 0) (a : A) → ((t : Provider W X) → Q a t) → Ends Q (pure a)
  unfolding ◌>>=◌
  Ends-pure Q a h = record { at = λ s b e. ground (arith, h s) }

  pub Ends-fail : (Q : A → Provider W X → Type 0) (e : IdpError) → Ends Q (fail e)
  unfolding ◌>>=◌
  Ends-fail Q e = record { at = λ s b h. absurd (ok_not_err e b h) }

  pub Ends-or_fail :
      (e : IdpError) (r : Result A (Unit {0}))
      → Ends (λ a (t : Provider W X). r ≡ ok a) (or_fail {W = W} {X = X} e r)
  unfolding ◌>>=◌
  Ends-or_fail e (ok b) = record { at = λ s a h. ground arith }
  Ends-or_fail e (err u) = record { at = λ s a h. absurd (ok_not_err e a h) }

-- The action does not touch the stored keys.
pub record Keeps {W X A : Type 0} (m : Act W X A) : Type 0 where
  pub at : (s : Provider W X) → (m s).1.hsm_data_t ≡ s.hsm_data_t

-- From a state that is as `P` says, whatever the action ends well with is as `Q` says.
pub record Leads {W X A : Type 0} (P : Provider W X → Type 0) (m : Act W X A)
    (Q : A → Provider W X → Type 0) : Type 0 where
  pub at : (s : Provider W X) → P s → (a : A) → (m s).0 ≡ ok a → Q a (m s).1

module _ {W X A B : Type 0} where
  continue-Keeps :
      (r : Result A IdpError) (f : A → Act W X B) (s : Provider W X)
      → ((a : A) → Keeps (f a))
      → (continue r f s).1.hsm_data_t ≡ s.hsm_data_t
  continue-Keeps (ok a) f s k = (k a).at s
  continue-Keeps (err e) f s k = refl

  pub Keeps-bind :
      (m : Act W X A) (f : A → Act W X B) → Keeps m → ((a : A) → Keeps (f a)) → Keeps (m >>= f)
  unfolding ◌>>=◌
  Keeps-bind m f km kf = record { at = λ s. continue-Keeps (m s).0 f (m s).1 kf ∙ km.at s }

  continue-Leads :
      (R : A → Provider W X → Type 0) (Q : B → Provider W X → Type 0) (r : Result A IdpError)
      (f : A → Act W X B) (s : Provider W X) (b : B)
      → ((a : A) → r ≡ ok a → R a s)
      → ((a : A) → Leads (R a) (f a) Q)
      → (continue r f s).0 ≡ ok b
      → Q b (continue r f s).1
  continue-Leads R Q (ok a) f s b mr fr e = (fr a).at s (mr a refl) b e
  continue-Leads R Q (err x) f s b mr fr e = cc

  pub Leads-bind :
      (P : Provider W X → Type 0) (R : A → Provider W X → Type 0) (Q : B → Provider W X → Type 0)
      (m : Act W X A) (f : A → Act W X B)
      → Leads P m R
      → ((a : A) → Leads (R a) (f a) Q)
      → Leads P (m >>= f) Q
  unfolding ◌>>=◌
  Leads-bind P R Q m f mr fr = record {
    at = λ s p b. continue-Leads R Q (m s).0 f (m s).1 b (mr.at s p) fr;
  }

  -- An action that keeps the keys, before one that starts from these keys.
  pub Leads-Keeps :
      (rows : List (KeyRow X)) (Q : B → Provider W X → Type 0) (m : Act W X A) (f : A → Act W X B)
      → Keeps m
      → ((a : A) → Leads (λ s. s.hsm_data_t ≡ rows) (f a) Q)
      → Leads (λ s. s.hsm_data_t ≡ rows) (m >>= f) Q
  Leads-Keeps rows Q m f k fr =
      Leads-bind _ (λ a t. t.hsm_data_t ≡ rows) Q m f (record { at = λ s p a e. k.at s ∙ p }) fr

module _ {W X A : Type 0} where
  pub Keeps-pure : (a : A) → Keeps (pure {W = W} {X = X} a)
  unfolding ◌>>=◌
  Keeps-pure a = record { at = λ s. refl }

  pub Keeps-fail : (e : IdpError) → Keeps (fail {W = W} {X = X} {A = A} e)
  unfolding ◌>>=◌
  Keeps-fail e = record { at = λ s. refl }

  pub Keeps-gets : (f : Provider W X → A) → Keeps (gets f)
  unfolding ◌>>=◌
  Keeps-gets f = record { at = λ s. refl }

  pub Keeps-outside : (f : W → A × W) → Keeps (outside {X = X} f)
  unfolding ◌>>=◌
  Keeps-outside f = record { at = λ s. refl }

  pub Keeps-or_fail : (e : IdpError) (r : Result A (Unit {0})) → Keeps (or_fail {W = W} {X = X} e r)
  unfolding ◌>>=◌
  Keeps-or_fail e (ok a) = record { at = λ s. refl }
  Keeps-or_fail e (err u) = record { at = λ s. refl }

  pub Keeps-if : (b : Bool) (m n : Act W X A) → Keeps m → Keeps n → Keeps (if b then m else n)
  Keeps-if true m n k l = k
  Keeps-if false m n k l = l

  pub Leads-pure :
      (P : Provider W X → Type 0) (Q : A → Provider W X → Type 0) (a : A)
      → ((t : Provider W X) → P t → Q a t)
      → Leads P (pure a) Q
  unfolding ◌>>=◌
  Leads-pure P Q a h = record { at = λ s p b e. ground (arith, h s p) }

  pub Leads-fail :
      (P : Provider W X → Type 0) (Q : A → Provider W X → Type 0) (e : IdpError)
      → Leads P (fail e) Q
  unfolding ◌>>=◌
  Leads-fail P Q e = record { at = λ s p a h. absurd (ok_not_err e a h) }

  pub Leads-if :
      (P : Provider W X → Type 0) (Q : A → Provider W X → Type 0) (b : Bool) (m n : Act W X A)
      → (b ≡ true → Leads P m Q)
      → (b ≡ false → Leads P n Q)
      → Leads P (if b then m else n) Q
  Leads-if P Q true m n k l = k refl
  Leads-if P Q false m n k l = l refl

  pub Leads-or_fail :
      (P : Provider W X → Type 0) (e : IdpError) (r : Result A (Unit {0}))
      → Leads P (or_fail e r) (λ a t. (r ≡ ok a) × P t)
  unfolding ◌>>=◌
  Leads-or_fail P e (ok b) = record { at = λ s p a h. ground arith }
  Leads-or_fail P e (err u) = record { at = λ s p a h. absurd (ok_not_err e a h) }

  -- A fact that the state does not change may be assumed.
  pub Leads-given :
      (F : Type 0) (P : Provider W X → Type 0) (m : Act W X A) (Q : A → Provider W X → Type 0)
      → (F → Leads P m Q)
      → Leads (λ s. F × P s) m Q
  Leads-given F P m Q h = record { at = λ s p a e. (h p.0).at s p.1 a e }

module _ {W X A : Type 0} (rows : List (KeyRow X)) where
  -- The world outside answered so, the stored keys being as they were.
  pub Leads-answer :
      (e : IdpError) (f : W → Result A (Unit {0}) × W)
      → Leads
          (λ s. s.hsm_data_t ≡ rows)
          (do r ← outside f; or_fail e r)
          (λ a t. ((w : W) × ((f w).0 ≡ ok a)) × (t.hsm_data_t ≡ rows))
  unfolding ◌>>=◌
  Leads-answer e f = record {
    at = λ s p a h. (
      (s.world, (Ends-or_fail {X = X} e (f s.world).0).at (record s { world = (f s.world).1 }) a h),
      (Keeps-or_fail e (f s.world).0).at (record s { world = (f s.world).1 }) ∙ p,
    );
  }

  -- What the action ends well with is known from every state.
  pub Leads-Ends :
      (Q : A → Provider W X → Type 0) (m : Act W X A)
      → Ends Q m
      → Leads (λ s. s.hsm_data_t ≡ rows) m Q
  Leads-Ends Q m k = record { at = λ s p a h. k.at s a h }
