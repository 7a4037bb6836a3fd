-- ===== src/Resolver/Rules.antt =====
-- Rules for the resolver's actions (src/common/src/resolver.rs), one for each way to build one:
-- what its results satisfy, and that it gives the database's mutex back.
use himmelblau.Common.{
  ◌≡◌, ◌≢◌, refl, ◌⊎◌, inl, inr, ◌∙◌, subst, Bool, true, false, Option, none, some, Result, ok, err,
  if◌then◌else◌, arith,
}
use himmelblau.Resolver.{
  Store, Outcome, done, failed, blocked, Act, pure, fail, outside, outside_, gets, from_result,
  attempt, with_db, on_result, on_option, continue, ◌>>=◌,
}

-- Every result that the action returns with satisfies `P`.
pub record Yields {W X A : Type 0} (P : A → Type 0) (m : Act W X A) : Type 0 where
  pub at : (s : Store W X) (a : A) → (m s).0 ≡ Outcome.done a → P a

-- The action leaves the mutex as it is, and does not wait for it.
pub record Local {W X A : Type 0} (m : Act W X A) : Type 0 where
  pub at : (s : Store W X) → ((m s).0 ≢ blocked) × ((m s).1.db_held ≡ s.db_held)

-- If nobody holds the mutex, the action does not wait for ever, and gives the mutex back.
pub record Free {W X A : Type 0} (m : Act W X A) : Type 0 where
  pub at : (s : Store W X) → s.db_held ≡ false → ((m s).0 ≢ blocked) × ((m s).1.db_held ≡ false)

-- The action, run on `s`, ends with an error or with a result that satisfies `P`, and no transaction
-- is open afterwards.
pub record Concludes {W X A : Type 0} (P : A → Type 0) (m : Act W X A) (s : Store W X)
    : Type 0 where
  pub ends : ((m s).0 ≡ failed) ⊎ ((a : A) × ((m s).0 ≡ done a) × P a)
  pub released : (m s).1.db_held ≡ false

module _ {A : Type 0} where
  ends_with :
      (P : A → Type 0) (r : Outcome A)
      → r ≢ blocked
      → ((a : A) → r ≡ done a → P a)
      → (r ≡ failed) ⊎ ((a : A) × (r ≡ done a) × P a)
  ends_with P (done a) calm each = inr (a, refl, each a refl)
  ends_with P failed calm each = inl refl
  ends_with P blocked calm each = absurd (calm refl)

module _ {W X A : Type 0} where
  pub conclude :
      (P : A → Type 0) (m : Act W X A) (s : Store W X)
      → Yields P m
      → Free m
      → s.db_held ≡ false
      → Concludes P m s
  conclude P m s y f held =
      let (calm, freed) = f.at s held in
      record { ends = ends_with P (m s).0 calm (λ a e. y.at s a e); released = freed }

  pub Local-pure : (a : A) → Local (pure {W = W} {X = X} a)
  unfolding ◌>>=◌
  Local-pure a = record { at = λ s. ground arith }

  pub Local-fail : Local (fail {W = W} {X = X} {A = A})
  unfolding ◌>>=◌
  Local-fail = record { at = λ s. ground arith }

  pub Local-outside : (f : W → A × W) → Local (outside {X = X} f)
  unfolding ◌>>=◌
  Local-outside f = record { at = λ s. ground arith }

  pub Local-gets : (f : Store W X → A) → Local (gets f)
  unfolding ◌>>=◌
  Local-gets f = record { at = λ s. ground arith }

  pub Local-from_result : {E : Type 0} (r : Result A E) → Local (from_result {W = W} {X = X} r)
  unfolding ◌>>=◌
  Local-from_result (ok a) = Local-pure a
  Local-from_result (err e) = Local-fail

  pub Local-attempt : (m : Act W X A) → Local m → Local (attempt m)
  unfolding ◌>>=◌
  Local-attempt m k = record { at = λ s. ground (arith, k.at s) }

  pub Local-if : (b : Bool) (m n : Act W X A) → Local m → Local n → Local (if b then m else n)
  Local-if true m n km kn = km
  Local-if false m n km kn = kn

  pub Free-attempt : (m : Act W X A) → Free m → Free (attempt m)
  unfolding ◌>>=◌
  Free-attempt m k = record { at = λ s h. ground (arith, k.at s h) }

  pub Free-if : (b : Bool) (m n : Act W X A) → Free m → Free n → Free (if b then m else n)
  Free-if true m n km kn = km
  Free-if false m n km kn = kn

  -- A transaction whose body leaves the mutex alone.
  pub Free-with_db : (m : Act W X A) → Local m → Free (with_db m)
  unfolding ◌>>=◌
  Free-with_db m k = record { at = λ s h. ground (arith, k.at (record s { db_held = true })) }

  pub Free-Local : (m : Act W X A) → Local m → Free m
  Free-Local m k = record { at = λ s h. ground (arith, k.at s) }

module _ {W X : Type 0} where
  pub Local-outside_ : (f : W → W) → Local (outside_ {X = X} f)
  unfolding ◌>>=◌
  Local-outside_ f = record { at = λ s. ground arith }

module _ {W X A B : Type 0} where
  continue-Local :
      (r : Outcome A) (f : A → Act W X B) (s : Store W X)
      → r ≢ blocked
      → ((a : A) → Local (f a))
      → ((continue r f s).0 ≢ blocked) × ((continue r f s).1.db_held ≡ s.db_held)
  continue-Local (done a) f s h kf = (kf a).at s
  continue-Local failed f s h kf = ground arith
  continue-Local blocked f s h kf = absurd (h refl)

  continue-Free :
      (r : Outcome A) (f : A → Act W X B) (s : Store W X)
      → r ≢ blocked
      → s.db_held ≡ false
      → ((a : A) → Free (f a))
      → ((continue r f s).0 ≢ blocked) × ((continue r f s).1.db_held ≡ false)
  continue-Free (done a) f s h held kf = (kf a).at s held
  continue-Free failed f s h held kf = ground arith
  continue-Free blocked f s h held kf = absurd (h refl)

  continue-Yields :
      (P : B → Type 0) (r : Outcome A) (f : A → Act W X B) (s : Store W X) (b : B)
      → ((a : A) → Yields P (f a))
      → (continue r f s).0 ≡ done b
      → P b
  continue-Yields P (done a) f s b kf e = (kf a).at s b e
  continue-Yields P failed f s b kf e = cc
  continue-Yields P blocked f s b kf e = cc

  pub Local-bind :
      (m : Act W X A) (f : A → Act W X B) → Local m → ((a : A) → Local (f a)) → Local (m >>= f)
  unfolding ◌>>=◌
  Local-bind m f km kf = record {
    at = λ s.
        let (calm, same) = km.at s in
        let (r, s') = m s in let rest = continue-Local r f s' calm kf in (rest.0, rest.1 ∙ same);
  }

  pub Free-bind :
      (m : Act W X A) (f : A → Act W X B) → Free m → ((a : A) → Free (f a)) → Free (m >>= f)
  unfolding ◌>>=◌
  Free-bind m f km kf = record {
    at = λ s h.
        let (calm, freed) = km.at s h in let (r, s') = m s in continue-Free r f s' calm freed kf;
  }

  pub Yields-bind :
      (P : B → Type 0) (m : Act W X A) (f : A → Act W X B)
      → ((a : A) → Yields P (f a))
      → Yields P (m >>= f)
  unfolding ◌>>=◌
  Yields-bind P m f kf = record {
    at = λ s b e. let (r, s') = m s in continue-Yields P r f s' b kf e;
  }

  pub Local-on_option :
      (o : Option A) (f : A → Act W X B) (m : Act W X B)
      → ((a : A) → Local (f a))
      → Local m
      → Local (on_option o f m)
  unfolding ◌>>=◌
  Local-on_option (some a) f m kf km = kf a
  Local-on_option none f m kf km = km

module _ {W X A B E : Type 0} where
  pub Local-on_result :
      (r : Result A E) (f : A → Act W X B) (g : E → Act W X B)
      → ((a : A) → Local (f a))
      → ((e : E) → Local (g e))
      → Local (on_result r f g)
  unfolding ◌>>=◌
  Local-on_result (ok a) f g kf kg = kf a
  Local-on_result (err e) f g kf kg = kg e

  pub Free-on_result :
      (r : Result A E) (f : A → Act W X B) (g : E → Act W X B)
      → ((a : A) → Free (f a))
      → ((e : E) → Free (g e))
      → Free (on_result r f g)
  unfolding ◌>>=◌
  Free-on_result (ok a) f g kf kg = kf a
  Free-on_result (err e) f g kf kg = kg e

  pub Yields-on_result :
      (P : B → Type 0) (r : Result A E) (f : A → Act W X B) (g : E → Act W X B)
      → ((a : A) → Yields P (f a))
      → ((e : E) → Yields P (g e))
      → Yields P (on_result r f g)
  unfolding ◌>>=◌
  Yields-on_result P (ok a) f g kf kg = kf a
  Yields-on_result P (err e) f g kf kg = kg e

module _ {W X A : Type 0} where
  pub Yields-pure : (P : A → Type 0) (a : A) → P a → Yields P (pure {W = W} {X = X} a)
  unfolding ◌>>=◌
  Yields-pure P a p = record { at = λ s b e. subst P (ground arith) p }

  pub Yields-fail : (P : A → Type 0) → Yields P (fail {W = W} {X = X} {A = A})
  unfolding ◌>>=◌
  Yields-fail P = record { at = λ s b e. cc }

  pub Yields-if :
      (P : A → Type 0) (b : Bool) (m n : Act W X A)
      → Yields P m
      → Yields P n
      → Yields P (if b then m else n)
  Yields-if P true m n km kn = km
  Yields-if P false m n km kn = kn

pub ruleset local_rules = (
  Local-pure, Local-fail, Local-outside, Local-outside_, Local-gets, Local-from_result,
  Local-attempt, Local-if, Local-bind, Local-on_option, Local-on_result,
)

pub ruleset free_rules =
    (local_rules, Free-attempt, Free-if, Free-with_db, Free-bind, Free-on_result, Free-Local)
