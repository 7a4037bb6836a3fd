-- ===== src/Common/Lists.antt =====
-- Lists measured and filtered over the native numbers and `Bool`, under the library's names.
use Prim.Native.Nat.{ℕ, suc, ◌+◌, ◌≤◌}
use mathlib.Core.Path.{◌≡◌, refl, ap}
use mathlib.Core.Bool.{Bool, true, false, ◌||◌, ◌&&◌, Bool-set}
use mathlib.Core.List.{
  List, [], ◌∷◌, ◌++◌, map, Mem, mem-cons, mem-cons_self, mem-cons_of_mem, not-mem-nil,
}
use mathlib.Core.Logic.{◌⊎◌, inl, inr}
use mathlib.Core.Logic.Or
use native.Mathlib.Omega.{arith}
use himmelblau.Common.Tests.{if◌then◌else◌, Bool-cases}

module _ {ℓ} {A : Type ℓ} where
  abbrev pub length : List A → ℕ
  length [] = 0
  length (x ∷ xs) = suc (length xs)

  pub length-append : (xs ys : List A) → length (xs ++ ys) ≡ length xs + length ys
  length-append [] ys = omega arith
  length-append (x ∷ xs) ys = omega (arith, length-append xs ys)

  -- Rust's `retain` and `filter`, by a Boolean test.
  abbrev pub retain : (A → Bool) → List A → List A
  retain p [] = []
  retain p (x ∷ xs) = let rest = retain p xs in if p x then x ∷ rest else rest

  pub length-retain-le : (p : A → Bool) (xs : List A) → length (retain p xs) ≤ length xs
  length-retain-le p [] = omega arith
  length-retain-le p (x ∷ xs) = ground (arith, length-retain-le p xs)

  abbrev pub any : (A → Bool) → List A → Bool
  any p [] = false
  any p (x ∷ xs) = p x || any p xs

  abbrev pub all : (A → Bool) → List A → Bool
  all p [] = true
  all p (x ∷ xs) = p x && all p xs

  -- A predicate of every item.
  abbrev pub All {κ} : (A → Type κ) → List A → Type κ
  All P [] = Unit
  All P (x ∷ xs) = P x × All P xs

  pub retain-none : (p : A → Bool) (xs : List A) → All (λ x. p x ≡ false) xs → retain p xs ≡ []
  retain-none p [] h = refl
  retain-none p (x ∷ xs) h = ground (arith, retain-none p xs h.1)

  pub retain-All : (p : A → Bool) (xs : List A) → All (λ x. p x ≡ true) (retain p xs)
  retain-All p [] = tt
  retain-All p (x ∷ xs) = ground (arith, retain-All p xs)

  pub retain-append :
      (p : A → Bool) (xs ys : List A) → retain p (xs ++ ys) ≡ retain p xs ++ retain p ys
  retain-append p [] ys = refl
  retain-append p (x ∷ xs) ys = ground (arith, retain-append p xs ys)

  pub any-none : (p : A → Bool) (xs : List A) → any p xs ≡ false → All (λ x. p x ≡ false) xs
  any-none p [] h = tt
  any-none p (x ∷ xs) h = ground (arith, any-none p xs)

  pub All-map {κ μ} :
      (P : A → Type κ) (Q : A → Type μ) (xs : List A) → ((x : A) → P x → Q x) → All P xs → All Q xs
  All-map P Q [] f h = tt
  All-map P Q (x ∷ xs) f h = (f x h.0, All-map P Q xs f h.1)

  pub All-both {κ μ} :
      (P : A → Type κ) (Q : A → Type μ) (xs : List A)
      → All P xs
      → All Q xs
      → All (λ x. P x × Q x) xs
  All-both P Q [] h k = tt
  All-both P Q (x ∷ xs) h k = ((h.0, k.0), All-both P Q xs h.1 k.1)

  pub All-retain {κ} :
      (P : A → Type κ) (p : A → Bool) (xs : List A) → All P xs → All P (retain p xs)
  All-retain P p [] h = tt
  All-retain P p (x ∷ xs) h = ground (arith, All-retain P p xs h.1)

  pub All-append {κ} : (P : A → Type κ) (xs ys : List A) → All P xs → All P ys → All P (xs ++ ys)
  All-append P [] ys h k = k
  All-append P (x ∷ xs) ys h k = (h.0, All-append P xs ys h.1 k)

  pub any-some : (p : A → Bool) (xs : List A) → any p xs ≡ true → (x : A) × Mem x xs × (p x ≡ true)
  any-some p [] h = cc
  any-some p (x ∷ xs) h = elim (Bool-cases (p x)) [
    | inl holds ↦ (x, mem-cons_self, holds)
    | inr fails ↦ let (y, m, e) = any-some p xs (ground arith) in (y, mem-cons_of_mem x m, e)
  ]

  pub any-Mem : (p : A → Bool) (x : A) (xs : List A) → Mem x xs → p x ≡ true → any p xs ≡ true
  any-Mem p x [] m e = absurd (not-mem-nil m)
  any-Mem p x (y ∷ ys) m e =
      Or.elim (Bool-set _ _) (mem-cons.0 m) (λ same. ground (arith, ap p same))
        (λ m'. ground (arith, any-Mem p x ys m' e))

  -- The sum of the weights of the items.
  abbrev pub sum_by : (A → ℕ) → List A → ℕ
  sum_by f [] = 0
  sum_by f (x ∷ xs) = f x + sum_by f xs

  pub sum_by-append : (f : A → ℕ) (xs ys : List A) → sum_by f (xs ++ ys) ≡ sum_by f xs + sum_by f ys
  sum_by-append f [] ys = omega arith
  sum_by-append f (x ∷ xs) ys = omega (arith, sum_by-append f xs ys)

module _ {ℓ κ} {A : Type ℓ} {B : Type κ} (p : B → Bool) (f : A → B) (y : B) where
  -- A test holds of an image under `f`, or of the one item after them.
  pub any-images :
      (xs : List A)
      → any p (map f xs ++ y ∷ []) ≡ true
      → (p y ≡ true) ⊎ ((x : A) × Mem x xs × (p (f x) ≡ true))
  any-images [] h = inl (ground arith)
  any-images (x ∷ xs) h = elim (Bool-cases (p (f x))) [
    | inl holds ↦ inr (x, mem-cons_self, holds)
    | inr fails ↦ elim (any-images xs (ground arith)) [
      | inl last ↦ inl last
      | inr found ↦ inr (found.0, mem-cons_of_mem x found.1, found.2)
    ]
  ]

  pub any-last : (xs : List A) → p y ≡ true → any p (map f xs ++ y ∷ []) ≡ true
  any-last [] h = ground arith
  any-last (x ∷ xs) h = ground (arith, any-last xs h)

  pub any-image :
      (x : A) (xs : List A) → Mem x xs → p (f x) ≡ true → any p (map f xs ++ y ∷ []) ≡ true
  any-image x [] m e = absurd (not-mem-nil m)
  any-image x (z ∷ zs) m e =
      Or.elim (Bool-set _ _) (mem-cons.0 m) (λ same. ground (arith, ap (λ v. p (f v)) same))
        (λ m'. ground (arith, any-image x zs m' e))
