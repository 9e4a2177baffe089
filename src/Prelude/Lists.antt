-- ===== src/Prelude/Lists.antt =====
-- Lists measured by native numbers, and a predicate over every entry.
use Prim.Native.Nat.{ℕ, suc, ◌+◌}
use mathlib.Core.Path.{◌≡◌, refl, subst}
use mathlib.Core.Bool.{Bool, true}
use mathlib.Core.List.{List, [], ◌∷◌, ◌++◌}
use mathlib.Core.Option.{Option, none, some}
use native.Mathlib.Omega.{arith}
use mathlib.Core.Logic.{◌⊎◌, inl, inr}
use radar_software.Prelude.Tests.{if◌then◌else◌, Bool-cases}

module _ {ℓ} {A : Type ℓ} where
  abbrev pub length : List A → ℕ
  length [] = 0
  length (x ∷ xs) = suc (length xs)

  -- `std::remove_if` and `std::find_if` by a Boolean test.
  abbrev pub filter : (A → Bool) → List A → List A
  filter p [] = []
  filter p (x ∷ xs) = if p x then x ∷ filter p xs else filter p xs

  abbrev pub find? : (A → Bool) → List A → Option A
  find? p [] = none
  find? p (x ∷ xs) = if p x then some x else find? p xs

  abbrev pub All {κ} : (A → Type κ) → List A → Type κ
  All P [] = Unit
  All P (x ∷ xs) = P x × All P xs

  pub length-append : (xs ys : List A) → length (xs ++ ys) ≡ length xs + length ys
  length-append [] ys = omega arith
  length-append (x ∷ xs) ys = omega (arith, length-append xs ys)

  pub All-append {κ} : (P : A → Type κ) (xs ys : List A) → All P xs → All P ys → All P (xs ++ ys)
  All-append P [] ys hx hy = hy
  All-append P (x ∷ xs) ys hx hy = (hx.0, All-append P xs ys hx.1 hy)

  pub All-imp {κ μ} :
      (P : A → Type κ) (Q : A → Type μ) (xs : List A) → ((x : A) → P x → Q x) → All P xs → All Q xs
  All-imp P Q [] h a = tt
  All-imp P Q (x ∷ xs) h a = (h x a.0, All-imp P Q xs h a.1)

-- The computation gives a value, and the value has the property.
abbrev pub Returns {ℓ} : {A : Type ℓ} → Option A → (A → Type 0) → Type 0
Returns none P = ⊥
Returns (some a) P = P a

module _ {ℓ} {A : Type ℓ} where
  -- Some entry has the property.
  abbrev pub Any : (A → Type 0) → List A → Type 0
  Any P [] = ⊥
  Any P (x ∷ xs) = P x ⊎ Any P xs

  pub Any-imp : (P Q : A → Type 0) (xs : List A) → ((x : A) → P x → Q x) → Any P xs → Any Q xs
  Any-imp P Q [] h a = a
  Any-imp P Q (x ∷ xs) h (inl p) = inl (h x p)
  Any-imp P Q (x ∷ xs) h (inr a) = inr (Any-imp P Q xs h a)

  pub All-filter :
      (P : A → Type 0) (keep : A → Bool) (xs : List A) → All P xs → All P (filter keep xs)
  All-filter P keep [] h = tt
  All-filter P keep (x ∷ xs) h = elim (Bool-cases (keep x)) [
    | inl e ↦ rw e (h.0, All-filter P keep xs h.1)
    | inr e ↦ rw e (All-filter P keep xs h.1)
  ]

  pub Any-filter :
      (P : A → Type 0) (keep : A → Bool) (xs : List A)
      → ((x : A) → P x → keep x ≡ true)
      → Any P xs
      → Any P (filter keep xs)
  Any-filter P keep [] h a = a
  Any-filter P keep (x ∷ xs) h (inl p) = rw (h x p) (inl p)
  Any-filter P keep (x ∷ xs) h (inr a) = elim (Bool-cases (keep x)) [
    | inl e ↦ rw e (inr (Any-filter P keep xs h a))
    | inr e ↦ rw e (Any-filter P keep xs h a)
  ]

  pub Any-append : (P : A → Type 0) (xs ys : List A) → Any P xs → Any P (xs ++ ys)
  Any-append P [] ys a = absurd a
  Any-append P (x ∷ xs) ys (inl p) = inl p
  Any-append P (x ∷ xs) ys (inr a) = inr (Any-append P xs ys a)

  -- An entry with a property, and what holds of every entry.
  pub Any-All {κ} :
      (P Q : A → Type 0) {R : Type κ} (xs : List A)
      → ((x : A) → P x → Q x → R)
      → Any P xs
      → All Q xs
      → R
  Any-All P Q [] h a b = absurd a
  Any-All P Q (x ∷ xs) h (inl p) b = h x p b.0
  Any-All P Q (x ∷ xs) h (inr a) b = Any-All P Q xs h a b.1

  pub Any-filter-cons :
      (P : A → Type 0) (keep : A → Bool) (x : A) (xs : List A)
      → Any P (filter keep xs)
      → Any P (filter keep (x ∷ xs))
  Any-filter-cons P keep x xs h = elim (Bool-cases (keep x)) [
    | inl e ↦ rw e (inr h)
    | inr e ↦ rw e h
  ]

-- If the computation gives a value, the value has the property.
abbrev pub Ensures {ℓ} : {A : Type ℓ} → Option A → (A → Type 0) → Type 0
Ensures none P = Unit
Ensures (some a) P = P a

pub Ensures-some {ℓ} :
    {A : Type ℓ} {o : Option A} {a : A} (P : A → Type 0) → o ≡ some a → Ensures o P → P a
Ensures-some P e h = subst (λ r. Ensures r P) e h

pub List-cases {ℓ} :
    {A : Type ℓ} (xs : List A) → (xs ≡ []) ⊎ ((y : A) × (ys : List A) × (xs ≡ y ∷ ys))
List-cases [] = inl refl
List-cases (x ∷ xs) = inr (x, xs, refl)

module _ {ℓ} {A : Type ℓ} where
  -- The first of two results.
  abbrev pub or_else : Option A → Option A → Option A
  or_else none other = other
  or_else (some a) other = some a

  pub or_else-none : (first : Option A) → or_else first none ≡ first
  or_else-none none = refl
  or_else-none (some a) = refl

  pub or_else_assoc : (a b c : Option A) → or_else (or_else a b) c ≡ or_else a (or_else b c)
  or_else_assoc none b c = refl
  or_else_assoc (some x) b c = refl
