-- ===== src/Prelude/Lists.antt =====
-- Lists measured and indexed by native numbers, under the library's names.
use Prim.Native.Nat.{ℕ, zero, suc, ◌+◌, ◌<◌}
use mathlib.Core.Path.{◌≡◌, refl, ap}
use mathlib.Core.Logic.{◌≢◌}
use mathlib.Core.List.{List, [], ◌∷◌, ◌++◌}
use native.Mathlib.Omega.{arith}

module _ {ℓ} {A : Type ℓ} where
  abbrev pub length : List A → ℕ
  length [] = 0
  length (x ∷ xs) = suc (length xs)

  abbrev pub get_or : List A → ℕ → A → A
  get_or [] i d = d
  get_or (x ∷ xs) zero d = x
  get_or (x ∷ xs) (suc i) d = get_or xs i d

  -- A write out of bounds changes nothing.
  abbrev pub set : List A → ℕ → A → List A
  set [] i v = []
  set (x ∷ xs) zero v = v ∷ xs
  set (x ∷ xs) (suc i) v = x ∷ set xs i v

  abbrev pub All {κ} : (A → Type κ) → List A → Type κ
  All P [] = Unit
  All P (x ∷ xs) = P x × All P xs

  pub All-get_or {κ} :
      (P : A → Type κ) (xs : List A) (i : ℕ) (d : A) → All P xs → i < length xs → P (get_or xs i d)
  All-get_or P [] i d h lt = elim lt [ ]
  All-get_or P (x ∷ xs) zero d h lt = h.0
  All-get_or P (x ∷ xs) (suc i) d h lt = All-get_or P xs i d h.1 (omega arith)

  pub All-append {κ} : (P : A → Type κ) (xs ys : List A) → All P xs → All P ys → All P (xs ++ ys)
  All-append P [] ys h k = k
  All-append P (x ∷ xs) ys h k = (h.0, All-append P xs ys h.1 k)

  -- Before, at and behind the entry `y` of `xs ++ y ∷ ys`.
  pub All-before {κ} :
      (P : A → Type κ) (xs ys : List A) (i : ℕ) (d : A)
      → All P xs
      → i < length xs
      → P (get_or (xs ++ ys) i d)
  All-before P [] ys i d h lt = elim lt [ ]
  All-before P (x ∷ xs) ys zero d h lt = h.0
  All-before P (x ∷ xs) ys (suc i) d h lt = All-before P xs ys i d h.1 (omega arith)

  pub get_or-middle : (xs ys : List A) (y d : A) → get_or (xs ++ y ∷ ys) (length xs) d ≡ y
  get_or-middle [] ys y d = refl
  get_or-middle (x ∷ xs) ys y d = get_or-middle xs ys y d

  pub All-behind {κ} :
      (P : A → Type κ) (xs ys : List A) (y : A) (i : ℕ) (d : A)
      → All P ys
      → length xs < i
      → i < length (xs ++ y ∷ ys)
      → P (get_or (xs ++ y ∷ ys) i d)
  All-behind P [] ys y zero d h lt end = absurd (omega arith)
  All-behind P [] ys y (suc i) d h lt end = All-get_or P ys i d h (omega arith)
  All-behind P (x ∷ xs) ys y zero d h lt end = absurd (omega arith)
  All-behind P (x ∷ xs) ys y (suc i) d h lt end =
      All-behind P xs ys y i d h (omega arith) (omega arith)

  pub set-middle : (xs ys : List A) (y z : A) → set (xs ++ y ∷ ys) (length xs) z ≡ xs ++ z ∷ ys
  set-middle [] ys y z = refl
  set-middle (x ∷ xs) ys y z = ap (λ l. x ∷ l) (set-middle xs ys y z)

  pub length-append : (xs ys : List A) → length (xs ++ ys) ≡ length xs + length ys
  length-append [] ys = omega arith
  length-append (x ∷ xs) ys = omega (arith, length-append xs ys)

  pub get_or-set_self :
      (xs : List A) (i : ℕ) (y d : A) → i < length xs → get_or (set xs i y) i d ≡ y
  get_or-set_self [] i y d lt = elim lt [ ]
  get_or-set_self (x ∷ xs) zero y d lt = refl
  get_or-set_self (x ∷ xs) (suc i) y d lt = get_or-set_self xs i y d (omega arith)

  pub set-set : (xs : List A) (i : ℕ) (y z : A) → set (set xs i y) i z ≡ set xs i z
  set-set [] i y z = refl
  set-set (x ∷ xs) zero y z = refl
  set-set (x ∷ xs) (suc i) y z = ap (λ l. x ∷ l) (set-set xs i y z)

  pub set-get_or : (xs : List A) (i : ℕ) (d : A) → set xs i (get_or xs i d) ≡ xs
  set-get_or [] i d = refl
  set-get_or (x ∷ xs) zero d = refl
  set-get_or (x ∷ xs) (suc i) d = ap (λ l. x ∷ l) (set-get_or xs i d)

  pub length-set : (xs : List A) (i : ℕ) (y : A) → length (set xs i y) ≡ length xs
  length-set [] i y = refl
  length-set (x ∷ xs) zero y = refl
  length-set (x ∷ xs) (suc i) y = ap suc (length-set xs i y)

  pub length-pos : (xs : List A) → xs ≢ [] → 0 < length xs
  length-pos [] h = absurd (h refl)
  length-pos (x ∷ xs) h = omega arith

  -- A write that leaves `f` of its entry alone leaves `f` of all the entries alone.
  pub get_or-set_same {κ} :
      {B : Type κ} (f : A → B) (xs : List A) (i k : ℕ) (y d : A)
      → f y ≡ f (get_or xs i d)
      → f (get_or (set xs i y) k d) ≡ f (get_or xs k d)
  get_or-set_same f [] i k y d e = refl
  get_or-set_same f (x ∷ xs) zero zero y d e = e
  get_or-set_same f (x ∷ xs) zero (suc k) y d e = refl
  get_or-set_same f (x ∷ xs) (suc i) zero y d e = refl
  get_or-set_same f (x ∷ xs) (suc i) (suc k) y d e = get_or-set_same f xs i k y d e
