-- ===== src/Prelude/Lists.antt =====
-- Lists measured and indexed by native numbers, under the library's names.
use Prim.Native.Nat.{ℕ, zero, suc, ◌+◌}
use Prim.{Unit}
use mathlib.Core.Path.{◌≡◌, refl, ap}
use mathlib.Core.List.{List, [], ◌∷◌, ◌++◌}
use mathlib.Core.Option.{Option, none, some}
use native.Mathlib.Omega.{arith}

module _ {ℓ} {A : Type ℓ} where
  abbrev pub length : List A → ℕ
  length [] = 0
  length (x ∷ xs) = suc (length xs)

  abbrev pub get_elem? : List A → ℕ → Option A
  get_elem? [] i = none
  get_elem? (x ∷ xs) zero = some x
  get_elem? (x ∷ xs) (suc i) = get_elem? xs i

  abbrev pub get_or : List A → ℕ → A → A
  get_or [] i d = d
  get_or (x ∷ xs) zero d = x
  get_or (x ∷ xs) (suc i) d = get_or xs i d

  abbrev pub take : ℕ → List A → List A
  take zero xs = []
  take (suc n) [] = []
  take (suc n) (x ∷ xs) = x ∷ take n xs

  abbrev pub drop : ℕ → List A → List A
  drop zero xs = xs
  drop (suc n) [] = []
  drop (suc n) (x ∷ xs) = drop n xs

  pub length-append : (xs ys : List A) → length (xs ++ ys) ≡ length xs + length ys
  length-append [] ys = omega arith
  length-append (x ∷ xs) ys = omega (arith, length-append xs ys)

  pub take-append : (k : ℕ) (xs ys : List A) → k ≡ length xs → take k (xs ++ ys) ≡ xs
  take-append zero [] ys e = refl
  take-append zero (x ∷ xs) ys e = absurd (omega (arith, e))
  take-append (suc k) [] ys e = absurd (omega (arith, e))
  take-append (suc k) (x ∷ xs) ys e = ap (x ∷◌) (take-append k xs ys (omega (arith, e)))

  pub drop-append :
      (k : ℕ) (xs : List A) (y : A) (ys : List A) → k ≡ length xs + 1 → drop k (xs ++ (y ∷ ys)) ≡ ys
  drop-append zero xs y ys e = absurd (omega (arith, e))
  drop-append (suc zero) [] y ys e = refl
  drop-append (suc (suc k)) [] y ys e = absurd (omega (arith, e))
  drop-append (suc k) (x ∷ xs) y ys e = drop-append k xs y ys (omega (arith, e))

-- Every element has a property.
abbrev pub Each {ℓ} : {A : Type ℓ} → (A → Type 0) → List A → Type 0
Each P [] = Unit
Each P (x ∷ xs) = P x × Each P xs

pub Each-append {ℓ} :
    {A : Type ℓ} (P : A → Type 0) (xs ys : List A) → Each P xs → Each P ys → Each P (xs ++ ys)
Each-append P [] ys p q = q
Each-append P (x ∷ xs) ys p q = (p.0, Each-append P xs ys p.1 q)

pub Each-mono {ℓ} :
    {A : Type ℓ} (P Q : A → Type 0) (xs : List A) → ((x : A) → P x → Q x) → Each P xs → Each Q xs
Each-mono P Q [] f p = p
Each-mono P Q (x ∷ xs) f p = (f x p.0, Each-mono P Q xs f p.1)
