-- ===== src/Common/Lists.antt =====
-- Lists over the native numbers, under the library's names.
use Prim.Native.Nat.{ℕ, zero, suc, ◌+◌, ◌<◌}
use mathlib.Core.Path.{◌≡◌, refl, ap}
use mathlib.Core.Logic.{◌⊎◌, inl, inr}
use mathlib.Core.Bool.{Bool, true, false, ◌&&◌, ◌||◌}
use mathlib.Core.Option.{Option, none, some}
use mathlib.Core.List.{List, [], ◌∷◌, ◌++◌}
use native.Mathlib.Omega.{arith}

module _ {ℓ} {A : Type ℓ} where
  abbrev pub length : List A → ℕ
  length [] = 0
  length (x ∷ xs) = suc (length xs)

  abbrev pub get_elem? : List A → ℕ → Option A
  get_elem? [] i = none
  get_elem? (x ∷ xs) zero = some x
  get_elem? (x ∷ xs) (suc i) = get_elem? xs i

  abbrev pub all : (A → Bool) → List A → Bool
  all p [] = true
  all p (x ∷ xs) = p x && all p xs

  abbrev pub any : (A → Bool) → List A → Bool
  any p [] = false
  any p (x ∷ xs) = p x || any p xs

  pub length-append : (xs ys : List A) → length (xs ++ ys) ≡ length xs + length ys
  length-append [] ys = omega arith
  length-append (x ∷ xs) ys = omega (arith, length-append xs ys)

  -- What stands at an index of a list with one more element at its end.
  pub get_elem?-lt : (xs : List A) (i : ℕ) {y : A} → get_elem? xs i ≡ some y → i < length xs
  get_elem?-lt [] i h = cc
  get_elem?-lt (x ∷ xs) zero h = omega arith
  get_elem?-lt (x ∷ xs) (suc i) h = omega (arith, get_elem?-lt xs i h)

  pub get_elem?-concat :
      (xs : List A) (i : ℕ) (x : A) {y : A}
      → get_elem? xs i ≡ some y
      → get_elem? (xs ++ x ∷ []) i ≡ some y
  get_elem?-concat [] i x h = cc
  get_elem?-concat (z ∷ xs) zero x h = h
  get_elem?-concat (z ∷ xs) (suc i) x h = get_elem?-concat xs i x h

  pub get_elem?-concat_self : (xs : List A) (x : A) → get_elem? (xs ++ x ∷ []) (length xs) ≡ some x
  get_elem?-concat_self [] x = refl
  get_elem?-concat_self (z ∷ xs) x = get_elem?-concat_self xs x

  pub get_elem?-concat_inv :
      (xs : List A) (i : ℕ) (x : A) {y : A}
      → get_elem? (xs ++ x ∷ []) i ≡ some y
      → (get_elem? xs i ≡ some y) ⊎ ((i ≡ length xs) × (x ≡ y))
  get_elem?-concat_inv [] zero x h = inr (refl, cc)
  get_elem?-concat_inv [] (suc i) x h = cc
  get_elem?-concat_inv (z ∷ xs) zero x h = inl h
  get_elem?-concat_inv (z ∷ xs) (suc i) x h = elim (get_elem?-concat_inv xs i x h) [
    | inl p ↦ inl p
    | inr (p, q) ↦ inr (ap suc p, q)
  ]

  pub get_elem?-of_lt : (xs : List A) (i : ℕ) → i < length xs → (x : A) × (get_elem? xs i ≡ some x)
  get_elem?-of_lt [] i h = absurd (omega arith)
  get_elem?-of_lt (x ∷ xs) zero h = (x, refl)
  get_elem?-of_lt (x ∷ xs) (suc i) h = get_elem?-of_lt xs i (omega arith)
