-- ===== src/Common/Results.antt =====
-- A Go result `(value, error)`: one or the other, and the chain of early returns.
use mathlib.Core.Path.{◌≡◌, refl}
use mathlib.Core.Logic.{◌⊎◌, inl, inr}

pub data Result {ℓ} (Why Value : Type ℓ) : Type ℓ where
  err : Why → Result Why Value
  ok : Value → Result Why Value

module _ {ℓ} {Why : Type ℓ} where
  infixl 5 ◌>>=◌ ◌>>◌
  abbrev pub ◌>>=◌ : {S T : Type ℓ} → Result Why S → (S → Result Why T) → Result Why T
  err why >>= next = err why
  ok value >>= next = next value

  abbrev pub ◌>>◌ : {S T : Type ℓ} → Result Why S → Result Why T → Result Why T
  first >> second = first >>= (λ value. second)

  -- A chain that ends well went through a first result: go on from there.
  pub >>=-cases :
      {S T Goal : Type ℓ} (first : Result Why S) (next : S → Result Why T) {end : T}
      → first >>= next ≡ ok end
      → ((value : S) → first ≡ ok value → next value ≡ ok end → Goal)
      → Goal
  >>=-cases (err why) next h go = cc
  >>=-cases (ok value) next h go = go value refl h

  pub >>=-eq-ok :
      {S T : Type ℓ} (first : Result Why S) (next : S → Result Why T) {end : T}
      → first >>= next ≡ ok end
      → (value : S) × (first ≡ ok value) × (next value ≡ ok end)
  >>=-eq-ok first next h = >>=-cases first next h (λ value here there. (value, here, there))

  pub Result-cases :
      {T : Type ℓ} (r : Result Why T) → ((e : Why) × (r ≡ err e)) ⊎ ((a : T) × (r ≡ ok a))
  Result-cases (err e) = inl (e, refl)
  Result-cases (ok a) = inr (a, refl)
