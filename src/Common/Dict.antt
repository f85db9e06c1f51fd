-- ===== src/Common/Dict.antt =====
-- Go maps with string keys, as association lists in iteration order. A nil map and an empty one
-- read alike, and both are `[]`.
use Prim.Native.String.{String}
use mathlib.Core.Path.{◌≡◌, refl}
use mathlib.Core.Bool.{Bool, true, false}
use mathlib.Core.Option.{Option, none, some}
use mathlib.Core.List.{List, [], ◌∷◌}
use native.Mathlib.Omega.{arith}
use text.Mathlib.Text.{◌==◌}
use text.Mathlib.TextEquality.{eq_iff}
use gall_lib.Common.Tests.{if◌then◌else◌}

abbrev pub Dict {ℓ} : Type ℓ → Type ℓ
Dict V = List (String × V)

abbrev pub is_some {ℓ} : {A : Type ℓ} → Option A → Bool
is_some none = false
is_some (some a) = true

module _ {ℓ} {V : Type ℓ} where
  unfoldable pub get : String → Dict V → Option V
  get key [] = none
  get key (entry ∷ rest) = if entry.0 == key then some entry.1 else get key rest

  unfoldable pub put : String → V → Dict V → Dict V
  put key value [] = (key, value) ∷ []
  put key value (entry ∷ rest) =
      let more = put key value rest in if entry.0 == key then (key, value) ∷ rest else entry ∷ more

  unfoldable pub remove : String → Dict V → Dict V
  remove key [] = []
  remove key (entry ∷ rest) =
      let more = remove key rest in if entry.0 == key then more else entry ∷ more

  pub get-nil : (key : String) → get key [] ≡ none
  unfolding get
  get-nil key = refl

  -- A write is read back at its key, and no other key is changed.
  pub get-put :
      (written key : String) (value : V) (m : Dict V)
      → get key (put written value m) ≡ (if written == key then some value else get key m)
  unfolding get put
  get-put written key value [] = refl
  get-put written key value (entry ∷ rest) =
      let ih = get-put written key value rest in
      ground (arith, ih, eq_iff entry.0 key, eq_iff written key, eq_iff entry.0 written)

  pub get-remove :
      (removed key : String) (m : Dict V)
      → get key (remove removed m) ≡ (if removed == key then none else get key m)
  unfolding get remove
  get-remove removed key [] = ground arith
  get-remove removed key (entry ∷ rest) =
      let ih = get-remove removed key rest in
      ground (arith, ih, eq_iff entry.0 key, eq_iff removed key, eq_iff entry.0 removed)

  -- A Go map holds each key once.
  abbrev pub IsMap : Dict V → Type 0
  IsMap [] = Unit
  IsMap (entry ∷ rest) = (is_some (get entry.0 rest) ≡ false) × IsMap rest

  pub put-IsMap : (key : String) (value : V) (m : Dict V) → IsMap m → IsMap (put key value m)
  unfolding get put
  put-IsMap key value [] h = (refl, tt)
  put-IsMap key value (entry ∷ rest) (fresh, h) = ground (
    arith,
    eq_iff entry.0 key,
    eq_iff key entry.0,
    get-put key entry.0 value rest,
    put-IsMap key value rest h,
  )

pub ruleset dict_laws = (get-nil, get-put, get-remove)
