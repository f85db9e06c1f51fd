-- ===== src/Text/Laws.antt =====
-- What trimming leaves: no character of the class at either end, and nothing more to trim.
use Prim.Native.Char.{Char}
use Prim.Native.String.{[] as nil, ◌∷◌ as cons}
use gall_lib.Common.{String, ◌≡◌, refl, inl, inr, Bool, false, arith, Bool-cases}
use gall_lib.Text.{is_space, trim_left, trim_right, trim, trim_space, cons_right}

abbrev pub head_is : (Char → Bool) → String → Bool
head_is p nil = false
head_is p (cons c s) = p c

abbrev pub last_is : (Char → Bool) → String → Bool
last_is p nil = false
last_is p (cons c nil) = p c
last_is p (cons c (cons d s)) = last_is p (cons d s)

module _ (p : Char → Bool) where
  head_is-trim_left : (s : String) → head_is p (trim_left p s) ≡ false
  unfolding trim_left
  head_is-trim_left nil = refl
  head_is-trim_left (cons c s) = ground (arith, head_is-trim_left s)

  trim_left_of_head_is : (s : String) → head_is p s ≡ false → trim_left p s ≡ s
  unfolding trim_left
  trim_left_of_head_is nil h = refl
  trim_left_of_head_is (cons c s) h = ground arith

  cons_right_head :
      (b : Bool) (c : Char) (s : String) → p c ≡ false → p c ≡ b → cons_right b c s ≡ cons c s
  cons_right_head b c nil h e = ground arith
  cons_right_head b c (cons d s) h e = refl

  head_is-trim_right : (s : String) → head_is p s ≡ false → head_is p (trim_right p s) ≡ false
  unfolding trim_right
  head_is-trim_right nil h = refl
  head_is-trim_right (cons c s) h = rw (cons_right_head (p c) c (trim_right p s) h refl) h

  last_is-cons_right :
      (c : Char) (s : String) → last_is p s ≡ false → last_is p (cons_right (p c) c s) ≡ false
  last_is-cons_right c nil h = elim (Bool-cases (p c)) [ inl e ↦ rw e refl | inr e ↦ rw e e ]
  last_is-cons_right c (cons d s) h = h

  last_is-trim_right : (s : String) → last_is p (trim_right p s) ≡ false
  unfolding trim_right
  last_is-trim_right nil = refl
  last_is-trim_right (cons c s) = last_is-cons_right c (trim_right p s) (last_is-trim_right s)

  trim_right_of_last_is : (s : String) → last_is p s ≡ false → trim_right p s ≡ s
  unfolding trim_right
  trim_right_of_last_is nil h = refl
  trim_right_of_last_is (cons c nil) h = ground arith
  trim_right_of_last_is (cons c (cons d s)) h = rw (trim_right_of_last_is (cons d s) h)

  pub head_is-trim : (s : String) → head_is p (trim p s) ≡ false
  unfolding trim
  head_is-trim s = head_is-trim_right (trim_left p s) (head_is-trim_left s)

  pub last_is-trim : (s : String) → last_is p (trim p s) ≡ false
  unfolding trim
  last_is-trim s = last_is-trim_right (trim_left p s)

  pub trim_of_clean : (s : String) → head_is p s ≡ false → last_is p s ≡ false → trim p s ≡ s
  unfolding trim
  trim_of_clean s h l = rw (trim_left_of_head_is s h) (trim_right_of_last_is s l)

  pub trim_idem : (s : String) → trim p (trim p s) ≡ trim p s
  trim_idem s = trim_of_clean (trim p s) (head_is-trim s) (last_is-trim s)

pub trim_space_idem : (s : String) → trim_space (trim_space s) ≡ trim_space s
unfolding trim_space
trim_space_idem s = trim_idem is_space s
