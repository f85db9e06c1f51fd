-- ===== src/Workflow/Ids/Laws.antt =====
-- What an identifier looks like, and that normalizing leaves one as it is.
use Prim.Native.Char.{Char}
use Prim.Native.String.{[] as nil, ◌∷◌ as cons}
use text.Mathlib.TextEquality.{Char-path}
use gall_lib.Common.{
  String, ◌≡◌, refl, Bool, true, false, not, ◌&&◌, ◌||◌, ◌==◌, arith, Bool-cases, inl, inr,
  if◌then◌else◌,
}
use gall_lib.Text.{
  to_lower, lower_char, translate, trim, trim_space, trim_left, trim_right, is_space, cons_right,
}
use gall_lib.Text.Laws.{head_is, last_is, last_is-trim, trim_of_clean}
use gall_lib.Workflow.Ids.{is_id_char, is_dash, sanitize, or_default, normalize_id}

-- Letters of [a-z0-9] and single dashes; the flag says that a dash may not come next.
abbrev pub well_spaced : Bool → String → Bool
well_spaced prev nil = true
well_spaced prev (cons c s) =
    if is_dash c then not prev && well_spaced true s else is_id_char c && well_spaced false s

-- Not empty, no dash at either end and none beside another.
pub record IsId (s : String) : Type 0 where
  pub spaced : well_spaced true s ≡ true
  pub closed : last_is is_dash s ≡ false
  pub inhabited : (s == "") ≡ false

well_spaced-weaken : (s : String) → well_spaced true s ≡ true → well_spaced false s ≡ true
well_spaced-weaken nil h = refl
well_spaced-weaken (cons c s) h = ground arith

well_spaced-sanitize : (b : Bool) (s : String) → well_spaced b (sanitize b s) ≡ true
unfolding sanitize
well_spaced-sanitize b nil = refl
well_spaced-sanitize true (cons c s) =
    ground (arith, well_spaced-sanitize true s, well_spaced-sanitize false s)
well_spaced-sanitize false (cons c s) =
    ground (arith, well_spaced-sanitize true s, well_spaced-sanitize false s)

well_spaced-trim_left :
    (b : Bool) (s : String) → well_spaced b s ≡ true → well_spaced true (trim_left is_dash s) ≡ true
unfolding trim_left
well_spaced-trim_left b nil h = refl
well_spaced-trim_left b (cons c s) h = ground (arith, well_spaced-trim_left true s)

well_spaced-cons_right :
    (drop b : Bool) (c : Char) (t : String)
    → well_spaced b (cons c t) ≡ true
    → well_spaced b (cons_right drop c t) ≡ true
well_spaced-cons_right true b c nil h = refl
well_spaced-cons_right false b c nil h = h
well_spaced-cons_right drop b c (cons d t) h = h

well_spaced-trim_right :
    (b : Bool) (s : String) → well_spaced b s ≡ true → well_spaced b (trim_right is_dash s) ≡ true
unfolding trim_right
well_spaced-trim_right b nil h = refl
well_spaced-trim_right b (cons c s) h =
    well_spaced-cons_right (is_dash c) b c (trim_right is_dash s)
      (ground (arith, well_spaced-trim_right true s, well_spaced-trim_right false s))

or_default-IsId :
    (fallback id : String)
    → IsId fallback
    → well_spaced true id ≡ true
    → last_is is_dash id ≡ false
    → IsId (or_default fallback id)
unfolding or_default
or_default-IsId fallback id h w l = elim (Bool-cases (id == "")) [
  | inl e ↦ rw e h
  | inr e ↦ rw e (record { spaced = w; closed = l; inhabited = e })
]

-- Whatever the name, the identifier that it is normalized to is well formed, given that the word
-- for the empty identifier is.
pub normalize_id-IsId : (fallback name : String) → IsId fallback → IsId (normalize_id fallback name)
unfolding normalize_id trim
normalize_id-IsId fallback name h =
    let raw : String = sanitize false (to_lower (trim_space name)) in
    or_default-IsId fallback (trim is_dash raw) h
      (well_spaced-trim_right true (trim_left is_dash raw)
        (well_spaced-trim_left false raw (well_spaced-sanitize false (to_lower (trim_space name)))))
      (last_is-trim is_dash raw)

-- Each character of an identifier is lower case, no space, and kept.
abbrev is_plain : Char → Bool
is_plain c = is_id_char c || is_dash c

abbrev all_plain : String → Bool
all_plain nil = true
all_plain (cons c s) = is_plain c && all_plain s

all_plain-well_spaced : (b : Bool) (s : String) → well_spaced b s ≡ true → all_plain s ≡ true
all_plain-well_spaced b nil h = refl
all_plain-well_spaced b (cons c s) h =
    ground (arith, all_plain-well_spaced true s, all_plain-well_spaced false s)

abbrev none_plain : String → Bool
none_plain nil = true
none_plain (cons c s) = not (is_plain c) && none_plain s

translate_plain :
    (as' bs : String) (c : Char)
    → none_plain as' ≡ true
    → is_plain c ≡ true
    → translate as' bs c ≡ c
unfolding translate
translate_plain nil bs c h p = refl
translate_plain (cons a as') nil c h p = refl
translate_plain (cons a as') (cons b bs) c h p = ground (arith, translate_plain as' bs c)

lower_char_plain : (c : Char) → is_plain c ≡ true → lower_char c ≡ c
unfolding lower_char
lower_char_plain c h = translate_plain _ _ c refl h

to_lower_plain : (s : String) → all_plain s ≡ true → to_lower s ≡ s
unfolding to_lower
to_lower_plain nil h = refl
to_lower_plain (cons c s) h = ground (arith, lower_char_plain c, to_lower_plain s)

is_space_plain : (c : Char) → is_plain c ≡ true → is_space c ≡ false
unfolding is_space
is_space_plain c h = ground arith

dash_of_is_dash : (c : Char) → is_dash c ≡ true → c ≡ "-"
dash_of_is_dash c h = Char-path c "-" (ground arith)

sanitize-well_spaced : (b : Bool) (s : String) → well_spaced b s ≡ true → sanitize b s ≡ s
unfolding sanitize
sanitize-well_spaced b nil h = refl
sanitize-well_spaced true (cons c s) h = ground (arith, sanitize-well_spaced false s)
sanitize-well_spaced false (cons c s) h =
    ground (arith, sanitize-well_spaced true s, sanitize-well_spaced false s, dash_of_is_dash c)

head_is_plain : (s : String) → all_plain s ≡ true → head_is is_space s ≡ false
head_is_plain nil h = refl
head_is_plain (cons c s) h = ground (arith, is_space_plain c)

last_is_plain : (s : String) → all_plain s ≡ true → last_is is_space s ≡ false
last_is_plain nil h = refl
last_is_plain (cons c nil) h = ground (arith, is_space_plain c)
last_is_plain (cons c (cons d s)) h = last_is_plain (cons d s) (ground arith)

head_is_dash : (s : String) → well_spaced true s ≡ true → head_is is_dash s ≡ false
head_is_dash nil h = refl
head_is_dash (cons c s) h = ground arith

-- An identifier is normalized to itself.
pub normalize_id_of_IsId : (fallback id : String) → IsId id → normalize_id fallback id ≡ id
unfolding normalize_id trim_space or_default
normalize_id_of_IsId fallback id h =
    let plain = all_plain-well_spaced true id h.spaced in
    rw (
      trim_of_clean is_space id (head_is_plain id plain) (last_is_plain id plain),
      to_lower_plain id plain,
      sanitize-well_spaced false id (well_spaced-weaken id h.spaced),
      trim_of_clean is_dash id (head_is_dash id h.spaced) h.closed,
      h.inhabited,
    )

-- If the word for the empty identifier is well formed, then whatever the name, the identifier that
-- it is normalized to is well formed (letters a to z, digits and single dashes between them, not
-- empty), and normalizing it again changes nothing.
pub normalize_id_lem :
    (fallback name : String)
    → IsId fallback
    → IsId (normalize_id fallback name)
      × (normalize_id fallback (normalize_id fallback name) ≡ normalize_id fallback name)
normalize_id_lem fallback name h =
    let id = normalize_id-IsId fallback name h in
    (id, normalize_id_of_IsId fallback (normalize_id fallback name) id)
