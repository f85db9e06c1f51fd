-- ===== src/Text.antt =====
-- The parts of Go's `strings` and `unicode` that the sources call: TrimSpace, ToLower as far as the
-- identifiers need it, Trim of one character and Contains of a slice of strings.
pub mod Laws
use Prim.Native.Char.{Char, code}
use Prim.Native.String.{[] as nil, ◌∷◌ as cons}
use Prim.Native.Nat.{◌/◌, ◌%◌}
use Prim.Native.String.{char_at}
use gall_lib.Common.{
  ℕ, zero, suc, ltb, String, ◌≡◌, refl, Bool, true, false, not, ◌&&◌, ◌||◌, List, [], ◌∷◌, ◌==◌,
  leb, eqb, if◌then◌else◌,
}

-- unicode.IsSpace
unfoldable pub is_space : Char → Bool
is_space c =
    let n = code c in
    (leb 9 n && leb n 13)
    || eqb n 32
    || eqb n 0x85
    || eqb n 0xa0
    || eqb n 0x1680
    || (leb 0x2000 n && leb n 0x200a)
    || eqb n 0x2028
    || eqb n 0x2029
    || eqb n 0x202f
    || eqb n 0x205f
    || eqb n 0x3000

-- The characters of a class removed from the left, and from the right.
unfoldable pub trim_left : (Char → Bool) → String → String
trim_left p nil = nil
trim_left p (cons c s) = let rest = trim_left p s in if p c then rest else cons c s

abbrev pub cons_right : Bool → Char → String → String
cons_right p c nil = if p then nil else cons c nil
cons_right p c (cons d s) = cons c (cons d s)

unfoldable pub trim_right : (Char → Bool) → String → String
trim_right p nil = nil
trim_right p (cons c s) = cons_right (p c) c (trim_right p s)

-- strings.TrimFunc
unfoldable pub trim : (Char → Bool) → String → String
trim p s = trim_right p (trim_left p s)

-- strings.TrimSpace
unfoldable pub trim_space : String → String
trim_space s = trim is_space s

-- slices.Contains at strings
unfoldable pub contains : List String → String → Bool
contains [] s = false
contains (t ∷ ts) s = t == s || contains ts s

-- strings.ToLower, on the letters whose lower case is an ASCII letter: the Kelvin sign and the
-- dotted capital I are the two that lie outside of ASCII. Every other letter keeps its character
-- here; its lower case is no ASCII letter, and the sanitizers read both alike.
unfoldable pub translate : String → String → Char → Char
translate (cons a as') (cons b bs) c = if eqb (code a) (code c) then b else translate as' bs c
translate _ _ c = c

unfoldable pub lower_char : Char → Char
lower_char c = translate "ABCDEFGHIJKLMNOPQRSTUVWXYZKİ" "abcdefghijklmnopqrstuvwxyzki" c

unfoldable pub to_lower : String → String
to_lower nil = nil
to_lower (cons c s) = cons (lower_char c) (to_lower s)

-- fmt.Sprintf("%d", n). The fuel n + 1 is enough: each round divides by ten.
abbrev digit : ℕ → Char
digit d = char_at "0123456789" d

decimal_loop : ℕ → ℕ → String → String
decimal_loop zero n acc = acc
decimal_loop (suc f) n acc =
    let rest = decimal_loop f (n / 10) (cons (digit (n % 10)) acc) in
    if ltb n 10 then cons (digit n) acc else rest

unfoldable pub decimal : ℕ → String
unfolding decimal_loop
decimal n = decimal_loop (suc n) n nil

decimal_test : decimal 4070 ≡ "4070"
unfolding decimal
decimal_test = refl
