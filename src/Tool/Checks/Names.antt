-- ===== src/Tool/Checks/Names.antt =====
-- validateName and effectiveName: the names that are accepted, and that effective names do not clash.
use Prim.Native.Char.{Char, code}
use Prim.Native.String.append
use Prim.Native.String.{[] as nothing, ◌∷◌ as cons, ◌++◌ as text_append}
use gall_lib.Common.{
  ℕ, zero, suc, String, ◌≡◌, refl, sym, ap, ◌∙◌, true, false, ◌||◌, ◌==◌, eqb, arith, eq_iff,
  eq_refl, inl, inr, Bool-cases, if◌then◌else◌,
}
use gall_lib.Text.{is_space, trim_space}
use gall_lib.Text.Laws.{last_is, trim_of_clean}
use gall_lib.Tool.Schemas.Laws.{accepts, accept_laws}
use gall_lib.Tool.Checks.{is_name_char, is_lower, at_most, matches, validate_name, effective_name}

is_name_char-space : (c : Char) → is_name_char c ≡ true → is_space c ≡ false
unfolding is_space
is_name_char-space c h = ground arith

is_lower-name_char : (c : Char) → is_lower c ≡ true → is_name_char c ≡ true
is_lower-name_char c h = ground arith

last_is-at_most : (n : ℕ) (s : String) → at_most n s ≡ true → last_is is_space s ≡ false
last_is-at_most n nothing h = refl
last_is-at_most zero (cons c s) h = cc
last_is-at_most (suc n) (cons c nothing) h = is_name_char-space c (ground arith)
last_is-at_most (suc n) (cons c (cons d s)) h = last_is-at_most n (cons d s) (ground arith)

trim_space-matches : (s : String) → matches s ≡ true → trim_space s ≡ s
unfolding matches trim_space
trim_space-matches nothing h = cc
trim_space-matches (cons c s) h =
    let named : is_name_char c ≡ true = ground (arith, is_lower-name_char c) in
    trim_of_clean is_space (cons c s) (is_name_char-space c named)
      (last_is-at_most 64 (cons c s) (ground arith))

matches-empty : matches "" ≡ false
unfolding matches
matches-empty = refl

pub matches-nothing : (s : String) → matches s ≡ true → (s == "") ≡ false
matches-nothing s h = ground (arith, eq_iff s "", matches-empty)

-- Under every label, validateName accepts a name exactly if it matches the pattern: the guards for
-- the empty name and for surrounding white space refuse nothing that the pattern admits.
pub accepts-validate_name :
    (value label : String) → accepts (validate_name value label) ≡ matches value
unfolding validate_name
accepts-validate_name value label = elim (Bool-cases (matches value)) [
  | inl e ↦ rw (e, trim_space-matches value e, matches-nothing value e, eq_refl value) refl
  | inr e ↦ rw e (grind (arith, accept_laws))
]

-- The text before the first dot, and the text after it.
abbrev pub before_dot : String → String
before_dot nothing = nothing
before_dot (cons c s) = let rest = before_dot s in if eqb (code c) 46 then nothing else cons c rest

abbrev pub after_dot : String → String
after_dot nothing = nothing
after_dot (cons c s) = let rest = after_dot s in if eqb (code c) 46 then s else rest

is_name_char-dot : (c : Char) → is_name_char c ≡ true → eqb (code c) 46 ≡ false
is_name_char-dot c h = ground arith

module _ (t : String) where
  before_dot-append :
      (n : ℕ) (s : String) → at_most n s ≡ true → before_dot (text_append s (text_append "." t)) ≡ s
  before_dot-append n nothing h = rw (append.nil (text_append "." t), append.cons "." "" t) refl
  before_dot-append zero (cons c s) h = cc
  before_dot-append (suc n) (cons c s) h =
      rw (append.cons c s (text_append "." t), is_name_char-dot c (ground arith))
        (ap (cons c) (before_dot-append n s (ground arith)))

  after_dot-append :
      (n : ℕ) (s : String) → at_most n s ≡ true → after_dot (text_append s (text_append "." t)) ≡ t
  after_dot-append n nothing h =
      rw (append.nil (text_append "." t), append.cons "." "" t, append.nil t) refl
  after_dot-append zero (cons c s) h = cc
  after_dot-append (suc n) (cons c s) h =
      rw (append.cons c s (text_append "." t), is_name_char-dot c (ground arith))
        (after_dot-append n s (ground arith))

at_most-matches : (s : String) → matches s ≡ true → at_most 64 s ≡ true
unfolding matches
at_most-matches nothing h = cc
at_most-matches (cons c s) h = ground (arith, is_lower-name_char c)

-- The effective name of a tool in a namespace whose name keeps the pattern can be taken apart: the
-- text before its first dot is the namespace and the text after it the local name. So tools of
-- different namespaces, or of different local names in one, never share an effective name.
pub effective_name_lem :
    (namespace local : String)
    → matches namespace ≡ true
    → (before_dot (effective_name namespace local) ≡ namespace)
      × (after_dot (effective_name namespace local) ≡ local)
unfolding effective_name
effective_name_lem namespace local h =
    let short : at_most 64 namespace ≡ true = at_most-matches namespace h in
    rw (matches-nothing namespace h)
      (before_dot-append local 64 namespace short, after_dot-append local 64 namespace short)

-- No effective name is empty.
pub effective_name-nothing :
    (namespace local : String)
    → matches local ≡ true
    → (namespace == "" || matches namespace) ≡ true
    → (effective_name namespace local == "") ≡ false
effective_name-nothing namespace local h n = elim (Bool-cases (namespace == "")) [
  | inl e ↦ unfold effective_name in rw e (matches-nothing local h)
  | inr e ↦
      let m : matches namespace ≡ true = ground arith in
      elim (Bool-cases (effective_name namespace local == "")) [
        | inl empty ↦
            let shown : effective_name namespace local ≡ "" =
              (eq_iff (effective_name namespace local) "").0 empty in
            let same : "" ≡ namespace =
              ap before_dot (sym shown) ∙ (effective_name_lem namespace local m).0 in
            ground (arith, eq_iff namespace "")
        | inr other ↦ other
      ]
]
