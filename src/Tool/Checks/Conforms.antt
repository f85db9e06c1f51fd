-- ===== src/Tool/Checks/Conforms.antt =====
-- What validateValueAgainstSchema and validateJSONLike accept: the rules by the shape of the value.
use gall_lib.Common.{
  ℕ, ◌+◌, String, ◌≡◌, refl, sym, Bool, true, false, ◌&&◌, ◌||◌, Option, none, some, List, [], ◌∷◌,
  ◌==◌, arith, eq_iff, all, inl, inr, Option-cases,
}
use gall_lib.Common.Results.{ok}
use gall_lib.Text.{contains}
use gall_lib.Types
use gall_lib.Types.{Value, Items, Fields, get_field}
use gall_lib.Tool.{Schema, Element, unset, of}
use gall_lib.Tool.Schemas.{
  Kind, kind_of, text, Checked, type_of, properties, element, required, enum, allows_additional,
  get_property,
}
use gall_lib.Tool.Schemas.Laws.{accepts, accept_laws, kind_of-text}
use gall_lib.Tool.Checks.{
  is_finite, present, check_required, check_enum, by_type, validate_json_like, validate_json_items,
  validate_json_fields, validate_value, validate_items, validate_fields, sub_field, sub_item,
}

-- A value of JSON: no foreign type and no infinite number anywhere in it.
unfoldable mutual
  pub is_json : Value → Bool
  is_json (Types.float x) = is_finite x
  is_json (Types.array xs) = all_json xs
  is_json (Types.object fs) = all_json_fields fs
  is_json (Types.other t) = false
  is_json Types.nil = true
  is_json (Types.bool b) = true
  is_json (Types.string s) = true
  is_json (Types.int n) = true

  all_json : Items → Bool
  all_json Types.end = true
  all_json (Types.item v xs) = is_json v && all_json xs

  all_json_fields : Fields → Bool
  all_json_fields Types.empty = true
  all_json_fields (Types.field k v fs) = is_json v && all_json_fields fs

mutual
  unfolding is_json all_json all_json_fields validate_json_like validate_json_items
      validate_json_fields

  pub accepts-validate_json_like :
      (v : Value) (path : String) → accepts (validate_json_like v path) ≡ is_json v
  accepts-validate_json_like Types.nil path = refl
  accepts-validate_json_like (Types.bool b) path = refl
  accepts-validate_json_like (Types.string s) path = refl
  accepts-validate_json_like (Types.int n) path = refl
  accepts-validate_json_like (Types.float x) path = grind (arith, accept_laws)
  accepts-validate_json_like (Types.array xs) path = accepts-validate_json_items xs 0 path
  accepts-validate_json_like (Types.object fs) path = accepts-validate_json_fields fs path
  accepts-validate_json_like (Types.other t) path = refl

  accepts-validate_json_items :
      (xs : Items) (n : ℕ) (path : String) → accepts (validate_json_items xs n path) ≡ all_json xs
  accepts-validate_json_items Types.end n path = refl
  accepts-validate_json_items (Types.item v xs) n path = grind (
    arith,
    accept_laws,
    accepts-validate_json_like v (sub_item path n),
    accepts-validate_json_items xs (n + 1) path,
  )

  accepts-validate_json_fields :
      (fs : Fields) (path : String) → accepts (validate_json_fields fs path) ≡ all_json_fields fs
  accepts-validate_json_fields Types.empty path = refl
  accepts-validate_json_fields (Types.field k v fs) path = grind (
    arith,
    accept_laws,
    accepts-validate_json_like v (sub_field path k),
    accepts-validate_json_fields fs path,
  )

abbrev one_of : List String → String → Bool
one_of [] t = true
one_of (x ∷ xs) t = contains (x ∷ xs) t

abbrev has_required : Schema → Fields → Bool
has_required s fs = all (λ k. present k fs) (required s)

-- The types that admit a value of each shape, and what they ask of it beside its parts.
abbrev shape_ok : (Kind → Bool) → Value → Schema → Bool → Bool
shape_ok named Types.nil s parts =
    named Kind.null || (named Kind.object && has_required s Types.empty)
shape_ok named (Types.bool b) s parts = named Kind.boolean
shape_ok named (Types.string t) s parts = named Kind.string && one_of (enum s) t
shape_ok named (Types.int n) s parts = named Kind.integer || named Kind.number
shape_ok named (Types.float x) s parts = named Kind.number && is_finite x
shape_ok named (Types.array xs) s parts = named Kind.array && parts
shape_ok named (Types.object fs) s parts = named Kind.object && has_required s fs && parts
shape_ok named (Types.other t) s parts = false

-- The text of a schema's type is the kind's.
abbrev has_type : Schema → Kind → Bool
has_type s k = type_of s == text k

-- A value conforms to a schema: its shape is one of the type's, an object has the required fields,
-- each declared field and each item conforms to its own schema, and what no schema describes is JSON
-- and, in an object, allowed.
unfoldable mutual
  pub conforms : Value → Schema → Bool
  conforms (Types.array xs) s =
      shape_ok (has_type s) (Types.array xs) s (conform_items xs (element s))
  conforms (Types.object fs) s = shape_ok (has_type s) (Types.object fs) s (conform_fields fs s)
  conforms Types.nil s = shape_ok (has_type s) Types.nil s true
  conforms (Types.bool b) s = shape_ok (has_type s) (Types.bool b) s true
  conforms (Types.string t) s = shape_ok (has_type s) (Types.string t) s true
  conforms (Types.int n) s = shape_ok (has_type s) (Types.int n) s true
  conforms (Types.float x) s = shape_ok (has_type s) (Types.float x) s true
  conforms (Types.other t) s = false

  conform_items : Items → Element → Bool
  conform_items Types.end es = true
  conform_items (Types.item v xs) unset = is_json v && conform_items xs unset
  conform_items (Types.item v xs) (of s) = conforms v s && conform_items xs (of s)

  conform_fields : Fields → Schema → Bool
  conform_fields Types.empty s = true
  conform_fields (Types.field k v fs) s =
      elim (get_property k (properties s)) [
        | none ↦ allows_additional s && is_json v
        | some p ↦ conforms v p
      ]
      && conform_fields fs s

accepts-check_required :
    (ks : List String) (fs : Fields) (path : String)
    → accepts (check_required ks fs path) ≡ all (λ k. present k fs) ks
unfolding check_required
accepts-check_required [] fs path = refl
accepts-check_required (k ∷ ks) fs path =
    grind (arith, accept_laws, accepts-check_required ks fs path)

accepts-check_enum :
    (xs : List String) (t path : String) → accepts (check_enum xs t path) ≡ one_of xs t
accepts-check_enum [] t path = refl
accepts-check_enum (x ∷ xs) t path = grind (arith, accept_laws)

-- Which kind the switch found.
abbrev is_kind : Option Kind → Kind → Bool
is_kind (some Kind.array) Kind.array = true
is_kind (some Kind.boolean) Kind.boolean = true
is_kind (some Kind.integer) Kind.integer = true
is_kind (some Kind.null) Kind.null = true
is_kind (some Kind.number) Kind.number = true
is_kind (some Kind.object) Kind.object = true
is_kind (some Kind.string) Kind.string = true
is_kind _ _ = false

kind_of-of_text : (k : Kind) → kind_of (text k) ≡ some k
unfolding kind_of
kind_of-of_text Kind.array = refl
kind_of-of_text Kind.boolean = refl
kind_of-of_text Kind.integer = refl
kind_of-of_text Kind.null = refl
kind_of-of_text Kind.number = refl
kind_of-of_text Kind.object = refl
kind_of-of_text Kind.string = refl

text-is_kind : (j k : Kind) → (text k == text j) ≡ is_kind (some k) j
text-is_kind j k = ground (arith, eq_iff (text k) (text j), kind_of-of_text k, kind_of-of_text j)

not_kind : (t : String) (j : Kind) → kind_of t ≡ none → (t == text j) ≡ false
unfolding kind_of
not_kind t j h = ground arith

has_type-is_kind : (t : String) (j : Kind) → (t == text j) ≡ is_kind (kind_of t) j
has_type-is_kind t j = elim (Option-cases (kind_of t)) [
  | inl e ↦ rw e (not_kind t j e)
  | inr (k, e) ↦ rw (e, kind_of-text t k e) (text-is_kind j k)
]

accepts-by_kind :
    (o : Option Kind) (v : Value) (s : Schema) (path : String) (parts : Checked)
    → accepts (by_type o v s path parts) ≡ shape_ok (is_kind o) v s (accepts parts)
accepts-by_kind o Types.nil s path parts = grind (arith, accept_laws, accepts-check_required)
accepts-by_kind o (Types.bool b) s path parts = ground arith
accepts-by_kind o (Types.string t) s path parts = grind (arith, accepts-check_enum)
accepts-by_kind o (Types.int n) s path parts = ground arith
accepts-by_kind o (Types.float x) s path parts = grind (arith, accept_laws)
accepts-by_kind o (Types.array xs) s path parts = ground arith
accepts-by_kind o (Types.object fs) s path parts =
    grind (arith, accept_laws, accepts-check_required)
accepts-by_kind o (Types.other t) s path parts = ground arith

accepts-by_type :
    (v : Value) (s : Schema) (path : String) (parts : Checked)
    → accepts (by_type (kind_of (type_of s)) v s path parts)
      ≡ shape_ok (has_type s) v s (accepts parts)
accepts-by_type v s path parts =
    let same : has_type s ≡ is_kind (kind_of (type_of s)) =
      λ i k. has_type-is_kind (type_of s) k i in
    rw same (accepts-by_kind (kind_of (type_of s)) v s path parts)

mutual
  unfolding conforms conform_items conform_fields validate_value validate_items validate_fields

  pub accepts-validate_value :
      (v : Value) (s : Schema) (path : String) → accepts (validate_value v s path) ≡ conforms v s
  accepts-validate_value Types.nil s path = accepts-by_type Types.nil s path (ok tt)
  accepts-validate_value (Types.bool b) s path = accepts-by_type (Types.bool b) s path (ok tt)
  accepts-validate_value (Types.string t) s path = accepts-by_type (Types.string t) s path (ok tt)
  accepts-validate_value (Types.int n) s path = accepts-by_type (Types.int n) s path (ok tt)
  accepts-validate_value (Types.float x) s path = accepts-by_type (Types.float x) s path (ok tt)
  accepts-validate_value (Types.other t) s path = accepts-by_type (Types.other t) s path (ok tt)
  accepts-validate_value (Types.array xs) s path =
      rw (sym (accepts-validate_items xs (element s) 0 path))
        (accepts-by_type (Types.array xs) s path _)
  accepts-validate_value (Types.object fs) s path =
      rw (sym (accepts-validate_fields fs s path)) (accepts-by_type (Types.object fs) s path _)

  accepts-validate_items :
      (xs : Items) (es : Element) (n : ℕ) (path : String)
      → accepts (validate_items xs es n path) ≡ conform_items xs es
  accepts-validate_items Types.end es n path = refl
  accepts-validate_items (Types.item v xs) unset n path = grind (
    arith,
    accept_laws,
    accepts-validate_json_like v (sub_item path n),
    accepts-validate_items xs unset (n + 1) path,
  )
  accepts-validate_items (Types.item v xs) (of s) n path = grind (
    arith,
    accept_laws,
    accepts-validate_value v s (sub_item path n),
    accepts-validate_items xs (of s) (n + 1) path,
  )

  accepts-validate_fields :
      (fs : Fields) (s : Schema) (path : String)
      → accepts (validate_fields fs s path) ≡ conform_fields fs s
  accepts-validate_fields Types.empty s path = refl
  accepts-validate_fields (Types.field k v fs) s path =
      elim (Option-cases (get_property k (properties s))) [
        | inl e ↦
            rw (e, validate_fields, conform_fields)
              (grind (
                arith,
                accept_laws,
                accepts-validate_json_like v (sub_field path k),
                accepts-validate_fields fs s path,
              ))
        | inr (p, e) ↦
            rw (e, validate_fields, conform_fields)
              (grind (
                arith,
                accept_laws,
                accepts-validate_value v p (sub_field path k),
                accepts-validate_fields fs s path,
              ))
      ]

-- At every path, validateValueAgainstSchema accepts a value exactly if the value conforms to the
-- schema: its shape is one that the schema's type admits, an object has the required fields, every
-- declared field and every item conforms to its own schema, and what no schema describes is JSON
-- and, in an object, allowed.
pub validate_value_lem :
    (v : Value) (s : Schema) (path : String) → accepts (validate_value v s path) ≡ conforms v s
validate_value_lem v s path = accepts-validate_value v s path

-- At every path, validateJSONLike accepts a value exactly if it holds no foreign type and no
-- infinite number or NaN at any depth.
pub validate_json_like_lem :
    (v : Value) (path : String) → accepts (validate_json_like v path) ≡ is_json v
validate_json_like_lem v path = accepts-validate_json_like v path
