-- ===== src/Tool/Checks.antt =====
-- The checks of names and of values of pkg/tool/validate.go.
pub mod Conforms
pub mod Names
use Prim.Native.Char.{Char, code}
use Prim.Native.String.{[] as nothing, ◌∷◌ as cons, ◌++◌ as text_append}
use gall_lib.Common.{
  ℕ, zero, suc, ◌+◌, String, Bool, true, false, ◌&&◌, ◌||◌, not, Option, none, some, List, [], ◌∷◌,
  ◌==◌, leb, eqb, if◌then◌else◌,
}
use gall_lib.Common.Results.{Result, ok, err, ◌>>◌}
use gall_lib.Text.{trim_space, contains, decimal}
use gall_lib.Types.{ℤ, Value, Items, Fields, Float, get_field}
use gall_lib.Types
use gall_lib.Tool.{Schema, Properties, Element, unset, of, Reason, Sentinel, Cause}
use gall_lib.Tool.Schemas.{
  Kind, kind_of, Checked, refuse_if, type_of, properties, element, required, enum,
  allows_additional, get_property, text,
}

-- The class [a-z0-9_-].
abbrev pub is_name_char : Char → Bool
is_name_char c =
    let n = code c in (leb 97 n && leb n 122) || (leb 48 n && leb n 57) || eqb n 95 || eqb n 45

abbrev pub is_lower : Char → Bool
is_lower c = let n = code c in leb 97 n && leb n 122

-- {0,n} of the class, up to the end of the text.
abbrev pub at_most : ℕ → String → Bool
at_most n nothing = true
at_most zero (cons c s) = false
at_most (suc n) (cons c s) = is_name_char c && at_most n s

-- namePattern: ^[a-z][a-z0-9_-]{0,63}$
unfoldable pub matches : String → Bool
matches nothing = false
matches (cons c s) = is_lower c && at_most 63 s

abbrev pub invalid_name : Reason → Checked
invalid_name r = err (Cause.marked Sentinel.err_invalid_tool r)

unfoldable pub validate_name : String → String → Checked
validate_name value label =
    refuse_if (value == "") (invalid_name (Reason.required label value))
    >> refuse_if (not (value == trim_space value)) (invalid_name (Reason.spaces label value))
    >> refuse_if (not (matches value)) (invalid_name (Reason.pattern label value))

unfoldable pub validate_toolkit_name : String → Checked
validate_toolkit_name name = validate_name name "toolkit name"

-- strings.Join of the namespace and the local name
unfoldable pub effective_name : String → String → String
effective_name namespace local =
    if namespace == "" then local else text_append namespace (text_append "." local)

abbrev pub is_finite : Float → Bool
is_finite (Float.finite m e) = true
is_finite _ = false

abbrev pub is_integer : Value → Bool
is_integer (Types.int n) = true
is_integer _ = false

abbrev pub is_number : Value → Bool
is_number (Types.int n) = true
is_number (Types.float x) = is_finite x
is_number _ = false

-- A text of a path: its parts are a field's name or an index.
abbrev pub sub_field : String → String → String
sub_field path key = text_append path (text_append "." key)

abbrev pub sub_item : String → ℕ → String
sub_item path n = text_append path (text_append "[" (text_append (decimal n) "]"))

abbrev pub mismatch : Reason → Checked
mismatch r = err (Cause.plain r)

unfoldable mutual
  pub validate_json_like : Value → String → Checked
  validate_json_like Types.nil path = ok tt
  validate_json_like (Types.bool b) path = ok tt
  validate_json_like (Types.string s) path = ok tt
  validate_json_like (Types.int n) path = ok tt
  validate_json_like (Types.float x) path =
      refuse_if (not (is_finite x)) (mismatch (Reason.not_finite path))
  validate_json_like (Types.array xs) path = validate_json_items xs 0 path
  validate_json_like (Types.object fs) path = validate_json_fields fs path
  validate_json_like (Types.other t) path = mismatch (Reason.not_json path)

  pub validate_json_items : Items → ℕ → String → Checked
  validate_json_items Types.end n path = ok tt
  validate_json_items (Types.item v xs) n path =
      validate_json_like v (sub_item path n) >> validate_json_items xs (n + 1) path

  pub validate_json_fields : Fields → String → Checked
  validate_json_fields Types.empty path = ok tt
  validate_json_fields (Types.field k v fs) path =
      validate_json_like v (sub_field path k) >> validate_json_fields fs path

abbrev pub present : String → Fields → Bool
present k fs = elim (get_field k fs) [ none ↦ false | some v ↦ true ]

-- The loop over schema.Required.
unfoldable pub check_required : List String → Fields → String → Checked
check_required [] fs path = ok tt
check_required (k ∷ ks) fs path =
    refuse_if (not (present k fs)) (mismatch (Reason.field_missing (sub_field path k)))
    >> check_required ks fs path

abbrev pub must_be : String → Kind → Checked
must_be path k = mismatch (Reason.must_be path (text k))

abbrev pub check_enum : List String → String → String → Checked
check_enum [] s path = ok tt
check_enum (x ∷ xs) s path =
    refuse_if (not (contains (x ∷ xs) s)) (mismatch (Reason.one_of path (x ∷ xs)))

-- The types without parts.
abbrev pub validate_scalar : Kind → Value → Schema → String → Checked
validate_scalar Kind.string (Types.string s) sch path = check_enum (enum sch) s path
validate_scalar Kind.string _ sch path = must_be path Kind.string
validate_scalar Kind.boolean (Types.bool b) sch path = ok tt
validate_scalar Kind.boolean _ sch path = must_be path Kind.boolean
validate_scalar Kind.integer v sch path = refuse_if (not (is_integer v)) (must_be path Kind.integer)
validate_scalar Kind.number v sch path = refuse_if (not (is_number v)) (must_be path Kind.number)
validate_scalar Kind.null Types.nil sch path = ok tt
validate_scalar Kind.null _ sch path = must_be path Kind.null
validate_scalar Kind.object v sch path = must_be path Kind.object
validate_scalar Kind.array v sch path = must_be path Kind.array

-- The switch of validateValueAgainstSchema: the branch for a value that has parts, if it is of the
-- type that the sch names, and otherwise the branches without a loop.
abbrev pub by_type : Option Kind → Value → Schema → String → Checked → Checked
by_type none v sch path parts =
    err (Cause.marked Sentinel.err_invalid_schema (Reason.unsupported path (type_of sch)))
by_type (some Kind.object) (Types.object fs) sch path parts =
    check_required (required sch) fs path >> parts
by_type (some Kind.object) Types.nil sch path parts = check_required (required sch) Types.empty path
by_type (some Kind.array) (Types.array xs) sch path parts = parts
by_type (some k) v sch path parts = validate_scalar k v sch path

-- validateValueAgainstSchema, and its loops over the items of an array and the fields of a map.
unfoldable mutual
  pub validate_value : Value → Schema → String → Checked
  validate_value (Types.object fs) s path =
      by_type (kind_of (type_of s)) (Types.object fs) s path (validate_fields fs s path)
  validate_value (Types.array xs) s path =
      by_type (kind_of (type_of s)) (Types.array xs) s path (validate_items xs (element s) 0 path)
  validate_value Types.nil s path = by_type (kind_of (type_of s)) Types.nil s path (ok tt)
  validate_value (Types.bool b) s path = by_type (kind_of (type_of s)) (Types.bool b) s path (ok tt)
  validate_value (Types.string t) s path =
      by_type (kind_of (type_of s)) (Types.string t) s path (ok tt)
  validate_value (Types.int n) s path = by_type (kind_of (type_of s)) (Types.int n) s path (ok tt)
  validate_value (Types.float x) s path =
      by_type (kind_of (type_of s)) (Types.float x) s path (ok tt)
  validate_value (Types.other t) s path =
      by_type (kind_of (type_of s)) (Types.other t) s path (ok tt)

  pub validate_items : Items → Element → ℕ → String → Checked
  validate_items Types.end es n path = ok tt
  validate_items (Types.item v xs) unset n path =
      validate_json_like v (sub_item path n) >> validate_items xs unset (n + 1) path
  validate_items (Types.item v xs) (of s) n path =
      validate_value v s (sub_item path n) >> validate_items xs (of s) (n + 1) path

  pub validate_fields : Fields → Schema → String → Checked
  validate_fields Types.empty s path = ok tt
  validate_fields (Types.field k v fs) s path =
      elim (get_property k (properties s)) [
        | none ↦
            refuse_if (not (allows_additional s)) (mismatch (Reason.field_extra (sub_field path k)))
            >> validate_json_like v (sub_field path k)
        | some p ↦ validate_value v p (sub_field path k)
      ]
      >> validate_fields fs s path
