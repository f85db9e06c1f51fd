-- ===== src/Tool/Schemas.antt =====
-- Schemas of pkg/tool/validate.go: copies, the zero schema, and validateSchema.
pub mod Laws
use gall_lib.Common.{
  String, Bool, true, false, ◌&&◌, ◌||◌, not, Option, none, some, List, [], ◌∷◌, ◌==◌,
  if◌then◌else◌,
}
use Prim.Native.String.{◌++◌ as text_append}
use gall_lib.Common.Results.{Result, ok, err, ◌>>◌}
use gall_lib.Text.{trim_space, contains}
use gall_lib.Tool.{
  Schema, Properties, Element, schema, no_more, property, unset, of, Reason, Sentinel, Cause,
}

abbrev pub type_of : Schema → String
type_of (schema t d ps es rs xs a) = t

abbrev pub properties : Schema → Properties
properties (schema t d ps es rs xs a) = ps

abbrev pub element : Schema → Element
element (schema t d ps es rs xs a) = es

abbrev pub required : Schema → List String
required (schema t d ps es rs xs a) = rs

abbrev pub enum : Schema → List String
enum (schema t d ps es rs xs a) = xs

-- schema.AdditionalProperties != nil && *schema.AdditionalProperties
abbrev pub allows_additional : Schema → Bool
allows_additional (schema t d ps es rs xs none) = false
allows_additional (schema t d ps es rs xs (some b)) = b

-- append([]string(nil), in...)
abbrev pub copy : List String → List String
copy [] = []
copy (s ∷ ss) = s ∷ copy ss

unfoldable mutual
  pub clone_schema : Schema → Schema
  clone_schema (schema t d ps es rs xs a) =
      schema t d (clone_properties ps) (clone_element es) (copy rs) (copy xs) a

  pub clone_properties : Properties → Properties
  clone_properties no_more = no_more
  clone_properties (property k s ps) = property k (clone_schema s) (clone_properties ps)

  pub clone_element : Element → Element
  clone_element unset = unset
  clone_element (of s) = of (clone_schema s)

unfoldable pub is_zero_schema : Schema → Bool
is_zero_schema (schema t d no_more unset [] [] none) = t == "" && d == ""
is_zero_schema _ = false

-- schema.Properties[name]
unfoldable pub get_property : String → Properties → Option Schema
get_property k no_more = none
get_property k (property j s ps) = if j == k then some s else get_property k ps

-- The keys of supportedSchemaTypes, which the switches on the type name.
pub data Kind : Type 0 where
  array boolean integer null number object string : Kind

unfoldable pub kind_of : String → Option Kind
kind_of t =
    if t == "array"
    then some array
    else if t == "boolean"
    then some boolean
    else if t == "integer"
    then some integer
    else if t == "null"
    then some null
    else if t == "number"
    then some number
    else if t == "object"
    then some object
    else if t == "string"
    then some string
    else none

abbrev pub text : Kind → String
text Kind.array = "array"
text Kind.boolean = "boolean"
text Kind.integer = "integer"
text Kind.null = "null"
text Kind.number = "number"
text Kind.object = "object"
text Kind.string = "string"

abbrev pub Checked : Type 0
Checked = Result Cause (Unit {0})

abbrev pub invalid_schema : Reason → Checked
invalid_schema r = err (Cause.marked Sentinel.err_invalid_schema r)

-- An early return if the test holds.
abbrev pub refuse_if : Bool → Checked → Checked
refuse_if true e = e
refuse_if false e = ok tt

abbrev pub declared : String → Properties → Bool
declared k ps = elim (get_property k ps) [ none ↦ false | some s ↦ true ]

-- The loop over schema.Required, with the names seen so far.
unfoldable pub validate_required : List String → List String → Properties → String → Checked
validate_required seen [] ps path = ok tt
validate_required seen (name ∷ names) ps path =
    refuse_if (contains seen name) (invalid_schema (Reason.duplicated path name))
    >> refuse_if (not (declared name ps)) (invalid_schema (Reason.undeclared path name))
    >> validate_required (name ∷ seen) names ps path

abbrev is_empty : List String → Bool
is_empty [] = true
is_empty _ = false

unfoldable pub validate_enum : String → List String → String → Checked
validate_enum t xs path =
    refuse_if (not (is_empty xs) && not (t == "string"))
      (invalid_schema (Reason.enum_not_string path))
    >> refuse_if (contains xs "") (invalid_schema (Reason.enum_empty path))

-- The switch on the type.
abbrev pub by_kind : Option Kind → Checked → Checked → Checked → Checked
by_kind none bad as_object as_array = bad
by_kind (some object) bad as_object as_array = as_object
by_kind (some array) bad as_object as_array = as_array
by_kind (some _) bad as_object as_array = ok tt

-- validateSchema, its loop over the properties, and its branch for the items of an array.
unfoldable mutual
  pub validate_schema : Schema → String → Checked
  validate_schema (schema t d ps es rs xs a) path =
      by_kind (kind_of t) (invalid_schema (Reason.unsupported path t))
        (validate_required [] rs ps path >> validate_properties ps path) (validate_items es path)
      >> validate_enum t xs path

  pub validate_properties : Properties → String → Checked
  validate_properties no_more path = ok tt
  validate_properties (property name s ps) path =
      refuse_if (trim_space name == "") (invalid_schema (Reason.empty_property path))
      >> validate_schema s (text_append path (text_append "." name))
      >> validate_properties ps path

  pub validate_items : Element → String → Checked
  validate_items unset path = ok tt
  validate_items (of s) path = validate_schema s (text_append path "[]")

unfoldable pub validate_input_schema : Schema → Checked
validate_input_schema s =
    refuse_if (not (type_of s == "object")) (invalid_schema Reason.input_not_object)
    >> validate_schema s "input"

unfoldable pub validate_output_schema : Schema → Checked
validate_output_schema s =
    refuse_if (trim_space (type_of s) == "") (invalid_schema Reason.output_untyped)
    >> validate_schema s "output"
