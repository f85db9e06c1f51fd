-- ===== src/Tool/Define.antt =====
-- validateToolDefinition of pkg/tool/validate.go, and DescriptorOf of tool.go.
pub mod Laws
use gall_lib.Common.{
  String, Bool, true, false, ◌&&◌, ◌||◌, not, Option, none, some, List, [], ◌∷◌, ◌==◌,
  if◌then◌else◌,
}
use gall_lib.Common.Results.{Result, ok, err, ◌>>=◌, ◌>>◌}
use gall_lib.Text.{trim_space}
use gall_lib.Tool.{
  Schema, schema, no_more, unset, Descriptor, Tool, ErrorKind, Sentinel, Reason, Cause, Error,
  new_error,
}
use gall_lib.Tool.Schemas.{
  Checked, clone_schema, is_zero_schema, validate_input_schema, validate_output_schema,
}
use gall_lib.Tool.Checks.{validate_name, validate_toolkit_name, effective_name}

-- The origin of a tool: its toolkit, or two empty texts.
pub record Origin : Type 0 where
  pub name : String
  pub namespace : String

abbrev pub no_origin : Origin
no_origin = record { name = ""; namespace = "" }

unfoldable pub clone_descriptor : Descriptor → Descriptor
clone_descriptor d = record {
  name = d.name;
  local_name = d.local_name;
  description = d.description;
  toolkit = d.toolkit;
  namespace = d.namespace;
  input_schema = clone_schema d.input_schema;
  output_schema = clone_schema d.output_schema;
}

abbrev pub zero_schema : Schema
zero_schema = schema "" "" no_more unset [] [] none

abbrev pub zero_descriptor : Descriptor
zero_descriptor = record {
  name = "";
  local_name = "";
  description = "";
  toolkit = "";
  namespace = "";
  input_schema = zero_schema;
  output_schema = zero_schema;
}

abbrev pub or_else : String → String → String
or_else s t = if s == "" then t else s

abbrev pub or_schema : Schema → Schema → Schema
or_schema s t = if is_zero_schema s then t else s

-- What DescriptorOf fills in for a tool that describes itself.
abbrev pub completed : {W : Type 0} → Tool W → Descriptor → Descriptor
completed t d =
    let local : String = or_else d.local_name (trim_space t.name) in
    record {
      name = or_else d.name (effective_name d.namespace local);
      local_name = local;
      description = or_else d.description (trim_space t.description);
      toolkit = d.toolkit;
      namespace = d.namespace;
      input_schema = or_schema d.input_schema (clone_schema t.input_schema);
      output_schema = or_schema d.output_schema (clone_schema t.output_schema);
    }

abbrev pub plain_descriptor : {W : Type 0} → Tool W → Descriptor
plain_descriptor t = record {
  name = trim_space t.name;
  local_name = trim_space t.name;
  description = trim_space t.description;
  toolkit = "";
  namespace = "";
  input_schema = clone_schema t.input_schema;
  output_schema = clone_schema t.output_schema;
}

abbrev pub of_described : {W : Type 0} → Tool W → Option Descriptor → Descriptor
of_described t none = plain_descriptor t
of_described t (some d) = completed t (clone_descriptor d)

unfoldable pub descriptor_of : {W : Type 0} → Option (Tool W) → Descriptor
descriptor_of none = zero_descriptor
descriptor_of (some t) = of_described t t.described

-- _, ok := candidate.(describedTool); !ok || descriptor.Name == ""
abbrev pub takes_name : {W : Type 0} → Tool W → Descriptor → Bool
takes_name t d = elim t.described [ none ↦ true | some _ ↦ d.name == "" ]

-- The descriptor before it is checked.
unfoldable pub drafted : {W : Type 0} → Tool W → Origin → Descriptor
drafted t origin =
    let d = descriptor_of (some t) in
    let of_toolkit = not (origin.name == "") in
    let namespace : String = if of_toolkit then origin.namespace else d.namespace in
    record {
      name = if of_toolkit || takes_name t d then effective_name namespace t.name else d.name;
      local_name = t.name;
      description = trim_space t.description;
      toolkit = if of_toolkit then origin.name else d.toolkit;
      namespace = namespace;
      input_schema = clone_schema t.input_schema;
      output_schema = clone_schema t.output_schema;
    }

-- A check whose error is wrapped as the registration's.
abbrev pub because : ErrorKind → String → Descriptor → Checked → Result Error (Unit {0})
because k name d (ok _) = ok tt
because k name d (err c) = err (new_error k "register" name d.toolkit "" c)

abbrev pub unless_empty : String → Checked → Checked
unless_empty s check = if s == "" then ok tt else check

abbrev pub require : Bool → Reason → Checked
require true r = ok tt
require false r = err (Cause.marked Sentinel.err_invalid_tool r)

unfoldable pub check_descriptor : Descriptor → Result Error (Unit {0})
check_descriptor d =
    because ErrorKind.invalid_tool d.local_name d (validate_name d.local_name "tool name")
    >> because ErrorKind.invalid_tool d.name d
        (require (not (d.description == "")) Reason.description_required)
    >> because ErrorKind.invalid_tool d.name d
        (unless_empty d.toolkit (validate_toolkit_name d.toolkit))
    >> because ErrorKind.invalid_tool d.name d
        (unless_empty d.namespace (validate_name d.namespace "namespace"))
    >> because ErrorKind.invalid_tool d.name d
        (require (d.name == effective_name d.namespace d.local_name) (Reason.effective_name d.name))
    >> because ErrorKind.invalid_schema d.name d (validate_input_schema d.input_schema)
    >> because ErrorKind.invalid_schema d.name d (validate_output_schema d.output_schema)

abbrev pub nil_tool : Origin → Error
nil_tool origin =
    new_error ErrorKind.invalid_tool "register" "" origin.name ""
      (Cause.marked Sentinel.err_invalid_tool Reason.tool_nil)

unfoldable pub validate_tool : {W : Type 0} → Option (Tool W) → Origin → Result Error Descriptor
validate_tool none origin = err (nil_tool origin)
validate_tool (some t) origin = let d = drafted t origin in check_descriptor d >> ok d
