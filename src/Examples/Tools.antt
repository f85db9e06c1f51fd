-- ===== src/Examples/Tools.antt =====
-- A tool that adds, its toolkit and its calls: pkg/tool.
use gall_lib.Common.{ℕ, suc, String, ◌≡◌, ◌↔◌, refl, ap, true, none, some, [], ◌∷◌}
use gall_lib.Common.Dict.{get, put}
use gall_lib.Common.Results.{ok}
use gall_lib.Text.{trim_space, trim, trim_left, trim_right, is_space, contains}
use gall_lib.Types.{
  pos, Fields, empty, field, int, string, object, get_field, clone_value, clone_metadata,
}
use gall_lib.Tool.{Schema, schema, no_more, property, unset, Call, Output, Tool, Toolkit}
use gall_lib.Tool.Schemas.{
  kind_of, get_property, clone_schema, validate_schema, validate_enum, validate_properties,
  validate_required, validate_input_schema, validate_output_schema,
}
use gall_lib.Tool.Schemas.Laws.{accepts, well_formed, validate_schema_lem}
use gall_lib.Tool.Checks.{
  matches, validate_toolkit_name, validate_json_like, validate_name, effective_name, validate_value,
}
use gall_lib.Tool.Checks.Conforms.{conforms, is_json, validate_value_lem, validate_json_like_lem}
use gall_lib.Tool.Checks.Names.{before_dot, after_dot, effective_name_lem, accepts-validate_name}
use gall_lib.Tool.Define.{no_origin, drafted, descriptor_of, validate_tool, check_descriptor}
use gall_lib.Tool.Define.Laws.{is_descriptor, validate_tool-ok}
use gall_lib.Tool.Registry.{
  register_all, clone_entries, new_entry, add_entry, Registry, empty_registry, register,
  register_toolkits, resolve, resolved_tool,
}
use gall_lib.Tool.Registry.Laws.{IsTools, Grows, register-Grows}
use gall_lib.Tool.Registry.Toolkits.{register_toolkits-Grows}
use gall_lib.Tool.Registry.Resolved.{resolve-drafted}
use gall_lib.Tool.Invoke.{invoke, finish}
use gall_lib.Tool.Invoke.Laws.{IsReady, the_call, the_descriptor, invoke-ok, invoke-of_ready}

abbrev plain : String → Schema
plain t = schema t "" no_more unset [] [] none

abbrev pair : Schema
pair =
    schema "object" ""
      (property "n" (plain "integer")
        (property "unit" (schema "string" "" no_more unset [] ("m" ∷ "km" ∷ []) none) no_more))
      unset ("n" ∷ []) [] none

-- The world counts the calls.
abbrev World : Type 0
World = ℕ

abbrev output : Output
output = record { value = int (pos 7); content = "7"; metadata = [] }

abbrev add : Tool World
add = record {
  name = "add";
  description = " Adds one. ";
  input_schema = pair;
  output_schema = plain "integer";
  call = λ call w. (ok output, suc w);
  described = none;
}

abbrev math : Toolkit World
math = record { name = "math"; description = "Numbers"; namespace = "calc"; tools = some add ∷ [] }

abbrev input : Fields
input = field "n" (int (pos 6)) (field "unit" (string "km") empty)

abbrev call : Call
call = record {
  id = "c1";
  tool_name = "";
  run_id = "r1";
  session_id = "s1";
  agent_id = "a1";
  input = input;
  metadata = [];
}

abbrev no_tools : Registry World
no_tools = empty_registry

no_tools-IsTools : IsTools no_tools.tools
unfolding get
no_tools-IsTools = record { is_map = tt; entry = λ k e h. cc }

abbrev with_add : Registry World
with_add = (register (some add ∷ []) no_tools).1

with_add-IsTools : IsTools with_add.tools
with_add-IsTools = (register-Grows (some add ∷ []) no_tools no_tools-IsTools).inv

register-Grows_example : Grows no_tools.tools with_add.tools
register-Grows_example = register-Grows (some add ∷ []) no_tools no_tools-IsTools

register_toolkits-Grows_example :
    Grows with_add.tools (register_toolkits (some math ∷ none ∷ []) with_add).1.tools
register_toolkits-Grows_example =
    register_toolkits-Grows (some math ∷ none ∷ []) with_add with_add-IsTools

validate_value_lem_example :
    accepts (validate_value (object input) pair "input") ≡ conforms (object input) pair
validate_value_lem_example = validate_value_lem (object input) pair "input"

validate_schema_lem_example : accepts (validate_schema pair "input") ≡ well_formed pair
validate_schema_lem_example = validate_schema_lem pair "input"

accepts-validate_name_example : accepts (validate_name "add one" "tool name") ≡ matches "add one"
accepts-validate_name_example = accepts-validate_name "add one" "tool name"

calc_matches : matches "calc" ≡ true
unfolding matches
calc_matches = refl

effective_name_example :
    (before_dot (effective_name "calc" "add") ≡ "calc")
    × (after_dot (effective_name "calc" "add") ≡ "add")
effective_name_example = effective_name_lem "calc" "add" calc_matches

add_rules : is_descriptor (drafted add no_origin) ≡ true
unfolding drafted descriptor_of effective_name matches trim_space trim trim_left trim_right is_space
    contains clone_schema well_formed get_property
add_rules = refl

validate_tool-ok_example : (validate_tool (some add) no_origin ≡ ok (drafted add no_origin)) ↔ (
    (drafted add no_origin ≡ drafted add no_origin)
    × (is_descriptor (drafted add no_origin) ≡ true))
validate_tool-ok_example = validate_tool-ok add no_origin (drafted add no_origin)

conforming : conforms (object input) (drafted add no_origin).input_schema ≡ true
unfolding drafted conforms get_property contains clone_schema get_field
conforming = refl

ready : IsReady none add call 0
ready = record { definition = add_rules; identified = refl; input = conforming; alive = refl }

invoke-of_ready_example :
    invoke none (some add) call 0 ≡ (finish (the_descriptor add call) "c1" (ok output), 1)
invoke-of_ready_example = invoke-of_ready add call none 0 ready

returned : (invoke none (some add) call 0).0 ≡ ok output
unfolding finish validate_value kind_of clone_value clone_metadata drafted descriptor_of
    clone_schema
returned = ap (λ r. r.0) (invoke-of_ready add call none 0 ready)

invoke-ok_example :
    IsReady none add call 0
    × ((add.call (the_call add call) 0).0 ≡ ok output)
    × (conforms (int (pos 7)) (plain "integer") ≡ true)
invoke-ok_example = invoke-ok none add 0 output call returned

validate_json_like_lem_example :
    accepts (validate_json_like (object input) "input") ≡ is_json (object input)
validate_json_like_lem_example = validate_json_like_lem (object input) "input"

frozen : Tool World
frozen = resolved_tool (drafted add no_origin) add

found : resolve "add" with_add ≡ ok frozen
unfolding frozen resolve register register_all clone_entries new_entry validate_tool
    check_descriptor drafted descriptor_of effective_name matches trim_space trim trim_left
    trim_right is_space contains clone_schema get put add_entry validate_name validate_schema
    validate_properties validate_required validate_enum validate_input_schema validate_output_schema
    kind_of get_property validate_toolkit_name
found = refl

resolve-drafted_example :
    ((drafted frozen no_origin).name ≡ "add") × (is_descriptor (drafted frozen no_origin) ≡ true)
resolve-drafted_example = resolve-drafted with_add "add" frozen with_add-IsTools found
