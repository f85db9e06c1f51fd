-- ===== src/Tool.antt =====
-- pkg/tool/tool.go and errors.go: schemas, tools, their envelopes and their errors. `W` is everything
-- outside of the library, which a tool's Call reads and changes.
pub mod Schemas
pub mod Checks
pub mod Define
pub mod Registry
pub mod Invoke
use gall_lib.Common.{ℕ, String, Bool, true, false, ◌||◌, Option, none, some, List, [], ◌∷◌}
use gall_lib.Common.Results.{Result}
use gall_lib.Context.{Interrupt, Fault}
use gall_lib.Types.{Value, Fields, Metadata}

pub data ErrorKind : Type 0 where
  invalid_tool invalid_toolkit invalid_schema invalid_input invalid_output : ErrorKind
  name_conflict not_found execution canceled : ErrorKind

pub data Sentinel : Type 0 where
  err_invalid_tool err_invalid_toolkit err_invalid_schema err_invalid_input : Sentinel
  err_invalid_output err_name_conflict err_tool_not_found : Sentinel

-- The texts that the package formats: a constructor for a format, with its arguments.
pub data Reason : Type 0 where
  tool_nil toolkit_nil nil_tool description_required id_required : Reason
  required spaces pattern : String → String → Reason
  effective_name : String → Reason
  input_not_object output_untyped : Reason
  unsupported : String → String → Reason
  duplicated undeclared : String → String → Reason
  empty_property enum_not_string enum_empty : String → Reason
  must_be : String → String → Reason
  field_missing field_extra not_finite not_json : String → Reason
  one_of : String → List String → Reason
  duplicate_tool unregistered : String → Reason
  conflict : String → String → String → Reason

-- What an error wraps: a sentinel with a text (`%w: …`), an error that other code returned, an error
-- of this package, or a text alone.
mutual
  pub data Cause : Type 0 where
    marked : Sentinel → Reason → Cause
    wrapped : Fault → Cause
    interrupted : Interrupt → Cause
    nested : Error → Cause
    plain : Reason → Cause

  -- kind, op, tool name, toolkit name, call id, cause
  pub data Error : Type 0 where
    new_error : ErrorKind → String → String → String → String → Cause → Error

abbrev pub kind : Error → ErrorKind
kind (new_error k op tool toolkit call cause) = k

-- Error.Is: a sentinel matches by the error's kind.
abbrev pub kind_is : ErrorKind → Sentinel → Bool
kind_is invalid_tool err_invalid_tool = true
kind_is invalid_toolkit err_invalid_toolkit = true
kind_is invalid_schema err_invalid_schema = true
kind_is invalid_input err_invalid_input = true
kind_is invalid_output err_invalid_output = true
kind_is name_conflict err_name_conflict = true
kind_is not_found err_tool_not_found = true
kind_is _ _ = false

abbrev pub same_sentinel : Sentinel → Sentinel → Bool
same_sentinel err_invalid_tool err_invalid_tool = true
same_sentinel err_invalid_toolkit err_invalid_toolkit = true
same_sentinel err_invalid_schema err_invalid_schema = true
same_sentinel err_invalid_input err_invalid_input = true
same_sentinel err_invalid_output err_invalid_output = true
same_sentinel err_name_conflict err_name_conflict = true
same_sentinel err_tool_not_found err_tool_not_found = true
same_sentinel _ _ = false

-- errors.Is at a sentinel: along the chain of what the errors wrap.
unfoldable mutual
  pub is : Error → Sentinel → Bool
  is (new_error k op tool toolkit call cause) s = kind_is k s || cause_is cause s

  pub cause_is : Cause → Sentinel → Bool
  cause_is (marked t r) s = same_sentinel t s
  cause_is (wrapped f) s = false
  cause_is (interrupted i) s = false
  cause_is (nested e) s = is e s
  cause_is (plain r) s = false

-- Schema: a Go struct that holds maps of itself and a pointer to itself. The fields are Type,
-- Description, Properties, Items, Required, Enum and AdditionalProperties.
mutual
  pub data Schema : Type 0 where
    schema :
        String → String → Properties → Element → List String → List String → Option Bool → Schema

  pub data Properties : Type 0 where
    no_more : Properties
    property : String → Schema → Properties → Properties

  pub data Element : Type 0 where
    unset : Element
    of : Schema → Element

pub record Call : Type 0 where
  pub id : String
  pub tool_name : String
  pub run_id : String
  pub session_id : String
  pub agent_id : String
  pub input : Fields
  pub metadata : Metadata

pub record Output : Type 0 where
  pub value : Value
  pub content : String
  pub metadata : Metadata

pub record Descriptor : Type 0 where
  pub name : String
  pub local_name : String
  pub description : String
  pub toolkit : String
  pub namespace : String
  pub input_schema : Schema
  pub output_schema : Schema

pub record ToolkitDescriptor : Type 0 where
  pub name : String
  pub description : String
  pub namespace : String
  pub tool_count : ℕ

-- The interface Tool: the answers of its methods, and Call. `described` is the answer of Descriptor
-- where the tool has that method. The context is part of W.
pub record Tool (W : Type 0) : Type 0 where
  pub name : String
  pub description : String
  pub input_schema : Schema
  pub output_schema : Schema
  pub call : Call → W → Result Fault Output × W
  pub described : Option Descriptor

-- An interface value may be nil.
pub record Toolkit (W : Type 0) : Type 0 where
  pub name : String
  pub description : String
  pub namespace : String
  pub tools : List (Option (Tool W))
