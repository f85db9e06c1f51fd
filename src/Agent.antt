-- ===== src/Agent.antt =====
-- normalizeRequest of pkg/agent/agent.go with the checks of the allowed tools, and filterTools of
-- internal/runtime/engine.go, which chooses the tools of a run.
pub mod Laws
use Prim.Native.Char.{Char, code}
use Prim.Native.String.{[] as nothing, ◌∷◌ as cons, ◌++◌ as text_append}
use Prim.Native.Nat.{◌%◌, ◌^◌}
use gall_lib.Common.{
  ℕ, zero, suc, ◌+◌, String, Bool, true, false, ◌&&◌, ◌||◌, not, Option, none, some, List, [], ◌∷◌,
  ◌==◌, ltb, eqb, if◌then◌else◌,
}
use gall_lib.Common.Dict.{Dict, get, put}
use gall_lib.Common.Results.{Result, ok, err, ◌>>=◌, ◌>>◌}
use gall_lib.Text.{trim_space, contains, decimal}
use gall_lib.Types.{ℤ, pos, negsuc, Metadata, merge_metadata, Message, clone_messages}
use gall_lib.Tool.{Tool}
use gall_lib.Tool.Define.{descriptor_of}

pub data ToolChoice : Type 0 where
  unset auto no_tools must_use : ToolChoice
  other_choice : String → ToolChoice

pub record Request : Type 0 where
  pub run_id : String
  pub session_id : String
  pub messages : List Message
  pub metadata : Metadata
  pub max_steps : ℤ
  pub tool_choice : ToolChoice
  pub allowed_tools : List String

-- The fields of an Agent that normalizeRequest reads; of the memory only whether there is one.
pub record Agent (W : Type 0) : Type 0 where
  pub id : String
  pub max_steps : ℤ
  pub tools : List (Tool W)
  pub has_memory : Bool
  pub metadata : Metadata

pub data ErrorKind : Type 0 where
  invalid_config invalid_request no_engine guardrail_blocked tool_failed memory_failed : ErrorKind
  model_failed max_steps_exceeded canceled stream_aborted internal : ErrorKind

pub data Cause : Type 0 where
  context_required negative_steps session_required allowed_empty : Cause
  allowed_reserved allowed_unknown : String → Cause

pub record Error : Type 0 where
  pub kind : ErrorKind
  pub op : String
  pub agent_id : String
  pub run_id : String
  pub cause : Cause

-- a < b
abbrev pub less : ℤ → ℤ → Bool
less (pos a) (pos b) = ltb a b
less (pos a) (negsuc b) = false
less (negsuc a) (pos b) = true
less (negsuc a) (negsuc b) = ltb b a

-- strings.HasPrefix
unfoldable pub has_prefix : String → String → Bool
has_prefix nothing s = true
has_prefix (cons c p) nothing = false
has_prefix (cons c p) (cons d s) = eqb (code c) (code d) && has_prefix p s

unfoldable pub is_reserved : String → Bool
is_reserved name = has_prefix "reasoning." (trim_space name)

abbrev pub chosen : ToolChoice → ToolChoice
chosen unset = auto
chosen c = c

-- The request's bound where it is positive and smaller, and else the agent's.
abbrev pub step_budget : ℤ → ℤ → ℤ
step_budget limit asked = if less (pos 0) asked && less asked limit then asked else limit

abbrev pub refuse_if : Bool → Error → Result Error (Unit {0})
refuse_if true e = err e
refuse_if false e = ok tt

abbrev pub takes_number : Request → Bool
takes_number req = trim_space req.run_id == ""

abbrev pub is_empty : List String → Bool
is_empty [] = true
is_empty _ = false

abbrev pub admits : List String → String → Bool
admits allowed name = not (is_reserved name) && (is_empty allowed || contains allowed name)

module _ {W : Type 0} where
  unfoldable pub has_tool : String → List (Tool W) → Bool
  has_tool name [] = false
  has_tool name (t ∷ ts) = (descriptor_of (some t)).name == name || has_tool name ts

  abbrev pub request_error : Agent W → String → String → Cause → Error
  request_error a op run_id c = record {
    kind = ErrorKind.invalid_request;
    op = op;
    agent_id = a.id;
    run_id = run_id;
    cause = c;
  }

  -- The loop over the allowed names, with the names that were seen.
  unfoldable pub check_allowed :
      Agent W → String → String → List String → List String → Result Error (Unit {0})
  check_allowed a op run_id seen [] = ok tt
  check_allowed a op run_id seen (given ∷ names) =
      let name = trim_space given in
      let skip = check_allowed a op run_id seen names in
      let next = check_allowed a op run_id (name ∷ seen) names in
      refuse_if (name == "") (request_error a op run_id allowed_empty)
      >> refuse_if (is_reserved name) (request_error a op run_id (allowed_reserved name))
      >> (if contains seen name
          then skip
          else refuse_if (not (has_tool name a.tools))
              (request_error a op run_id (allowed_unknown name))
            >> next)

  -- The checks before the effective request is made.
  abbrev pub check_request : Agent W → String → Bool → Request → Result Error (Unit {0})
  check_request a op has_context req =
      refuse_if (not has_context) (request_error a op req.run_id context_required)
      >> refuse_if (less req.max_steps (pos 0)) (request_error a op req.run_id negative_steps)
      >> refuse_if (a.has_memory && trim_space req.session_id == "")
          (request_error a op req.run_id session_required)

  -- newRunID: runSequence is an atomic uint64.
  abbrev pub agent_run_id : Agent W → ℕ → String
  agent_run_id a sequence =
      text_append a.id (text_append "-run-" (decimal ((sequence + 1) % 2 ^ 64)))

  unfoldable pub effective_request : Agent W → Request → ℕ → Request
  effective_request a req sequence = record {
    run_id = if takes_number req then agent_run_id a sequence else trim_space req.run_id;
    session_id = trim_space req.session_id;
    messages = clone_messages req.messages;
    metadata = merge_metadata a.metadata req.metadata;
    max_steps = step_budget a.max_steps req.max_steps;
    tool_choice = chosen req.tool_choice;
    allowed_tools = req.allowed_tools;
  }

  -- `sequence` is runSequence before the call.
  unfoldable pub normalize_request : Agent W → String → Bool → Request → ℕ → Result Error Request
  normalize_request a op has_context req sequence = do
    check_request a op has_context req
    let effective : Request = effective_request a req sequence
    check_allowed a op effective.run_id [] effective.allowed_tools
    ok effective

  -- filterTools: the loop over the registered tools.
  unfoldable pub filter_loop : List String → List (Tool W) → Dict (Tool W) → Dict (Tool W)
  filter_loop allowed [] out = out
  filter_loop allowed (t ∷ ts) out =
      let name = (descriptor_of (some t)).name in
      let kept = filter_loop allowed ts (put name t out) in
      let skipped = filter_loop allowed ts out in if admits allowed name then kept else skipped

  abbrev pub filtered : List (Tool W) → List String → ToolChoice → Dict (Tool W)
  filtered registered allowed no_tools = []
  filtered registered allowed _ = filter_loop allowed registered []

  unfoldable pub filter_tools : List (Tool W) → Request → Dict (Tool W)
  filter_tools registered req = filtered registered req.allowed_tools req.tool_choice
