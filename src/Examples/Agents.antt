-- ===== src/Examples/Agents.antt =====
-- An agent with one tool: pkg/agent and the tool choice of internal/runtime.
use gall_lib.Common.{ℕ, ◌≡◌, refl, true, false, ◌&&◌, not, none, [], ◌∷◌, ◌==◌, all}
use gall_lib.Common.Dict.{get, is_some}
use gall_lib.Common.Results
use gall_lib.Common.Results.{Result, ok}
use gall_lib.Text.{trim_space, trim, trim_left, trim_right, is_space, contains}
use gall_lib.Types.{pos, nil, merge_metadata, clone_messages}
use gall_lib.Tool.{Schema, schema, no_more, unset, Tool}
use gall_lib.Tool.Define.{descriptor_of}
use gall_lib.Tool.Schemas.Laws.{accepts}
use gall_lib.Agent.{
  Agent, Request, auto, less, has_prefix, is_reserved, has_tool, check_allowed, effective_request,
  normalize_request, filter_tools,
}
use gall_lib.Agent.Laws.{
  is_known, accepts-normalize_request, normalize_request-ok, padded-filter_tools,
}

abbrev object_schema : Schema
object_schema = schema "object" "" no_more unset [] [] none

abbrev clock : Tool ℕ
clock = record {
  name = "clock";
  description = "Tells the time.";
  input_schema = object_schema;
  output_schema = object_schema;
  call = λ call w. (Results.ok (record { value = nil; content = ""; metadata = [] }), w);
  described = none;
}

abbrev helper : Agent ℕ
helper = record {
  id = "helper";
  max_steps = pos 8;
  tools = clock ∷ [];
  has_memory = false;
  metadata = [];
}

abbrev asked : Request
asked = record {
  run_id = "r1";
  session_id = "";
  messages = [];
  metadata = [];
  max_steps = pos 20;
  tool_choice = auto;
  allowed_tools = "clock" ∷ " clock " ∷ [];
}

abbrev answered : Request
answered = record asked { max_steps = pos 8 }

normalized : normalize_request helper "run" true asked 0 ≡ ok answered
unfolding normalize_request effective_request check_allowed has_tool is_reserved has_prefix
    descriptor_of contains trim_space trim trim_left trim_right is_space merge_metadata
    clone_messages
normalized = refl

accepts-normalize_request_example : accepts (normalize_request helper "run" true asked 0) ≡ (
    true
    && not (less asked.max_steps (pos 0))
    && not (helper.has_memory && trim_space asked.session_id == "")
    && all (λ k. is_known helper (trim_space k)) asked.allowed_tools)
accepts-normalize_request_example = accepts-normalize_request helper "run" true asked 0

normalize_request-ok_example :
    (less (pos 8) (pos 8) ≡ false)
    × (all (λ k. is_known helper (trim_space k)) answered.allowed_tools ≡ true)
normalize_request-ok_example = normalize_request-ok helper "run" true asked 0 answered normalized

abbrev padded : Request
padded = record asked { allowed_tools = " clock " ∷ [] }

is_padded : (trim_space " clock " == " clock ") ≡ false
unfolding trim_space trim trim_left trim_right is_space
is_padded = refl

is_clean : (trim_space "clock" == "clock") ≡ true
unfolding trim_space trim trim_left trim_right is_space
is_clean = refl

padded-filter_tools_example : is_some (get "clock" (filter_tools helper.tools padded)) ≡ false
padded-filter_tools_example =
    padded-filter_tools helper.tools padded " clock " "clock" refl is_padded is_clean
