-- ===== src/Runtime/Copies.antt =====
-- The copies that the engine makes, the tool specifications for the model, and the ids of calls.
use Prim.Native.String.{◌++◌ as text_append}
use gall_lib.Common.{
  ℕ, ◌+◌, String, Bool, ◌||◌, Option, none, some, List, [], ◌∷◌, ◌==◌, if◌then◌else◌,
}
use gall_lib.Common.Dict.{Dict}
use gall_lib.Types.{
  Value, nil, ToolCall, clone_map, clone_value, clone_metadata, clone_message, MessageDelta,
}
use gall_lib.Text.{decimal}
use gall_lib.Memory.{Record}
use gall_lib.Tool.{Tool, Output}
use gall_lib.Tool.Define.{descriptor_of}
use gall_lib.Tool.Registry.{sort}
use gall_lib.Runtime.{Event, Response, ToolCallRecord, GuardrailDecision, ModelToolCall, ToolSpec}

unfoldable pub clone_tool_result : Output → Output
clone_tool_result r = record {
  value = clone_value r.value;
  content = r.content;
  metadata = clone_metadata r.metadata;
}

unfoldable pub clone_tool_call_record : ToolCallRecord → ToolCallRecord
unfolding clone_tool_result
clone_tool_call_record r = record {
  id = r.id;
  name = r.name;
  input = clone_map r.input;
  output = clone_tool_result r.output;
}

unfoldable pub clone_tool_call_records : List ToolCallRecord → List ToolCallRecord
unfolding clone_tool_call_record
clone_tool_call_records [] = []
clone_tool_call_records (r ∷ rs) = clone_tool_call_record r ∷ clone_tool_call_records rs

unfoldable pub clone_message_delta : MessageDelta → MessageDelta
clone_message_delta d = record { run_id = d.run_id; role = d.role; content = d.content }

unfoldable pub clone_guardrail_decision : GuardrailDecision → GuardrailDecision
clone_guardrail_decision d = record {
  phase = d.phase;
  name = d.name;
  action = d.action;
  reason = d.reason;
  metadata = clone_metadata d.metadata;
}

unfoldable pub clone_guardrail_decisions : List GuardrailDecision → List GuardrailDecision
unfolding clone_guardrail_decision
clone_guardrail_decisions [] = []
clone_guardrail_decisions (d ∷ ds) = clone_guardrail_decision d ∷ clone_guardrail_decisions ds

unfoldable pub clone_model_tool_calls : List ModelToolCall → List ModelToolCall
clone_model_tool_calls [] = []
clone_model_tool_calls (c ∷ cs) =
    record { id = c.id; name = c.name; input = clone_map c.input } ∷ clone_model_tool_calls cs

unfoldable pub to_types_tool_calls : List ModelToolCall → List ToolCall
to_types_tool_calls [] = []
to_types_tool_calls (c ∷ cs) =
    record { id = c.id; name = c.name; input = clone_map c.input } ∷ to_types_tool_calls cs

-- The content, and else the value in the text that json.Marshal or `%v` gives it.
abbrev pub rendered : (Value → String) → Value → String
rendered render nil = ""
rendered render value = render value

unfoldable pub tool_result_content : (Value → String) → Output → String
tool_result_content render r = if r.content == "" then rendered render r.value else r.content

-- filterPersistedRecords: the records of the reasoning are not kept.
abbrev pub is_internal : Record → Bool
is_internal r = r.kind == "reasoning_artifact" || r.kind == "reasoning_diagnostic"

unfoldable pub filter_persisted_records : List Record → List Record
filter_persisted_records [] = []
filter_persisted_records (r ∷ rs) =
    let rest = filter_persisted_records rs in
    if is_internal r
    then rest
    else record { kind = r.kind; name = r.name; fields = clone_map r.fields } ∷ rest

unfoldable pub new_tool_call_id : String → ℕ → ℕ → String
new_tool_call_id run_id step index =
    let suffix = text_append (decimal (step + 1)) (text_append "-" (decimal (index + 1))) in
    if run_id == ""
    then text_append "tool-call-" suffix
    else text_append run_id (text_append "-tool-" suffix)

-- The names of a run's tools in order, each with what the model is told of it.
unfoldable pub spec_list : {W : Type 0} → Dict (Tool W) → List ToolSpec
spec_list [] = []
spec_list ((name, t) ∷ ts) =
    let d = descriptor_of (some t) in
    record { name = d.name; description = d.description } ∷ spec_list ts

unfoldable pub build_tool_specs : {W : Type 0} → Dict (Tool W) → List ToolSpec
unfolding spec_list
build_tool_specs registered = spec_list (sort (λ entry. entry.0) registered)

-- if p != nil { clone := *p; out = &clone }
abbrev pub copied : {A : Type 0} → (A → A) → Option A → Option A
copied f none = none
copied f (some a) = some (f a)

unfoldable pub clone_response : Response → Response
clone_response r = record r {
  message = clone_message r.message;
  tool_calls = clone_tool_call_records r.tool_calls;
  guardrail_decisions = clone_guardrail_decisions r.guardrail_decisions;
  metadata = clone_metadata r.metadata;
}

unfoldable pub clone_agent_event : Event → Event
unfolding clone_response
clone_agent_event e = record {
  sequence = e.sequence;
  type = e.type;
  run_id = e.run_id;
  agent_id = e.agent_id;
  session_id = e.session_id;
  delta = copied (λ d. d) e.delta;
  tool_call =
      copied (λ t. record { call = clone_tool_call_record t.call; status = t.status }) e.tool_call;
  guardrail = copied (λ g. record g { metadata = clone_metadata g.metadata }) e.guardrail;
  response = copied clone_response e.response;
  error = e.error;
  metadata = clone_metadata e.metadata;
}
