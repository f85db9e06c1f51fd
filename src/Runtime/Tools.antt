-- ===== src/Runtime/Tools.antt =====
-- The tool calls of a run: invokePublicToolCall, executeSuggestedToolCall and what they note of a
-- call, of internal/runtime/engine.go.
pub mod Laws
use gall_lib.Common.{
  ℕ, String, Bool, true, false, Option, none, some, List, [], ◌∷◌, ◌++◌, ◌==◌, if◌then◌else◌,
}
use gall_lib.Common.Dict.{Dict, get}
use gall_lib.Common.Results as Results
use gall_lib.Common.Results.{Result}
use gall_lib.Common.{length}
use gall_lib.Context.{Interrupt}
use gall_lib.Text.{trim_space}
use gall_lib.Types.{
  string, object, other, field, empty, Fields, clone_map, Role, Message, clone_metadata, nil,
}
use gall_lib.Memory.{Record, add_message, add_record}
use gall_lib.Tool.{Tool, Output, Descriptor}
use gall_lib.Tool as ToolApi
use gall_lib.Tool.Define.{descriptor_of}
use gall_lib.Tool.Invoke as ToolCalls
use gall_lib.Agent.{ErrorKind, is_reserved}
use gall_lib.Runtime.{
  Reason, Cause, Failure, ToolCallRecord, ToolCallStatus, ToolCallEvent, EventType, Event,
  ModelToolCall, Ctx,
}
use gall_lib.Runtime.Copies.{
  clone_tool_result, clone_tool_call_record, clone_model_tool_calls, to_types_tool_calls,
  tool_result_content, new_tool_call_id,
}
use gall_lib.Runtime.Exec.{
  Sim, Outcome, ok, err, Exec, ◌>>=◌, ◌>>◌, pure, raise, modify, calling, reading,
}
use gall_lib.Runtime.Emitter.{Env, emit}
use gall_lib.Runtime.Guardrails.{classified_failure}

-- What the reasoning asks for.
pub data ReasoningKind : Type 0 where
  go_on call_tool respond : ReasoningKind

pub record ReasoningAction : Type 0 where
  pub kind : ReasoningKind
  pub tool_name : String
  pub tool_input : Fields
  pub tool_response : String
  pub note : String

abbrev pub blank_message : Role → Message
blank_message r = record {
  role = r;
  content = "";
  name = "";
  tool_call_id = "";
  tool_calls = [];
  metadata = [];
}

abbrev pub system_note : String → Message
system_note text = record {
  role = Role.system;
  content = text;
  name = "";
  tool_call_id = "";
  tool_calls = [];
  metadata = [];
}

unfoldable pub append_internal_reasoning_note : List Message → String → List Message
append_internal_reasoning_note conversation note =
    if trim_space note == ""
    then conversation
    else conversation ++ system_note (trim_space note) ∷ []

module _ {W : Type 0} (env : Env W) where
  -- conversation = append(conversation, m); working.AddMessage(m)
  unfoldable pub add_to_conversation : Message → Exec W (Unit {0})
  add_to_conversation m =
      modify
        λ s. record s { conversation = s.conversation ++ m ∷ []; working = add_message m s.working }

  abbrev pub calls_message : List ModelToolCall → Message
  calls_message calls = record {
    role = Role.assistant;
    content = "";
    name = "";
    tool_call_id = "";
    tool_calls = to_types_tool_calls (clone_model_tool_calls calls);
    metadata = [];
  }

  -- appendAssistantToolCallMessage
  abbrev pub append_assistant_tool_call_message : List ModelToolCall → Exec W (Unit {0})
  append_assistant_tool_call_message [] = pure tt
  append_assistant_tool_call_message (c ∷ calls) = add_to_conversation (calls_message (c ∷ calls))

  abbrev pub call_id : ModelToolCall → ℕ → ℕ → String
  call_id c step index = if c.id == "" then new_tool_call_id env.request.run_id step index else c.id

  abbrev pub ctx_err : Option (Ctx W) → Option (W → Option Interrupt)
  ctx_err none = none
  ctx_err (some ctx) = some ctx.err

  abbrev pub tool_envelope : String → String → Fields → ToolApi.Call
  tool_envelope id name input = record {
    id = id;
    tool_name = name;
    run_id = env.request.run_id;
    session_id = env.request.session_id;
    agent_id = env.definition.id;
    input = clone_map input;
    metadata = clone_metadata env.request.metadata;
  }

  abbrev pub tool_event : ToolCallRecord → ToolCallStatus → Option Failure → Event → Event
  tool_event call status error e = record e {
    tool_call = some (record { call = clone_tool_call_record call; status = status });
    error = error;
  }

  abbrev pub no_output : Output
  no_output = record { value = nil; content = ""; metadata = [] }

  -- After tool.Invoke: the failure is reported and returned, a result is recorded and reported.
  unfoldable pub after_invoke : ToolCallRecord → Result ToolApi.Error Output → Exec W ToolCallRecord
  after_invoke call (Results.err e) =
      let classified = classified_failure env "tool.call" (Cause.of_tool e) ErrorKind.tool_failed in
      emit env EventType.tool_result false
        (tool_event call ToolCallStatus.call_failed (some classified))
      >> raise classified
  after_invoke call (Results.ok result) =
      let done = record call { output = clone_tool_result result } in
      modify (λ s. record s { tool_calls = s.tool_calls ++ done ∷ [] })
      >> (emit env EventType.tool_result false (tool_event done ToolCallStatus.call_succeeded none)
          >> pure done)

  -- The call of a tool that the run may use.
  unfoldable pub invoke_tool : Tool W → ModelToolCall → ℕ → ℕ → Exec W ToolCallRecord
  unfolding after_invoke
  invoke_tool t c step index = do
    let id : String = call_id c step index
    let name : String = (descriptor_of (some t)).name
    let call : ToolCallRecord = record {
      id = id;
      name = name;
      input = clone_map c.input;
      output = no_output;
    }
    modify (λ s. record s { tool_used = true })
    emit env EventType.tool_call false (tool_event call ToolCallStatus.call_started none)
    answer ←
        calling (ToolCalls.invoke (ctx_err env.context) (some t) (tool_envelope id name c.input))
    after_invoke call answer

  abbrev pub available : String → Option (Tool W) → Exec W (Tool W)
  available name (some t) = pure t
  available name none = raise (
      classified_failure env "tool.resolve" (Cause.reason (Reason.unavailable_tool name))
        ErrorKind.tool_failed)

  unfoldable pub refuse_reserved : String → Exec W (Unit {0})
  refuse_reserved name =
      if is_reserved name
      then raise (
          classified_failure env "tool.resolve" (Cause.reason (Reason.reserved_tool name))
            ErrorKind.tool_failed)
      else pure tt

  -- `tools` are the run's tools.
  unfoldable pub invoke_public_tool_call :
      Dict (Tool W) → ModelToolCall → ℕ → ℕ → Exec W ToolCallRecord
  unfolding invoke_tool refuse_reserved
  invoke_public_tool_call tools c step index = do
    refuse_reserved c.name
    t ← available c.name (get c.name tools)
    invoke_tool t c step index

  -- working.AddRecord: the result itself is a Go struct inside of the record.
  abbrev pub call_record : ToolCallRecord → Record
  call_record call = record {
    kind = "tool_call";
    name = call.name;
    fields = field "call_id" (string call.id) (
        field "input" (object (clone_map call.input)) (field "output" (other "tool.Result") empty));
  }

  abbrev pub tool_message : ToolCallRecord → Message
  tool_message call = record {
    role = Role.tool;
    content = tool_result_content env.render call.output;
    name = call.name;
    tool_call_id = call.id;
    tool_calls = [];
    metadata = clone_metadata call.output.metadata;
  }

  unfoldable pub note_call : ToolCallRecord → Exec W (Unit {0})
  unfolding add_to_conversation
  note_call call =
      modify (λ s. record s { working = add_record (call_record call) s.working })
      >> add_to_conversation (tool_message call)

  unfoldable pub execute_suggested_tool_call :
      Dict (Tool W) → ℕ → ReasoningAction → Exec W (Unit {0})
  unfolding invoke_public_tool_call note_call
  execute_suggested_tool_call tools step action = do
    count ← reading (λ s. length s.tool_calls)
    let suggested : ModelToolCall = record {
      id = new_tool_call_id env.request.run_id step count;
      name = action.tool_name;
      input = clone_map action.tool_input;
    }
    append_assistant_tool_call_message (suggested ∷ [])
    call ← invoke_public_tool_call tools suggested step count
    note_call call
