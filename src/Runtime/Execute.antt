-- ===== src/Runtime/Execute.antt =====
-- `execute` of internal/runtime/engine.go: the loop between the model and the tools, and Run and
-- Stream, which call it. The working memory is the package's in-memory one. What the reasoning does
-- is a parameter: it reads the run, acts on the world, and adds records to the working memory.
pub mod Laws
pub mod Steps
use gall_lib.Common.{
  ℕ, zero, suc, ◌+◌, String, Bool, true, false, ◌&&◌, ◌||◌, not, Option, none, some, List, [], ◌∷◌,
  ◌++◌, ◌==◌, if◌then◌else◌,
}
use gall_lib.Common.Dict.{Dict}
use gall_lib.Common.Results as Results
use gall_lib.Common.Results.{Result}
use gall_lib.Context.{Interrupt}
use gall_lib.Types.{
  ℤ, pos, negsuc, Role, assistant, Message, Usage, add_usage, Metadata, clone_message,
  clone_messages, clone_metadata, merge_metadata,
}
use gall_lib.Memory.{
  Record, Snapshot, Delta, WorkingSet, no_snapshot, clone_snapshot, new_run_state, add_message,
  add_record, working_snapshot,
}
use gall_lib.Tool.{Tool}
use gall_lib.Agent.{ErrorKind, ToolChoice, no_tools, must_use, filter_tools}
use gall_lib.Runtime.{
  Sentinel, Reason, Cause, Failure, failed, Foreign, EventType, ModelToolCall, ModelRequest,
  ModelResponse, GuardrailDecision, Response, MemoryStore, Definition, ToolCallRecord, Ctx,
}
use gall_lib.Runtime.Classify.{of_interrupt}
use gall_lib.Runtime.Copies.{
  clone_model_tool_calls, clone_tool_call_records, clone_guardrail_decisions,
  filter_persisted_records, build_tool_specs,
}
use gall_lib.Runtime.Exec.{
  Sim, Outcome, ok, err, running, panicked, Exec, ◌>>=◌, ◌>>◌, pure, raise, calling, modify,
  reading,
}
use gall_lib.Runtime.Emitter.{Env, emit, fail, stop_if_canceled, preserve_correlation_metadata}
use gall_lib.Runtime.Guardrails.{
  is_unset, classified_failure, apply_input_guardrails, apply_output_guardrails,
}
use gall_lib.Runtime.Tools.{
  ReasoningKind, go_on, call_tool, respond, ReasoningAction, append_internal_reasoning_note,
  add_to_conversation, calls_message, invoke_public_tool_call, note_call,
  execute_suggested_tool_call,
}
use gall_lib.Runtime.Collect.{no_tool_calls, model_op, collect_model_response, with_assistant}

abbrev pub must_call : ToolChoice → Bool
must_call must_use = true
must_call _ = false

module _ {W : Type 0} (env : Env W) where
  -- return agent.Response{}, emitter.fail(ctx, err)
  abbrev pub report : {A : Type 0} → Outcome A × Sim W → Outcome A × Sim W
  report (ok a, s) = (ok a, s)
  report (err f, s) = fail env f s
  report (running, s) = (running, s)
  report (panicked, s) = (panicked, s)

  abbrev pub reporting : {A : Type 0} → Exec W A → Exec W A
  reporting m s = report (m s)

  unfoldable pub fail_with : {A : Type 0} → String → Cause → ErrorKind → Exec W A
  unfolding fail
  fail_with op c kind = fail env (classified_failure env op c kind)

  abbrev pub out_of_steps : {A : Type 0} → Exec W A
  out_of_steps =
      fail_with "run.max_steps" (Cause.sentinel Sentinel.max_steps) ErrorKind.max_steps_exceeded

  abbrev pub loaded : Result Foreign Snapshot → Exec W Snapshot
  loaded (Results.ok s) = pure (clone_snapshot s)
  loaded (Results.err f) = fail_with "memory.load" (Cause.foreign f) ErrorKind.memory_failed

  abbrev pub load_memory : Option (MemoryStore W) → Exec W Snapshot
  load_memory none = pure no_snapshot
  load_memory (some store) = calling (store.load env.request.session_id) >>= loaded

  abbrev pub interrupt_now : Option (Ctx W) → W → Option Interrupt
  interrupt_now none w = none
  interrupt_now (some ctx) w = ctx.err w

  abbrev pub opened : Result Interrupt WorkingSet → Exec W (Unit {0})
  opened (Results.ok working) = modify (λ s. record s { working = working })
  opened (Results.err i) =
      fail_with "working_memory.new" (Cause.sentinel (of_interrupt i)) ErrorKind.internal

  abbrev pub model_request : Dict (Tool W) → Snapshot → Sim W → ModelRequest
  model_request tools memory s = record {
    agent_id = env.definition.id;
    run_id = env.request.run_id;
    session_id = env.request.session_id;
    instructions = env.definition.instructions;
    messages = clone_messages s.conversation;
    memory = clone_snapshot memory;
    metadata = clone_metadata env.request.metadata;
    max_steps = env.request.max_steps;
    tool_choice = env.request.tool_choice;
    allowed_tools = env.request.allowed_tools;
    tools = build_tool_specs tools;
  }

  abbrev pub saved : Option Foreign → Exec W (Unit {0})
  saved none = pure tt
  saved (some f) = fail_with "memory.save" (Cause.foreign f) ErrorKind.memory_failed

  abbrev pub save_memory : Option (MemoryStore W) → Message → Metadata → Exec W (Unit {0})
  save_memory none message metadata = pure tt
  save_memory (some store) message metadata = do
    snapshot ← reading (λ s. working_snapshot s.working)
    answer ← calling (
        store.save env.request.session_id (record {
          messages = clone_messages snapshot.messages;
          records = filter_persisted_records snapshot.records;
          response = some (clone_message message);
          metadata = clone_metadata metadata;
        }))
    saved answer

  abbrev pub response_of : Message → Metadata → Sim W → Response
  response_of message metadata s = record {
    run_id = env.request.run_id;
    agent_id = env.definition.id;
    session_id = env.request.session_id;
    message = message;
    usage = s.usage;
    tool_calls = clone_tool_call_records s.tool_calls;
    guardrail_decisions = clone_guardrail_decisions s.decisions;
    metadata = metadata;
  }

  abbrev pub unless_missing : Bool → Exec W (Unit {0})
  unless_missing true =
      fail_with "tool.required" (Cause.reason Reason.tool_required) ErrorKind.tool_failed
  unless_missing false = pure tt

  unfoldable pub require_tool : Exec W (Unit {0})
  require_tool s = unless_missing (must_call env.request.tool_choice && not s.tool_used) s

  -- The end of a run whose model asked for no tool: the output guardrails, the memory, the response.
  unfoldable pub complete : ModelResponse → Message → Exec W Response
  complete answer candidate = do
    require_tool
    out ← reporting (apply_output_guardrails env candidate)
    modify λ s. record s { decisions = s.decisions ++ out.1; working = add_message out.0 s.working }
    let metadata : Metadata =
        preserve_correlation_metadata (merge_metadata env.request.metadata answer.metadata)
          env.request.metadata
    save_memory env.definition.memory out.0 metadata
    response ← reading (response_of out.0 metadata)
    emit env EventType.agent_completed true
        (λ e. record e { response = some response; metadata = clone_metadata response.metadata })
    pure response
