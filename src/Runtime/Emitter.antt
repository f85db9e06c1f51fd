-- ===== src/Runtime/Emitter.antt =====
-- The event emitter of a run: emit, enrichMetadata and fail of internal/runtime/engine.go.
use gall_lib.Common.{
  ℕ, ◌+◌, String, Bool, true, false, ◌&&◌, ◌||◌, not, Option, none, some, List, [], ◌∷◌, ◌==◌,
  if◌then◌else◌,
}
use gall_lib.Types.{Value, Metadata, clone_metadata, merge_metadata}
use gall_lib.Memory.{read}
use gall_lib.Common.Dict.{put}
use gall_lib.Agent.{Request}
use gall_lib.Runtime.{
  Phase, ActionKind, Sentinel, aborted, canceled, deadline, Error, Failure, failed,
  GuardrailDecision, ToolCallStatus, ToolCallEvent, Response, EventType, Event, Definition, Ctx,
}
use gall_lib.Runtime.Classify.{failure_is, check_canceled}
use gall_lib.Runtime.Copies.{clone_agent_event}
use gall_lib.Runtime.Exec.{Sim, Exec, ok, err}

-- What a run is given: the agent, the request, the context, whether the run is streamed, what a
-- send to the stream's channel does (the consumer takes it, or the context ends first), and the
-- text of a tool's value.
pub record Env (W : Type 0) : Type 0 where
  pub definition : Definition W
  pub request : Request
  pub context : Option (Ctx W)
  pub streaming : Bool
  pub send : Event → W → W
  pub render : Value → String

abbrev pub phase_name : Phase → String
phase_name Phase.input = "input"
phase_name Phase.stream = "stream"
phase_name Phase.output = "output"

abbrev pub action_name : ActionKind → String
action_name ActionKind.allow = "allow"
action_name ActionKind.block = "block"
action_name ActionKind.transform = "transform"
action_name ActionKind.drop = "drop"
action_name ActionKind.abort = "abort"
action_name (ActionKind.other_action a) = a

abbrev pub status_name : ToolCallStatus → String
status_name ToolCallStatus.call_started = "started"
status_name ToolCallStatus.call_succeeded = "succeeded"
status_name ToolCallStatus.call_failed = "failed"

abbrev pub event_name : EventType → String
event_name EventType.agent_started = "agent.started"
event_name EventType.agent_delta = "agent.delta"
event_name EventType.tool_call = "agent.tool_call"
event_name EventType.tool_result = "agent.tool_result"
event_name EventType.guardrail_event = "agent.guardrail"
event_name EventType.agent_completed = "agent.completed"
event_name EventType.agent_failed = "agent.failed"
event_name EventType.agent_canceled = "agent.canceled"

abbrev pub with_tool_call : Option ToolCallEvent → Metadata → Metadata
with_tool_call none md = md
with_tool_call (some t) md = merge_metadata md (
    ("tool_name", t.call.name)
    ∷ ("tool_call_id", t.call.id)
    ∷ ("tool_status", status_name t.status)
    ∷ [])

abbrev pub with_guardrail : Option GuardrailDecision → Metadata → Metadata
with_guardrail none md = md
with_guardrail (some g) md =
    merge_metadata
      (merge_metadata md (
        ("phase", phase_name g.phase)
        ∷ ("guardrail_name", g.name)
        ∷ ("action", action_name g.action)
        ∷ []))
      g.metadata

abbrev pub with_response : Option Response → Metadata → Metadata
with_response none md = md
with_response (some r) md = merge_metadata md (("response_run_id", r.run_id) ∷ [])

-- errors.Is(event.Err, s); a nil error matches nothing.
abbrev pub error_is : Option Failure → Sentinel → Bool
error_is none s = false
error_is (some f) s = failure_is f s

abbrev pub ends_canceled : Failure → Bool
ends_canceled f = failure_is f aborted || failure_is f canceled || failure_is f deadline

unfoldable pub end_event : Failure → EventType
end_event f = if ends_canceled f then EventType.agent_canceled else EventType.agent_failed

-- preserveCorrelationMetadata: the request's correlation ids stand in the response's metadata.
abbrev pub keep_key : Metadata → Metadata → String → Metadata
keep_key request md key = if read request key == "" then md else put key (read request key) md

unfoldable pub preserve_correlation_metadata : Metadata → Metadata → Metadata
preserve_correlation_metadata md request =
    keep_key request (keep_key request (keep_key request md "trace_id") "span_id") "parent_span_id"

module _ {W : Type 0} (env : Env W) where
  unfoldable pub enrich_metadata : Event → Metadata
  enrich_metadata e = with_response e.response (
      with_guardrail e.guardrail (
        with_tool_call e.tool_call (
          merge_metadata e.metadata (
            ("component", "agent")
            ∷ ("event_type", event_name e.type)
            ∷ ("agent_id", env.definition.id)
            ∷ ("agent_name", env.definition.name)
            ∷ ("run_id", env.request.run_id)
            ∷ ("session_id", env.request.session_id)
            ∷ []))))

  abbrev pub blank_event : EventType → ℕ → Event
  blank_event type sequence = record {
    sequence = sequence;
    type = type;
    run_id = env.request.run_id;
    agent_id = env.definition.id;
    session_id = env.request.session_id;
    delta = none;
    tool_call = none;
    guardrail = none;
    response = none;
    error = none;
    metadata = clone_metadata env.request.metadata;
  }

  abbrev pub event_of : EventType → (Event → Event) → ℕ → Event
  event_of type mutate sequence =
      let e = mutate (blank_event type sequence) in record e { metadata = enrich_metadata e }

  -- The loop over the hooks; each gets a copy of the event.
  unfoldable pub call_hooks : List (Option (Event → W → W)) → Event → W → W
  call_hooks [] e w = w
  call_hooks (none ∷ hooks) e w = call_hooks hooks e w
  call_hooks (some h ∷ hooks) e w = call_hooks hooks e (h (clone_agent_event e) w)

  -- A terminal event of an aborted stream is not sent to the stream.
  abbrev pub delivers : Bool → Event → Bool
  delivers terminal e = env.streaming && not (terminal && error_is e.error aborted)

  unfoldable pub emit_event : Event → Bool → Sim W → Sim W
  unfolding call_hooks
  emit_event e terminal s = record s {
    sequence = s.sequence + 1;
    emitted = e ∷ s.emitted;
    terminal_sent = s.terminal_sent || (terminal && delivers terminal e);
    world =
        call_hooks env.definition.hooks e
          (if delivers terminal e then env.send e s.world else s.world);
  }

  unfoldable pub emit : EventType → Bool → (Event → Event) → Exec W (Unit {0})
  unfolding emit_event
  emit type terminal mutate s =
      (ok tt, emit_event (event_of type mutate (s.sequence + 1)) terminal s)

  -- The terminal event of a run that fails, and the early return with its error.
  unfoldable pub fail : {A : Type 0} → Failure → Exec W A
  unfolding emit_event
  fail f s = (
    err f,
    emit_event (event_of (end_event f) (λ e. record e { error = some f }) (s.sequence + 1)) true s,
  )

  abbrev pub fail_if : Option Error → Exec W (Unit {0})
  fail_if none s = (ok tt, s)
  fail_if (some e) s = fail (failed e) s

  -- if err := checkCanceled(...); err != nil { return ..., emitter.fail(ctx, err) }
  unfoldable pub stop_if_canceled : String → Exec W (Unit {0})
  unfolding fail
  stop_if_canceled op s =
      fail_if (check_canceled env.context op env.definition.id env.request.run_id s.world) s
