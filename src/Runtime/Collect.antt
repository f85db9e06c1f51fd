-- ===== src/Runtime/Collect.antt =====
-- The model's answer of one step: collectModelResponse and collectStreamingModelResponse of
-- internal/runtime/engine.go.
pub mod Laws
pub mod Quiet
pub mod Spoken
use Prim.Native.String.{◌++◌ as text_append}
use gall_lib.Common.{
  ℕ, zero, suc, ◌+◌, String, Bool, true, false, ◌&&◌, ◌||◌, Option, none, some, List, [], ◌∷◌, ◌++◌,
  ◌==◌, if◌then◌else◌,
}
use gall_lib.Common.Results as Results
use gall_lib.Common.Results.{Result}
use gall_lib.Types.{
  Role, assistant, Message, MessageDelta, Usage, add_usage, clone_message, clone_map, ToolCall,
}
use gall_lib.Agent.{ErrorKind}
use gall_lib.Runtime.{
  Cause, Failure, failed, passed, Foreign, EventType, ModelToolCall, ModelRequest, ModelResponse,
  ModelEvent, Received, received, end_of_stream, recv_failed, GuardrailDecision,
}
use gall_lib.Runtime.Exec.{
  Sim, Outcome, ok, err, running, panicked, Exec, ◌>>=◌, ◌>>◌, pure, raise, calling, modify,
}
use gall_lib.Runtime.Emitter.{Env, emit}
use gall_lib.Runtime.Guardrails.{
  is_unset, with_role, with_run_id, Chunk, ChunkOutcome, chunk_emit, chunk_drop,
  apply_stream_guardrails, classified_failure,
}

-- The locals of collectStreamingModelResponse.
pub record Collected : Type 0 where
  pub message : Message
  pub usage : Usage
  pub tool_calls : List ModelToolCall
  pub decisions : List GuardrailDecision
  pub saw_event : Bool
  pub saw_delta : Bool
  pub saw_adjustment : Bool
  pub buffered : String
  pub chunk_index : ℕ

abbrev pub no_message : Message
no_message = record {
  role = Role.unset;
  content = "";
  name = "";
  tool_call_id = "";
  tool_calls = [];
  metadata = [];
}

abbrev pub nothing_collected : Collected
nothing_collected = record {
  message = no_message;
  usage = record { input_tokens = 0; output_tokens = 0; total_tokens = 0 };
  tool_calls = [];
  decisions = [];
  saw_event = false;
  saw_delta = false;
  saw_adjustment = false;
  buffered = "";
  chunk_index = 0;
}

abbrev pub no_tool_calls {ℓ} : {A : Type ℓ} → List A → Bool
no_tool_calls [] = true
no_tool_calls _ = false

abbrev pub with_assistant : Message → Message
with_assistant m = if is_unset m.role then record m { role = assistant } else m

abbrev pub take_tool_call : Option ModelToolCall → Collected → Collected
take_tool_call none c = c
take_tool_call (some t) c = record c {
  tool_calls = c.tool_calls ++ record { id = t.id; name = t.name; input = clone_map t.input } ∷ [];
}

abbrev pub take_message : Option Message → Collected → Collected
take_message none c = c
take_message (some m) c = record c { message = with_assistant (clone_message m) }

-- The message at the end of the stream: what the guardrails let through, where they changed
-- something or the model gave no content of its own.
abbrev pub chosen_message : Collected → Message
chosen_message c =
    if c.saw_delta && (c.saw_adjustment || c.message.content == "")
    then record no_message { role = assistant; content = c.buffered }
    else c.message

abbrev pub final_message : Collected → Message
final_message c =
    let m = chosen_message c in
    if is_unset m.role && (c.saw_delta || no_tool_calls m.tool_calls)
    then record m { role = assistant }
    else m

abbrev pub response_of : Collected → Message → ModelResponse
response_of c m = record { message = m; usage = c.usage; tool_calls = c.tool_calls; metadata = [] }

-- The answer of a stream that sent something, and nothing where it sent nothing.
unfoldable pub finished : Collected → Option (ModelResponse × List GuardrailDecision)
finished c =
    if c.saw_event
    then some (
      response_of c (if no_tool_calls c.tool_calls then final_message c else c.message),
      c.decisions,
    )
    else none

module _ {W : Type 0} (env : Env W) where
  -- `modelOp`: which call of the model an error is reported for.
  abbrev pub model_op : String
  model_op = if env.streaming then "model.stream" else "model.generate"

  -- An error of the model: an *agent.Error is passed on, any other is classified.
  unfoldable pub model_failure : Foreign → Failure
  model_failure f =
      if f.is_agent_error
      then passed f
      else classified_failure env model_op (Cause.foreign f) ErrorKind.model_failed

  abbrev pub answered : {A : Type 0} → Result Foreign A → Exec W A
  answered (Results.ok a) = pure a
  answered (Results.err f) = raise (model_failure f)

  -- A chunk that the guardrails let through joins the buffer and is emitted.
  abbrev pub deliver : Chunk → Collected → ChunkOutcome → Exec W Collected
  deliver chunk c chunk_drop = pure c
  deliver chunk c chunk_emit = do
    let delta : MessageDelta = with_run_id (with_role chunk.delta assistant) env.request.run_id
    emit env EventType.agent_delta false (λ e. record e { delta = some delta })
    pure (record c { buffered = text_append c.buffered chunk.delta.content })

  abbrev pub take_delta : Option MessageDelta → Collected → Exec W Collected
  take_delta none c = pure c
  take_delta (some delta) c = do
    let index : ℕ = c.chunk_index + 1
    chunk ← apply_stream_guardrails env delta index c.buffered
    c' ←
        deliver chunk
          (record c {
            saw_delta = true;
            chunk_index = index;
            decisions = c.decisions ++ chunk.decisions;
          })
          chunk.outcome
    pure (record c' { saw_adjustment = c'.saw_adjustment || chunk.changed })

  -- One event of the stream.
  unfoldable pub take_event : ModelEvent → Collected → Exec W Collected
  take_event e c = do
    c' ← take_delta e.delta (record c { saw_event = true; usage = add_usage c.usage e.usage })
    pure (take_message e.message (take_tool_call e.tool_call c'))

  -- After a Recv: the stream's end, its failure, or an event.
  abbrev pub after_recv : Collected → (Collected → Exec W Collected) → Received → Exec W Collected
  after_recv c again end_of_stream = pure c
  after_recv c again (recv_failed f) = raise (model_failure f)
  after_recv c again (received e) = take_event e c >>= (λ c'. if e.done then pure c' else again c')

  -- The loop over the stream's events, on fuel.
  unfoldable pub recv_loop : ℕ → ℕ → Collected → Exec W Collected
  unfolding take_event
  recv_loop zero handle c s = (running, s)
  recv_loop (suc fuel) handle c s =
      (calling (env.definition.model.recv handle) >>= after_recv c (recv_loop fuel handle)) s

  -- defer modelStream.Close()
  abbrev pub closing : {A : Type 0} → ℕ → Outcome A × Sim W → Outcome A × Sim W
  closing handle (o, s) = (o, record s { world = env.definition.model.close handle s.world })

  unfoldable pub collect_streaming_model_response :
      ℕ → ModelRequest → Exec W (Option (ModelResponse × List GuardrailDecision))
  unfolding recv_loop finished
  collect_streaming_model_response fuel request = do
    opened ← calling (env.definition.model.stream request)
    handle ← answered opened
    c ← (λ s. closing handle (recv_loop fuel handle nothing_collected s))
    pure (finished c)

  unfoldable pub generate : ModelRequest → Exec W (ModelResponse × List GuardrailDecision)
  generate request = do
    answer ← calling (env.definition.model.generate request)
    response ← answered answer
    pure (response, [])

  abbrev pub or_generate :
      ModelRequest
      → Option (ModelResponse × List GuardrailDecision)
      → Exec W (ModelResponse × List GuardrailDecision)
  or_generate request (some r) = pure r
  or_generate request none = generate request

  abbrev pub collect_by : Bool → ℕ → ModelRequest → Exec W (ModelResponse × List GuardrailDecision)
  collect_by true fuel request =
      collect_streaming_model_response fuel request >>= or_generate request
  collect_by false fuel request = generate request

  unfoldable pub collect_model_response :
      ℕ → ModelRequest → Exec W (ModelResponse × List GuardrailDecision)
  unfolding collect_streaming_model_response generate
  collect_model_response fuel request = collect_by env.streaming fuel request
