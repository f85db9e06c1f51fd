-- ===== src/Runtime/Guardrails.antt =====
-- The guardrail chains of internal/runtime/engine.go: applyInputGuardrails, applyStreamGuardrails and
-- applyOutputGuardrails, with the rules for a decision.
pub mod Laws
use gall_lib.Common.{
  ℕ, String, Bool, true, false, ◌&&◌, ◌||◌, not, Option, none, some, List, [], ◌∷◌, ◌++◌, ◌==◌,
  if◌then◌else◌,
}
use gall_lib.Common.Dict.{put}
use gall_lib.Common.Results as Results
use gall_lib.Common.Results.{Result}
use gall_lib.Text.{decimal}
use gall_lib.Types.{
  Role, unset, system, user, assistant, tool, named, Message, MessageDelta, clone_message,
  clone_messages, clone_metadata,
}
use gall_lib.Agent.{ErrorKind}
use gall_lib.Runtime.{
  Phase, input, stream, output, ActionKind, allow, block, transform, drop, abort, other_action,
  Reason, Cause, Error, Failure, failed, Foreign, GuardrailContext, InputRequest, StreamRequest,
  OutputRequest, Decision, Guardrail, GuardrailDecision, EventType, Definition,
}
use gall_lib.Runtime.Classify.{classify_error}
use gall_lib.Runtime.Copies.{clone_message_delta}
use gall_lib.Runtime.Exec.{
  Sim, Outcome, ok, err, panicked, Exec, ◌>>=◌, ◌>>◌, pure, raise, calling, reading,
}
use gall_lib.Runtime.Emitter.{Env, emit}

abbrev pub is_unset : Role → Bool
is_unset unset = true
is_unset _ = false

abbrev pub role_eq : Role → Role → Bool
role_eq unset unset = true
role_eq system system = true
role_eq user user = true
role_eq assistant assistant = true
role_eq tool tool = true
role_eq (named a) (named b) = a == b
role_eq _ _ = false

-- delta.Role != "" && delta.Role != types.RoleAssistant
abbrev pub is_foreign_role : Role → Bool
is_foreign_role unset = false
is_foreign_role assistant = false
is_foreign_role _ = true

abbrev pub reject_if : Bool → Reason → Option Reason
reject_if true r = some r
reject_if false r = none

abbrev pub check_delta : Option MessageDelta → Option Reason
check_delta none = some Reason.stream_delta
check_delta (some d) = reject_if (is_foreign_role d.role) Reason.stream_role

abbrev pub check_message : Option Message → Option Reason
check_message none = some Reason.output_message
check_message (some m) = reject_if (is_foreign_role m.role) Reason.output_role

abbrev pub check_messages : Option (List Message) → Option Reason
check_messages none = some Reason.input_messages
check_messages (some ms) = none

abbrev pub check_transform : Phase → Decision → Option Reason
check_transform input d = check_messages d.messages
check_transform stream d = check_delta d.delta
check_transform output d = check_message d.message

abbrev pub is_stream : Phase → Bool
is_stream stream = true
is_stream _ = false

abbrev pub check_action : Phase → Decision → ActionKind → Option Reason
check_action phase d allow = none
check_action phase d transform = check_transform phase d
check_action phase d block = reject_if (is_stream phase) Reason.cannot_block
check_action phase d drop = reject_if (not (is_stream phase)) Reason.only_drop
check_action phase d abort = reject_if (not (is_stream phase)) Reason.only_abort
check_action phase d (other_action a) = some (Reason.unknown_action (other_action a))

-- validateGuardrailDecision: nothing, or why the decision is refused.
unfoldable pub validate_guardrail_decision : Phase → Decision → Option Reason
validate_guardrail_decision phase d = check_action phase d d.action

-- `type_name` is what `%T` writes of the guardrail.
unfoldable pub normalize_guardrail_decision : Phase → Decision → String → GuardrailDecision
normalize_guardrail_decision phase d type_name = record {
  phase = phase;
  name = if d.name == "" then type_name else d.name;
  action = d.action;
  reason = d.reason;
  metadata = clone_metadata d.metadata;
}

unfoldable pub normalize_stream_guardrail_decision : Decision → String → ℕ → GuardrailDecision
unfolding normalize_guardrail_decision
normalize_stream_guardrail_decision d type_name chunk_index =
    let normalized = normalize_guardrail_decision stream d type_name in
    record normalized {
      metadata = put "chunk_index" (decimal chunk_index) (clone_metadata normalized.metadata);
    }

abbrev pub with_role : MessageDelta → Role → MessageDelta
with_role d r = if is_unset d.role then record d { role = r } else d

abbrev pub with_run_id : MessageDelta → String → MessageDelta
with_run_id d id = if d.run_id == "" then record d { run_id = id } else d

unfoldable pub delta_eq : MessageDelta → MessageDelta → Bool
delta_eq a b = a.run_id == b.run_id && role_eq a.role b.role && a.content == b.content

-- What the chain makes of a chunk.
pub data ChunkOutcome : Type 0 where
  chunk_emit chunk_drop : ChunkOutcome

pub record Chunk : Type 0 where
  pub delta : MessageDelta
  pub decisions : List GuardrailDecision
  pub outcome : ChunkOutcome
  pub changed : Bool

module _ {W : Type 0} (env : Env W) where
  abbrev pub guardrail_context : Phase → GuardrailContext
  guardrail_context phase = record {
    phase = phase;
    agent_id = env.definition.id;
    agent_name = env.definition.name;
    run_id = env.request.run_id;
    session_id = env.request.session_id;
    metadata = clone_metadata env.request.metadata;
  }

  abbrev pub classified_failure : String → Cause → ErrorKind → Failure
  classified_failure op c kind =
      failed (classify_error op env.definition.id env.request.run_id c kind)

  -- fmt.Errorf("%w: %s", agent.ErrGuardrailBlocked, normalized.Reason)
  abbrev pub block_error : String → String → Failure
  block_error op reason = failed (record {
    kind = ErrorKind.guardrail_blocked;
    op = op;
    agent_id = env.definition.id;
    run_id = env.request.run_id;
    cause = Cause.blocked reason;
  })

  abbrev pub accept : String → Option Reason → Decision → Exec W Decision
  accept op none d = pure d
  accept op (some r) d = raise (classified_failure op (Cause.reason r) ErrorKind.internal)

  abbrev pub checked : String → Phase → Result Foreign Decision → Exec W Decision
  checked op phase (Results.err f) =
      raise (classified_failure op (Cause.foreign f) ErrorKind.internal)
  checked op phase (Results.ok d) = accept op (validate_guardrail_decision phase d) d

  -- The call of a guardrail, the checks of what it answers, and the event of its decision.
  unfoldable pub consult :
      {Request : Type 0}
      → String
      → Phase
      → Guardrail W Request
      → Request
      → (Decision → GuardrailDecision)
      → Exec W Decision
  consult op phase rule request normalized = do
    answer ← calling (rule.check request)
    d ← checked op phase answer
    emit env EventType.guardrail_event false (λ e. record e { guardrail = some (normalized d) })
    pure d

  abbrev pub messages_of : Option (List Message) → List Message
  messages_of none = []
  messages_of (some ms) = clone_messages ms

  -- The messages that the next guardrail gets, or the end of the chain.
  abbrev pub after_input : Decision → List Message → ActionKind → Exec W (List Message)
  after_input d messages transform = pure (messages_of d.messages)
  after_input d messages block = raise (block_error "guardrail.input" d.reason)
  after_input d messages _ = pure messages

  unfoldable pub input_chain :
      List (Option (Guardrail W InputRequest))
      → List Message
      → List GuardrailDecision
      → Exec W (List Message × List GuardrailDecision)
  unfolding consult
  input_chain [] messages decisions = pure (messages, decisions)
  input_chain (none ∷ rules) messages decisions = input_chain rules messages decisions
  input_chain (some rule ∷ rules) messages decisions = do
    let normalized = λ (d : Decision). normalize_guardrail_decision input d rule.type_name
    d ←
        consult "guardrail.input" input rule
          (record { context = guardrail_context input; messages = clone_messages messages })
          normalized
    next ← after_input d messages d.action
    input_chain rules next (decisions ++ normalized d ∷ [])

  unfoldable pub apply_input_guardrails : Exec W (List Message × List GuardrailDecision)
  unfolding input_chain
  apply_input_guardrails =
      input_chain env.definition.input_guardrails (clone_messages env.request.messages) []

  -- *decision.Message
  abbrev pub message_of : Option Message → Exec W Message
  message_of none s = (panicked, s)
  message_of (some m) s = (ok (clone_message m), s)

  abbrev pub after_output : Decision → Message → ActionKind → Exec W Message
  after_output d out transform = message_of d.message
  after_output d out block = raise (block_error "guardrail.output" d.reason)
  after_output d out _ = pure out

  unfoldable pub output_chain :
      List (Option (Guardrail W OutputRequest))
      → Message
      → List GuardrailDecision
      → Exec W (Message × List GuardrailDecision)
  unfolding consult
  output_chain [] out decisions = pure (out, decisions)
  output_chain (none ∷ rules) out decisions = output_chain rules out decisions
  output_chain (some rule ∷ rules) out decisions = do
    let normalized = λ (d : Decision). normalize_guardrail_decision output d rule.type_name
    d ←
        consult "guardrail.output" output rule
          (record { context = guardrail_context output; message = clone_message out }) normalized
    next ← after_output d out d.action
    output_chain rules next (decisions ++ normalized d ∷ [])

  unfoldable pub apply_output_guardrails : Message → Exec W (Message × List GuardrailDecision)
  unfolding output_chain
  apply_output_guardrails message =
      output_chain env.definition.output_guardrails (clone_message message) []

  -- A transformed delta takes its role and its run id from the chunk where it has none.
  abbrev pub completed : MessageDelta → MessageDelta → MessageDelta
  completed current delta =
      with_run_id (with_run_id (with_role (with_role current delta.role) assistant) delta.run_id)
        env.request.run_id

  -- *decision.Delta
  abbrev pub delta_of : Option MessageDelta → MessageDelta → Exec W MessageDelta
  delta_of none delta s = (panicked, s)
  delta_of (some d) delta s = (ok (completed (clone_message_delta d) delta), s)

  abbrev pub no_delta : MessageDelta
  no_delta = record { run_id = ""; role = unset; content = "" }

  -- The rest of the chain after a decision, which is `next`, or its end.
  abbrev pub after_stream :
      Decision
      → List GuardrailDecision
      → MessageDelta
      → MessageDelta
      → (MessageDelta → Exec W Chunk)
      → ActionKind
      → Exec W Chunk
  after_stream d decisions delta current next transform = delta_of d.delta delta >>= next
  after_stream d decisions delta current next drop =
      pure
        (record { delta = no_delta; decisions = decisions; outcome = chunk_drop; changed = true })
  after_stream d decisions delta current next abort =
      raise (block_error "guardrail.stream" d.reason)
  after_stream d decisions delta current next _ = next current

  unfoldable pub stream_chain :
      List (Option (Guardrail W StreamRequest))
      → MessageDelta
      → ℕ
      → String
      → MessageDelta
      → List GuardrailDecision
      → Exec W Chunk
  unfolding consult
  stream_chain [] delta chunk_index buffered current decisions = pure (record {
    delta = current;
    decisions = decisions;
    outcome = chunk_emit;
    changed = not (delta_eq current delta);
  })
  stream_chain (none ∷ rules) delta chunk_index buffered current decisions =
      stream_chain rules delta chunk_index buffered current decisions
  stream_chain (some rule ∷ rules) delta chunk_index buffered current decisions = do
    let normalized =
        λ (d : Decision). normalize_stream_guardrail_decision d rule.type_name chunk_index
    d ←
        consult "guardrail.stream" stream rule
          (record {
            context = guardrail_context stream;
            chunk_index = chunk_index;
            delta = clone_message_delta current;
            buffered_content = buffered;
          })
          normalized
    let seen = decisions ++ normalized d ∷ []
    after_stream d seen delta current
        (λ next. stream_chain rules delta chunk_index buffered next seen) d.action

  unfoldable pub apply_stream_guardrails : MessageDelta → ℕ → String → Exec W Chunk
  unfolding stream_chain
  apply_stream_guardrails delta chunk_index buffered =
      stream_chain env.definition.stream_guardrails delta chunk_index buffered
        (with_run_id (with_role (clone_message_delta delta) assistant) env.request.run_id) []
