-- ===== src/Runtime/Guardrails/Laws.antt =====
-- What the guardrail chains leave of a run, and what they let through.
use gall_lib.Common.{
  ℕ, String, ◌≡◌, refl, false, Option, none, some, List, [], ◌∷◌, arith, inl, inr, Option-cases,
}
use gall_lib.Common.Results as Results
use gall_lib.Common.Results.{Result}
use gall_lib.Types.{Message, MessageDelta, clone_message}
use gall_lib.Runtime.{
  Phase, input, stream, output, ActionKind, allow, block, transform, drop, abort, other_action,
  Foreign, InputRequest, StreamRequest, OutputRequest, Decision, Guardrail, GuardrailDecision,
  EventType,
}
use gall_lib.Runtime.Exec.{Sim, Exec}
use gall_lib.Runtime.Emitter.{Env}
use gall_lib.Runtime.Guardrails.{
  is_foreign_role, check_delta, check_message, check_action, validate_guardrail_decision, accept,
  checked, consult, messages_of, after_input, input_chain, apply_input_guardrails, after_output,
  output_chain, apply_output_guardrails, Chunk, after_stream, stream_chain, apply_stream_guardrails,
}
use gall_lib.Runtime.Post.{
  IsOpen, Post, Runs, Leaves, Whatever, Unreported, Runs-bind, Runs-pure, Runs-raise, Runs-calling,
  Runs-emit,
}

-- A decision that the rules of its phase admit.
abbrev pub IsValid : Phase → Decision → Type 0
IsValid phase d = validate_guardrail_decision phase d ≡ none

-- The role of a message that the output phase may return: the assistant's, or none.
abbrev pub IsOwn : Message → Type 0
IsOwn m = is_foreign_role m.role ≡ false

check_message-none :
    (o : Option Message) → check_message o ≡ none → (m : Message) × (o ≡ some m) × IsOwn m
check_message-none none h = cc
check_message-none (some m) h = (m, refl, ground arith)

check_delta-none :
    (o : Option MessageDelta) → check_delta o ≡ none → (d : MessageDelta) × (o ≡ some d)
check_delta-none none h = cc
check_delta-none (some d) h = (d, refl)

module _ {W : Type 0} (env : Env W) where
  accept-Runs :
      (op : String) (phase : Phase) (d : Decision)
      → Runs env
          (accept env op (validate_guardrail_decision phase d) d)
          (Leaves (IsValid phase))
          Unreported
  accept-Runs op phase d = elim (Option-cases (validate_guardrail_decision phase d)) [
    | inl e ↦ rw e (Runs-pure env (IsValid phase) Unreported d e)
    | inr (r, e) ↦ rw e (Runs-raise env (Leaves (IsValid phase)) _)
  ]

  checked-Runs :
      (op : String) (phase : Phase) (answer : Result Foreign Decision)
      → Runs env (checked env op phase answer) (Leaves (IsValid phase)) Unreported
  checked-Runs op phase (Results.err f) = Runs-raise env (Leaves (IsValid phase)) _
  checked-Runs op phase (Results.ok d) = accept-Runs op phase d

  -- A guardrail is asked, and its decision reported only if the rules admit it.
  pub consult-Runs :
      {Request : Type 0} (op : String) (phase : Phase) (rule : Guardrail W Request)
      (request : Request) (normalized : Decision → GuardrailDecision)
      → Runs env (consult env op phase rule request normalized) (Leaves (IsValid phase)) Unreported
  unfolding consult
  consult-Runs op phase rule request normalized =
      Runs-bind env (Leaves (IsValid phase)) Unreported Whatever
        (Runs-calling env Unreported (rule.check request))
        λ answer _.
          Runs-bind env (Leaves (IsValid phase)) Unreported (IsValid phase)
            (checked-Runs op phase answer)
            λ d valid.
              Runs-bind env (Leaves (IsValid phase)) Unreported Whatever
                (Runs-emit env Unreported EventType.guardrail_event _ refl (λ e. refl) (λ e. refl))
                λ _ _. Runs-pure env (IsValid phase) Unreported d valid

  after_input-Runs :
      (d : Decision) (messages : List Message) (a : ActionKind)
      → Runs env (after_input env d messages a) (Leaves Whatever) Unreported
  after_input-Runs d messages allow = Runs-pure env Whatever Unreported messages tt
  after_input-Runs d messages transform =
      Runs-pure env Whatever Unreported (messages_of env d.messages) tt
  after_input-Runs d messages block = Runs-raise env (Leaves Whatever) _
  after_input-Runs d messages drop = Runs-pure env Whatever Unreported messages tt
  after_input-Runs d messages abort = Runs-pure env Whatever Unreported messages tt
  after_input-Runs d messages (other_action a) = Runs-pure env Whatever Unreported messages tt

  input_chain-Runs :
      (rules : List (Option (Guardrail W InputRequest))) (messages : List Message)
      (decisions : List GuardrailDecision)
      → Runs env (input_chain env rules messages decisions) (Leaves Whatever) Unreported
  unfolding input_chain
  input_chain-Runs [] messages decisions =
      Runs-pure env Whatever Unreported (messages, decisions) tt
  input_chain-Runs (none ∷ rules) messages decisions = input_chain-Runs rules messages decisions
  input_chain-Runs (some rule ∷ rules) messages decisions =
      Runs-bind env (Leaves Whatever) Unreported (IsValid input)
        (consult-Runs "guardrail.input" input rule _ _)
        λ d valid.
          Runs-bind env (Leaves Whatever) Unreported Whatever (after_input-Runs d messages d.action)
            λ next _. input_chain-Runs rules next _

  pub apply_input_guardrails-Runs :
      Runs env (apply_input_guardrails env) (Leaves Whatever) Unreported
  unfolding apply_input_guardrails
  apply_input_guardrails-Runs = input_chain-Runs env.definition.input_guardrails _ []

  after_stream-Runs :
      (d : Decision) (decisions : List GuardrailDecision) (delta current : MessageDelta)
      (next : MessageDelta → Exec W Chunk) (a : ActionKind)
      → check_action stream d a ≡ none
      → ((c : MessageDelta) → Runs env (next c) (Leaves Whatever) Unreported)
      → Runs env (after_stream env d decisions delta current next a) (Leaves Whatever) Unreported
  after_stream-Runs d decisions delta current next allow valid go = go current
  after_stream-Runs d decisions delta current next transform valid go =
      let m = check_delta-none d.delta valid in
      rw m.1 (
        Runs-bind env (Leaves Whatever) Unreported Whatever (Runs-pure env Whatever Unreported _ tt)
          λ c _. go c)
  after_stream-Runs d decisions delta current next block valid go = go current
  after_stream-Runs d decisions delta current next drop valid go =
      Runs-pure env Whatever Unreported _ tt
  after_stream-Runs d decisions delta current next abort valid go =
      Runs-raise env (Leaves Whatever) _
  after_stream-Runs d decisions delta current next (other_action a) valid go = go current

  stream_chain-Runs :
      (rules : List (Option (Guardrail W StreamRequest))) (delta : MessageDelta) (index : ℕ)
      (buffered : String) (current : MessageDelta) (decisions : List GuardrailDecision)
      → Runs env
          (stream_chain env rules delta index buffered current decisions)
          (Leaves Whatever)
          Unreported
  unfolding stream_chain validate_guardrail_decision
  stream_chain-Runs [] delta index buffered current decisions =
      Runs-pure env Whatever Unreported _ tt
  stream_chain-Runs (none ∷ rules) delta index buffered current decisions =
      stream_chain-Runs rules delta index buffered current decisions
  stream_chain-Runs (some rule ∷ rules) delta index buffered current decisions =
      Runs-bind env (Leaves Whatever) Unreported (IsValid stream)
        (consult-Runs "guardrail.stream" stream rule _ _)
        λ d valid.
          after_stream-Runs d _ delta current _ d.action valid
            (λ c. stream_chain-Runs rules delta index buffered c _)

  pub apply_stream_guardrails-Runs :
      (delta : MessageDelta) (index : ℕ) (buffered : String)
      → Runs env (apply_stream_guardrails env delta index buffered) (Leaves Whatever) Unreported
  unfolding apply_stream_guardrails
  apply_stream_guardrails-Runs delta index buffered =
      stream_chain-Runs env.definition.stream_guardrails delta index buffered _ []

-- What holds of the message in a chain's result.
abbrev pub HasMessage : (Message → Type 0) → Message × List GuardrailDecision → Type 0
HasMessage P r = P r.0

module _ {W : Type 0} (env : Env W) (P : Message → Type 0)
    (good : (m : Message) → IsOwn m → P m) where
  -- A message that replaces another is there, and its role is the assistant's or none.
  after_output-Runs :
      (d : Decision) (out : Message) (a : ActionKind)
      → check_action output d a ≡ none
      → P out
      → Runs env (after_output env d out a) (Leaves P) Unreported
  unfolding clone_message
  after_output-Runs d out allow valid own = Runs-pure env P Unreported out own
  after_output-Runs d out transform valid own =
      let m = check_message-none d.message valid in
      rw m.1 (Runs-pure env P Unreported (clone_message m.0) (good (clone_message m.0) m.2))
  after_output-Runs d out block valid own = Runs-raise env (Leaves P) _
  after_output-Runs d out drop valid own = Runs-pure env P Unreported out own
  after_output-Runs d out abort valid own = Runs-pure env P Unreported out own
  after_output-Runs d out (other_action a) valid own = Runs-pure env P Unreported out own

  output_chain-Runs :
      (rules : List (Option (Guardrail W OutputRequest))) (out : Message)
      (decisions : List GuardrailDecision)
      → P out
      → Runs env (output_chain env rules out decisions) (Leaves (HasMessage P)) Unreported
  unfolding output_chain validate_guardrail_decision
  output_chain-Runs [] out decisions own =
      Runs-pure env (HasMessage P) Unreported (out, decisions) own
  output_chain-Runs (none ∷ rules) out decisions own = output_chain-Runs rules out decisions own
  output_chain-Runs (some rule ∷ rules) out decisions own =
      Runs-bind env (Leaves (HasMessage P)) Unreported (IsValid output)
        (consult-Runs env "guardrail.output" output rule _ _)
        λ d valid.
          Runs-bind env (Leaves (HasMessage P)) Unreported P
            (after_output-Runs d out d.action valid own)
            λ next own'. output_chain-Runs rules next _ own'

  pub apply_output_guardrails-Runs :
      (m : Message)
      → P (clone_message m)
      → Runs env (apply_output_guardrails env m) (Leaves (HasMessage P)) Unreported
  unfolding apply_output_guardrails clone_message
  apply_output_guardrails-Runs m own =
      output_chain-Runs env.definition.output_guardrails (clone_message m) [] own

-- From a message of the assistant or without a role, and before the run's terminal event,
-- applyOutputGuardrails reads no nil payload, and a message that it returns is of the assistant or
-- without a role; it emits no terminal event, whether it returns or fails.
pub apply_output_guardrails-IsOwn :
    {W : Type 0} (env : Env W) (m : Message) (s : Sim W)
    → IsOwn m
    → IsOpen s
    → Post env (Leaves (HasMessage IsOwn)) Unreported (apply_output_guardrails env m s)
unfolding clone_message
apply_output_guardrails-IsOwn env m s own going =
    (apply_output_guardrails-Runs env IsOwn (λ m h. h) m own).at s going
