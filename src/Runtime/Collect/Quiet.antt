-- ===== src/Runtime/Collect/Quiet.antt =====
-- The stream guardrails emit no text.
use Prim.Native.String.{◌++◌ as text_append}
use text.Mathlib.TextLemmas.{append-nil as text_append-nil}
use gall_lib.Common.{ℕ, String, ◌≡◌, refl, ◌∙◌, false, Option, none, some, List, [], ◌∷◌}
use gall_lib.Common.Results as Results
use gall_lib.Common.Results.{Result}
use gall_lib.Types.{MessageDelta}
use gall_lib.Runtime.{
  Phase, ActionKind, allow, block, transform, drop, abort, other_action, Foreign, Decision,
  Guardrail, StreamRequest, GuardrailDecision, Event, EventType, Reason,
}
use gall_lib.Runtime.Exec.{
  Sim, Outcome, ok, err, running, panicked, Exec, ◌>>=◌, pure, calling, continue,
}
use gall_lib.Runtime.Emitter.{Env, emit, emit_event}
use gall_lib.Runtime.Guardrails.{
  accept, checked, consult, delta_of, after_stream, stream_chain, Chunk,
}

abbrev pub content_of : Option MessageDelta → String
content_of none = ""
content_of (some d) = d.content

-- The deltas among the events, which stand with the newest first, as one text.
unfoldable pub spoken : List Event → String
spoken [] = ""
spoken (e ∷ es) = text_append (spoken es) (content_of e.delta)

-- Code that emits no text.
pub record IsQuiet {W A : Type 0} (m : Exec W A) : Type 0 where
  pub at : (s : Sim W) → spoken (m s).1.emitted ≡ spoken s.emitted

continue-spoken :
    {W A B : Type 0} (r : Outcome A × Sim W) (f : A → Exec W B) {t : String}
    → spoken r.1.emitted ≡ t
    → ((a : A) → IsQuiet (f a))
    → spoken (continue r f).1.emitted ≡ t
continue-spoken (ok a, s) f h quiet = (quiet a).at s ∙ h
continue-spoken (err e, s) f h quiet = h
continue-spoken (running, s) f h quiet = h
continue-spoken (panicked, s) f h quiet = h

bind-IsQuiet :
    {W A B : Type 0} {m : Exec W A} {f : A → Exec W B}
    → IsQuiet m
    → ((a : A) → IsQuiet (f a))
    → IsQuiet (m >>= f)
unfolding ◌>>=◌
bind-IsQuiet {W} {A} {B} {m} {f} first next = record {
  at = λ s. continue-spoken (m s) f (first.at s) next;
}

pure-IsQuiet : {W A : Type 0} (a : A) → IsQuiet (pure {W = W} a)
pure-IsQuiet a = record { at = λ s. refl }

module _ {W : Type 0} (env : Env W) where
  emit-IsQuiet :
      (d : GuardrailDecision)
      → IsQuiet (emit env EventType.guardrail_event false (λ e. record e { guardrail = some d }))
  unfolding emit emit_event spoken
  emit-IsQuiet d = record { at = λ s. text_append-nil _ }

  accept-IsQuiet : (op : String) (o : Option Reason) (d : Decision) → IsQuiet (accept env op o d)
  accept-IsQuiet op none d = pure-IsQuiet d
  accept-IsQuiet op (some r) d = record { at = λ s. refl }

  checked-IsQuiet :
      (op : String) (phase : Phase) (r : Result Foreign Decision) → IsQuiet (checked env op phase r)
  checked-IsQuiet op phase (Results.err f) = record { at = λ s. refl }
  checked-IsQuiet op phase (Results.ok d) = accept-IsQuiet op _ d

  consult-IsQuiet :
      {Request : Type 0} (op : String) (phase : Phase) (rule : Guardrail W Request)
      (request : Request) (normalized : Decision → GuardrailDecision)
      → IsQuiet (consult env op phase rule request normalized)
  unfolding consult
  consult-IsQuiet op phase rule request normalized =
      bind-IsQuiet {m = calling (rule.check request)} (record { at = λ s. refl })
        λ answer.
          bind-IsQuiet (checked-IsQuiet op phase answer)
            λ d. bind-IsQuiet (emit-IsQuiet (normalized d)) λ _. pure-IsQuiet d

  delta_of-IsQuiet :
      (o : Option MessageDelta) (delta : MessageDelta) → IsQuiet (delta_of env o delta)
  delta_of-IsQuiet none delta = record { at = λ s. refl }
  delta_of-IsQuiet (some d) delta = record { at = λ s. refl }

  after_stream-IsQuiet :
      (d : Decision) (decisions : List GuardrailDecision) (delta current : MessageDelta)
      (next : MessageDelta → Exec W Chunk) (a : ActionKind)
      → ((c : MessageDelta) → IsQuiet (next c))
      → IsQuiet (after_stream env d decisions delta current next a)
  after_stream-IsQuiet d decisions delta current next allow quiet = quiet current
  after_stream-IsQuiet d decisions delta current next block quiet = quiet current
  after_stream-IsQuiet d decisions delta current next transform quiet =
      bind-IsQuiet (delta_of-IsQuiet d.delta delta) quiet
  after_stream-IsQuiet d decisions delta current next drop quiet = record { at = λ s. refl }
  after_stream-IsQuiet d decisions delta current next abort quiet = record { at = λ s. refl }
  after_stream-IsQuiet d decisions delta current next (other_action a) quiet = quiet current

  pub stream_chain-IsQuiet :
      (rules : List (Option (Guardrail W StreamRequest))) (delta : MessageDelta) (index : ℕ)
      (buffered : String) (current : MessageDelta) (decisions : List GuardrailDecision)
      → IsQuiet (stream_chain env rules delta index buffered current decisions)
  unfolding stream_chain
  stream_chain-IsQuiet [] delta index buffered current decisions = record { at = λ s. refl }
  stream_chain-IsQuiet (none ∷ rules) delta index buffered current decisions =
      stream_chain-IsQuiet rules delta index buffered current decisions
  stream_chain-IsQuiet (some rule ∷ rules) delta index buffered current decisions =
      bind-IsQuiet (consult-IsQuiet _ _ rule _ _) λ d.
        after_stream-IsQuiet d _ delta current _ d.action
          (λ c. stream_chain-IsQuiet rules delta index buffered c _)
