-- ===== src/Runtime/Classify/Laws.antt =====
-- What errors.Is finds in a classified error.
use gall_lib.Common.{String, ◌≡◌, Bool, true, false, ◌&&◌, not, arith}
use gall_lib.Agent.{ErrorKind}
use gall_lib.Runtime.{Sentinel, aborted, guardrail_blocked, canceled, deadline, Cause}
use gall_lib.Runtime.Classify.{classified, cause_is, is, kind_is, classify_error}

-- A kind that matches no sentinel of a run's end.
abbrev pub is_plain : ErrorKind → Bool
is_plain ErrorKind.stream_aborted = false
is_plain ErrorKind.guardrail_blocked = false
is_plain ErrorKind.max_steps_exceeded = false
is_plain _ = true

kind_is-plain : (kind : ErrorKind) (s : Sentinel) → is_plain kind ≡ true → kind_is kind s ≡ false
kind_is-plain kind s h = ground arith

module _ (op agent_id run_id : String) (c : Cause) (kind : ErrorKind)
    (plain : is_plain kind ≡ true) where
  -- For a fallback kind that stands for no sentinel: a classified error matches ErrStreamAborted
  -- exactly if its cause does, and context.Canceled, context.DeadlineExceeded and
  -- ErrGuardrailBlocked each exactly if its cause does and does not match ErrStreamAborted.
  pub classify_error_lem :
      let e = classify_error op agent_id run_id c kind in
      (is e aborted ≡ cause_is c aborted)
      × (is e canceled ≡ (cause_is c canceled && not (cause_is c aborted)))
      × (is e deadline ≡ (cause_is c deadline && not (cause_is c aborted)))
      × (is e guardrail_blocked ≡ (cause_is c guardrail_blocked && not (cause_is c aborted)))
  unfolding classify_error is classified cause_is
  classify_error_lem = (
    ground (arith, kind_is-plain kind aborted),
    ground (arith, kind_is-plain kind canceled),
    ground (arith, kind_is-plain kind deadline),
    ground (arith, kind_is-plain kind guardrail_blocked),
  )
