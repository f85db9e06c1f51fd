-- ===== src/Runtime/Classify.antt =====
-- classifyError and checkCanceled of internal/runtime/engine.go, with errors.Is at its sentinels.
pub mod Laws
use gall_lib.Common.{String, Bool, true, false, ◌||◌, Option, none, some, if◌then◌else◌}
use gall_lib.Common.Results.{Result, ok, err}
use gall_lib.Context.{Interrupt}
use gall_lib.Tool as Tool
use gall_lib.Agent.{ErrorKind}
use gall_lib.Runtime.{
  Sentinel, aborted, guardrail_blocked, steps_exceeded, max_steps, canceled, deadline, Cause,
  sentinel, blocked, reason, foreign, of_tool, Error, Failure, failed, passed, Ctx,
}

abbrev pub same : Sentinel → Sentinel → Bool
same aborted aborted = true
same guardrail_blocked guardrail_blocked = true
same steps_exceeded steps_exceeded = true
same max_steps max_steps = true
same canceled canceled = true
same deadline deadline = true
same _ _ = false

abbrev pub of_interrupt : Interrupt → Sentinel
of_interrupt Interrupt.canceled = canceled
of_interrupt Interrupt.deadline_exceeded = deadline

abbrev pub interrupt_is : Option Interrupt → Sentinel → Bool
interrupt_is none s = false
interrupt_is (some i) s = same (of_interrupt i) s

-- The context error inside of a tool's error, which Unwrap leads to.
unfoldable mutual
  pub interrupt_of : Tool.Error → Option Interrupt
  interrupt_of (Tool.new_error k op name toolkit call c) = interrupt_of_cause c

  pub interrupt_of_cause : Tool.Cause → Option Interrupt
  interrupt_of_cause (Tool.marked s r) = none
  interrupt_of_cause (Tool.wrapped f) = f.interrupt
  interrupt_of_cause (Tool.interrupted i) = some i
  interrupt_of_cause (Tool.nested e) = interrupt_of e
  interrupt_of_cause (Tool.plain r) = none

-- errors.Is
unfoldable pub cause_is : Cause → Sentinel → Bool
cause_is (sentinel t) s = same t s
cause_is (blocked r) s = same guardrail_blocked s
cause_is (reason r) s = false
cause_is (foreign f) s = f.is s
cause_is (of_tool e) s = interrupt_is (interrupt_of e) s

-- Error.Is of pkg/agent/errors.go at these sentinels.
abbrev pub kind_is : ErrorKind → Sentinel → Bool
kind_is ErrorKind.guardrail_blocked guardrail_blocked = true
kind_is ErrorKind.max_steps_exceeded steps_exceeded = true
kind_is ErrorKind.stream_aborted aborted = true
kind_is _ _ = false

unfoldable pub is : Error → Sentinel → Bool
unfolding cause_is
is e s = kind_is e.kind s || cause_is e.cause s

unfoldable pub failure_is : Failure → Sentinel → Bool
unfolding is
failure_is (failed e) s = is e s
failure_is (passed f) s = f.is s

abbrev pub ends_by_context : Cause → Bool
ends_by_context c = cause_is c canceled || cause_is c deadline

-- The kind and the cause by which an error is reported.
unfoldable pub classified : Cause → ErrorKind → ErrorKind × Cause
classified c kind =
    if cause_is c aborted
    then (ErrorKind.stream_aborted, sentinel aborted)
    else if ends_by_context c
    then (ErrorKind.canceled, c)
    else if cause_is c guardrail_blocked
    then (ErrorKind.guardrail_blocked, c)
    else if cause_is c max_steps || cause_is c steps_exceeded
    then (ErrorKind.max_steps_exceeded, sentinel steps_exceeded)
    else (kind, c)

unfoldable pub classify_error : String → String → String → Cause → ErrorKind → Error
classify_error op agent_id run_id c kind = record {
  kind = (classified c kind).0;
  op = op;
  agent_id = agent_id;
  run_id = run_id;
  cause = (classified c kind).1;
}

abbrev pub cause_or : Option Cause → Interrupt → Cause
cause_or (some c) i = c
cause_or none i = sentinel (of_interrupt i)

-- The error of a context that has ended.
unfoldable pub check_canceled :
    {W : Type 0} → Option (Ctx W) → String → String → String → W → Option Error
check_canceled none op agent_id run_id w = none
check_canceled (some ctx) op agent_id run_id w = elim (ctx.err w) [
  | none ↦ none
  | some i ↦ some (classify_error op agent_id run_id (cause_or (ctx.cause w) i) ErrorKind.canceled)
]
