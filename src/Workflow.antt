-- ===== src/Workflow.antt =====
-- pkg/workflow/workflow.go, step.go and errors.go: the envelopes, the steps and the errors.
-- `W` is everything outside of the library: what steps, hooks, sinks and the clock read and change.
pub mod Ids
pub mod State
pub mod Steps
pub mod Builder
pub mod Exec
pub mod Chain
pub mod Run
pub mod History
pub mod Views
use gall_lib.Common.{ℕ, String, Bool, true, false, Option, none, some, List, [], ◌∷◌}
use gall_lib.Common.Results.{Result}
use gall_lib.Context.{Interrupt, Fault}
use gall_lib.Types.{ℤ, Fields, Metadata}

pub data Status : Type 0 where
  completed failed canceled suspended : Status

pub data StepKind : Type 0 where
  action branch invoke : StepKind
  named : String → StepKind

pub data ErrorKind : Type 0 where
  invalid_config invalid_request transition step history canceled internal : ErrorKind

-- What an error wraps. `wrapped` is an error of a step; `interrupted` is `ctx.Err()`; the text of a
-- sink's error goes into `history_write` with %v, so it is not wrapped.
pub data Cause : Type 0 where
  workflow_nil builder_nil name_required no_steps : Cause
  step_nil step_unnamed : ℕ → Cause
  duplicate_step : String → Cause
  step_name_required action_required branch_required step_retry_nil : Cause
  retry_nil history_nil id_required : Cause
  context_required : Cause
  step_and_end step_and_suspend end_and_suspend : Cause
  unknown_step : String → Cause
  history_write : String → Cause
  interrupted : Interrupt → Cause
  wrapped : Fault → Cause

pub record Error : Type 0 where
  pub kind : ErrorKind
  pub op : String
  pub workflow_id : String
  pub run_id : String
  pub step_name : String
  pub cause : Cause

pub data Sentinel : Type 0 where
  err_invalid_config err_invalid_request err_invalid_transition err_history_write : Sentinel

-- Error.Is: a sentinel matches by the error's kind.
abbrev kind_is : ErrorKind → Sentinel → Bool
kind_is ErrorKind.invalid_config err_invalid_config = true
kind_is ErrorKind.invalid_request err_invalid_request = true
kind_is ErrorKind.transition err_invalid_transition = true
kind_is ErrorKind.history err_history_write = true
kind_is _ _ = false

unfoldable pub is : Error → Sentinel → Bool
is e s = kind_is e.kind s

abbrev pub interrupt_of : Cause → Option Interrupt
interrupt_of (interrupted i) = some i
interrupt_of (wrapped f) = f.interrupt
interrupt_of _ = none

-- errorsIsCanceled
unfoldable pub errors_is_canceled : Error → Bool
errors_is_canceled e = elim (interrupt_of e.cause) [ none ↦ false | some _ ↦ true ]

pub record Next : Type 0 where
  pub step : String
  pub end : Bool
  pub suspend : Bool

pub record StepResult : Type 0 where
  pub output : Fields
  pub next : Next
  pub metadata : Metadata

pub record Decision : Type 0 where
  pub step : String
  pub end : Bool
  pub suspend : Bool
  pub reason : String
  pub metadata : Metadata

pub record StepContext : Type 0 where
  pub workflow_id : String
  pub workflow_name : String
  pub run_id : String
  pub session_id : String
  pub step_name : String
  pub attempt : ℕ
  pub input : Fields
  pub metadata : Metadata

pub record Checkpoint : Type 0 where
  pub step_name : String
  pub state : Fields
  pub time : ℕ
  pub metadata : Metadata

pub data EventType : Type 0 where
  workflow_started step_started step_ended workflow_error workflow_finished workflow_ended :
      EventType

-- The Err field of an event: the error of a step, or the one that the run returns.
pub data EventError : Type 0 where
  of_step : Cause → EventError
  of_run : Error → EventError

pub record Event : Type 0 where
  pub type : EventType
  pub workflow_id : String
  pub workflow_name : String
  pub run_id : String
  pub session_id : String
  pub step_name : String
  pub attempt : ℕ
  pub status : Status
  pub output : Fields
  pub state : Fields
  pub err : Option EventError
  pub time : ℕ
  pub metadata : Metadata

pub record HistoryEntry : Type 0 where
  pub kind : String
  pub workflow_id : String
  pub workflow_name : String
  pub run_id : String
  pub session_id : String
  pub step_name : String
  pub attempt : ℕ
  pub status : Status
  pub time : ℕ
  pub output : Fields
  pub checkpoint : Option Checkpoint
  pub metadata : Metadata

pub record Request : Type 0 where
  pub run_id : String
  pub session_id : String
  pub input : Fields
  pub state : Fields
  pub metadata : Metadata

pub record Response : Type 0 where
  pub run_id : String
  pub workflow_id : String
  pub workflow_name : String
  pub session_id : String
  pub status : Status
  pub current_step : String
  pub output : Fields
  pub state : Fields
  pub checkpoint : Option Checkpoint
  pub metadata : Metadata

-- What a call of outside code answers.
abbrev pub Reply : Type 0 → Type 0
Reply A = Result Cause A

-- The shared state goes in and comes back, as a step may write to it.
abbrev pub StepFunc : Type 0 → Type 0
StepFunc W = StepContext → Fields → W → Reply StepResult × Fields × W

abbrev pub DecisionFunc : Type 0 → Type 0
DecisionFunc W = StepContext → Fields → W → Reply Decision × Fields × W

-- A delay, or no further try.
abbrev pub RetryPolicy : Type 0 → Type 0
RetryPolicy W = ℕ → Cause → W → Option ℤ

-- A hook that panics is recovered from: what it did to the world stays.
abbrev pub Hook : Type 0 → Type 0
Hook W = Event → W → W

abbrev pub HistorySink : Type 0 → Type 0
HistorySink W = HistoryEntry → W → Option Fault × W

-- The methods that only the package's own steps have.
pub record Configured (W : Type 0) : Type 0 where
  pub retry : Option (RetryPolicy W)
  pub metadata : Metadata

pub record Step (W : Type 0) : Type 0 where
  pub name : String
  pub kind : StepKind
  pub run : StepFunc W
  pub configured : Option (Configured W)
  pub validation_error : Option Cause
