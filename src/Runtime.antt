-- ===== src/Runtime.antt =====
-- internal/runtime/engine.go with pkg/guardrail/guardrail.go and the run envelopes of
-- pkg/agent/agent.go. `W` is everything outside of the library, which models, guardrails, hooks,
-- stores and tools read and change.
pub mod Classify
pub mod Exec
pub mod Copies
pub mod Emitter
pub mod Guardrails
pub mod Tools
pub mod Collect
pub mod Execute
pub mod Post
pub mod Sink
use gall_lib.Common.{ℕ, String, Bool, true, false, ◌||◌, Option, none, some, List}
use gall_lib.Common.Dict.{Dict}
use gall_lib.Common.Results.{Result}
use gall_lib.Context.{Interrupt}
use gall_lib.Types.{ℤ, Value, Fields, Metadata, Message, MessageDelta, Usage}
use gall_lib.Memory.{Snapshot, Delta}
use gall_lib.Tool.{Tool, Output}
use gall_lib.Tool as Tool
use gall_lib.Agent.{ErrorKind, ToolChoice}

-- The sentinels of pkg/agent that the engine looks for, those of the context, and errMaxSteps.
pub data Sentinel : Type 0 where
  aborted guardrail_blocked steps_exceeded max_steps canceled deadline : Sentinel

-- An error of other code: what errors.Is answers of it, and whether errors.As finds an *agent.Error.
pub record Foreign : Type 0 where
  pub text : String
  pub is : Sentinel → Bool
  pub is_agent_error : Bool

-- The phases of a run at which guardrails run, and their actions.
pub data Phase : Type 0 where
  input stream output : Phase

pub data ActionKind : Type 0 where
  allow block transform drop abort : ActionKind
  other_action : String → ActionKind

-- The texts that the engine formats: a constructor for a format, with its arguments.
pub data Reason : Type 0 where
  input_messages stream_delta stream_role output_message output_role : Reason
  cannot_block only_drop only_abort : Reason
  unknown_action : ActionKind → Reason
  tool_required tools_disabled : Reason
  reserved_tool unavailable_tool : String → Reason

pub data Cause : Type 0 where
  sentinel : Sentinel → Cause
  blocked : String → Cause
  reason : Reason → Cause
  foreign : Foreign → Cause
  of_tool : Tool.Error → Cause

-- agent.Error as the engine makes it.
pub record Error : Type 0 where
  pub kind : ErrorKind
  pub op : String
  pub agent_id : String
  pub run_id : String
  pub cause : Cause

-- What a run ends with: an error of the engine, or an *agent.Error of the model passed on as it is.
pub data Failure : Type 0 where
  failed : Error → Failure
  passed : Foreign → Failure

pub record GuardrailContext : Type 0 where
  pub phase : Phase
  pub agent_id : String
  pub agent_name : String
  pub run_id : String
  pub session_id : String
  pub metadata : Metadata

pub record InputRequest : Type 0 where
  pub context : GuardrailContext
  pub messages : List Message

pub record StreamRequest : Type 0 where
  pub context : GuardrailContext
  pub chunk_index : ℕ
  pub delta : MessageDelta
  pub buffered_content : String

pub record OutputRequest : Type 0 where
  pub context : GuardrailContext
  pub message : Message

-- guardrail.Decision: nil messages are `none`.
pub record Decision : Type 0 where
  pub name : String
  pub action : ActionKind
  pub reason : String
  pub messages : Option (List Message)
  pub delta : Option MessageDelta
  pub message : Option Message
  pub metadata : Metadata

-- A guardrail: the name of its Go type, and its check.
pub record Guardrail (W Request : Type 0) : Type 0 where
  pub type_name : String
  pub check : Request → W → Result Foreign Decision × W

-- agent.GuardrailDecision
pub record GuardrailDecision : Type 0 where
  pub phase : Phase
  pub name : String
  pub action : ActionKind
  pub reason : String
  pub metadata : Metadata

-- The duration of a call is left out.
pub record ToolCallRecord : Type 0 where
  pub id : String
  pub name : String
  pub input : Fields
  pub output : Output

pub data ToolCallStatus : Type 0 where
  call_started call_succeeded call_failed : ToolCallStatus

pub record ToolCallEvent : Type 0 where
  pub call : ToolCallRecord
  pub status : ToolCallStatus

pub record Response : Type 0 where
  pub run_id : String
  pub agent_id : String
  pub session_id : String
  pub message : Message
  pub usage : Usage
  pub tool_calls : List ToolCallRecord
  pub guardrail_decisions : List GuardrailDecision
  pub metadata : Metadata

pub data EventType : Type 0 where
  agent_started agent_delta tool_call tool_result guardrail_event : EventType
  agent_completed agent_failed agent_canceled : EventType

-- The event's time is left out.
pub record Event : Type 0 where
  pub sequence : ℕ
  pub type : EventType
  pub run_id : String
  pub agent_id : String
  pub session_id : String
  pub delta : Option MessageDelta
  pub tool_call : Option ToolCallEvent
  pub guardrail : Option GuardrailDecision
  pub response : Option Response
  pub error : Option Failure
  pub metadata : Metadata

pub record ToolSpec : Type 0 where
  pub name : String
  pub description : String

pub record ModelToolCall : Type 0 where
  pub id : String
  pub name : String
  pub input : Fields

pub record ModelRequest : Type 0 where
  pub agent_id : String
  pub run_id : String
  pub session_id : String
  pub instructions : String
  pub messages : List Message
  pub memory : Snapshot
  pub metadata : Metadata
  pub max_steps : ℤ
  pub tool_choice : ToolChoice
  pub allowed_tools : List String
  pub tools : List ToolSpec

pub record ModelResponse : Type 0 where
  pub message : Message
  pub usage : Usage
  pub tool_calls : List ModelToolCall
  pub metadata : Metadata

pub record ModelEvent : Type 0 where
  pub delta : Option MessageDelta
  pub message : Option Message
  pub tool_call : Option ModelToolCall
  pub usage : Usage
  pub done : Bool

-- What a Recv of a model stream answers.
pub data Received : Type 0 where
  received : ModelEvent → Received
  end_of_stream : Received
  recv_failed : Foreign → Received

-- A model stream is known by its number.
pub record Model (W : Type 0) : Type 0 where
  pub generate : ModelRequest → W → Result Foreign ModelResponse × W
  pub stream : ModelRequest → W → Result Foreign ℕ × W
  pub recv : ℕ → W → Received × W
  pub close : ℕ → W → W

pub record MemoryStore (W : Type 0) : Type 0 where
  pub load : String → W → Result Foreign Snapshot × W
  pub save : String → Delta → W → Option Foreign × W

-- agent.Definition. A hook's panic is recovered and logged, so a hook only acts on the world.
pub record Definition (W : Type 0) : Type 0 where
  pub id : String
  pub name : String
  pub instructions : String
  pub model : Model W
  pub tools : List (Tool W)
  pub memory : Option (MemoryStore W)
  pub input_guardrails : List (Option (Guardrail W InputRequest))
  pub stream_guardrails : List (Option (Guardrail W StreamRequest))
  pub output_guardrails : List (Option (Guardrail W OutputRequest))
  pub hooks : List (Option (Event → W → W))

-- ctx.Err and context.Cause
pub record Ctx (W : Type 0) : Type 0 where
  pub err : W → Option Interrupt
  pub cause : W → Option Cause
