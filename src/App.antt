-- ===== src/App.antt =====
-- pkg/app/app.go with errors.go and observability.go: the state of an App, its events, its errors
-- and what it is composed of. A value of an interface type that the app keeps and calls is its
-- address; what a call at an address does is the matter of an `Env`.
pub mod Merge
pub mod Registration
pub mod Config
pub mod Events
pub mod Servers
pub mod Bootstrap
pub mod Lifecycle
pub mod Calm
pub mod Balance
pub mod History
pub mod Calls
pub mod Settled
pub mod Stopped
pub mod Revival
pub mod Created
use gall_lib.Common.{ℕ, ◌+◌, String, Bool, Option, none, some, List, ◌∷◌, leb, if◌then◌else◌}
use gall_lib.Common.Dict.{Dict}
use gall_lib.Common.Results.{Result}
use gall_lib.Context.{Interrupt, Fault}
use gall_lib.Types.{ℤ, Metadata}

abbrev pub Address : Type 0
Address = ℕ

pub data State : Type 0 where
  created starting running stopping stopped : State

-- A ready agent or workflow: what the app reads of it, and which object it is.
pub record Handle : Type 0 where
  pub name : String
  pub id : String
  pub address : Address

pub record Factory : Type 0 where
  pub name : String
  pub address : Address

pub record AgentDefaults : Type 0 where
  pub max_steps : ℤ
  pub metadata : Metadata
  pub engine : Option Address
  pub memory : Option Address
  pub working_memory : Option Address
  pub input_guardrails : List (Option Address)
  pub stream_guardrails : List (Option Address)
  pub output_guardrails : List (Option Address)
  pub hooks : List (Option Address)

pub record WorkflowDefaults : Type 0 where
  pub metadata : Metadata
  pub hooks : List (Option Address)
  pub history : Option Address
  pub retry : Option Address

-- A time.Duration counts nanoseconds.
pub record Defaults : Type 0 where
  pub metadata : Metadata
  pub logger : Option Address
  pub shutdown_timeout : ℤ
  pub agent : AgentDefaults
  pub workflow : WorkflowDefaults

-- ErrInvalidConfig with its texts, the other sentinels, the errors of other code, and
-- fmt.Errorf("%w; rollback: %v", err, rollbackErr).
pub data Invalid : Type 0 where
  name_required context_required agent_nil agent_name factory_nil factory_name : Invalid
  workflow_nil workflow_name workflow_factory_nil workflow_factory_name logger_nil run_nil : Invalid
  built_nil : String → Invalid
  built_named : String → String → Invalid

pub data Error : Type 0 where
  invalid_config : Invalid → Error
  agent_not_found workflow_not_found duplicate_agent duplicate_workflow : String → Error
  registry_sealed app_stopped app_is_stopping : Error
  interrupted : Interrupt → Error
  foreign : Fault → Error
  rolled_back : Error → Error → Error

pub data EventType : Type 0 where
  app_starting app_started app_stopping_event app_stopped_event : EventType
  agent_registered workflow_registered bootstrap_failed : EventType

pub record Event : Type 0 where
  pub type : EventType
  pub app_name : String
  pub error : Option Error
  pub metadata : Metadata

pub record Target : Type 0 where
  pub kind : String
  pub name : String

pub record App : Type 0 where
  pub name : String
  pub defaults : Defaults
  pub state : State
  pub hooks : List (Option Address)
  pub servers : List (Option Address)
  pub serverless_hooks : List (Option Address)
  pub ready_agents : Dict Handle
  pub agent_factories : Dict Factory
  pub ready_workflows : Dict Handle
  pub workflow_factories : Dict Factory
  pub started_agents : Dict Handle
  pub started_workflows : Dict Handle
  pub started_servers : List Address
  pub start_err : Option Error
  pub cold_started : Bool

-- The calls that the app makes of what it is composed of.
pub data Level : Type 0 where
  debug info error : Level

pub data Action : Type 0 where
  logged : Level → EventType → Action
  delivered : Address → Event → Action
  hook_panicked : EventType → Action
  agent_built workflow_built : Address → Action
  server_started server_failed server_stopped : Address → Action
  cold_start : Address → Action
  invoke_started invoke_done : Address → Target → Action

-- A context: when it ends, and its deadline.
pub record Ctx (W : Type 0) : Type 0 where
  pub err : W → Option Interrupt
  pub deadline : Option ℕ

-- The app, its calls so far with the newest first, and the world of everything else.
pub record Sim (W : Type 0) : Type 0 where
  pub app : App
  pub trace : List Action
  pub world : W

-- What other code does when the app calls it. It sees the app and may call its methods, and so may
-- the goroutines that run meanwhile. A hook answers if it panics. `wait` is the time that a caller
-- is blocked; it answers if the start has ended, and not only the caller's context.
pub record Env (W : Type 0) : Type 0 where
  pub clock : W → ℕ
  pub on_event : Address → Event → Sim W → Bool × Sim W
  pub build_agent : Address → AgentDefaults → Sim W → Result Fault (Option Handle) × Sim W
  pub build_workflow : Address → WorkflowDefaults → Sim W → Result Fault (Option Handle) × Sim W
  pub start_server : Address → Ctx W → Sim W → Option Fault × Sim W
  pub shutdown_server : Address → Ctx W → Sim W → Option Error × Sim W
  pub on_cold_start : Address → Sim W → Option Fault × Sim W
  pub on_invoke_start : Address → Target → Ctx W → Sim W → Result Fault (Ctx W) × Sim W
  pub on_invoke_done : Address → Target → Option Error → Sim W → Sim W
  pub wait : Sim W → Bool × Sim W
  pub until_done : Ctx W → Sim W → Sim W
  pub logging_agent_hook : Option Address → Address
  pub logging_workflow_hook : Option Address → Address

module _ {W : Type 0} where
  -- An assignment to the app's fields, and a call that is noted.
  abbrev pub assign : (App → App) → Sim W → Sim W
  assign f s = record s { app = f s.app }

  abbrev pub note : Action → Sim W → Sim W
  note a s = record s { trace = a ∷ s.trace }

  abbrev pub set_state : State → Sim W → Sim W
  set_state st = assign (λ a. record a { state = st })

  -- context.WithTimeout
  abbrev pub with_timeout : (W → ℕ) → ℕ → Ctx W → W → Ctx W
  with_timeout clock timeout ctx now = record {
    err = λ w. elim (ctx.err w) [
      | some i ↦ some i
      | none ↦
          if leb (clock now + timeout) (clock w) then some Interrupt.deadline_exceeded else none
    ];
    deadline = some (clock now + timeout);
  }
