-- ===== src/App/Merge.antt =====
-- The defaults of an App: the built-in ones, the merge of two, the completion and the snapshot.
use gall_lib.Common.{zero, suc, Bool, Option, none, some, [], ◌++◌, if◌then◌else◌}
use gall_lib.Common.Dict.{is_some}
use gall_lib.Types.{ℤ, pos, negsuc, Metadata, clone_metadata, merge_metadata}
use gall_lib.Agent.{less}
use gall_lib.App.{Address, AgentDefaults, WorkflowDefaults, Defaults}

-- if override.X != nil { out.X = override.X }
abbrev pub over {ℓ} : {A : Type ℓ} → Option A → Option A → Option A
over base none = base
over base (some a) = some a

abbrev pub over_number : ℤ → ℤ → ℤ
over_number base (pos zero) = base
over_number base (pos (suc n)) = pos (suc n)
over_number base (negsuc n) = negsuc n

unfoldable pub clone_agent_defaults : AgentDefaults → AgentDefaults
clone_agent_defaults d = record {
  max_steps = d.max_steps;
  metadata = clone_metadata d.metadata;
  engine = d.engine;
  memory = d.memory;
  working_memory = d.working_memory;
  input_guardrails = [] ++ d.input_guardrails;
  stream_guardrails = [] ++ d.stream_guardrails;
  output_guardrails = [] ++ d.output_guardrails;
  hooks = [] ++ d.hooks;
}

unfoldable pub clone_workflow_defaults : WorkflowDefaults → WorkflowDefaults
clone_workflow_defaults d = record {
  metadata = clone_metadata d.metadata;
  hooks = [] ++ d.hooks;
  history = d.history;
  retry = d.retry;
}

unfoldable pub clone_defaults : Defaults → Defaults
unfolding clone_agent_defaults clone_workflow_defaults
clone_defaults d = record {
  metadata = clone_metadata d.metadata;
  logger = d.logger;
  shutdown_timeout = d.shutdown_timeout;
  agent = clone_agent_defaults d.agent;
  workflow = clone_workflow_defaults d.workflow;
}

unfoldable pub merge_agent_defaults : AgentDefaults → AgentDefaults → AgentDefaults
unfolding clone_agent_defaults
merge_agent_defaults base override =
    let out = clone_agent_defaults base in
    record {
      max_steps = over_number out.max_steps override.max_steps;
      metadata = merge_metadata out.metadata override.metadata;
      engine = over out.engine override.engine;
      memory = over out.memory override.memory;
      working_memory = over out.working_memory override.working_memory;
      input_guardrails = out.input_guardrails ++ override.input_guardrails;
      stream_guardrails = out.stream_guardrails ++ override.stream_guardrails;
      output_guardrails = out.output_guardrails ++ override.output_guardrails;
      hooks = out.hooks ++ override.hooks;
    }

unfoldable pub merge_workflow_defaults : WorkflowDefaults → WorkflowDefaults → WorkflowDefaults
unfolding clone_workflow_defaults
merge_workflow_defaults base override =
    let out = clone_workflow_defaults base in
    record {
      metadata = merge_metadata out.metadata override.metadata;
      hooks = out.hooks ++ override.hooks;
      history = over out.history override.history;
      retry = over out.retry override.retry;
    }

unfoldable pub merge_defaults : Defaults → Defaults → Defaults
unfolding clone_defaults merge_agent_defaults merge_workflow_defaults
merge_defaults base override =
    let out = clone_defaults base in
    record {
      metadata = merge_metadata out.metadata override.metadata;
      logger = over out.logger override.logger;
      shutdown_timeout = over_number out.shutdown_timeout override.shutdown_timeout;
      agent = merge_agent_defaults out.agent override.agent;
      workflow = merge_workflow_defaults out.workflow override.workflow;
    }

-- The objects that the package makes itself: logger.Nop(), an engine of NewEngine(), and the
-- in-memory factory.
pub record Builtins : Type 0 where
  pub nop : Address
  pub engine : Address
  pub working_memory : Address

abbrev pub default_shutdown_timeout : ℤ
default_shutdown_timeout = pos 30_000_000_000

abbrev pub default_max_steps : ℤ
default_max_steps = pos 8

unfoldable pub builtin_defaults : Builtins → Defaults
builtin_defaults b = record {
  metadata = [];
  logger = some b.nop;
  shutdown_timeout = default_shutdown_timeout;
  agent = record {
    max_steps = default_max_steps;
    metadata = [];
    engine = some b.engine;
    memory = none;
    working_memory = some b.working_memory;
    input_guardrails = [];
    stream_guardrails = [];
    output_guardrails = [];
    hooks = [];
  };
  workflow = record { metadata = []; hooks = []; history = none; retry = none };
}

abbrev pub or_else {ℓ} : {A : Type ℓ} → Option A → A → Option A
or_else none a = some a
or_else (some b) a = some b

-- if n <= 0 { n = fallback }
abbrev pub positive_or : ℤ → ℤ → ℤ
positive_or n fallback = if less (pos 0) n then n else fallback

unfoldable pub finalize_defaults : Builtins → Defaults → Defaults
unfolding clone_defaults
finalize_defaults b d =
    let out = clone_defaults d in
    record out {
      logger = or_else out.logger b.nop;
      shutdown_timeout = positive_or out.shutdown_timeout default_shutdown_timeout;
      agent = record out.agent {
        max_steps = positive_or out.agent.max_steps default_max_steps;
        engine = or_else out.agent.engine b.engine;
      };
    }

pub record DefaultsSnapshot : Type 0 where
  pub metadata : Metadata
  pub shutdown_timeout : ℤ
  pub max_steps : ℤ
  pub agent_metadata : Metadata
  pub has_engine : Bool
  pub has_memory : Bool
  pub workflow_metadata : Metadata
  pub has_history : Bool
  pub has_retry : Bool

unfoldable pub snapshot_defaults : Defaults → DefaultsSnapshot
snapshot_defaults d = record {
  metadata = clone_metadata d.metadata;
  shutdown_timeout = d.shutdown_timeout;
  max_steps = d.agent.max_steps;
  agent_metadata = clone_metadata d.agent.metadata;
  has_engine = is_some d.agent.engine;
  has_memory = is_some d.agent.memory;
  workflow_metadata = clone_metadata d.workflow.metadata;
  has_history = is_some d.workflow.history;
  has_retry = is_some d.workflow.retry;
}
