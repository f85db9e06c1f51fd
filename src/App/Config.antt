-- ===== src/App/Config.antt =====
-- New and the options of an App.
use gall_lib.Common.{String, Option, none, some, List, [], ◌∷◌, ◌++◌, ◌==◌, false}
use gall_lib.Common.Results.{Result, ok, err, ◌>>=◌, ◌>>◌}
use gall_lib.Text.{trim_space}
use gall_lib.Types.{pos}
use gall_lib.App.{Address, State, Handle, Factory, Defaults, App, Error, Invalid}
use gall_lib.App.Merge.{Builtins, builtin_defaults, merge_defaults, finalize_defaults, over}
use gall_lib.App.Registration.{
  refuse_if, register_ready_agent, register_agent_factory, register_ready_workflow,
  register_workflow_factory,
}

-- `defaults` is nothing before the first WithDefaults, where Go has the zero Defaults.
pub record Options : Type 0 where
  pub agents : List (Option Handle)
  pub agent_factories : List (Option Factory)
  pub workflows : List (Option Handle)
  pub workflow_factories : List (Option Factory)
  pub logger : Option Address
  pub defaults : Option Defaults
  pub hooks : List (Option Address)
  pub servers : List (Option Address)
  pub serverless_hooks : List (Option Address)

abbrev pub no_options : Options
no_options = record {
  agents = [];
  agent_factories = [];
  workflows = [];
  workflow_factories = [];
  logger = none;
  defaults = none;
  hooks = [];
  servers = [];
  serverless_hooks = [];
}

abbrev pub zero_defaults : Defaults
zero_defaults = record {
  metadata = [];
  logger = none;
  shutdown_timeout = pos 0;
  agent = record {
    max_steps = pos 0;
    metadata = [];
    engine = none;
    memory = none;
    working_memory = none;
    input_guardrails = [];
    stream_guardrails = [];
    output_guardrails = [];
    hooks = [];
  };
  workflow = record { metadata = []; hooks = []; history = none; retry = none };
}

abbrev pub AppOption : Type 0
AppOption = Options → Result Error Options

abbrev pub with_agents : List (Option Handle) → AppOption
with_agents given o = ok (record o { agents = o.agents ++ given })

abbrev pub with_agent_factories : List (Option Factory) → AppOption
with_agent_factories given o = ok (record o { agent_factories = o.agent_factories ++ given })

abbrev pub with_workflows : List (Option Handle) → AppOption
with_workflows given o = ok (record o { workflows = o.workflows ++ given })

abbrev pub with_workflow_factories : List (Option Factory) → AppOption
with_workflow_factories given o =
    ok (record o { workflow_factories = o.workflow_factories ++ given })

abbrev pub with_logger : Option Address → AppOption
with_logger none o = err (Error.invalid_config Invalid.logger_nil)
with_logger (some log) o = ok (record o { logger = some log })

abbrev pub earlier : Option Defaults → Defaults
earlier none = zero_defaults
earlier (some d) = d

unfoldable pub with_defaults : Defaults → AppOption
with_defaults given o =
    ok (record o { defaults = some (merge_defaults (earlier o.defaults) given) })

abbrev pub with_app_hooks : List (Option Address) → AppOption
with_app_hooks given o = ok (record o { hooks = o.hooks ++ given })

abbrev pub with_servers : List (Option Address) → AppOption
with_servers given o = ok (record o { servers = o.servers ++ given })

abbrev pub with_serverless_hooks : List (Option Address) → AppOption
with_serverless_hooks given o = ok (record o { serverless_hooks = o.serverless_hooks ++ given })

unfoldable pub apply_options : List (Option AppOption) → Options → Result Error Options
apply_options [] o = ok o
apply_options (none ∷ opts) o = apply_options opts o
apply_options (some opt ∷ opts) o = opt o >>= apply_options opts

abbrev pub merged : Defaults → Option Defaults → Defaults
merged base none = base
merged base (some given) = merge_defaults base given

-- The defaults of the package, of the configuration, of the options, and then WithLogger's.
unfoldable pub resolved_defaults : Builtins → Defaults → Options → Defaults
resolved_defaults b configured o =
    let defaults = merged (merge_defaults (builtin_defaults b) configured) o.defaults in
    finalize_defaults b (record defaults { logger = over defaults.logger o.logger })

-- One of the four loops of New that register what the options gave.
unfoldable pub register_each :
    {A : Type 0} → (Option A → App → Result Error App) → List (Option A) → App → Result Error App
register_each register [] a = ok a
register_each register (x ∷ xs) a = register x a >>= register_each register xs

abbrev pub new_app : String → Defaults → Options → App
new_app name defaults o = record {
  name = name;
  defaults = defaults;
  state = State.created;
  hooks = o.hooks;
  servers = o.servers;
  serverless_hooks = o.serverless_hooks;
  ready_agents = [];
  agent_factories = [];
  ready_workflows = [];
  workflow_factories = [];
  started_agents = [];
  started_workflows = [];
  started_servers = [];
  start_err = none;
  cold_started = false;
}

unfoldable pub register_given : Options → App → Result Error App
register_given o a = do
  b ← register_each register_ready_agent o.agents a
  c ← register_each register_agent_factory o.agent_factories b
  d ← register_each register_ready_workflow o.workflows c
  register_each register_workflow_factory o.workflow_factories d

unfoldable pub new : Builtins → String → Defaults → List (Option AppOption) → Result Error App
new b given configured opts =
    let name = trim_space given in
    refuse_if (name == "") (Error.invalid_config Invalid.name_required)
    >> (apply_options opts no_options
        >>= (λ o. register_given o (new_app name (resolved_defaults b configured o) o)))
