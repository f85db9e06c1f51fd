-- ===== src/App/Bootstrap.antt =====
-- `start` of an App with the materialization of agents and workflows and the cold-start hooks.
pub mod Laws
use gall_lib.Common.{
  String, Bool, true, false, Option, none, some, List, [], ◌∷◌, ◌++◌, ◌==◌, if◌then◌else◌,
}
use gall_lib.Common.Dict.{Dict, get, put, is_some}
use gall_lib.Common.Results.{Result, ok, err}
use gall_lib.Context.{Fault}
use gall_lib.Types.{Metadata}
use gall_lib.Tool.Registry.{sort}
use gall_lib.App.{
  Address, Handle, Factory, AgentDefaults, WorkflowDefaults, State, EventType, Error, Invalid, App,
  Action, Ctx, Sim, Env, note, assign, set_state,
}
use gall_lib.App.Merge.{clone_agent_defaults, clone_workflow_defaults}
use gall_lib.App.Registration.{Descriptor, list_agents, list_workflows}
use gall_lib.App.Events.{emit_event}
use gall_lib.App.Servers.{Launch, rollback_started_servers, start_servers}

-- The first ready name that a factory has too.
unfoldable pub shared_name : Dict Handle → Dict Factory → Option String
shared_name [] factories = none
shared_name ((name, h) ∷ ready) factories = elim (is_some (get name factories)) [
  | true ↦ some name
  | false ↦ shared_name ready factories
]

-- The checks of what a factory built, and its entry in the map.
abbrev pub check_built :
    String → (String → Error) → Option Handle → Dict Handle → Result Error (Dict Handle)
check_built name duplicate none out = err (Error.invalid_config (Invalid.built_nil name))
check_built name duplicate (some h) out =
    if h.name == name
    then if is_some (get name out) then err (duplicate name) else ok (put name h out)
    else err (Error.invalid_config (Invalid.built_named name h.name))

abbrev pub built :
    String
    → (String → Error)
    → Result Fault (Option Handle)
    → Dict Handle
    → Result Error (Dict Handle)
built name duplicate (err f) out = err (Error.foreign f)
built name duplicate (ok h) out = check_built name duplicate h out

-- The names of the factories in order, each with its factory.
unfoldable pub sorted_factories : Dict Factory → List (String × Factory)
sorted_factories factories = sort (λ entry. entry.0) factories

module _ {W : Type 0} where
  -- The loop over the factories' names: each is built, checked and added.
  unfoldable pub build_all :
      (Factory → Sim W → Result Fault (Option Handle) × Sim W)
      → (String → Error)
      → List (String × Factory)
      → Dict Handle
      → Sim W
      → Result Error (Dict Handle) × Sim W
  build_all build duplicate [] out s = (ok out, s)
  build_all build duplicate ((name, f) ∷ factories) out s =
      let (answer, s') = build f s in
      elim (built name duplicate answer out) [
        | err e ↦ (err e, s')
        | ok more ↦ build_all build duplicate factories more s'
      ]

  -- materializeAgents and materializeWorkflows alike.
  unfoldable pub materialize :
      (Factory → Sim W → Result Fault (Option Handle) × Sim W)
      → (String → Error)
      → Dict Handle
      → Dict Factory
      → Sim W
      → Result Error (Dict Handle) × Sim W
  materialize build duplicate ready factories s = elim (shared_name ready factories) [
    | some name ↦ (err (duplicate name), s)
    | none ↦ build_all build duplicate (sorted_factories factories) ready s
  ]

module _ {W : Type 0} (env : Env W) where
  -- The defaults that an agent factory is given: the logging hook comes first.
  abbrev pub agent_factory_defaults : App → AgentDefaults
  agent_factory_defaults a =
      let defaults = clone_agent_defaults a.defaults.agent in
      clone_agent_defaults (record defaults {
        hooks = some (env.logging_agent_hook a.defaults.logger) ∷ defaults.hooks;
      })

  abbrev pub workflow_factory_defaults : App → WorkflowDefaults
  workflow_factory_defaults a =
      let defaults = clone_workflow_defaults a.defaults.workflow in
      clone_workflow_defaults (record defaults {
        hooks = some (env.logging_workflow_hook a.defaults.logger) ∷ defaults.hooks;
      })

  abbrev pub build_agent_with :
      AgentDefaults → Factory → Sim W → Result Fault (Option Handle) × Sim W
  build_agent_with defaults f s =
      env.build_agent f.address defaults (note (Action.agent_built f.address) s)

  abbrev pub build_workflow_with :
      WorkflowDefaults → Factory → Sim W → Result Fault (Option Handle) × Sim W
  build_workflow_with defaults f s =
      env.build_workflow f.address defaults (note (Action.workflow_built f.address) s)

  unfoldable pub materialize_agents : Sim W → Result Error (Dict Handle) × Sim W
  materialize_agents s =
      materialize (build_agent_with (agent_factory_defaults s.app)) Error.duplicate_agent
        s.app.ready_agents s.app.agent_factories s

  unfoldable pub materialize_workflows : Sim W → Result Error (Dict Handle) × Sim W
  materialize_workflows s =
      materialize (build_workflow_with (workflow_factory_defaults s.app)) Error.duplicate_workflow
        s.app.ready_workflows s.app.workflow_factories s

  -- The loop over the hooks; the first error ends it and takes the mark back.
  unfoldable pub cold_start_loop : List (Option Address) → Sim W → Option Error × Sim W
  cold_start_loop [] s = (none, s)
  cold_start_loop (none ∷ hooks) s = cold_start_loop hooks s
  cold_start_loop (some h ∷ hooks) s =
      let (answer, s') = env.on_cold_start h (note (Action.cold_start h) s) in
      elim answer [
        | some f ↦ (some (Error.foreign f), assign (λ a. record a { cold_started = false }) s')
        | none ↦ cold_start_loop hooks s'
      ]

  abbrev pub unless_started : Bool → Sim W → Option Error × Sim W
  unless_started true s = (none, s)
  unless_started false s =
      cold_start_loop s.app.serverless_hooks (assign (λ a. record a { cold_started = true }) s)

  unfoldable pub run_cold_start_hooks : Sim W → Option Error × Sim W
  unfolding cold_start_loop
  run_cold_start_hooks s = unless_started s.app.cold_started s

  unfoldable pub fail_start : Error → Sim W → Option Error × Sim W
  fail_start e s =
      (some e, emit_event env EventType.bootstrap_failed (some e) [] (set_state State.stopped s))

  unfoldable pub emit_agents : List Descriptor → Sim W → Sim W
  emit_agents [] s = s
  emit_agents (d ∷ ds) s =
      emit_agents ds
        (emit_event env EventType.agent_registered none (("agent_name", d.name) ∷ []) s)

  unfoldable pub emit_workflows : List Descriptor → Sim W → Sim W
  emit_workflows [] s = s
  emit_workflows (d ∷ ds) s =
      emit_workflows ds
        (emit_event env EventType.workflow_registered none (("workflow_name", d.name) ∷ []) s)

  abbrev pub rolled : Error → Option Error → Error
  rolled e none = e
  rolled e (some r) = Error.rolled_back e r

  -- A failed server or cold start: what was started is shut down again.
  unfoldable pub roll_back : Ctx W → List Address → Error → Sim W → Option Error × Sim W
  roll_back ctx begun e s =
      let (answer, s') = rollback_started_servers env ctx begun s in
      fail_start (rolled e answer) (
        assign
          (λ a. record a { started_agents = []; started_workflows = []; state = State.stopped }) s')

  -- The end of `start`, when every server runs.
  unfoldable pub finish_start : Ctx W → List Address → Sim W → Option Error × Sim W
  finish_start ctx begun s =
      let (answer, s') = run_cold_start_hooks s in
      elim answer [
        | some e ↦ roll_back ctx begun e s'
        | none ↦ (
          none,
          emit_event env EventType.app_started none []
              (assign (λ a. record a { started_servers = begun; state = State.running }) s'),
        )
      ]

  abbrev pub after_servers : Ctx W → Launch × List Address × Sim W → Option Error × Sim W
  after_servers ctx (Launch.launched, begun, s) = finish_start ctx begun s
  after_servers ctx (Launch.stopping_seen, begun, s) = fail_start Error.app_is_stopping s
  after_servers ctx (Launch.refused f, begun, s) = roll_back ctx begun (Error.foreign f) s

  unfoldable pub announce : Sim W → Sim W
  unfolding emit_agents emit_workflows
  announce s =
      let s' = emit_agents (list_agents s.app) s in emit_workflows (list_workflows s'.app) s'

  -- `start` from where the agents and the workflows are made.
  unfoldable pub launch : Ctx W → Dict Handle → Dict Handle → Sim W → Option Error × Sim W
  launch ctx agents workflows s =
      let s' =
        announce
          (assign (λ a. record a { started_agents = agents; started_workflows = workflows }) s) in
      after_servers ctx (start_servers env ctx s'.app.servers [] s')

  unfoldable pub start : Ctx W → Sim W → Option Error × Sim W
  start ctx s =
      let (agents, s₁) = materialize_agents (emit_event env EventType.app_starting none [] s) in
      elim agents [
        | err e ↦ fail_start e s₁
        | ok started_agents ↦
            let (workflows, s₂) = materialize_workflows s₁ in
            elim workflows [
              | err e ↦ fail_start e s₂
              | ok started_workflows ↦ launch ctx started_agents started_workflows s₂
            ]
      ]
