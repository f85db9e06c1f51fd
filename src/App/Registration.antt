-- ===== src/App/Registration.antt =====
-- The registries of an App: registration while it is created, and the lookup and the listing of
-- agents and workflows. Each lock makes a method one step.
pub mod Laws
use gall_lib.Common.{
  String, Bool, true, false, ◌&&◌, not, Option, none, some, List, [], ◌∷◌, ◌==◌, if◌then◌else◌,
}
use gall_lib.Common.Dict.{Dict, get, put, is_some}
use gall_lib.Common.Results.{Result, ok, err, ◌>>=◌, ◌>>◌}
use gall_lib.Text.{trim_space}
use gall_lib.Tool.Registry.{sort}
use gall_lib.App.{State, Handle, Factory, App, Error, Invalid, Target, created, running, stopped}

abbrev pub refuse_if : Bool → Error → Result Error (Unit {0})
refuse_if true e = err e
refuse_if false e = ok tt

-- a.state != StateCreated
abbrev pub is_sealed : State → Bool
is_sealed created = false
is_sealed _ = true

abbrev pub is_stopped : State → Bool
is_stopped stopped = true
is_stopped _ = false

abbrev pub is_running : State → Bool
is_running running = true
is_running _ = false

abbrev pub health : App → Bool
health a = not (is_stopped a.state)

abbrev pub ready : App → Bool
ready a = is_running a.state

-- The checks of a ready object: the state first, then its name.
abbrev pub check_ready : State → String → Dict Handle → Error → Error → Result Error (Unit {0})
check_ready st name taken unnamed duplicate =
    refuse_if (is_sealed st) Error.registry_sealed
    >> refuse_if (name == "") unnamed
    >> refuse_if (is_some (get name taken)) duplicate

-- The checks of a factory: its name first, then the state.
abbrev pub check_factory : State → String → Dict Factory → Error → Error → Result Error (Unit {0})
check_factory st name taken unnamed duplicate =
    refuse_if (name == "") unnamed
    >> refuse_if (is_sealed st) Error.registry_sealed
    >> refuse_if (is_some (get name taken)) duplicate

unfoldable pub register_ready_agent : Option Handle → App → Result Error App
register_ready_agent none a = err (Error.invalid_config Invalid.agent_nil)
register_ready_agent (some h) a =
    let name = trim_space h.name in
    check_ready a.state name a.ready_agents (Error.invalid_config Invalid.agent_name)
      (Error.duplicate_agent name)
    >> ok (record a { ready_agents = put name h a.ready_agents })

unfoldable pub register_agent_factory : Option Factory → App → Result Error App
register_agent_factory none a = err (Error.invalid_config Invalid.factory_nil)
register_agent_factory (some f) a =
    let name = trim_space f.name in
    check_factory a.state name a.agent_factories (Error.invalid_config Invalid.factory_name)
      (Error.duplicate_agent name)
    >> ok (record a { agent_factories = put name f a.agent_factories })

unfoldable pub register_ready_workflow : Option Handle → App → Result Error App
register_ready_workflow none a = err (Error.invalid_config Invalid.workflow_nil)
register_ready_workflow (some h) a =
    let name = trim_space h.name in
    check_ready a.state name a.ready_workflows (Error.invalid_config Invalid.workflow_name)
      (Error.duplicate_workflow name)
    >> ok (record a { ready_workflows = put name h a.ready_workflows })

unfoldable pub register_workflow_factory : Option Factory → App → Result Error App
register_workflow_factory none a = err (Error.invalid_config Invalid.workflow_factory_nil)
register_workflow_factory (some f) a =
    let name = trim_space f.name in
    check_factory a.state name a.workflow_factories
      (Error.invalid_config Invalid.workflow_factory_name) (Error.duplicate_workflow name)
    >> ok (record a { workflow_factories = put name f a.workflow_factories })

-- The started objects first, then the ready ones.
abbrev pub look_up : String → Dict Handle → Dict Handle → Error → Result Error Handle
look_up name begun ready missing = elim (get name begun) [
  | some h ↦ ok h
  | none ↦ elim (get name ready) [ some h ↦ ok h | none ↦ err missing ]
]

unfoldable pub resolve_agent : String → App → Result Error Handle
resolve_agent given a =
    let name = trim_space given in
    look_up name a.started_agents a.ready_agents (Error.agent_not_found name)

unfoldable pub resolve_workflow : String → App → Result Error Handle
resolve_workflow given a =
    let name = trim_space given in
    look_up name a.started_workflows a.ready_workflows (Error.workflow_not_found name)

pub record Descriptor : Type 0 where
  pub name : String
  pub id : String

-- The started objects where there are any, and else the ready ones.
abbrev pub shown : Dict Handle → Dict Handle → Dict Handle
shown [] ready = ready
shown (entry ∷ begun) ready = entry ∷ begun

unfoldable pub agent_descriptors : Dict Handle → List Descriptor
agent_descriptors [] = []
agent_descriptors ((k, h) ∷ hs) = record { name = h.name; id = h.id } ∷ agent_descriptors hs

unfoldable pub workflow_descriptors : Dict Handle → List Descriptor
workflow_descriptors [] = []
workflow_descriptors ((k, h) ∷ hs) = record { name = k; id = k } ∷ workflow_descriptors hs

unfoldable pub list_agents : App → List Descriptor
list_agents a = sort (λ d. d.name) (agent_descriptors (shown a.started_agents a.ready_agents))

unfoldable pub list_workflows : App → List Descriptor
list_workflows a =
    sort (λ d. d.name) (workflow_descriptors (shown a.started_workflows a.ready_workflows))
