-- ===== src/Examples/Apps.antt =====
-- Tests of the App, and its theorems at concrete apps.
use gall_lib.Common.{
  ℕ, ◌≡◌, refl, true, false, ◌&&◌, ◌||◌, ◌==◌, Option, none, some, List, [], ◌∷◌, eqb,
  if◌then◌else◌,
}
use gall_lib.Common.Dict.{Dict, get, put, is_some}
use gall_lib.Common.Results.{Result, ok}
use gall_lib.Context.{Fault}
use gall_lib.Text.{trim_space, trim, trim_left, trim_right, is_space}
use gall_lib.Types.{merge_metadata}
use gall_lib.App.{
  Handle, Factory, State, created, running, stopped, Error, App, Ctx, Sim, Env, assign, set_state,
}
use gall_lib.App.Merge.{Builtins, merge_defaults, finalize_defaults, builtin_defaults}
use gall_lib.App.Config.{
  AppOption, zero_defaults, with_agents, with_agent_factories, with_servers, new, apply_options,
  register_each, register_given, resolved_defaults,
}
use gall_lib.App.Registration.{
  register_ready_workflow, register_workflow_factory, register_ready_agent, register_agent_factory,
  resolve_agent, list_agents, list_workflows, agent_descriptors, workflow_descriptors,
}
use gall_lib.Tool.Schemas.Laws.{accepts}
use gall_lib.App.Registration.Laws.{may_register, resolve_agent-register, accepts-register}
use gall_lib.App.Events.{emit_event}
use gall_lib.App.Servers.{
  start_servers, stop_server, stop_servers, shut_down_all, rollback_started_servers,
}
use gall_lib.App.Bootstrap.{
  materialize_agents, materialize_workflows, materialize, shared_name, build_all, sorted_factories,
  start, launch, announce, run_cold_start_hooks, finish_start, roll_back, fail_start,
}
use gall_lib.Tool.Registry.{sort, insert}
use gall_lib.App.Bootstrap.Laws.{materialize-ok}
use gall_lib.App.Lifecycle.{first_start, ensure_started, shutdown, shut_down}
use gall_lib.App.Calm.{Same, Quiet, open_servers, AreQuietHooks}
use gall_lib.App.History.{IsSettled, Tells, ensure_started-Tells}
use gall_lib.App.Calls.{start_call, shutdown_call, call, calls}
use gall_lib.App.Created.{calls_after_new-IsSettled}
use gall_lib.App.Revival.{Sets, start-Sets}

-- The world is a clock. The server at address 9 cannot start; every other answers nothing.
abbrev env : Env ℕ
env = record {
  clock = λ w. w;
  on_event = λ h e s. (false, s);
  build_agent = λ a d s. (ok (some (record { name = "writer"; id = "w"; address = a })), s);
  build_workflow = λ a d s. (ok none, s);
  start_server =
      λ a c s. (if eqb a 9 then some (record { text = "in use"; interrupt = none }) else none, s);
  shutdown_server = λ a c s. (none, s);
  on_cold_start = λ h s. (none, s);
  on_invoke_start = λ h t c s. (ok c, s);
  on_invoke_done = λ h t e s. s;
  wait = λ s. (true, s);
  until_done = λ c s. s;
  logging_agent_hook = λ l. 70;
  logging_workflow_hook = λ l. 71;
}

same : (s : Sim ℕ) → Same s s
same s = record { app = refl; trace = refl }

env-Quiet : Quiet env
env-Quiet = record {
  on_event = λ h e s. same s;
  build_agent = λ a d s. same s;
  build_workflow = λ a d s. same s;
  start_server = λ a c s. same s;
  shutdown_server = λ a c s. same s;
  on_cold_start = λ h s. same s;
  on_invoke_start = λ h t c s. same s;
  on_invoke_done = λ h t e s. same s;
  until_done = λ c s. same s;
}

abbrev builtins : Builtins
builtins = record { nop = 60; engine = 61; working_memory = 62 }

abbrev reader : Handle
reader = record { name = " reader "; id = "r"; address = 3 }

abbrev writer : Factory
writer = record { name = "writer"; address = 4 }

abbrev given : List (Option AppOption)
given =
    some (with_agents (some reader ∷ []))
    ∷ some (with_agent_factories (some writer ∷ []))
    ∷ none
    ∷ some (with_servers (none ∷ some 5 ∷ some 6 ∷ []))
    ∷ []

abbrev demo : App
demo = record {
  name = "demo";
  defaults = finalize_defaults builtins (builtin_defaults builtins);
  state = created;
  hooks = [];
  servers = none ∷ some 5 ∷ some 6 ∷ [];
  serverless_hooks = [];
  ready_agents = ("reader", reader) ∷ [];
  agent_factories = ("writer", writer) ∷ [];
  ready_workflows = [];
  workflow_factories = [];
  started_agents = [];
  started_workflows = [];
  started_servers = [];
  start_err = none;
  cold_started = false;
}

new-demo : new builtins " demo " zero_defaults given ≡ ok demo
unfolding new apply_options register_given register_each register_ready_agent register_agent_factory
    resolved_defaults builtin_defaults finalize_defaults merge_defaults merge_metadata trim_space
    trim trim_left trim_right is_space get put
new-demo = refl

abbrev forever : Ctx ℕ
forever = record { err = λ w. none; deadline = none }

abbrev at_rest : Sim ℕ
at_rest = record { app = demo; trace = []; world = 0 }

at_rest-IsSettled : IsSettled at_rest
unfolding open_servers
at_rest-IsSettled = (refl, refl)

abbrev started : Sim ℕ
started = call env 0 (start_call (some forever)) at_rest

-- Both servers run after the start, the second one on top.
started_test :
    (started.app.state ≡ running)
    × (started.app.started_servers ≡ 5 ∷ 6 ∷ [])
    × (open_servers started.trace ≡ 6 ∷ 5 ∷ [])
unfolding call ensure_started first_start start materialize_agents materialize_workflows materialize
    shared_name build_all sorted_factories sort insert launch announce list_agents list_workflows
    agent_descriptors workflow_descriptors start_servers finish_start run_cold_start_hooks
    emit_event open_servers get put
started_test = (refl, refl, refl)

-- The second server cannot start: the first is shut down, and the app is stopped.
abbrev failing : Sim ℕ
failing =
    call env 0 (start_call (some forever))
      (assign (λ a. record a { servers = some 5 ∷ some 9 ∷ [] }) at_rest)

failing_test : (failing.app.state ≡ stopped) × (open_servers failing.trace ≡ [])
unfolding call ensure_started first_start start materialize_agents materialize_workflows materialize
    shared_name build_all sorted_factories sort insert launch announce list_agents list_workflows
    agent_descriptors workflow_descriptors start_servers finish_start run_cold_start_hooks
    emit_event open_servers get put roll_back fail_start rollback_started_servers shut_down_all
    stop_servers stop_server
failing_test = (refl, refl)

calls_after_new-IsSettled_example :
    IsSettled (calls env 0 (start_call (some forever) ∷ shutdown_call (some forever) ∷ []) at_rest)
calls_after_new-IsSettled_example =
    calls_after_new-IsSettled env 0 (start_call (some forever) ∷ shutdown_call (some forever) ∷ [])
      builtins " demo " zero_defaults given demo 0 env-Quiet (tt, (tt, tt)) new-demo

ensure_started-Tells_example : Tells (ensure_started env 1 (some forever) at_rest)
ensure_started-Tells_example =
    ensure_started-Tells env env-Quiet 0 forever at_rest at_rest-IsSettled

-- The app is shut down while one of its servers starts.
abbrev meddling : Env ℕ
meddling = record env { start_server = λ a c s. (none, (shutdown env (some c) s).1) }

meddling-AreQuietHooks : AreQuietHooks meddling
meddling-AreQuietHooks h e s = same s

start-Sets_example :
    Sets meddling meddling-AreQuietHooks (start meddling forever (set_state State.starting at_rest))
start-Sets_example =
    start-Sets meddling meddling-AreQuietHooks forever (set_state State.starting at_rest)

-- Shutdown has ended, and the app is stopped; in the end it runs all the same.
revived_test :
    ((shutdown env (some forever) (set_state State.starting at_rest)).1.app.state ≡ stopped)
    × ((start meddling forever (set_state State.starting at_rest)).1.app.state ≡ running)
unfolding call ensure_started first_start start materialize_agents materialize_workflows materialize
    shared_name build_all sorted_factories sort insert launch announce list_agents list_workflows
    agent_descriptors workflow_descriptors start_servers finish_start run_cold_start_hooks
    emit_event open_servers get put shutdown shut_down shut_down_all stop_servers merge_metadata
revived_test = (refl, refl)

abbrev with_reader : App
with_reader = record demo { ready_agents = []; agent_factories = [] }

resolve_agent-register_example :
    resolve_agent "reader" (record with_reader { ready_agents = ("reader", reader) ∷ [] }) ≡ (
      if trim_space reader.name == trim_space "reader"
      then ok reader
      else resolve_agent "reader" with_reader)
unfolding register_ready_agent trim_space trim trim_left trim_right is_space get put
resolve_agent-register_example =
    resolve_agent-register reader with_reader
      (record with_reader { ready_agents = ("reader", reader) ∷ [] }) "reader" refl refl

abbrev build : Factory → Sim ℕ → Result Fault (Option Handle) × Sim ℕ
build f s = (ok (some (record { name = f.name; id = "w"; address = f.address })), s)

abbrev both : Dict Handle
both = ("reader", reader) ∷ ("writer", record { name = "writer"; id = "w"; address = 4 }) ∷ []

materialize-ok_example :
    (is_some (get "writer" both)
      ≡ (is_some (get "writer" demo.ready_agents) || is_some (get "writer" demo.agent_factories)))
    × ((is_some (get "writer" demo.ready_agents) && is_some (get "writer" demo.agent_factories))
        ≡ false)
    × (is_some (get "writer" demo.ready_agents) ≡ true
        → get "writer" both ≡ get "writer" demo.ready_agents)
    × ((h : Handle)
        → is_some (get "writer" demo.agent_factories) ≡ true
        → get "writer" both ≡ some h
        → (h.name == "writer") ≡ true)
unfolding materialize build_all get put shared_name sorted_factories sort insert
materialize-ok_example =
    materialize-ok build Error.duplicate_agent demo.ready_agents demo.agent_factories at_rest both
      "writer" refl

accepts-register_example :
    (accepts (register_ready_agent (some reader) demo)
      ≡ may_register demo reader.name demo.ready_agents)
    × (accepts (register_ready_workflow (some reader) demo)
        ≡ may_register demo reader.name demo.ready_workflows)
    × (accepts (register_agent_factory (some writer) demo)
        ≡ may_register demo writer.name demo.agent_factories)
    × (accepts (register_workflow_factory (some writer) demo)
        ≡ may_register demo writer.name demo.workflow_factories)
accepts-register_example = accepts-register reader writer demo
