-- ===== src/Examples/Workflows.antt =====
-- A workflow of two steps, the second of which fails once: pkg/workflow.
use mathlib.Core.Path.{subst}
use gall_lib.Common.{
  ℕ, zero, suc, String, ◌≡◌, ◌≢◌, refl, true, false, not, ◌&&◌, ◌||◌, none, some, [], ◌∷◌, arith,
  get_elem?,
}
use gall_lib.Common.Dict.{get, put, is_some}
use gall_lib.Common.Results
use gall_lib.Common.Results.{Result}
use gall_lib.Context.{Fault}
use gall_lib.Text.{trim_space, trim, trim_left, trim_right, is_space}
use gall_lib.Types.{pos, empty, field, int, clone_metadata}
use gall_lib.Workflow.{
  Status, StepKind, Cause, Step, StepResult, StepFunc, Next, Request, RetryPolicy,
}
use gall_lib.Workflow.History.{FixedRetryPolicy, next_delay}
use gall_lib.Workflow.Builder.{Builder, Chain, build, build_step, build_steps}
use gall_lib.Workflow.Builder.Laws.{IsBuilt, build-IsBuilt}
use gall_lib.Workflow.Exec.{Sim, running}
use gall_lib.Workflow.Chain.{Env, effective_retry, resolve_next, goto}
use gall_lib.Workflow.Run.{run, drive, started}
use gall_lib.Workflow.Run.Order.{Settled, run-Settled}
use gall_lib.Workflow.Run.Transition.{names_step, conflicting, is_refused, resolve_next_refuses}
use gall_lib.Workflow.Run.Bounds.{loop_only, body-eq-loop_only}
use gall_lib.Workflow.Run.Rounds.{GivesUp, IsLinear}
use gall_lib.Workflow.Run.Sinks.{Ended, Refuses, Silent, run-Ended, run-Silent}
use gall_lib.Workflow.State
use gall_lib.Workflow.State.Laws.{get-set-delete}
use gall_lib.Workflow.History.{append, entries}
use gall_lib.Workflow.History.Laws.{entries-append}
use gall_lib.Workflow.{HistorySink, HistoryEntry}
use gall_lib.Common.{◌++◌, if◌then◌else◌, ◌==◌}
use gall_lib.Workflow.Run.Termination.{run_ends, next_delay-GivesUp}

-- The world counts the tries.
abbrev World : Type 0
World = ℕ

abbrev go_on : Next
go_on = record { step = ""; end = false; suspend = false }

abbrev result : StepResult
result = record { output = field "n" (int (pos 1)) empty; next = go_on; metadata = [] }

abbrev fault : Fault
fault = record { text = "not yet"; interrupt = none }

abbrev steady : StepFunc World
steady ctx s w = (Results.ok result, s, w)

abbrev flaky : StepFunc World
flaky ctx s zero = (Results.err (Cause.wrapped fault), s, 1)
flaky ctx s (suc n) = (Results.ok result, s, suc n)

abbrev step : String → StepFunc World → Step World
step name fn = record {
  name = name;
  kind = StepKind.action;
  run = fn;
  configured = none;
  validation_error = none;
}

abbrev once : FixedRetryPolicy
once = record { max_retries = pos 1; delay = pos 0 }

abbrev policy : RetryPolicy World
policy attempt c world = next_delay once attempt c

abbrev order : Builder World
order = record {
  name = " orders ";
  id = "order";
  steps = some (step "load" steady) ∷ some (step "send" flaky) ∷ [];
  hooks = [];
  retry = some policy;
  history = none;
  metadata = [];
}

abbrev chain : Chain World
chain = record {
  id = "order";
  name = "orders";
  steps = step "load" steady ∷ step "send" flaky ∷ [];
  step_index = ("load", 0) ∷ ("send", 1) ∷ [];
  hooks = [];
  retry = some policy;
  history = none;
  metadata = [];
  descriptors =
      record { name = "load"; kind = StepKind.action }
      ∷ record { name = "send"; kind = StepKind.action }
      ∷ [];
}

built : build (some order) ≡ Results.ok chain
unfolding build build_step build_steps get put trim_space trim trim_left trim_right is_space
    clone_metadata
built = refl

abbrev env : Env World
env = record { ctx_err = λ w. none; now = λ w. w; select = λ d w. (none, w) }

abbrev request : Request
request = record { run_id = "r1"; session_id = "s1"; input = empty; state = empty; metadata = [] }

abbrev locals : Sim World
locals = record {
  world = 0;
  sequence = 0;
  state = empty;
  current_input = empty;
  current_index = 0;
  last_step = "";
  last_output = empty;
  status = Status.completed;
  checkpoint = none;
  delivered = [];
  appended = [];
}

build-IsBuilt_example : IsBuilt order chain
build-IsBuilt_example = build-IsBuilt order chain built

run-Settled_example : Settled (run 3 2 (some chain) (some env) request locals)
run-Settled_example = run-Settled 3 2 (some chain) (some env) request locals refl

body-eq-loop_only_example :
    drive env chain request 3 2 (started env chain request locals)
    ≡ loop_only env chain request 3 2 (started env chain request locals)
body-eq-loop_only_example = body-eq-loop_only env chain request order 3 2 locals built

goes_on : names_step go_on ≡ false
unfolding trim_space trim trim_left trim_right
goes_on = refl

steady-IsLinear : IsLinear (step "load" steady)
steady-IsLinear ctx state world r h =
    let same : result ≡ r = cc in subst (λ r. names_step r.next ≡ false) same goes_on

flaky-IsLinear : IsLinear (step "send" flaky)
flaky-IsLinear ctx state zero r h = cc
flaky-IsLinear ctx state (suc n) r h =
    let same : result ≡ r = cc in subst (λ r. names_step r.next ≡ false) same goes_on

abbrev Ends : Step World → Type 0
Ends s = GivesUp 1 (effective_retry chain s) × IsLinear s

gives_up : GivesUp {W = World} 1 (some policy)
gives_up attempt c world h = next_delay-GivesUp once 1 refl attempt c world h

steps_end : (k : ℕ) (s : Step World) → get_elem? chain.steps k ≡ some s → Ends s
unfolding effective_retry
steps_end zero s h =
    let same : step "load" steady ≡ s = cc in subst Ends same (gives_up, steady-IsLinear)
steps_end (suc zero) s h =
    let same : step "send" flaky ≡ s = cc in subst Ends same (gives_up, flaky-IsLinear)
steps_end (suc (suc k)) s h = cc

run_ends_example : (run 3 2 (some chain) (some env) request locals).0 ≢ running
run_ends_example = run_ends env chain 1 3 2 request locals steps_end (omega arith) (omega arith)

to_send : resolve_next chain 0 "load" empty 0 (record go_on { step = " send " }) [] ≡ goto 1
unfolding resolve_next trim_space trim trim_left trim_right is_space get
to_send = refl

abbrev both : Next
both = record { step = "send"; end = true; suspend = false }

resolve_next_refuses_example : is_refused (resolve_next chain 0 "load" empty 0 both []) ≡ (
    conflicting both
    || (names_step both && not (is_some (get (trim_space "send") chain.step_index))))
resolve_next_refuses_example = resolve_next_refuses chain 0 "load" empty 0 both []

run-Ended_example : Ended (run 3 2 (some chain) (some env) request locals)
run-Ended_example = run-Ended env chain refl 3 2 request locals refl

-- A disk that is full.
abbrev full : HistorySink World
full entry w = (some (record { text = "no space"; interrupt = none }), w)

abbrev recorded : Chain World
recorded = record chain { history = some full }

full-Refuses : Refuses full
full-Refuses entry w = refl

run-Silent_example : Silent locals (run 3 2 (some recorded) (some env) request locals)
run-Silent_example = run-Silent env recorded full refl full-Refuses 3 2 request locals

get-set-delete_example :
    State.get "b" (State.delete "a" (State.set "b" (int (pos 2)) empty))
    ≡ (if "a" == "b" then none else if "b" == "b" then some (int (pos 2)) else State.get "b" empty)
get-set-delete_example = get-set-delete "b" "a" "b" (int (pos 2)) empty

abbrev entry : HistoryEntry
entry = record {
  kind = "workflow.started";
  workflow_id = "order";
  workflow_name = "orders";
  run_id = "r1";
  session_id = "s1";
  step_name = "";
  attempt = 0;
  status = Status.completed;
  time = 0;
  output = empty;
  checkpoint = none;
  metadata = [];
}

entries-append_example : entries (append entry []) ≡ entries [] ++ entry ∷ []
entries-append_example = entries-append entry []
