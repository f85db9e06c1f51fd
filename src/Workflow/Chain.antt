-- ===== src/Workflow/Chain.antt =====
-- pkg/workflow/chain.go without Run: the chain's view, its lifecycle events, its history and the
-- choice of the next step.

use Prim.Native.Nat.{◌%◌, ◌^◌}
use Prim.Native.String.{◌++◌ as text_append}
use gall_lib.Common.{
  ℕ, zero, suc, ◌+◌, String, Bool, true, false, not, ◌&&◌, Option, none, some, List, [], ◌∷◌, ◌==◌,
  leb, length, if◌then◌else◌,
}
use gall_lib.Common.Dict.{get}
use gall_lib.Context.{Interrupt, Fault}
use gall_lib.Text.{trim_space, decimal}
use gall_lib.Types.{ℤ, pos, negsuc, Fields, clone_map, Metadata, clone_metadata, merge_metadata}
use gall_lib.Workflow.{
  ErrorKind, Error, Cause, history_write, step_and_end, step_and_suspend, end_and_suspend,
  unknown_step, Event, EventType, workflow_started, step_started, step_ended, workflow_error,
  workflow_finished, workflow_ended, HistoryEntry, Checkpoint, Request, RetryPolicy, Hook, Step,
  Next,
}
use gall_lib.Workflow.State.{snapshot}
use gall_lib.Workflow.History.{clone_entry}
use gall_lib.Workflow.Builder.{Chain}
use gall_lib.Workflow.Exec.{ok, err, Exec, ◌>>=◌, ◌>>◌, pure, modify}

-- The clock, the context and the timer of the program that runs the workflow.
pub record Env (W : Type 0) : Type 0 where
  pub ctx_err : W → Option Interrupt
  pub now : W → ℕ
  -- the select of waitForRetry: the context's error, or nothing when the timer fired first
  pub select : ℤ → W → Option Interrupt × W

abbrev pub event_name : EventType → String
event_name workflow_started = "workflow.started"
event_name step_started = "workflow.step_started"
event_name step_ended = "workflow.step_ended"
event_name workflow_error = "workflow.error"
event_name workflow_finished = "workflow.finished"
event_name workflow_ended = "workflow.ended"

abbrev pub run_error : {W : Type 0} → ErrorKind → Chain W → String → String → Cause → Error
run_error kind w run_id step cause = record {
  kind = kind;
  op = "run";
  workflow_id = w.id;
  run_id = run_id;
  step_name = step;
  cause = cause;
}

unfoldable pub enrich_metadata : Event → Metadata
enrich_metadata e = merge_metadata e.metadata (
    ("component", "workflow")
    ∷ ("event_type", event_name e.type)
    ∷ ("workflow_id", e.workflow_id)
    ∷ ("workflow_name", e.workflow_name)
    ∷ ("run_id", e.run_id)
    ∷ ("session_id", e.session_id)
    ∷ ("step_name", e.step_name)
    ∷ ("attempt", decimal e.attempt)
    ∷ [])

unfoldable pub clone_event : Event → Event
clone_event e = record e {
  output = clone_map e.output;
  state = clone_map e.state;
  metadata = clone_metadata e.metadata;
}

abbrev pub entry_of : Event → HistoryEntry
entry_of e = record {
  kind = event_name e.type;
  workflow_id = e.workflow_id;
  workflow_name = e.workflow_name;
  run_id = e.run_id;
  session_id = e.session_id;
  step_name = e.step_name;
  attempt = e.attempt;
  status = e.status;
  time = e.time;
  output = clone_map e.output;
  checkpoint = none;
  metadata = clone_metadata e.metadata;
}

abbrev is_positive : ℤ → Bool
is_positive (pos zero) = false
is_positive (pos (suc n)) = true
is_positive (negsuc n) = false

-- The answer of resolveNext: an index to go on at, a checkpoint, or the end.
pub data Resolved : Type 0 where
  goto : ℕ → Resolved
  suspend : Checkpoint → Resolved
  finish : Resolved
  refuse : Error → Resolved

module _ {W : Type 0} where
  unfoldable pub effective_retry : Chain W → Step W → Option (RetryPolicy W)
  effective_retry w step = elim step.configured [
    | none ↦ w.retry
    | some c ↦ elim c.retry [ none ↦ w.retry | some policy ↦ some policy ]
  ]

  unfoldable pub step_metadata : Step W → Metadata
  step_metadata step = elim step.configured [ none ↦ [] | some c ↦ clone_metadata c.metadata ]

  -- What the sink answered: the world it left, and the entry or the error.
  abbrev pub noted : Chain W → HistoryEntry → Option Fault × W → Exec W (Unit {0})
  noted w entry (none, world) s = (ok tt, record s { world = world; appended = entry ∷ s.appended })
  noted w entry (some fault, world) s = (
    err (run_error ErrorKind.history w entry.run_id entry.step_name (history_write fault.text)),
    record s { world = world },
  )

  unfoldable pub append_history : Chain W → HistoryEntry → Exec W (Unit {0})
  append_history w entry s = elim w.history [
    | none ↦ (ok tt, s)
    | some sink ↦ noted w (clone_entry entry) (sink (clone_entry entry) s.world) s
  ]

  -- Each hook in order; nil hooks are skipped.
  unfoldable pub call_hooks : List (Option (Hook W)) → Event → W → W
  call_hooks [] e world = world
  call_hooks (none ∷ hooks) e world = call_hooks hooks e world
  call_hooks (some hook ∷ hooks) e world = call_hooks hooks e (hook (clone_event e) world)

  -- The history comes first: where the sink fails, no hook sees the event.
  unfoldable pub emit_lifecycle : Chain W → Event → Exec W (Unit {0})
  emit_lifecycle w e = do
    let event : Event = record e { metadata = enrich_metadata e }
    append_history w (entry_of event)
    modify (λ s. record s {
      world = call_hooks w.hooks event s.world;
      delivered = event ∷ s.delivered;
    })

  abbrev waited : Option Interrupt × W → Exec W (Option Interrupt)
  waited (answer, world) s = (ok answer, record s { world = world })

  unfoldable pub wait_for_retry : Env W → ℤ → Exec W (Option Interrupt)
  wait_for_retry env delay s =
      if is_positive delay then waited (env.select delay s.world) s else (ok none, s)

  -- runSequence is an atomic uint64.
  unfoldable pub new_run_id : String → Exec W String
  new_run_id workflow_id s =
      let n = (s.sequence + 1) % 2 ^ 64 in
      (ok (text_append workflow_id (text_append "-run-" (decimal n))), record s { sequence = n })

  unfoldable pub normalize_request : Chain W → Request → Exec W Request
  normalize_request w req = do
    run_id ← (if trim_space req.run_id == "" then new_run_id w.id else pure req.run_id)
    pure (record {
      run_id = run_id;
      session_id = trim_space req.session_id;
      input = clone_map req.input;
      state = clone_map req.state;
      metadata = clone_metadata req.metadata;
    })

  -- The unset run id is the source's: resolveNext has no request at hand.
  abbrev transition_error : Chain W → String → Cause → Resolved
  transition_error w step c = refuse (run_error ErrorKind.transition w "" step c)

  abbrev look_up : Chain W → String → String → Option ℕ → Resolved
  look_up w step name none = transition_error w step (unknown_step name)
  look_up w step name (some index) = goto index

  unfoldable pub resolve_next : Chain W → ℕ → String → Fields → ℕ → Next → Metadata → Resolved
  resolve_next w index step state time next metadata =
      let name = trim_space next.step in
      let named = not (name == "") in
      if named && next.end
      then transition_error w step step_and_end
      else if named && next.suspend
      then transition_error w step step_and_suspend
      else if next.end && next.suspend
      then transition_error w step end_and_suspend
      else if next.suspend
      then suspend (record {
        step_name = step;
        state = snapshot state;
        time = time;
        metadata = clone_metadata metadata;
      })
      else if next.end
      then finish
      else if named
      then look_up w step name (get name w.step_index)
      else if leb (length w.steps) (index + 1)
      then finish
      else goto (index + 1)
