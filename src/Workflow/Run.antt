-- ===== src/Workflow/Run.antt =====
-- Chain.Run of pkg/workflow/chain.go. The locals of Run are the fields of `Sim`; the two loops take
-- fuel: `fuel` bounds the rounds of the outer one and `tries` those of the inner one.
pub mod Lifecycle
pub mod Order
pub mod Transition
pub mod Bounds
pub mod Total
pub mod Rounds
pub mod Termination
pub mod Sinks
use gall_lib.Common.{
  ℕ, zero, suc, ◌+◌, String, Bool, true, false, Option, none, some, List, [], ◌∷◌, ◌==◌, get_elem?,
  if◌then◌else◌,
}
use gall_lib.Context.{Interrupt}
use gall_lib.Types.{ℤ, Fields, empty, clone_map, Metadata, clone_metadata, merge_metadata}
use gall_lib.Workflow.{
  ErrorKind, Error, Cause, workflow_nil, context_required, interrupted, errors_is_canceled, Status,
  completed, failed, canceled, suspended, Event, EventType, workflow_started, step_started,
  step_ended, workflow_error, workflow_finished, workflow_ended, EventError, of_step, of_run,
  HistoryEntry, Checkpoint, Request, Response, RetryPolicy, Reply, Step, StepContext, StepResult,
  Next,
}
use gall_lib.Workflow.State.{new_state, snapshot, clone_checkpoint}
use gall_lib.Workflow.Builder.{Chain}
use gall_lib.Workflow.Exec.{
  Sim, Outcome, ok, err, running, Exec, ◌>>=◌, ◌>>◌, pure, raise, modify, reading,
}
use gall_lib.Workflow.Chain.{
  Env, run_error, effective_retry, step_metadata, append_history, emit_lifecycle, wait_for_retry,
  normalize_request, Resolved, goto, suspend, finish, refuse, resolve_next,
}
use gall_lib.Common.Results

-- The answer of one round of the inner loop.
pub data Turn : Type 0 where
  again advance : Turn
  done : Response → Turn

abbrev pub returned : Outcome Response → Option EventError
returned (err e) = some (of_run e)
returned _ = none

abbrev pub first_error : Outcome Response → Outcome (Unit {0}) → Outcome Response
first_error (ok resp) (ok _) = ok resp
first_error (ok resp) (err e) = err e
first_error (ok resp) running = running
first_error r _ = r

module _ {W : Type 0} where
  -- The fields that every event of a run shares.
  abbrev pub event_of :
      Env W
      → Chain W
      → Request
      → EventType
      → String
      → ℕ
      → Status
      → Fields
      → Option EventError
      → Metadata
      → Sim W
      → Event
  event_of env w req type step attempt status output error metadata s = record {
    type = type;
    workflow_id = w.id;
    workflow_name = w.name;
    run_id = req.run_id;
    session_id = req.session_id;
    step_name = step;
    attempt = attempt;
    status = status;
    output = clone_map output;
    state = snapshot s.state;
    err = error;
    time = env.now s.world;
    metadata = clone_metadata metadata;
  }

  abbrev pub entry_at :
      Env W
      → Chain W
      → Request
      → String
      → ℕ
      → Status
      → Fields
      → Option Checkpoint
      → Metadata
      → Sim W
      → String
      → HistoryEntry
  entry_at env w req kind attempt status output checkpoint metadata s step = record {
    kind = kind;
    workflow_id = w.id;
    workflow_name = w.name;
    run_id = req.run_id;
    session_id = req.session_id;
    step_name = step;
    attempt = attempt;
    status = status;
    time = env.now s.world;
    output = clone_map output;
    checkpoint = clone_checkpoint checkpoint;
    metadata = clone_metadata metadata;
  }

  abbrev pub response_of :
      Chain W → Request → Status → Option Checkpoint → Metadata → Sim W → Response
  response_of w req status checkpoint metadata s = record {
    run_id = req.run_id;
    workflow_id = w.id;
    workflow_name = w.name;
    session_id = req.session_id;
    status = status;
    current_step = s.last_step;
    output = clone_map s.last_output;
    state = snapshot s.state;
    checkpoint = clone_checkpoint checkpoint;
    metadata = clone_metadata metadata;
  }

  -- The status of the deferred event.
  unfoldable pub end_status : Outcome Response → Sim W → Status
  end_status (err e) s = if errors_is_canceled e then canceled else failed
  end_status _ s = elim s.checkpoint [ some _ ↦ suspended | none ↦ s.status ]

module _ {W : Type 0} (env : Env W) (w : Chain W) (req : Request) where
  -- types.MergeMetadata(w.metadata, normalized.Metadata)
  abbrev pub run_metadata : Metadata
  run_metadata = merge_metadata w.metadata req.metadata

  -- emitLifecycle of an event that is built from the locals
  unfoldable pub emit :
      EventType → ℕ → Status → (Sim W → Fields) → Option EventError → Metadata → Exec W (Unit {0})
  emit type attempt status output error metadata s =
      emit_lifecycle w
        (event_of env w req type s.last_step attempt status (output s) error metadata s) s

  abbrev pub the_input : Sim W → Fields
  the_input s = s.current_input

  abbrev pub the_output : Sim W → Fields
  the_output s = s.last_output

  -- step.Run, with the shared state
  unfoldable pub run_step : Step W → ℕ → Metadata → Exec W (Reply StepResult)
  run_step step attempt metadata s =
      let ctx : StepContext = record {
        workflow_id = w.id;
        workflow_name = w.name;
        run_id = req.run_id;
        session_id = req.session_id;
        step_name = s.last_step;
        attempt = attempt;
        input = clone_map s.current_input;
        metadata = clone_metadata metadata;
      } in
      let (reply, state, world) = step.run ctx s.state s.world in
      (ok reply, record s { state = state; world = world })

  -- The policy's answer, if there is a policy.
  abbrev next_try : Option (RetryPolicy W) → ℕ → Cause → W → Option ℤ
  next_try none attempt c world = none
  next_try (some policy) attempt c world = policy attempt c world

  fail_step : Cause → Exec W Turn
  fail_step c s = (err (run_error ErrorKind.step w req.run_id s.last_step c), s)

  fail_canceled : Cause → Exec W Turn
  fail_canceled c s = (err (run_error ErrorKind.canceled w req.run_id s.last_step c), s)

  after_wait : Option Interrupt → Exec W Turn
  unfolding fail_canceled
  after_wait none = pure again
  after_wait (some i) = fail_canceled (interrupted i)

  retry_later : ℕ → Metadata → Option ℤ → Cause → Exec W Turn
  unfolding fail_step after_wait
  retry_later attempt metadata none c = fail_step c
  retry_later attempt metadata (some delay) c = do
    (λ s.
        append_history w
          (entry_at env w req "workflow.retry_scheduled" attempt failed empty none metadata s
            s.last_step)
          s)
    answer ← wait_for_retry env delay
    after_wait answer

  -- The branch of a failed step.
  unfoldable pub on_failure : Step W → ℕ → Metadata → Cause → Exec W Turn
  unfolding retry_later
  on_failure step attempt metadata c = do
    emit workflow_error attempt failed the_input (some (of_step c)) metadata
    delay ← reading (λ s. next_try (effective_retry w step) attempt c s.world)
    retry_later attempt metadata delay c

  suspend_at : ℕ → Checkpoint → Exec W Turn
  suspend_at attempt checkpoint = do
    modify (λ s. record s { checkpoint = some checkpoint; status = suspended })
    (λ s.
        append_history w
          (entry_at env w req "workflow.suspended" attempt suspended s.last_output s.checkpoint
            run_metadata s s.last_step)
          s)
    emit workflow_finished 0 suspended the_output none run_metadata
    reading (λ s. done (response_of w req suspended s.checkpoint run_metadata s))

  finish_run : Exec W Turn
  finish_run = do
    modify (λ s. record s { status = completed })
    emit workflow_finished 0 completed the_output none run_metadata
    reading (λ s. done (response_of w req completed none run_metadata s))

  follow : ℕ → Resolved → Exec W Turn
  unfolding suspend_at finish_run
  follow attempt (refuse e) = raise e
  follow attempt (suspend checkpoint) = suspend_at attempt checkpoint
  follow attempt finish = finish_run
  follow attempt (goto index) = do modify (λ s. record s { current_index = index }); pure advance

  -- The branch of a step that returned.
  unfoldable pub on_success : ℕ → Metadata → StepResult → Exec W Turn
  unfolding follow
  on_success attempt metadata result = do
    modify (λ s. record s { last_output = clone_map result.output })
    emit step_ended attempt completed (λ _. result.output) none
        (merge_metadata metadata result.metadata)
    modify (λ s. record s { current_input = clone_map result.output })
    resolved ← reading (λ s.
        resolve_next w s.current_index s.last_step s.state (env.now s.world) result.next
          (merge_metadata metadata result.metadata))
    follow attempt resolved

  abbrev pub after_step : Step W → ℕ → Metadata → Reply StepResult → Exec W Turn
  after_step step attempt metadata (Results.ok result) = on_success attempt metadata result
  after_step step attempt metadata (Results.err c) = on_failure step attempt metadata c

  -- One round of the inner loop.
  unfoldable pub attempt_step : Step W → ℕ → Exec W Turn
  attempt_step step attempt = do
    let metadata : Metadata = merge_metadata run_metadata (step_metadata step)
    emit step_started attempt completed the_input none metadata
    reply ← run_step step attempt metadata
    after_step step attempt metadata reply

  -- What follows a round: another one, the next step, or the response.
  after_turn : Exec W (Option Response) → Turn → Exec W (Option Response)
  after_turn more again s = more s
  after_turn more advance s = (ok none, s)
  after_turn more (done resp) s = (ok (some resp), s)

  -- for attempt := 1; ; attempt++. It answers a response, or nothing where the outer loop goes on.
  unfoldable pub attempts : ℕ → Step W → ℕ → Exec W (Option Response)
  unfolding after_turn
  attempts zero step attempt s = (running, s)
  attempts (suc tries) step attempt s =
      (do turn ← attempt_step step attempt; after_turn (attempts tries step (attempt + 1)) turn) s

  -- The code after the outer loop.
  unfoldable pub fall_through : Exec W Response
  fall_through = do
    (λ s. emit workflow_finished 0 s.status the_output none run_metadata s)
    reading (λ s. response_of w req s.status s.checkpoint run_metadata s)

  check_context : Exec W (Unit {0})
  check_context s = elim (env.ctx_err s.world) [
    | none ↦ (ok tt, s)
    | some i ↦ (err (run_error ErrorKind.canceled w req.run_id s.last_step (interrupted i)), s)
  ]

  -- One round of the outer loop: the check of the context, then the tries of the current step.
  unfoldable pub round : ℕ → Step W → Exec W (Option Response)
  unfolding check_context
  round tries step = do
    check_context
    modify (λ s. record s { last_step = step.name })
    attempts tries step 1

  after_answer : Exec W Response → Option Response → Exec W Response
  after_answer more none s = more s
  after_answer more (some resp) s = (ok resp, s)

  -- for currentStepIndex < len(w.steps)
  unfoldable pub drive : ℕ → ℕ → Exec W Response
  unfolding after_answer
  drive zero tries s = (running, s)
  drive (suc fuel) tries s = elim (get_elem? w.steps s.current_index) [
    | none ↦ fall_through s
    | some step ↦ (do answer ← round tries step; after_answer (drive fuel tries) answer) s
  ]

  -- The deferred event, whose own error is returned only if there was no other.
  unfoldable pub deferred : Outcome Response → Exec W Response
  unfolding end_status
  deferred running s = (running, s)
  deferred r s =
      let (ended, s') =
        emit workflow_ended 0 (end_status r s) the_output (returned r) run_metadata s in
      (first_error r ended, s')

  -- The locals at their declarations.
  abbrev pub started : Sim W → Sim W
  started s = record s {
    state = new_state req.state;
    current_input = clone_map req.input;
    current_index = 0;
    last_step = "";
    last_output = empty;
    status = completed;
    checkpoint = none;
  }

  unfoldable pub body : ℕ → ℕ → Exec W Response
  body fuel tries = do
    emit workflow_started 0 completed the_input none run_metadata
    drive fuel tries

  unfoldable pub run_normalized : ℕ → ℕ → Exec W Response
  run_normalized fuel tries s = let (r, s') = body fuel tries (started s) in deferred r s'

module _ {W : Type 0} where
  -- The receiver may be nil, and the context too.
  unfoldable pub run : ℕ → ℕ → Option (Chain W) → Option (Env W) → Request → Exec W Response
  run fuel tries none ctx req = raise (record {
    kind = ErrorKind.invalid_config;
    op = "run";
    workflow_id = "";
    run_id = "";
    step_name = "";
    cause = workflow_nil;
  })
  run fuel tries (some w) none req = raise (record {
    kind = ErrorKind.invalid_request;
    op = "run";
    workflow_id = w.id;
    run_id = req.run_id;
    step_name = "";
    cause = context_required;
  })
  run fuel tries (some w) (some env) req = do
    normalized ← normalize_request w req
    run_normalized env w normalized fuel tries
