-- ===== src/Runtime/Execute/Steps/Laws.antt =====
-- A run of the engine reports its end once, as its last event.
use gall_lib.Common.{ℕ, zero, suc, ◌+◌, String, refl, Bool, true, false, List, [], ◌∷◌}
use gall_lib.Common.Dict.{Dict}
use gall_lib.Common.Results as Results
use gall_lib.Common.Results.{Result}
use gall_lib.Types.{Message}
use gall_lib.Memory.{Record, Snapshot}
use gall_lib.Tool.{Tool}
use gall_lib.Agent.{filter_tools}
use gall_lib.Runtime.{Foreign, EventType, ModelToolCall, ModelResponse, Response, ToolCallRecord}
use gall_lib.Runtime.Exec.{Sim, Outcome, ok, err, running, panicked, Exec, ◌>>=◌, calling, continue}
use gall_lib.Runtime.Emitter.{Env}
use gall_lib.Runtime.Guardrails.Laws.{apply_input_guardrails-Runs}
use gall_lib.Runtime.Tools.{
  execute_suggested_tool_call, ReasoningKind, go_on, call_tool, respond, ReasoningAction,
}
use gall_lib.Runtime.Tools.Laws.{
  add_to_conversation-Runs, note_call-Runs, invoke_public_tool_call-Runs,
  execute_suggested_tool_call-Runs,
}
use gall_lib.Runtime.Collect.{no_tool_calls}
use gall_lib.Runtime.Collect.Laws.{collect_model_response-Runs}
use gall_lib.Runtime.Execute.{reporting}
use gall_lib.Runtime.Execute.Laws.{
  Completed, Runs-reporting, Runs-fail_with, load_memory-Runs, opened-Runs, complete-Runs,
}
use gall_lib.Runtime.Execute.Steps.{
  run, fresh, Reasoning, no_reasoning, reasoning_with, reasoning_broken, Turn, again, done, forbids,
  unless_forbidden, act_by, continue_unless_last, ended, add_note, act_finally, reasoned,
  finish_or_go_on, suggested, reflect, call_tools, refuse_tools, tool_turn, is_last, step_once,
  after_step, step_loop, execute_started, execute, step_count,
}
use gall_lib.Runtime.Post.{
  IsOpen, IsEndedBy, Answers, Post, Runs, Leaves, Whatever, Reported, Runs-bind, Runs-pure,
  Runs-modify, Runs-reading, Runs-calling, Runs-emit, Runs-stop_if_canceled,
}

-- After a step: nothing is reported where the loop goes on, and else the response.
abbrev pub Turned : {W : Type 0} → Turn → Sim W → Type 0
Turned again s = IsOpen s
Turned (done r) s = IsEndedBy (Answers r) s

-- A reasoning that could be made, or none.
abbrev pub IsMade : {W : Type 0} → Reasoning W → Type 0
IsMade (reasoning_broken f) = ⊥
IsMade _ = Unit

module _ {W : Type 0} (env : Env W) where
  continue_unless_last-Runs :
      (last : Bool) → Runs env (continue_unless_last env last) Turned Reported
  continue_unless_last-Runs true = Runs-fail_with env Turned _ _ _
  continue_unless_last-Runs false = record { at = λ s h. h }

  ended-Post :
      (r : Outcome Response × Sim W)
      → Post env Completed Reported r
      → Post env Turned Reported (continue r (ended env))
  ended-Post (ok a, s) h = h
  ended-Post (err f, s) h = h
  ended-Post (running, s) h = h
  ended-Post (panicked, s) h = elim h [ ]

  Runs-ended :
      {m : Exec W Response}
      → Runs env m Completed Reported
      → Runs env (m >>= ended env) Turned Reported
  unfolding ◌>>=◌
  Runs-ended {m} r = record { at = λ s h. ended-Post (m s) (r.at s h) }

  add_note-Runs : (note : String) → Runs env (add_note env note) (Leaves Whatever) Reported
  unfolding add_note
  add_note-Runs note = Runs-modify env Reported _ (λ s. refl) (λ s. refl)

  suggestion-Runs :
      (tools : Dict (Tool W)) (step : ℕ) (action : ReasoningAction)
      → Runs env
          (reporting env (execute_suggested_tool_call env tools step action))
          (Leaves Whatever)
          Reported
  suggestion-Runs tools step action =
      Runs-reporting env (Leaves Whatever) (execute_suggested_tool_call-Runs env tools step action)

  act_finally-Runs :
      (tools : Dict (Tool W)) (step : ℕ) (last : Bool) (answer : ModelResponse) (m : Message)
      (action : ReasoningAction) (k : ReasoningKind)
      → Runs env (act_finally env tools step last answer m action k) Turned Reported
  act_finally-Runs tools step last answer m action go_on =
      Runs-bind env Turned Reported Whatever (add_note-Runs action.note)
        λ _ _. continue_unless_last-Runs last
  act_finally-Runs tools step last answer m action call_tool =
      Runs-bind env Turned Reported Whatever (suggestion-Runs tools step action)
        λ _ _. continue_unless_last-Runs last
  act_finally-Runs tools step last answer m action respond =
      Runs-ended (complete-Runs env answer (record m { content = action.tool_response }))

  reasoned-Runs :
      (op : String) (r : Result Foreign ReasoningAction × List Record)
      → Runs env (reasoned env op r) (Leaves Whatever) Reported
  reasoned-Runs op (Results.ok action, records) =
      Runs-bind env (Leaves Whatever) Reported Whatever
        (Runs-modify env Reported _ (λ s. refl) (λ s. refl))
        λ _ _. Runs-pure env Whatever Reported action tt
  reasoned-Runs op (Results.err f, records) =
      Runs-bind env (Leaves Whatever) Reported Whatever
        (Runs-modify env Reported _ (λ s. refl) (λ s. refl))
        λ _ _. Runs-fail_with env (Leaves Whatever) _ _ _

  -- A call of other code that reads the locals.
  asking-Runs :
      {A : Type 0} (ask : Sim W → W → A × W)
      → Runs env (λ s. calling (ask s) s) (Leaves Whatever) Reported
  asking-Runs ask = record { at = λ s h. (Runs-calling env Reported (ask s)).at s h }

  finish_or_go_on-Runs :
      (r : Reasoning W) (tools : Dict (Tool W)) (step : ℕ) (last : Bool) (answer : ModelResponse)
      (m : Message)
      → Runs env (finish_or_go_on env r tools step last answer m) Turned Reported
  finish_or_go_on-Runs (reasoning_with r) tools step last answer m =
      Runs-bind env Turned Reported Whatever
        (asking-Runs (λ s. r.before_final s.conversation s.tool_calls answer m (step + 1)))
        λ answered _.
          Runs-bind env Turned Reported Whatever (reasoned-Runs _ answered)
            λ action _. act_finally-Runs tools step last answer m action action.kind
  finish_or_go_on-Runs no_reasoning tools step last answer m =
      Runs-ended (complete-Runs env answer m)
  finish_or_go_on-Runs (reasoning_broken f) tools step last answer m =
      Runs-ended (complete-Runs env answer m)

  suggested-Runs :
      (tools : Dict (Tool W)) (step : ℕ) (action : ReasoningAction) (k : ReasoningKind)
      → Runs env (suggested env tools step action k) (Leaves Whatever) Reported
  suggested-Runs tools step action go_on = Runs-pure env Whatever Reported tt tt
  suggested-Runs tools step action call_tool = suggestion-Runs tools step action
  suggested-Runs tools step action respond = Runs-pure env Whatever Reported tt tt

  reflect-Runs :
      (r : Reasoning W) (tools : Dict (Tool W)) (step : ℕ) (call : ToolCallRecord)
      → Runs env (reflect env r tools step call) (Leaves Whatever) Reported
  reflect-Runs (reasoning_with r) tools step call =
      Runs-bind env (Leaves Whatever) Reported Whatever
        (asking-Runs (λ s. r.after_tool s.conversation call (step + 1)))
        λ answered _.
          Runs-bind env (Leaves Whatever) Reported Whatever (reasoned-Runs _ answered) λ action _.
            Runs-bind env (Leaves Whatever) Reported Whatever
              (suggested-Runs tools step action action.kind) λ _ _. add_note-Runs action.note
  reflect-Runs no_reasoning tools step call = Runs-pure env Whatever Reported tt tt
  reflect-Runs (reasoning_broken f) tools step call = Runs-pure env Whatever Reported tt tt

  call_tools-Runs :
      (r : Reasoning W) (tools : Dict (Tool W)) (step index : ℕ) (calls : List ModelToolCall)
      → Runs env (call_tools env r tools step index calls) (Leaves Whatever) Reported
  unfolding call_tools
  call_tools-Runs r tools step index [] = Runs-pure env Whatever Reported tt tt
  call_tools-Runs r tools step index (c ∷ calls) =
      Runs-bind env (Leaves Whatever) Reported Whatever (Runs-stop_if_canceled env "tool.call")
        λ _ _.
          Runs-bind env (Leaves Whatever) Reported Whatever
            (Runs-reporting env (Leaves Whatever)
              (invoke_public_tool_call-Runs env tools c step index))
            λ call _.
              Runs-bind env (Leaves Whatever) Reported Whatever (note_call-Runs env Reported call)
                λ _ _.
                  Runs-bind env (Leaves Whatever) Reported Whatever (reflect-Runs r tools step call)
                    λ _ _. call_tools-Runs r tools step (index + 1) calls

  unless_forbidden-Runs : (b : Bool) → Runs env (unless_forbidden env b) (Leaves Whatever) Reported
  unless_forbidden-Runs true = Runs-fail_with env (Leaves Whatever) _ _ _
  unless_forbidden-Runs false = Runs-pure env Whatever Reported tt tt

  refuse_tools-Runs : Runs env (refuse_tools env) (Leaves Whatever) Reported
  unfolding refuse_tools
  refuse_tools-Runs = unless_forbidden-Runs (forbids env.request.tool_choice)

  tool_turn-Runs :
      (r : Reasoning W) (tools : Dict (Tool W)) (step : ℕ) (last : Bool)
      (calls : List ModelToolCall)
      → Runs env (tool_turn env r tools step last calls) Turned Reported
  unfolding tool_turn
  tool_turn-Runs r tools step last calls =
      Runs-bind env Turned Reported Whatever refuse_tools-Runs λ _ _.
        Runs-bind env Turned Reported Whatever (add_to_conversation-Runs env Reported _) λ _ _.
          Runs-bind env Turned Reported Whatever (call_tools-Runs r tools step 0 _)
            λ _ _. continue_unless_last-Runs last

  act_by-Runs :
      (b : Bool) (r : Reasoning W) (tools : Dict (Tool W)) (step : ℕ) (last : Bool)
      (answer : ModelResponse)
      → Runs env (act_by env b r tools step last answer) Turned Reported
  act_by-Runs true r tools step last answer = finish_or_go_on-Runs r tools step last answer _
  act_by-Runs false r tools step last answer = tool_turn-Runs r tools step last answer.tool_calls

  step_once-Runs :
      (fuel : ℕ) (r : Reasoning W) (tools : Dict (Tool W)) (memory : Snapshot) (step : ℕ)
      (last : Bool)
      → Runs env (step_once env fuel r tools memory step last) Turned Reported
  unfolding step_once
  step_once-Runs fuel r tools memory step last =
      Runs-bind env Turned Reported Whatever (Runs-stop_if_canceled env _) λ _ _.
        Runs-bind env Turned Reported Whatever (Runs-reading env Reported _) λ request _.
          Runs-bind env Turned Reported Whatever
            (Runs-reporting env (Leaves Whatever) (collect_model_response-Runs env fuel request))
            λ answer _.
              Runs-bind env Turned Reported Whatever
                (Runs-modify env Reported _ (λ s. refl) (λ s. refl))
                λ _ _. act_by-Runs (no_tool_calls answer.0.tool_calls) r tools step last answer.0

  after_step-Post :
      (rest : Exec W Response) (t : Outcome Turn × Sim W)
      → Post env Turned Reported t
      → Runs env rest Completed Reported
      → Post env Completed Reported (continue t (after_step env rest))
  after_step-Post rest (ok again, s) h go = go.at s h
  after_step-Post rest (ok (done r), s) h go = h
  after_step-Post rest (err f, s) h go = h
  after_step-Post rest (running, s) h go = h
  after_step-Post rest (panicked, s) h go = elim h [ ]

  step_loop-Runs :
      (fuel : ℕ) (r : Reasoning W) (tools : Dict (Tool W)) (memory : Snapshot) (left step : ℕ)
      → Runs env (step_loop env fuel r tools memory left step) Completed Reported
  unfolding step_loop ◌>>=◌
  step_loop-Runs fuel r tools memory zero step = Runs-fail_with env Completed _ _ _
  step_loop-Runs fuel r tools memory (suc left) step = record {
    at = λ s h.
        after_step-Post _ (step_once env fuel r tools memory step (is_last left) s)
          ((step_once-Runs fuel r tools memory step (is_last left)).at s h)
          (step_loop-Runs fuel r tools memory left (step + 1));
  }

  execute_started-Runs :
      (fuel : ℕ) (r : Reasoning W) → Runs env (execute_started env fuel r) Completed Reported
  unfolding execute_started
  execute_started-Runs fuel r =
      Runs-bind env Completed Reported Whatever
        (Runs-emit env Reported EventType.agent_started _ refl (λ e. refl) (λ e. refl))
        λ _ _.
          Runs-bind env Completed Reported Whatever
            (Runs-reporting env (Leaves Whatever) (apply_input_guardrails-Runs env))
            λ accepted _.
              Runs-bind env Completed Reported Whatever (load_memory-Runs env env.definition.memory)
                λ memory _.
                  Runs-bind env Completed Reported Whatever (Runs-reading env Reported _)
                    λ created _.
                      Runs-bind env Completed Reported Whatever (opened-Runs env created) λ _ _.
                        Runs-bind env Completed Reported Whatever
                          (Runs-modify env Reported _ (λ s. refl) (λ s. refl))
                          λ _ _.
                            step_loop-Runs fuel r (filter_tools env.definition.tools env.request)
                              memory (step_count env.request.max_steps) 0

  execute-Runs :
      (fuel : ℕ) (r : Reasoning W) → IsMade r → Runs env (execute env fuel r) Completed Reported
  unfolding execute
  execute-Runs fuel no_reasoning made =
      Runs-bind env Completed Reported Whatever (Runs-stop_if_canceled env "run")
        λ _ _. execute_started-Runs fuel no_reasoning
  execute-Runs fuel (reasoning_with r) made =
      Runs-bind env Completed Reported Whatever (Runs-stop_if_canceled env "run")
        λ _ _. execute_started-Runs fuel (reasoning_with r)
  execute-Runs fuel (reasoning_broken f) made = elim made [ ]

  -- For an engine whose reasoning is off or could be made, any agent, request, context, world and
  -- fuel: if execute returns a response, then exactly one terminal event was emitted, it is the
  -- last event, is agent.completed and carries that response; if it returns an error, then that
  -- event is agent.canceled if the error matches ErrStreamAborted or an error of a context, and
  -- else agent.failed, and carries the error. The events are numbered from 1 without gaps. No nil
  -- payload of a decision is read, and only a streamed run can outlast the fuel, with no terminal
  -- event so far.
  pub execute-Ends :
      (fuel : ℕ) (r : Reasoning W) (world : W)
      → IsMade r
      → Post env Completed Reported (execute env fuel r (fresh world))
  execute-Ends fuel r world made =
      (execute-Runs fuel r made).at (fresh world)
        (record { counted = refl; numbered = tt; going_on = tt })

-- How a run without a stream ends.
abbrev pub IsEnded : {W : Type 0} → Outcome Response × Sim W → Type 0
IsEnded (ok r, s) = Completed r s
IsEnded (err f, s) = Reported f s
IsEnded (running, s) = ⊥
IsEnded (panicked, s) = ⊥

Post-IsEnded :
    {W : Type 0} (env : Env W) (r : Outcome Response × Sim W)
    → Post (record env { streaming = false }) Completed Reported r
    → IsEnded r
Post-IsEnded env (ok r, s) h = h
Post-IsEnded env (err f, s) h = h
Post-IsEnded env (running, s) h = absurd (cc h.0)
Post-IsEnded env (panicked, s) h = h

-- Run of the engine, with a reasoning that is off or could be made, returns for any fuel, also
-- none: a response that the last event, agent.completed, carries, or an error that the last event,
-- agent.canceled or agent.failed, carries.
pub run-IsEnded :
    {W : Type 0} (env : Env W) (fuel : ℕ) (r : Reasoning W) (world : W)
    → IsMade r
    → IsEnded (run env fuel r world)
unfolding run
run-IsEnded env fuel r world made =
    Post-IsEnded env _ (execute-Ends (record env { streaming = false }) fuel r world made)
