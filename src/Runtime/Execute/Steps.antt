-- ===== src/Runtime/Execute/Steps.antt =====
-- The loop of `execute`: the steps with their reasoning and tool calls.
pub mod Laws
use gall_lib.Common.{ℕ, zero, suc, ◌+◌, String, Bool, true, false, List, [], ◌∷◌, ◌++◌}
use gall_lib.Common.Dict.{Dict}
use gall_lib.Common.Results as Results
use gall_lib.Common.Results.{Result}
use gall_lib.Types.{ℤ, pos, negsuc, Message, add_usage, clone_message, clone_messages}
use gall_lib.Memory.{Record, Snapshot, WorkingSet, new_run_state, add_message, add_record}
use gall_lib.Tool.{Tool}
use gall_lib.Agent.{ErrorKind, ToolChoice, no_tools, filter_tools}
use gall_lib.Runtime.{
  Reason, Cause, Foreign, EventType, ModelToolCall, ModelResponse, Response, ToolCallRecord,
}
use gall_lib.Runtime.Copies.{clone_model_tool_calls}
use gall_lib.Runtime.Exec.{Outcome, Sim, Exec, ◌>>=◌, ◌>>◌, pure, raise, calling, modify, reading}
use gall_lib.Runtime.Emitter.{Env, emit, stop_if_canceled}
use gall_lib.Runtime.Guardrails.{classified_failure, apply_input_guardrails}
use gall_lib.Runtime.Tools.{
  ReasoningKind, go_on, call_tool, respond, ReasoningAction, append_internal_reasoning_note,
  add_to_conversation, calls_message, invoke_public_tool_call, note_call,
  execute_suggested_tool_call,
}
use gall_lib.Runtime.Collect.{no_tool_calls, model_op, collect_model_response, with_assistant}
use gall_lib.Runtime.Execute.{
  reporting, fail_with, out_of_steps, load_memory, opened, model_request, complete, interrupt_now,
}

-- beforeFinalResponse and afterToolResult: the action or an error, and the records that are added.
pub record Reasoner (W : Type 0) : Type 0 where
  pub before_final :
      List Message
      → List ToolCallRecord
      → ModelResponse
      → Message
      → ℕ
      → W
      → (Result Foreign ReasoningAction × List Record) × W
  pub after_tool :
      List Message → ToolCallRecord → ℕ → W → (Result Foreign ReasoningAction × List Record) × W

-- The engine's reasoning: none, or what it does, or the error of its construction.
pub data Reasoning (W : Type 0) : Type 0 where
  no_reasoning : Reasoning W
  reasoning_with : Reasoner W → Reasoning W
  reasoning_broken : Foreign → Reasoning W

abbrev pub step_count : ℤ → ℕ
step_count (pos n) = n
step_count (negsuc n) = 0

abbrev pub forbids : ToolChoice → Bool
forbids no_tools = true
forbids _ = false

abbrev pub is_last : ℕ → Bool
is_last zero = true
is_last (suc n) = false

-- What the loop goes on with after a step: another step, or the end of the run.
pub data Turn : Type 0 where
  again : Turn
  done : Response → Turn

-- The working memory is filled with messages.
unfoldable pub add_messages : List Message → WorkingSet → WorkingSet
add_messages [] w = w
add_messages (m ∷ ms) w = add_messages ms (add_message m w)

unfoldable pub add_records : List Record → WorkingSet → WorkingSet
add_records [] w = w
add_records (r ∷ rs) w = add_records rs (add_record r w)

module _ {W : Type 0} (env : Env W) where
  -- if step == req.MaxSteps-1 { return ..., emitter.fail(...) }; continue
  abbrev pub continue_unless_last : Bool → Exec W Turn
  continue_unless_last true = out_of_steps env
  continue_unless_last false = pure again

  abbrev pub ended : Response → Exec W Turn
  ended r = pure (done r)

  unfoldable pub add_note : String → Exec W (Unit {0})
  add_note note =
      modify λ s. record s { conversation = append_internal_reasoning_note s.conversation note }

  abbrev pub act_finally :
      Dict (Tool W)
      → ℕ
      → Bool
      → ModelResponse
      → Message
      → ReasoningAction
      → ReasoningKind
      → Exec W Turn
  act_finally tools step last answer candidate action go_on =
      add_note action.note >> continue_unless_last last
  act_finally tools step last answer candidate action call_tool =
      reporting env (execute_suggested_tool_call env tools step action) >> continue_unless_last last
  act_finally tools step last answer candidate action respond =
      complete env answer (record candidate { content = action.tool_response }) >>= ended

  -- What the reasoning answered; the records that it added stand in the working memory.
  abbrev pub reasoned :
      String → Result Foreign ReasoningAction × List Record → Exec W ReasoningAction
  reasoned op (Results.ok action, records) =
      modify (λ s. record s { working = add_records records s.working }) >> pure action
  reasoned op (Results.err f, records) =
      modify (λ s. record s { working = add_records records s.working })
      >> fail_with env op (Cause.foreign f) ErrorKind.internal

  abbrev pub finish_or_go_on :
      Reasoning W → Dict (Tool W) → ℕ → Bool → ModelResponse → Message → Exec W Turn
  finish_or_go_on (reasoning_with r) tools step last answer candidate = do
    answered ←
        (λ s. calling (r.before_final s.conversation s.tool_calls answer candidate (step + 1)) s)
    action ← reasoned "reasoning.final" answered
    act_finally tools step last answer candidate action action.kind
  finish_or_go_on _ tools step last answer candidate = complete env answer candidate >>= ended

  abbrev pub suggested : Dict (Tool W) → ℕ → ReasoningAction → ReasoningKind → Exec W (Unit {0})
  suggested tools step action call_tool =
      reporting env (execute_suggested_tool_call env tools step action)
  suggested tools step action _ = pure tt

  abbrev pub reflect : Reasoning W → Dict (Tool W) → ℕ → ToolCallRecord → Exec W (Unit {0})
  reflect (reasoning_with r) tools step call = do
    answered ← (λ s. calling (r.after_tool s.conversation call (step + 1)) s)
    action ← reasoned "reasoning.tool_result" answered
    suggested tools step action action.kind
    add_note action.note
  reflect _ tools step call = pure tt

  -- The loop over the tool calls of one answer.
  unfoldable pub call_tools :
      Reasoning W → Dict (Tool W) → ℕ → ℕ → List ModelToolCall → Exec W (Unit {0})
  call_tools reasoner tools step index [] = pure tt
  call_tools reasoner tools step index (c ∷ calls) = do
    stop_if_canceled env "tool.call"
    call ← reporting env (invoke_public_tool_call env tools c step index)
    note_call env call
    reflect reasoner tools step call
    call_tools reasoner tools step (index + 1) calls

  abbrev pub unless_forbidden : Bool → Exec W (Unit {0})
  unless_forbidden true =
      fail_with env "tool.disabled" (Cause.reason Reason.tools_disabled) ErrorKind.tool_failed
  unless_forbidden false = pure tt

  unfoldable pub refuse_tools : Exec W (Unit {0})
  refuse_tools = unless_forbidden (forbids env.request.tool_choice)

  unfoldable pub tool_turn :
      Reasoning W → Dict (Tool W) → ℕ → Bool → List ModelToolCall → Exec W Turn
  unfolding call_tools refuse_tools
  tool_turn reasoner tools step last calls = do
    refuse_tools
    add_to_conversation env (calls_message env calls)
    call_tools reasoner tools step 0 (clone_model_tool_calls calls)
    continue_unless_last last

  abbrev pub act_by : Bool → Reasoning W → Dict (Tool W) → ℕ → Bool → ModelResponse → Exec W Turn
  act_by true reasoner tools step last answer =
      finish_or_go_on reasoner tools step last answer
        (with_assistant (clone_message answer.message))
  act_by false reasoner tools step last answer =
      tool_turn reasoner tools step last answer.tool_calls

  -- One step: the model is asked, and its answer is final or calls tools.
  abbrev pub act : Reasoning W → Dict (Tool W) → ℕ → Bool → ModelResponse → Exec W Turn
  act reasoner tools step last answer =
      act_by (no_tool_calls answer.tool_calls) reasoner tools step last answer

  unfoldable pub step_once : ℕ → Reasoning W → Dict (Tool W) → Snapshot → ℕ → Bool → Exec W Turn
  unfolding complete tool_turn
  step_once fuel reasoner tools memory step last = do
    stop_if_canceled env (model_op env)
    request ← reading (model_request env tools memory)
    answer ← reporting env (collect_model_response env fuel request)
    modify λ s. record s {
      decisions = s.decisions ++ answer.1;
      usage = add_usage s.usage answer.0.usage;
    }
    act reasoner tools step last answer.0

  abbrev pub after_step : Exec W Response → Turn → Exec W Response
  after_step rest again = rest
  after_step rest (done r) = pure r

  -- The loop, by the steps that are left.
  unfoldable pub step_loop : ℕ → Reasoning W → Dict (Tool W) → Snapshot → ℕ → ℕ → Exec W Response
  unfolding step_once
  step_loop fuel reasoner tools memory zero step = out_of_steps env
  step_loop fuel reasoner tools memory (suc left) step =
      step_once fuel reasoner tools memory step (is_last left)
      >>= after_step (step_loop fuel reasoner tools memory left (step + 1))

  -- From the start event to the loop.
  unfoldable pub execute_started : ℕ → Reasoning W → Exec W Response
  unfolding step_loop
  execute_started fuel reasoner = do
    emit env EventType.agent_started false (λ e. e)
    accepted ← reporting env (apply_input_guardrails env)
    memory ← load_memory env env.definition.memory
    created ← reading (λ s. new_run_state (interrupt_now env env.context s.world))
    opened env created
    modify λ s. record s {
      decisions = accepted.1;
      conversation = clone_messages memory.messages ++ clone_messages accepted.0;
      working = add_messages accepted.0 (add_messages memory.messages s.working);
    }
    step_loop fuel reasoner (filter_tools env.definition.tools env.request) memory
        (step_count env.request.max_steps) 0

  -- `execute`: a reasoning that could not be made ends the run before its first event.
  unfoldable pub execute : ℕ → Reasoning W → Exec W Response
  unfolding execute_started
  execute fuel (reasoning_broken f) =
      raise (classified_failure env "reasoning.init" (Cause.foreign f) ErrorKind.internal)
  execute fuel reasoner = stop_if_canceled env "run" >> execute_started fuel reasoner

-- The locals of a run as they are declared, and the new emitter.
abbrev pub fresh : {W : Type 0} → W → Sim W
fresh world = record {
  world = world;
  sequence = 0;
  emitted = [];
  terminal_sent = false;
  conversation = [];
  working = record { messages = []; records = [] };
  usage = record { input_tokens = 0; output_tokens = 0; total_tokens = 0 };
  tool_calls = [];
  tool_used = false;
  decisions = [];
}

-- engine.Run: an emitter without a stream. The reasoning is the engine's.
unfoldable pub run : {W : Type 0} → Env W → ℕ → Reasoning W → W → Outcome Response × Sim W
unfolding execute
run env fuel reasoner world = execute (record env { streaming = false }) fuel reasoner (fresh world)
