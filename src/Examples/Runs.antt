-- ===== src/Examples/Runs.antt =====
-- Tests of the engine, and its theorems at concrete runs.
use gall_lib.Common.Results as Results
use gall_lib.Common.{
  ℕ, suc, String, ◌≡◌, refl, true, false, none, some, [], ◌∷◌, length, eqb, if◌then◌else◌,
}
use gall_lib.Types.{pos, empty, nil, Message, Role, Usage}
use gall_lib.Tool.{Schema, schema, no_more, unset, Tool}
use gall_lib.Agent.{Request, auto, ErrorKind}
use gall_lib.Runtime.{
  Definition, Model, ModelResponse, end_of_stream, Guardrail, OutputRequest, ActionKind, Cause,
  canceled, aborted, deadline, guardrail_blocked, Event, EventType,
}
use gall_lib.Runtime.Classify.Laws.{classify_error_lem}
use gall_lib.Runtime.Classify.{is, classify_error, cause_is, check_canceled}
use Prim.Native.String.{◌++◌ as text_append}
use gall_lib.Runtime.Collect.{
  Collected, nothing_collected, recv_loop, finished as finished_response, response_of,
  final_message,
}
use gall_lib.Runtime.{StreamRequest, ModelEvent, received}
use gall_lib.Runtime.Exec.{Sim, Outcome, ok, ◌>>=◌}
use gall_lib.Runtime.Emitter.{Env, stop_if_canceled, emit}
use gall_lib.Runtime.Guardrails.{
  apply_output_guardrails, validate_guardrail_decision, apply_input_guardrails,
}
use gall_lib.Runtime.Guardrails.Laws.{IsOwn, HasMessage, apply_output_guardrails-IsOwn}
use gall_lib.Runtime.Sink.{
  Reach, start, later, emits, sends, receives, closes, returns, finishes, got, stopped, recv, close,
  finish, Channel, opened, executing, selecting, finished,
}
use gall_lib.Runtime.Sink.Order.{IsOrderly}
use gall_lib.Runtime.Sink.Laws.{Reach-IsOrderly}
use gall_lib.Runtime.Execute.Steps.{fresh, run, execute, no_reasoning}
use gall_lib.Runtime.Execute.Steps.Laws.{IsEnded, execute-Ends, run-IsEnded}
use gall_lib.Runtime.Post.{Post, Reported, Leaves, Unreported, IsOpen}
use gall_lib.Runtime.Execute.Laws.{Completed}
use gall_lib.Runtime.Execute.{require_tool}
use gall_lib.Runtime.Collect.{collect_model_response}
use gall_lib.Memory.{new_run_state}

abbrev object_schema : Schema
object_schema = schema "object" "" no_more unset [] [] none

abbrev clock : Tool ℕ
clock = record {
  name = "clock";
  description = "Tells the time.";
  input_schema = object_schema;
  output_schema = object_schema;
  call = λ call w. (Results.ok (record { value = nil; content = "noon"; metadata = [] }), w);
  described = none;
}

abbrev says : Role → String → Message
says role text = record {
  role = role;
  content = text;
  name = "";
  tool_call_id = "";
  tool_calls = [];
  metadata = [];
}

abbrev used : Usage
used = record { input_tokens = 1; output_tokens = 1; total_tokens = 2 }

abbrev asks : ModelResponse
asks = record {
  message = says Role.unset "";
  usage = used;
  tool_calls = record { id = "c1"; name = "clock"; input = empty } ∷ [];
  metadata = [];
}

abbrev answers : ModelResponse
answers = record {
  message = says Role.unset "It is noon.";
  usage = used;
  tool_calls = [];
  metadata = [];
}

-- The world counts the model's answers: first it asks for the clock, then it answers. Its stream
-- sends nothing.
abbrev model : Model ℕ
model = record {
  generate = λ request w. (Results.ok (if eqb w 0 then asks else answers), suc w);
  stream = λ request w. (Results.ok 1, w);
  recv = λ handle w. (end_of_stream, w);
  close = λ handle w. w;
}

-- A guardrail that puts another text in the place of every answer.
abbrev polite : Guardrail ℕ OutputRequest
polite = record {
  type_name = "main.polite";
  check = λ request w. (
    Results.ok (record {
      name = "polite";
      action = ActionKind.transform;
      reason = "";
      messages = none;
      delta = none;
      message = some (says Role.assistant "It is noon, please.");
      metadata = [];
    }),
    w,
  );
}

abbrev definition : Definition ℕ
definition = record {
  id = "a1";
  name = "helper";
  instructions = "Help.";
  model = model;
  tools = clock ∷ [];
  memory = none;
  input_guardrails = none ∷ [];
  stream_guardrails = [];
  output_guardrails = some polite ∷ [];
  hooks = some (λ e w. w) ∷ [];
}

abbrev request : Request
request = record {
  run_id = "r1";
  session_id = "s1";
  messages = says Role.user "What time is it?" ∷ [];
  metadata = [];
  max_steps = pos 3;
  tool_choice = auto;
  allowed_tools = [];
}

abbrev env : Env ℕ
env = record {
  definition = definition;
  request = request;
  context = none;
  streaming = true;
  send = λ e w. w;
  render = λ v. "";
}

execute-Ends_example : Post env Completed Reported (execute env 5 no_reasoning (fresh 0))
execute-Ends_example = execute-Ends env 5 no_reasoning 0 tt

run-IsEnded_example : IsEnded (run env 0 no_reasoning 0)
run-IsEnded_example = run-IsEnded env 0 no_reasoning 0 tt

fresh-IsOpen : IsOpen (fresh {W = ℕ} 0)
fresh-IsOpen = record { counted = refl; numbered = tt; going_on = tt }

apply_output_guardrails-IsOwn_example :
    Post env
      (Leaves (HasMessage IsOwn))
      Unreported
      (apply_output_guardrails env (says Role.assistant "It is noon.") (fresh 0))
apply_output_guardrails-IsOwn_example =
    apply_output_guardrails-IsOwn env (says Role.assistant "It is noon.") (fresh 0) refl
      fresh-IsOpen

abbrev lost : Cause
lost = Cause.sentinel deadline

classify_error_example :
    (is (classify_error "model.stream" "a1" "r1" lost ErrorKind.model_failed) aborted ≡ false)
    × (is (classify_error "model.stream" "a1" "r1" lost ErrorKind.model_failed) canceled ≡ false)
    × (is (classify_error "model.stream" "a1" "r1" lost ErrorKind.model_failed) deadline ≡ true)
    × (is (classify_error "model.stream" "a1" "r1" lost ErrorKind.model_failed) guardrail_blocked
        ≡ false)
unfolding cause_is
classify_error_example =
    classify_error_lem "model.stream" "a1" "r1" lost ErrorKind.model_failed refl

-- A stream whose consumer closes it while one event waits: it is received, then the abort.
abbrev hello : Event
hello = record {
  sequence = 1;
  type = EventType.agent_started;
  run_id = "r1";
  agent_id = "a1";
  session_id = "s1";
  delta = none;
  tool_call = none;
  guardrail = none;
  response = none;
  error = none;
  metadata = [];
}

abbrev at_select : Channel
at_select = record opened { position = selecting hello; sent = hello ∷ [] }

abbrev waiting : Channel
waiting = record at_select {
  position = executing;
  sink = record opened.sink { events = hello ∷ [] };
}

abbrev aborting : Channel
aborting = record waiting { sink = close waiting.sink; canceled = true }

abbrev drained : Channel
drained = record aborting { sink = record aborting.sink { events = [] }; answers = got hello ∷ [] }

abbrev done : Channel
done = record drained { position = finished; sink = finish drained.sink }

abbrev stopped_stream : Channel
stopped_stream = record done {
  sink = record done.sink { post_drain_err = none };
  answers = stopped (Cause.sentinel aborted) ∷ got hello ∷ [];
}

stopped_stream-Reach : Reach stopped_stream
unfolding recv close finish
stopped_stream-Reach =
    later
      (later
        (later
          (later
            (later (later (later start (emits hello false refl)) (sends hello refl refl)) closes)
            (receives (got hello) drained.sink refl))
          (returns none refl))
        (finishes refl))
      (receives (stopped (Cause.sentinel aborted)) stopped_stream.sink refl)

Reach-IsOrderly_example : IsOrderly stopped_stream
Reach-IsOrderly_example = Reach-IsOrderly stopped_stream-Reach

-- A streamed answer of which a guardrail hides the text.
abbrev secretive : Guardrail ℕ StreamRequest
secretive = record {
  type_name = "main.secretive";
  check = λ request w. (
    Results.ok (record {
      name = "secretive";
      action = ActionKind.transform;
      reason = "";
      messages = none;
      delta = some (record { run_id = ""; role = Role.unset; content = "[hidden]" });
      message = none;
      metadata = [];
    }),
    w,
  );
}

abbrev tells : ModelEvent
tells = record {
  delta = some (record { run_id = ""; role = Role.unset; content = "It is noon." });
  message = some (says Role.assistant "It is noon.");
  tool_call = none;
  usage = used;
  done = true;
}

abbrev hiding : Env ℕ
hiding = record env {
  definition = record definition {
    model = record model { recv = λ handle w. (received tells, w) };
    stream_guardrails = some secretive ∷ [];
  };
}

abbrev collected_of : Outcome Collected → Collected
collected_of (ok c) = c
collected_of _ = nothing_collected

abbrev heard : Outcome Collected × Sim ℕ
heard = recv_loop hiding 1 1 nothing_collected (fresh 0)

abbrev hidden : ModelResponse
hidden = response_of (collected_of heard.0) (final_message (collected_of heard.0))

three_events : length (run env 0 no_reasoning 1).1.emitted ≡ 3
unfolding run ◌>>=◌ stop_if_canceled check_canceled emit apply_input_guardrails new_run_state
    collect_model_response require_tool apply_output_guardrails validate_guardrail_decision
three_events = refl
