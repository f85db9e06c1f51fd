-- ===== src/Runtime/Execute/Laws.antt =====
-- The pieces of `execute` that load, save and answer leave a run open or report its end.
use gall_lib.Common.{
  ◌+◌, String, ◌≡◌, refl, ◌∙◌, ap, Bool, true, false, ◌&&◌, not, Option, none, some, arith,
}
use gall_lib.Common.Results as Results
use gall_lib.Common.Results.{Result}
use gall_lib.Context.{Interrupt}
use gall_lib.Types.{Message, Metadata}
use gall_lib.Memory.{Snapshot, WorkingSet}
use gall_lib.Agent.{ErrorKind}
use gall_lib.Runtime.{Foreign, Cause, Event, agent_completed, ModelResponse, Response, MemoryStore}
use gall_lib.Runtime.Exec.{Sim, Outcome, ok, err, running, panicked, Exec, ◌>>=◌, ◌>>◌, pure}
use gall_lib.Runtime.Emitter.{Env, emit, emit_event}
use gall_lib.Runtime.Guardrails.Laws.{HasMessage, apply_output_guardrails-Runs}
use gall_lib.Runtime.Execute.{
  report, reporting, fail_with, loaded, load_memory, opened, saved, save_memory, unless_missing,
  require_tool, complete, must_call,
}
use gall_lib.Runtime.Post.{
  is_terminal, IsEndedBy, Answers, Post, Runs, Leaves, Whatever, Unreported, Reported, Runs-bind,
  Runs-pure, Runs-modify, Runs-reading, Runs-calling, Runs-fail,
}

abbrev pub Completed : {W : Type 0} → Response → Sim W → Type 0
Completed r s = IsEndedBy (Answers r) s

module _ {W : Type 0} (env : Env W) where
  report-Post :
      {A : Type 0} (Q : A → Sim W → Type 0) (r : Outcome A × Sim W)
      → Post env Q Unreported r
      → Post env Q Reported (report env r)
  report-Post Q (ok a, s) h = h
  report-Post Q (err f, s) h = (Runs-fail env Q f).at s h
  report-Post Q (running, s) h = h
  report-Post Q (panicked, s) h = elim h [ ]

  pub Runs-reporting :
      {A : Type 0} (Q : A → Sim W → Type 0) {m : Exec W A}
      → Runs env m Q Unreported
      → Runs env (reporting env m) Q Reported
  Runs-reporting Q {m} r = record { at = λ s h. report-Post Q (m s) (r.at s h) }

  pub Runs-fail_with :
      {A : Type 0} (Q : A → Sim W → Type 0) (op : String) (c : Cause) (kind : ErrorKind)
      → Runs env (fail_with env op c kind) Q Reported
  unfolding fail_with
  Runs-fail_with Q op c kind = Runs-fail env Q _

  loaded-Runs : (r : Result Foreign Snapshot) → Runs env (loaded env r) (Leaves Whatever) Reported
  loaded-Runs (Results.ok s) = Runs-pure env Whatever Reported _ tt
  loaded-Runs (Results.err f) = Runs-fail_with (Leaves Whatever) _ _ _

  pub load_memory-Runs :
      (o : Option (MemoryStore W)) → Runs env (load_memory env o) (Leaves Whatever) Reported
  load_memory-Runs none = Runs-pure env Whatever Reported _ tt
  load_memory-Runs (some store) =
      Runs-bind env (Leaves Whatever) Reported Whatever (Runs-calling env Reported _)
        λ r _. loaded-Runs r

  pub opened-Runs :
      (r : Result Interrupt WorkingSet) → Runs env (opened env r) (Leaves Whatever) Reported
  opened-Runs (Results.ok w) = Runs-modify env Reported _ (λ s. refl) (λ s. refl)
  opened-Runs (Results.err i) = Runs-fail_with (Leaves Whatever) _ _ _

  saved-Runs : (o : Option Foreign) → Runs env (saved env o) (Leaves Whatever) Reported
  saved-Runs none = Runs-pure env Whatever Reported tt tt
  saved-Runs (some f) = Runs-fail_with (Leaves Whatever) _ _ _

  save_memory-Runs :
      (o : Option (MemoryStore W)) (m : Message) (md : Metadata)
      → Runs env (save_memory env o m md) (Leaves Whatever) Reported
  save_memory-Runs none m md = Runs-pure env Whatever Reported tt tt
  save_memory-Runs (some store) m md =
      Runs-bind env (Leaves Whatever) Reported Whatever (Runs-reading env Reported _) λ snapshot _.
        Runs-bind env (Leaves Whatever) Reported Whatever (Runs-calling env Reported _)
          λ answer _. saved-Runs answer

  unless_missing-Runs : (b : Bool) → Runs env (unless_missing env b) (Leaves Whatever) Reported
  unless_missing-Runs true = Runs-fail_with (Leaves Whatever) _ _ _
  unless_missing-Runs false = Runs-pure env Whatever Reported tt tt

  require_tool-Runs : Runs env (require_tool env) (Leaves Whatever) Reported
  unfolding require_tool
  require_tool-Runs = record {
    at = λ s h. (unless_missing-Runs (must_call env.request.tool_choice && not s.tool_used)).at s h;
  }

  -- The event of a response, and the response.
  emit_response-Runs :
      (r : Response) (mutate : Event → Event)
      → ((e : Event) → (mutate e).sequence ≡ e.sequence)
      → ((e : Event) → (mutate e).type ≡ e.type)
      → ((e : Event) → (mutate e).response ≡ some r)
      → Runs env (emit env agent_completed true mutate >> pure r) Completed Reported
  unfolding emit emit_event ◌>>=◌
  emit_response-Runs r mutate sequence same response = record {
    at = λ s h. record {
      counted = omega (arith, h.counted);
      numbered = (sequence _ ∙ ap (λ n. n + 1) h.counted, h.numbered);
      last = ((same _, response _), ap is_terminal (same _), h.going_on);
    };
  }

  pub complete-Runs :
      (answer : ModelResponse) (m : Message) → Runs env (complete env answer m) Completed Reported
  unfolding complete
  complete-Runs answer m = Runs-bind env Completed Reported Whatever require_tool-Runs λ _ _.
      Runs-bind env Completed Reported (HasMessage Whatever)
        (Runs-reporting (Leaves (HasMessage Whatever))
          (apply_output_guardrails-Runs env Whatever (λ m own. tt) m tt))
        λ out _.
          Runs-bind env Completed Reported Whatever
            (Runs-modify env Reported _ (λ s. refl) (λ s. refl))
            λ _ _.
              Runs-bind env Completed Reported Whatever
                (save_memory-Runs env.definition.memory out.0 _)
                λ _ _.
                  Runs-bind env Completed Reported Whatever (Runs-reading env Reported _)
                    λ r _. emit_response-Runs r _ (λ e. refl) (λ e. refl) (λ e. refl)
