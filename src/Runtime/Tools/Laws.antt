-- ===== src/Runtime/Tools/Laws.antt =====
-- What a tool call leaves of a run.
use gall_lib.Common.{ℕ, String, refl, Option, none, some, inl, inr, Bool-cases}
use gall_lib.Common.Dict.{Dict, get}
use gall_lib.Common.Results as Results
use gall_lib.Common.Results.{Result}
use gall_lib.Types.{Message, clone_map}
use gall_lib.Runtime.Copies.{new_tool_call_id}
use gall_lib.Tool.{Tool, Output}
use gall_lib.Tool as ToolApi
use gall_lib.Agent.{is_reserved}
use gall_lib.Runtime.{EventType, ToolCallRecord, ModelToolCall, Failure}
use gall_lib.Runtime.Emitter.{Env}
use gall_lib.Runtime.Tools.{
  ReasoningAction, add_to_conversation, after_invoke, invoke_tool, available, refuse_reserved,
  invoke_public_tool_call, note_call, execute_suggested_tool_call,
}
use gall_lib.Runtime.Exec.{Sim}
use gall_lib.Runtime.Post.{
  Runs, Leaves, Whatever, Unreported, Runs-bind, Runs-pure, Runs-raise, Runs-modify, Runs-reading,
  Runs-calling, Runs-emit,
}

module _ {W : Type 0} (env : Env W) where
  pub add_to_conversation-Runs :
      (E : Failure → Sim W → Type 0) (m : Message)
      → Runs env (add_to_conversation env m) (Leaves Whatever) E
  unfolding add_to_conversation
  add_to_conversation-Runs E m = Runs-modify env E _ (λ s. refl) (λ s. refl)

  pub note_call-Runs :
      (E : Failure → Sim W → Type 0) (call : ToolCallRecord)
      → Runs env (note_call env call) (Leaves Whatever) E
  unfolding note_call
  note_call-Runs E call =
      Runs-bind env (Leaves Whatever) E Whatever (Runs-modify env E _ (λ s. refl) (λ s. refl))
        λ _ _. add_to_conversation-Runs E _

  after_invoke-Runs :
      (call : ToolCallRecord) (answer : Result ToolApi.Error Output)
      → Runs env (after_invoke env call answer) (Leaves Whatever) Unreported
  unfolding after_invoke
  after_invoke-Runs call (Results.err e) =
      Runs-bind env (Leaves Whatever) Unreported Whatever
        (Runs-emit env Unreported EventType.tool_result _ refl (λ e. refl) (λ e. refl))
        λ _ _. Runs-raise env (Leaves Whatever) _
  after_invoke-Runs call (Results.ok r) =
      Runs-bind env (Leaves Whatever) Unreported Whatever
        (Runs-modify env Unreported _ (λ s. refl) (λ s. refl))
        λ _ _.
          Runs-bind env (Leaves Whatever) Unreported Whatever
            (Runs-emit env Unreported EventType.tool_result _ refl (λ e. refl) (λ e. refl))
            λ _ _. Runs-pure env Whatever Unreported _ tt

  invoke_tool-Runs :
      (t : Tool W) (c : ModelToolCall) (step index : ℕ)
      → Runs env (invoke_tool env t c step index) (Leaves Whatever) Unreported
  unfolding invoke_tool
  invoke_tool-Runs t c step index =
      Runs-bind env (Leaves Whatever) Unreported Whatever
        (Runs-modify env Unreported _ (λ s. refl) (λ s. refl))
        λ _ _.
          Runs-bind env (Leaves Whatever) Unreported Whatever
            (Runs-emit env Unreported EventType.tool_call _ refl (λ e. refl) (λ e. refl))
            λ _ _.
              Runs-bind env (Leaves Whatever) Unreported Whatever (Runs-calling env Unreported _)
                λ answer _. after_invoke-Runs _ answer

  available-Runs :
      (name : String) (o : Option (Tool W))
      → Runs env (available env name o) (Leaves Whatever) Unreported
  available-Runs name (some t) = Runs-pure env Whatever Unreported t tt
  available-Runs name none = Runs-raise env (Leaves Whatever) _

  refuse_reserved-Runs :
      (name : String) → Runs env (refuse_reserved env name) (Leaves Whatever) Unreported
  unfolding refuse_reserved
  refuse_reserved-Runs name = elim (Bool-cases (is_reserved name)) [
    | inl e ↦ rw (e, refuse_reserved) (Runs-raise env (Leaves Whatever) _)
    | inr e ↦ rw (e, refuse_reserved) (Runs-pure env Whatever Unreported tt tt)
  ]

  pub invoke_public_tool_call-Runs :
      (tools : Dict (Tool W)) (c : ModelToolCall) (step index : ℕ)
      → Runs env (invoke_public_tool_call env tools c step index) (Leaves Whatever) Unreported
  unfolding invoke_public_tool_call
  invoke_public_tool_call-Runs tools c step index =
      Runs-bind env (Leaves Whatever) Unreported Whatever (refuse_reserved-Runs c.name) λ _ _.
        Runs-bind env (Leaves Whatever) Unreported Whatever
          (available-Runs c.name (get c.name tools)) λ t _. invoke_tool-Runs t c step index

  abbrev suggestion : ℕ → ReasoningAction → ℕ → ModelToolCall
  suggestion step action count = record {
    id = new_tool_call_id env.request.run_id step count;
    name = action.tool_name;
    input = clone_map action.tool_input;
  }

  pub execute_suggested_tool_call-Runs :
      (tools : Dict (Tool W)) (step : ℕ) (action : ReasoningAction)
      → Runs env (execute_suggested_tool_call env tools step action) (Leaves Whatever) Unreported
  unfolding execute_suggested_tool_call
  execute_suggested_tool_call-Runs tools step action =
      Runs-bind env (Leaves Whatever) Unreported Whatever (Runs-reading env Unreported _) λ count _.
        Runs-bind env (Leaves Whatever) Unreported Whatever (add_to_conversation-Runs Unreported _)
          λ _ _.
            Runs-bind env (Leaves Whatever) Unreported Whatever
              (invoke_public_tool_call-Runs tools (suggestion step action count) step count)
              λ call _. note_call-Runs Unreported call
