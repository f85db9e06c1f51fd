-- ===== src/Workflow/Steps.antt =====
-- The step constructors and step options of pkg/workflow/step.go.
use gall_lib.Common.{String, Option, none, some, List, [], ◌∷◌, ◌==◌, if◌then◌else◌}
use gall_lib.Common.Results.{ok, err, ◌>>=◌}
use gall_lib.Text.{trim_space}
use gall_lib.Types.{Metadata, clone_metadata}
use gall_lib.Workflow.{
  Cause, step_name_required, action_required, branch_required, step_retry_nil, StepKind, StepResult,
  Decision, StepFunc, DecisionFunc, RetryPolicy, Reply, Configured, Step,
}
use gall_lib.Types.{Fields}

-- A step option changes the settings or refuses.
abbrev pub StepOption : Type 0 → Type 0
StepOption W = Configured W → Reply (Configured W)

-- branchStep.Run: the decision becomes the next transition
abbrev pub of_decision : Reply Decision → Reply StepResult
of_decision (err c) = err c
of_decision (ok d) = ok (record {
  output = Fields.empty;
  next = record { step = trim_space d.step; end = d.end; suspend = d.suspend };
  metadata = clone_metadata d.metadata;
})

module _ {W : Type 0} where
  unfoldable pub with_step_retry : Option (RetryPolicy W) → StepOption W
  with_step_retry none opts = err step_retry_nil
  with_step_retry (some policy) opts = ok (record opts { retry = some policy })

  unfoldable pub with_step_metadata : Metadata → StepOption W
  with_step_metadata md opts = ok (record opts { metadata = clone_metadata md })

  -- nil options are skipped, and the first refusal ends the loop
  apply_options : List (Option (StepOption W)) → Configured W → Reply (Configured W)
  apply_options [] opts = ok opts
  apply_options (none ∷ rest) opts = apply_options rest opts
  apply_options (some opt ∷ rest) opts = do opts' ← opt opts; apply_options rest opts'

  abbrev pub no_options : Configured W
  no_options = record { retry = none; metadata = [] }

  unfoldable pub resolve_step_options : List (Option (StepOption W)) → Reply (Configured W)
  unfolding apply_options
  resolve_step_options opts = do
    resolved ← apply_options opts no_options
    ok (record resolved { metadata = clone_metadata resolved.metadata })

  -- &actionStep{err: err}: no name, and a run that answers the error
  abbrev pub invalid_step : StepKind → Cause → Step W
  invalid_step kind c = record {
    name = "";
    kind = kind;
    run = λ ctx s w. (err c, s, w);
    configured = some no_options;
    validation_error = some c;
  }

  abbrev valid_step : StepKind → String → StepFunc W → Configured W → Step W
  valid_step kind name run resolved = record {
    name = name;
    kind = kind;
    run = run;
    configured = some (record resolved { metadata = clone_metadata resolved.metadata });
    validation_error = none;
  }

  abbrev pub run_branch : DecisionFunc W → StepFunc W
  run_branch decide ctx s w = let (reply, s', w') = decide ctx s w in (of_decision reply, s', w')

  -- The checks that newActionStep and newBranchStep share, in their order.
  abbrev pub new_step :
      StepKind → Cause → String → Option (StepFunc W) → List (Option (StepOption W)) → Step W
  new_step kind missing name fn opts = elim (resolve_step_options opts) [
    | err c ↦ invalid_step kind c
    | ok resolved ↦
        if trim_space name == "" then invalid_step kind step_name_required else elim fn [
          | none ↦ invalid_step kind missing
          | some run ↦ valid_step kind (trim_space name) run resolved
        ]
  ]

  unfoldable pub action : String → Option (StepFunc W) → List (Option (StepOption W)) → Step W
  action = new_step StepKind.action action_required

  abbrev branch_fn : Option (DecisionFunc W) → Option (StepFunc W)
  branch_fn none = none
  branch_fn (some decide) = some (run_branch decide)

  unfoldable pub branch : String → Option (DecisionFunc W) → List (Option (StepOption W)) → Step W
  branch name fn opts = new_step StepKind.branch branch_required name (branch_fn fn) opts
