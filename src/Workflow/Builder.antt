-- ===== src/Workflow/Builder.antt =====
-- pkg/workflow/builder.go: the builder, its options and the checks of Build.
pub mod Laws
use gall_lib.Common.{
  ℕ, suc, ◌+◌, String, Bool, true, false, Option, none, some, List, [], ◌∷◌, ◌++◌, ◌==◌,
  if◌then◌else◌,
}
use gall_lib.Common.Dict.{Dict, get, put, is_some}
use gall_lib.Common.Results.{Result, ok, err, ◌>>=◌}
use gall_lib.Text.{trim_space}
use gall_lib.Types.{Metadata, clone_metadata, merge_metadata}
use gall_lib.Workflow.{
  ErrorKind, Error, Cause, builder_nil, name_required, no_steps, step_nil, step_unnamed,
  duplicate_step, retry_nil, history_nil, id_required, StepKind, RetryPolicy, Reply, Hook,
  HistorySink, Step,
}
use gall_lib.Workflow.Ids.{workflow_id}

pub record Builder (W : Type 0) : Type 0 where
  pub name : String
  pub id : String
  pub steps : List (Option (Step W))
  pub hooks : List (Option (Hook W))
  pub retry : Option (RetryPolicy W)
  pub history : Option (HistorySink W)
  pub metadata : Metadata

pub record StepDescriptor : Type 0 where
  pub name : String
  pub kind : StepKind

pub record Chain (W : Type 0) : Type 0 where
  pub id : String
  pub name : String
  pub steps : List (Step W)
  pub step_index : Dict ℕ
  pub hooks : List (Option (Hook W))
  pub retry : Option (RetryPolicy W)
  pub history : Option (HistorySink W)
  pub metadata : Metadata
  pub descriptors : List StepDescriptor

-- newError(ErrorKindInvalidConfig, "build", "", "", "", cause)
abbrev pub build_error : Cause → Error
build_error c = record {
  kind = ErrorKind.invalid_config;
  op = "build";
  workflow_id = "";
  run_id = "";
  step_name = "";
  cause = c;
}

-- An error of New: an option's own, or the one of Build.
pub data NewError : Type 0 where
  of_option : Cause → NewError
  of_build : Error → NewError

abbrev pub BuilderOption : Type 0 → Type 0
BuilderOption W = Builder W → Reply (Builder W)

-- The locals of Build's loop.
pub record Built (W : Type 0) : Type 0 where
  pub steps : List (Step W)
  pub index_by_name : Dict ℕ
  pub descriptors : List StepDescriptor

abbrev pub chosen_id : String → String → String
chosen_id id name = if trim_space id == "" then workflow_id name else trim_space id

module _ {W : Type 0} where
  unfoldable pub new_builder : String → Builder W
  new_builder name = record {
    name = trim_space name;
    id = "";
    steps = [];
    hooks = [];
    retry = none;
    history = none;
    metadata = [];
  }

  -- The fluent methods.
  unfoldable pub add_step : Option (Step W) → Builder W → Builder W
  add_step step b = record b { steps = b.steps ++ step ∷ [] }

  unfoldable pub set_metadata : Metadata → Builder W → Builder W
  set_metadata md b = record b { metadata = merge_metadata b.metadata md }

  unfoldable pub add_hooks : List (Option (Hook W)) → Builder W → Builder W
  add_hooks hooks b = record b { hooks = b.hooks ++ hooks }

  unfoldable pub set_retry : Option (RetryPolicy W) → Builder W → Builder W
  set_retry policy b = record b { retry = policy }

  unfoldable pub set_history : Option (HistorySink W) → Builder W → Builder W
  set_history sink b = record b { history = sink }

  -- The options of `New`.
  unfoldable pub with_id : String → BuilderOption W
  with_id id b =
      if trim_space id == "" then err id_required else ok (record b { id = trim_space id })

  unfoldable pub with_steps : List (Option (Step W)) → BuilderOption W
  with_steps [] b = ok b
  with_steps (step ∷ steps) b = with_steps steps (add_step step b)

  unfoldable pub with_metadata : Metadata → BuilderOption W
  with_metadata md b = ok (set_metadata md b)

  unfoldable pub with_hooks : List (Option (Hook W)) → BuilderOption W
  with_hooks hooks b = ok (add_hooks hooks b)

  unfoldable pub with_retry : Option (RetryPolicy W) → BuilderOption W
  with_retry none b = err retry_nil
  with_retry (some policy) b = ok (set_retry (some policy) b)

  unfoldable pub with_history : Option (HistorySink W) → BuilderOption W
  with_history none b = err history_nil
  with_history (some sink) b = ok (set_history (some sink) b)

  -- One round of the loop over the steps.
  unfoldable pub build_step : ℕ → Option (Step W) → Built W → Result Error (Built W)
  build_step index none acc = err (build_error (step_nil index))
  build_step index (some step) acc = elim step.validation_error [
    | some c ↦ err (build_error c)
    | none ↦
        let name = trim_space step.name in
        if name == ""
        then err (build_error (step_unnamed index))
        else if is_some (get name acc.index_by_name)
        then err (build_error (duplicate_step name))
        else ok (record {
          steps = acc.steps ++ step ∷ [];
          index_by_name = put name index acc.index_by_name;
          descriptors = acc.descriptors ++ record { name = name; kind = step.kind } ∷ [];
        })
  ]

  unfoldable pub build_steps : ℕ → List (Option (Step W)) → Built W → Result Error (Built W)
  build_steps index [] acc = ok acc
  build_steps index (step ∷ steps) acc = do
    acc' ← build_step index step acc
    build_steps (suc index) steps acc'

  abbrev pub no_built : Built W
  no_built = record { steps = []; index_by_name = []; descriptors = [] }

  abbrev pub is_nil : List (Option (Step W)) → Bool
  is_nil [] = true
  is_nil (_ ∷ _) = false

  abbrev pub chain_of : Builder W → Built W → Chain W
  chain_of b acc = record {
    id = chosen_id b.id (trim_space b.name);
    name = trim_space b.name;
    steps = acc.steps;
    step_index = acc.index_by_name;
    hooks = b.hooks;
    retry = b.retry;
    history = b.history;
    metadata = clone_metadata b.metadata;
    descriptors = acc.descriptors;
  }

  unfoldable pub build : Option (Builder W) → Result Error (Chain W)
  build none = err (build_error builder_nil)
  build (some b) =
      if trim_space b.name == ""
      then err (build_error name_required)
      else if is_nil b.steps
      then err (build_error no_steps)
      else do acc ← build_steps 0 b.steps no_built; ok (chain_of b acc)

  -- New: the options in order, nil ones skipped, then Build.
  apply_options : List (Option (BuilderOption W)) → Builder W → Reply (Builder W)
  apply_options [] b = ok b
  apply_options (none ∷ opts) b = apply_options opts b
  apply_options (some opt ∷ opts) b = do b' ← opt b; apply_options opts b'

  abbrev built_or : Reply (Builder W) → Result NewError (Chain W)
  built_or (err c) = err (of_option c)
  built_or (ok b) = elim (build (some b)) [ ok chain ↦ ok chain | err e ↦ err (of_build e) ]

  unfoldable pub new_chain : String → List (Option (BuilderOption W)) → Result NewError (Chain W)
  unfolding apply_options
  new_chain name opts = built_or (apply_options opts (new_builder name))
