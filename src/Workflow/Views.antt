-- ===== src/Workflow/Views.antt =====
-- The views of a chain (ID, Name, Descriptor and Definition of pkg/workflow/chain.go), and the
-- LifecycleHooks and function adapters of workflow.go.
use gall_lib.Common.{String, Option, none, some, List, []}
use gall_lib.Types.{Metadata, clone_metadata}
use gall_lib.Workflow.{
  EventType, workflow_started, step_started, step_ended, workflow_error, workflow_finished,
  workflow_ended, Hook, HistorySink, RetryPolicy,
}
use gall_lib.Workflow.Builder.{Chain, StepDescriptor}

pub record Descriptor : Type 0 where
  pub name : String
  pub id : String

pub record Definition (W : Type 0) : Type 0 where
  pub descriptor : Descriptor
  pub steps : List StepDescriptor
  pub hooks : List (Option (Hook W))
  pub retry : Option (RetryPolicy W)
  pub history : Option (HistorySink W)
  pub metadata : Metadata

pub record LifecycleHooks (W : Type 0) : Type 0 where
  pub on_start : Option (Hook W)
  pub on_step_start : Option (Hook W)
  pub on_step_end : Option (Hook W)
  pub on_error : Option (Hook W)
  pub on_finish : Option (Hook W)
  pub on_end : Option (Hook W)

module _ {W : Type 0} where
  unfoldable pub chain_id : Option (Chain W) → String
  chain_id none = ""
  chain_id (some w) = w.id

  unfoldable pub chain_name : Option (Chain W) → String
  chain_name none = ""
  chain_name (some w) = w.name

  unfoldable pub descriptor : Option (Chain W) → Descriptor
  unfolding chain_id chain_name
  descriptor w = record { name = chain_name w; id = chain_id w }

  unfoldable pub definition : Option (Chain W) → Definition W
  unfolding descriptor
  definition none = record {
    descriptor = record { name = ""; id = "" };
    steps = [];
    hooks = [];
    retry = none;
    history = none;
    metadata = [];
  }
  definition (some w) = record {
    descriptor = descriptor (some w);
    steps = w.descriptors;
    hooks = w.hooks;
    retry = w.retry;
    history = w.history;
    metadata = clone_metadata w.metadata;
  }

  -- The callback of an event's type.
  abbrev pub callback : LifecycleHooks W → EventType → Option (Hook W)
  callback h workflow_started = h.on_start
  callback h step_started = h.on_step_start
  callback h step_ended = h.on_step_end
  callback h workflow_error = h.on_error
  callback h workflow_finished = h.on_finish
  callback h workflow_ended = h.on_end

  unfoldable pub on_event : LifecycleHooks W → Hook W
  on_event h e world = elim (callback h e.type) [ none ↦ world | some hook ↦ hook e world ]
