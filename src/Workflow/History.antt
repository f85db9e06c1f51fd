-- ===== src/Workflow/History.antt =====
-- pkg/workflow/history.go and retry.go: the history that is kept in memory, and the fixed policy.
pub mod Laws
use gall_lib.Common.{
  ℕ, Bool, true, ◌||◌, Option, none, some, List, [], ◌∷◌, ◌++◌, ltb, eqb, if◌then◌else◌,
}
use gall_lib.Types.{ℤ, pos, negsuc, clone_map, clone_metadata}
use gall_lib.Workflow.{Cause, HistoryEntry}
use gall_lib.Workflow.State.{clone_checkpoint}

unfoldable pub clone_entry : HistoryEntry → HistoryEntry
clone_entry e = record {
  kind = e.kind;
  workflow_id = e.workflow_id;
  workflow_name = e.workflow_name;
  run_id = e.run_id;
  session_id = e.session_id;
  step_name = e.step_name;
  attempt = e.attempt;
  status = e.status;
  time = e.time;
  output = clone_map e.output;
  checkpoint = clone_checkpoint e.checkpoint;
  metadata = clone_metadata e.metadata;
}

abbrev pub InMemoryHistory : Type 0
InMemoryHistory = List HistoryEntry

unfoldable pub append : HistoryEntry → InMemoryHistory → InMemoryHistory
append e h = h ++ clone_entry e ∷ []

unfoldable pub entries : InMemoryHistory → List HistoryEntry
entries [] = []
entries (e ∷ h) = clone_entry e ∷ entries h

pub record FixedRetryPolicy : Type 0 where
  pub max_retries : ℤ
  pub delay : ℤ

abbrev pub exhausted : ℤ → ℕ → Bool
exhausted (pos n) attempt = eqb n 0 || ltb n attempt
exhausted (negsuc n) attempt = true

-- attempt counts from 1
unfoldable pub next_delay : FixedRetryPolicy → ℕ → Cause → Option ℤ
next_delay p attempt err = if exhausted p.max_retries attempt then none else some p.delay
