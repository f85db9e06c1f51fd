-- ===== src/Workflow/State.antt =====
-- pkg/workflow/state.go: the shared state of a run. Each locked method is one step on the map.
pub mod Laws
use mathlib.Core.Option
use gall_lib.Common.{String, Option}
use gall_lib.Types.{
  Value, Fields, get_field, set_field, delete_field, clone_value, clone_map, clone_metadata,
}
use gall_lib.Workflow.{Checkpoint}

unfoldable pub new_state : Fields → Fields
new_state initial = clone_map initial

unfoldable pub get : String → Fields → Option Value
get k s = Option.map clone_value (get_field k s)

unfoldable pub set : String → Value → Fields → Fields
set k v s = set_field k (clone_value v) s

unfoldable pub delete : String → Fields → Fields
delete k s = delete_field k s

unfoldable pub snapshot : Fields → Fields
snapshot s = clone_map s

unfoldable pub clone_checkpoint : Option Checkpoint → Option Checkpoint
clone_checkpoint Option.none = Option.none
clone_checkpoint (Option.some c) = Option.some (record {
  step_name = c.step_name;
  state = clone_map c.state;
  time = c.time;
  metadata = clone_metadata c.metadata;
})
