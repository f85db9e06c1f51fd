-- ===== src/Workflow/History/Laws.antt =====
-- What Entries answers after Append of pkg/workflow/history.go.
use gall_lib.Common.{◌≡◌, refl, Option, none, some, [], ◌∷◌, ◌++◌}
use gall_lib.Types.Laws.{clone_map_lem, clone_metadata_lem}
use gall_lib.Workflow.{Checkpoint, HistoryEntry}
use gall_lib.Workflow.State.{clone_checkpoint}
use gall_lib.Workflow.History.{clone_entry, InMemoryHistory, append, entries}

clone_checkpoint_lem : (c : Option Checkpoint) → clone_checkpoint c ≡ c
unfolding clone_checkpoint
clone_checkpoint_lem none = refl
clone_checkpoint_lem (some c) = rw (clone_map_lem c.state, clone_metadata_lem c.metadata) refl

clone_entry_lem : (e : HistoryEntry) → clone_entry e ≡ e
unfolding clone_entry
clone_entry_lem e =
    rw (clone_map_lem e.output, clone_checkpoint_lem e.checkpoint, clone_metadata_lem e.metadata)
      refl

entries_lem : (h : InMemoryHistory) → entries h ≡ h
unfolding entries
entries_lem [] = refl
entries_lem (e ∷ h) = rw (clone_entry_lem e, entries_lem h) refl

-- After an Append to the history that is kept in memory, Entries answers the entries from before
-- and then the new one.
pub entries-append :
    (e : HistoryEntry) (h : InMemoryHistory) → entries (append e h) ≡ entries h ++ e ∷ []
unfolding append
entries-append e h = rw (entries_lem, entries_lem, clone_entry_lem e) refl
