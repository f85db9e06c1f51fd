-- ===== src/Examples/Data.antt =====
-- Metadata and identifiers: pkg/types/types.go and pkg/workflow/builder.go.
use gall_lib.Common.{◌≡◌, refl, [], ◌∷◌}
use gall_lib.Common.Dict.{get, IsMap}
use gall_lib.Types.{Metadata, merge_metadata}
use gall_lib.Types.Laws.{get-merge_metadata, or_else}
use gall_lib.Workflow.Ids.{normalize_id}
use gall_lib.Workflow.Ids.Laws.{IsId, normalize_id_lem}

abbrev defaults : Metadata
defaults = ("env", "test") ∷ ("team", "core") ∷ []

abbrev request_metadata : Metadata
request_metadata = ("team", "ops") ∷ ("trace", "t1") ∷ []

request_metadata-IsMap : IsMap request_metadata
unfolding get
request_metadata-IsMap = (refl, (refl, tt))

get-merge_metadata_example :
    get "team" (merge_metadata defaults request_metadata)
    ≡ or_else (get "team" request_metadata) (get "team" defaults)
get-merge_metadata_example =
    get-merge_metadata "team" defaults request_metadata request_metadata-IsMap

workflow-IsId : IsId "workflow"
workflow-IsId = record { spaced = refl; closed = refl; inhabited = refl }

normalize_id_example :
    IsId (normalize_id "workflow" " Order  Flow! ")
    × (normalize_id "workflow" (normalize_id "workflow" " Order  Flow! "))
      ≡ normalize_id "workflow" " Order  Flow! "
normalize_id_example = normalize_id_lem "workflow" " Order  Flow! " workflow-IsId
