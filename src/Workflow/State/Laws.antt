-- ===== src/Workflow/State/Laws.antt =====
-- What Get reads after Set and Delete of pkg/workflow/state.go.
use mathlib.Core.Option
use gall_lib.Common.{String, ◌≡◌, refl, ap, Option, none, some, ◌==◌, if◌then◌else◌}
use gall_lib.Types.{Value, Fields, get_field, set_field, delete_field, clone_value}
use gall_lib.Types.Laws.{clone_value_lem, get-set_field, get-delete_field}
use gall_lib.Workflow.State.{get, set, delete}

-- A read without the copy.
get-eq-get_field : (k : String) (s : Fields) → get k s ≡ get_field k s
unfolding get
get-eq-get_field k s = copied (get_field k s)
  where
    copied : (o : Option Value) → Option.map clone_value o ≡ o
    copied none = refl
    copied (some v) = ap some (clone_value_lem v)

-- After a Set and then a Delete on the shared state, Get answers nothing for the deleted key, the
-- value that was set for its key if that is another one, and what it answered before for every
-- other key.
pub get-set-delete :
    (k j i : String) (v : Value) (s : Fields)
    → get i (delete j (set k v s)) ≡ (if j == i then none else if k == i then some v else get i s)
unfolding set delete
get-set-delete k j i v s =
    rw
      (
        get-eq-get_field i (delete_field j (set_field k (clone_value v) s)),
        get-eq-get_field i s,
        clone_value_lem v,
        get-delete_field j i (set_field k v s),
        get-set_field k i v s,
      )
      refl
