-- ===== src/Types/Laws.antt =====
-- Clones are equal values; a merge reads the override first.
use gall_lib.Common.{
  String, ◌≡◌, refl, sym, ◌∙◌, ap, Option, none, some, List, [], ◌∷◌, ◌==◌, arith, eq_iff,
  if◌then◌else◌,
}
use gall_lib.Common.Dict.{get, put, IsMap, get-put}
use gall_lib.Types.{
  Value, nil, bool, string, int, float, array, object, other, Items, end, item, Fields, empty,
  field, get_field, set_field, delete_field, clone_value, clone_slice, clone_map, Metadata,
  clone_metadata, overwrite, merge_metadata, ToolCall, clone_tool_calls, Message, clone_message,
  clone_messages,
}

mutual
  unfolding clone_value

  pub clone_value_lem : (v : Value) → clone_value v ≡ v
  clone_value_lem (object fs) = ap object (clone_map_lem fs)
  clone_value_lem (array xs) = ap array (clone_slice_lem xs)
  clone_value_lem nil = refl
  clone_value_lem (bool b) = refl
  clone_value_lem (string s) = refl
  clone_value_lem (int n) = refl
  clone_value_lem (float x) = refl
  clone_value_lem (other t) = refl

  pub clone_slice_lem : (xs : Items) → clone_slice xs ≡ xs
  clone_slice_lem end = refl
  clone_slice_lem (item v xs) = cc (clone_value_lem v, clone_slice_lem xs)

  pub clone_map_lem : (fs : Fields) → clone_map fs ≡ fs
  clone_map_lem empty = refl
  clone_map_lem (field k v fs) = cc (clone_value_lem v, clone_map_lem fs)

pub clone_metadata_lem : (md : Metadata) → clone_metadata md ≡ md
unfolding clone_metadata
clone_metadata_lem [] = refl
clone_metadata_lem ((k, v) ∷ md) = ap (λ r. (k, v) ∷ r) (clone_metadata_lem md)

pub clone_tool_calls_lem : (cs : List ToolCall) → clone_tool_calls cs ≡ cs
unfolding clone_tool_calls
clone_tool_calls_lem [] = refl
clone_tool_calls_lem (c ∷ cs) = rw (clone_map_lem c.input, clone_tool_calls_lem cs)

pub clone_message_lem : (m : Message) → clone_message m ≡ m
unfolding clone_message
clone_message_lem m = rw (clone_tool_calls_lem m.tool_calls, clone_metadata_lem m.metadata)

pub clone_messages_lem : (ms : List Message) → clone_messages ms ≡ ms
unfolding clone_messages
clone_messages_lem [] = refl
clone_messages_lem (m ∷ ms) = rw (clone_message_lem m, clone_messages_lem ms)

pub ruleset clone_laws = (
  clone_value_lem, clone_slice_lem, clone_map_lem, clone_metadata_lem, clone_tool_calls_lem,
  clone_message_lem, clone_messages_lem,
)

-- The first of two answers that is there.
abbrev pub or_else {ℓ} : {A : Type ℓ} → Option A → Option A → Option A
or_else none o = o
or_else (some a) o = some a

-- The last value that a list of writes leaves at a key.
abbrev pub last_write : String → Metadata → Option String
last_write k [] = none
last_write k ((j, v) ∷ md) = or_else (last_write k md) (if j == k then some v else none)

get-overwrite :
    (k : String) (out md : Metadata)
    → get k (overwrite out md) ≡ or_else (last_write k md) (get k out)
unfolding overwrite
get-overwrite k out [] = refl
get-overwrite k out ((j, v) ∷ md) = rw (get-overwrite k (put j v out) md, get-put) (ground arith)

pub get-set_field :
    (k j : String) (v : Value) (fs : Fields)
    → get_field j (set_field k v fs) ≡ (if k == j then some v else get_field j fs)
unfolding get_field set_field
get-set_field k j v empty = refl
get-set_field k j v (field i w fs) =
    ground (arith, eq_iff k j, eq_iff i k, eq_iff i j, get-set_field k j v fs)

pub get-delete_field :
    (k j : String) (fs : Fields)
    → get_field j (delete_field k fs) ≡ (if k == j then none else get_field j fs)
unfolding get_field delete_field
get-delete_field k j empty = ground arith
get-delete_field k j (field i w fs) =
    ground (arith, eq_iff k j, eq_iff i k, eq_iff i j, get-delete_field k j fs)

last_write-eq-get : (k : String) (md : Metadata) → IsMap md → last_write k md ≡ get k md
unfolding get
last_write-eq-get k [] h = refl
last_write-eq-get k ((j, v) ∷ md) (fresh, h) =
    rw (last_write-eq-get k md h) (ground (arith, eq_iff j k))

or_else-none : (o : Option String) → or_else o none ≡ o
or_else-none none = refl
or_else-none (some a) = refl

-- Where the override holds each key once, merged metadata answers a key with the override's value,
-- and with the base's where the override has none.
pub get-merge_metadata :
    (k : String) (base override : Metadata)
    → IsMap override
    → get k (merge_metadata base override) ≡ or_else (get k override) (get k base)
unfolding merge_metadata get
get-merge_metadata k [] [] h = refl
get-merge_metadata k [] (kv ∷ override) h =
    rw clone_metadata_lem (sym (or_else-none (get k (kv ∷ override))))
get-merge_metadata k (kv ∷ base) [] h = rw clone_metadata_lem
get-merge_metadata k (kv ∷ base) (kw ∷ override) h = rw clone_metadata_lem (
    get-overwrite k (kv ∷ base) (kw ∷ override)
    ∙ ap (λ o. or_else o (get k (kv ∷ base))) (last_write-eq-get k (kw ∷ override) h))
