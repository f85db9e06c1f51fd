-- ===== src/Types.antt =====
-- pkg/types/types.go, and the JSON-like values (`any`) that the public envelopes carry.
pub mod Laws
use gall_lib.Common.{ℕ, ◌+◌, String, Bool, Option, List, [], ◌∷◌, ◌==◌, if◌then◌else◌}
use gall_lib.Common.Dict.{Dict, put}

-- Go's signed integers; `negsuc n` is -(n + 1).
pub data ℤ : Type 0 where
  pos : ℕ → ℤ
  negsuc : ℕ → ℤ

-- float32 and float64: a finite one is mantissa times two to the exponent.
pub data Float : Type 0 where
  finite : ℤ → ℤ → Float
  nan pos_inf neg_inf : Float

-- A dynamic value. `other t` is a value of a Go type t that no case of the sources names.
-- A map's fields stand in iteration order.
mutual
  pub data Value : Type 0 where
    nil : Value
    bool : Bool → Value
    string : String → Value
    int : ℤ → Value
    float : Float → Value
    array : Items → Value
    object : Fields → Value
    other : String → Value

  pub data Items : Type 0 where
    end : Items
    item : Value → Items → Items

  pub data Fields : Type 0 where
    empty : Fields
    field : String → Value → Fields → Fields

-- Reads and writes of a map[string]any.
unfoldable pub get_field : String → Fields → Option Value
get_field k empty = Option.none
get_field k (field j v fs) = if j == k then Option.some v else get_field k fs

unfoldable pub set_field : String → Value → Fields → Fields
set_field k v empty = field k v empty
set_field k v (field j w fs) = if j == k then field k v fs else field j w (set_field k v fs)

unfoldable pub delete_field : String → Fields → Fields
delete_field k empty = empty
delete_field k (field j w fs) =
    let rest = delete_field k fs in if j == k then rest else field j w rest

-- cloneMap, cloneSlice and cloneValue: new maps and slices all the way down.
unfoldable mutual
  pub clone_value : Value → Value
  clone_value (object fs) = object (clone_map fs)
  clone_value (array xs) = array (clone_slice xs)
  clone_value nil = nil
  clone_value (bool b) = bool b
  clone_value (string s) = string s
  clone_value (int n) = int n
  clone_value (float x) = float x
  clone_value (other t) = other t

  pub clone_slice : Items → Items
  clone_slice end = end
  clone_slice (item v xs) = item (clone_value v) (clone_slice xs)

  pub clone_map : Fields → Fields
  clone_map empty = empty
  clone_map (field k v fs) = field k (clone_value v) (clone_map fs)

-- Metadata is a map[string]string.
abbrev pub Metadata : Type 0
Metadata = Dict String

unfoldable pub clone_metadata : Metadata → Metadata
clone_metadata [] = []
clone_metadata ((k, v) ∷ md) = (k, v) ∷ clone_metadata md

-- for key, value := range override { out[key] = value }
unfoldable pub overwrite : Metadata → Metadata → Metadata
overwrite out [] = out
overwrite out ((k, v) ∷ md) = overwrite (put k v out) md

unfoldable pub merge_metadata : Metadata → Metadata → Metadata
unfolding clone_metadata overwrite
merge_metadata [] [] = []
merge_metadata [] (kv ∷ override) = clone_metadata (kv ∷ override)
merge_metadata (kv ∷ base) [] = clone_metadata (kv ∷ base)
merge_metadata (kv ∷ base) (kw ∷ override) = overwrite (clone_metadata (kv ∷ base)) (kw ∷ override)

pub record ToolCall : Type 0 where
  pub id : String
  pub name : String
  pub input : Fields

unfoldable pub clone_tool_calls : List ToolCall → List ToolCall
unfolding clone_value
clone_tool_calls [] = []
clone_tool_calls (c ∷ cs) =
    record { id = c.id; name = c.name; input = clone_map c.input } ∷ clone_tool_calls cs

-- MessageRole is a string type: the four named roles, the unset one, and any other text.
pub data Role : Type 0 where
  unset system user assistant tool : Role
  named : String → Role

pub record Message : Type 0 where
  pub role : Role
  pub content : String
  pub name : String
  pub tool_call_id : String
  pub tool_calls : List ToolCall
  pub metadata : Metadata

unfoldable pub clone_message : Message → Message
unfolding clone_tool_calls clone_metadata
clone_message m = record {
  role = m.role;
  content = m.content;
  name = m.name;
  tool_call_id = m.tool_call_id;
  tool_calls = clone_tool_calls m.tool_calls;
  metadata = clone_metadata m.metadata;
}

unfoldable pub clone_messages : List Message → List Message
unfolding clone_message
clone_messages [] = []
clone_messages (m ∷ ms) = clone_message m ∷ clone_messages ms

pub record MessageDelta : Type 0 where
  pub run_id : String
  pub role : Role
  pub content : String

pub record Usage : Type 0 where
  pub input_tokens : ℕ
  pub output_tokens : ℕ
  pub total_tokens : ℕ

unfoldable pub add_usage : Usage → Usage → Usage
add_usage u v = record {
  input_tokens = u.input_tokens + v.input_tokens;
  output_tokens = u.output_tokens + v.output_tokens;
  total_tokens = u.total_tokens + v.total_tokens;
}
