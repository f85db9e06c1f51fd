-- ===== src/Memory.antt =====
-- pkg/memory: the session store of in_memory_store.go, the working set of in_memory_working.go and
-- the records of memory.go. The lock of each method makes it one step, so a method is a function
-- from the object to the object.
mod Buckets
pub mod Invariant
mod Examples
pub mod Refinement
use gall_lib.Common.{
  String, Bool, true, false, ◌&&◌, Option, none, some, List, [], ◌∷◌, ◌++◌, ◌==◌, if◌then◌else◌,
}
use gall_lib.Common.Dict.{Dict, get, put, remove}
use gall_lib.Common.Results.{Result, ok, err}
use gall_lib.Context.{Interrupt}
use gall_lib.Types.{
  Fields, clone_map, Message, clone_message, clone_messages, Metadata, clone_metadata,
}

-- The `Option Interrupt` of a method is what `ctx.Err()` answers; a nil context stands for the
-- background one, which never ends.

pub record Record : Type 0 where
  pub kind : String
  pub name : String
  pub fields : Fields

pub record Snapshot : Type 0 where
  pub messages : List Message
  pub records : List Record
  pub metadata : Metadata

pub record Delta : Type 0 where
  pub messages : List Message
  pub records : List Record
  pub response : Option Message
  pub metadata : Metadata

abbrev pub no_snapshot : Snapshot
no_snapshot = record { messages = []; records = []; metadata = [] }

unfoldable pub clone_record : Record → Record
clone_record r = record { kind = r.kind; name = r.name; fields = clone_map r.fields }

unfoldable pub clone_records : List Record → List Record
unfolding clone_record
clone_records [] = []
clone_records (r ∷ rs) = clone_record r ∷ clone_records rs

unfoldable pub clone_snapshot : Snapshot → Snapshot
clone_snapshot s = record {
  messages = clone_messages s.messages;
  records = clone_records s.records;
  metadata = clone_metadata s.metadata;
}

-- The run-local working set.
pub record WorkingSet : Type 0 where
  pub messages : List Message
  pub records : List Record

unfoldable pub new_run_state : Option Interrupt → Result Interrupt WorkingSet
new_run_state none = ok (record { messages = []; records = [] })
new_run_state (some e) = err e

unfoldable pub add_message : Message → WorkingSet → WorkingSet
add_message m w = record w { messages = w.messages ++ clone_message m ∷ [] }

unfoldable pub add_record : Record → WorkingSet → WorkingSet
add_record r w = record w { records = w.records ++ clone_record r ∷ [] }

unfoldable pub working_snapshot : WorkingSet → Snapshot
working_snapshot w = record {
  messages = clone_messages w.messages;
  records = clone_records w.records;
  metadata = [];
}

-- The user and the conversation under which a session's snapshot is kept.
pub record Scope : Type 0 where
  pub user_id : String
  pub conversation_id : String

abbrev pub Bucket : Type 0
Bucket = Dict Snapshot

pub record Store : Type 0 where
  pub sessions : Dict Scope
  pub buckets : Dict (Dict Bucket)

abbrev pub empty_store : Store
empty_store = record { sessions = []; buckets = [] }

unfoldable pub first_non_empty : List String → String
first_non_empty [] = ""
first_non_empty (v ∷ vs) = if v == "" then first_non_empty vs else v

-- A missing key of a map[string]string reads as "".
abbrev pub read : Metadata → String → String
read md k = elim (get k md) [ none ↦ "" | some v ↦ v ]

unfoldable pub scope_for_session : Metadata → Scope
unfolding first_non_empty
scope_for_session md = record {
  user_id = first_non_empty (read md "user_id" ∷ read md "userID" ∷ "_" ∷ []);
  conversation_id =
      first_non_empty (read md "conversation_id" ∷ read md "conversationID" ∷ "_" ∷ []);
}

-- A nil bucket and an empty one answer every read alike.
abbrev pub bucket : {V : Type 0} → Option (Dict V) → Dict V
bucket none = []
bucket (some b) = b

-- The three reads of `Load`, and the copy that it returns.
unfoldable pub read_snapshot : Store → Scope → String → Option Snapshot
read_snapshot s scope id =
    get id (bucket (get scope.conversation_id (bucket (get scope.user_id s.buckets))))

unfoldable pub load : Option Interrupt → String → Store → Result Interrupt Snapshot
load (some e) id s = err e
load none id s = elim (get id s.sessions) [
  | none ↦ ok no_snapshot
  | some scope ↦ elim (read_snapshot s scope id) [
    | none ↦ ok no_snapshot
    | some snap ↦ ok (clone_snapshot snap)
  ]
]

abbrev pub is_empty {ℓ} : {V : Type ℓ} → Dict V → Bool
is_empty [] = true
is_empty (_ ∷ _) = false

-- A bucket is dropped when its last entry goes.
abbrev pub put_or_drop : {V : Type 0} → String → Dict V → Dict (Dict V) → Dict (Dict V)
put_or_drop k b m = if is_empty b then remove k m else put k b m

unfoldable pub delete_session : Scope → String → Store → Store
delete_session scope id s = elim (get scope.user_id s.buckets) [
  | none ↦ s
  | some user ↦ elim (get scope.conversation_id user) [
    | none ↦ s
    | some conversation ↦ record s {
      buckets =
          put_or_drop scope.user_id
            (put_or_drop scope.conversation_id (remove id conversation) user) s.buckets;
    }
  ]
]

unfoldable pub scope_eq : Scope → Scope → Bool
scope_eq a b = a.user_id == b.user_id && a.conversation_id == b.conversation_id

-- if hadPrevious && previousScope != scope { s.deleteSessionLocked(previousScope, sessionID) }
unfoldable pub forget_previous : Scope → String → Store → Store
unfolding scope_eq delete_session
forget_previous scope id s = elim (get id s.sessions) [
  | none ↦ s
  | some previous ↦ if scope_eq previous scope then s else delete_session previous id s
]

-- The buckets are made on the way to the entry.
unfoldable pub write_snapshot : Scope → String → Snapshot → Store → Store
write_snapshot scope id snap s =
    let user = bucket (get scope.user_id s.buckets) in
    let conversation = bucket (get scope.conversation_id user) in
    record {
      sessions = put id scope s.sessions;
      buckets =
          put scope.user_id (put scope.conversation_id (put id snap conversation) user) s.buckets;
    }

unfoldable pub materialize : Delta → Snapshot
materialize d = record {
  messages = clone_messages d.messages;
  records = clone_records d.records;
  metadata = clone_metadata d.metadata;
}

unfoldable pub save : Option Interrupt → String → Delta → Store → Result Interrupt Store
unfolding materialize
save (some e) id d s = err e
save none id d s =
    let scope = scope_for_session d.metadata in
    ok (write_snapshot scope id (materialize d) (forget_previous scope id s))
