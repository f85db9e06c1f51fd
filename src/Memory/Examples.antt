-- ===== src/Memory/Examples.antt =====
-- Runs of the store: a session that is saved twice, under two users.
use gall_lib.Common.{String, ◌≡◌, refl, none, [], ◌∷◌}
use gall_lib.Common.Dict.{get, put, remove}
use gall_lib.Types.{Metadata, Message, user, clone_messages}
use gall_lib.Memory.{
  Delta, Store, empty_store, load, save, materialize, scope_for_session, forget_previous,
  write_snapshot, clone_records,
}
use gall_lib.Common.Results.{Result, ok}
use gall_lib.Context.{Interrupt}
use gall_lib.Memory.Invariant.{IsConsistent, IsConsistent-empty, save-IsConsistent}
use gall_lib.Memory.Refinement.{load-save}

abbrev say : String → Message
say text = record {
  role = user;
  content = text;
  name = "";
  tool_call_id = "";
  tool_calls = [];
  metadata = [];
}

abbrev delta : String → Metadata → Delta
delta text md = record { messages = say text ∷ []; records = []; response = none; metadata = md }

abbrev ana : Delta
ana = delta "hi" (("user_id", "ana") ∷ [])

abbrev bob : Delta
bob = delta "moved" (("userID", "bob") ∷ ("conversation_id", "c1") ∷ [])

abbrev saved : Result Interrupt Store → Store
saved (ok s) = s
saved _ = empty_store

abbrev first : Store
first = record {
  sessions = ("s1", record { user_id = "ana"; conversation_id = "_" }) ∷ [];
  buckets =
      (
        "ana",
        (
          "_",
          ("s1", record { messages = say "hi" ∷ []; records = []; metadata = ana.metadata }) ∷ [],
        )
            ∷ [],
      )
      ∷ [];
}

abbrev second : Store
second = record {
  sessions = ("s1", record { user_id = "bob"; conversation_id = "c1" }) ∷ [];
  buckets =
      (
        "bob",
        (
          "c1",
          ("s1", record { messages = say "moved" ∷ []; records = []; metadata = bob.metadata })
              ∷ [],
        )
            ∷ [],
      )
      ∷ [];
}

first_saved : save none "s1" ana empty_store ≡ ok first
unfolding save materialize scope_for_session forget_previous write_snapshot get put clone_messages
    clone_records
first_saved = refl

-- The old user's bucket is gone with its last session.
moved : save none "s1" bob first ≡ ok second
unfolding save materialize scope_for_session forget_previous write_snapshot get put remove
    clone_messages clone_records
moved = refl

save-IsConsistent_example : IsConsistent second
save-IsConsistent_example =
    save-IsConsistent "s1" bob first second
      (save-IsConsistent "s1" ana empty_store first IsConsistent-empty first_saved) moved

load-save_example :
    load none "s1" second
    ≡ ok (record { messages = say "moved" ∷ []; records = []; metadata = bob.metadata })
load-save_example = load-save "s1" "s1" bob first second moved
