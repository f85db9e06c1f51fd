-- ===== src/Memory/Refinement.antt =====
-- The store against its contract: a map from sessions to snapshots.
use gall_lib.Common.{
  String, ◌≡◌, refl, sym, ap, true, false, Option, none, some, List, [], ◌∷◌, ◌==◌, arith, eq_refl,
  Bool-cases, Option-cases, inl, inr, if◌then◌else◌,
}
use gall_lib.Common.Dict.{Dict, get, get-put}
use gall_lib.Types.Laws.{clone_map_lem, clone_messages_lem, clone_metadata_lem}
use gall_lib.Memory.{
  no_snapshot, clone_records, clone_snapshot, materialize, scope_for_session, Record, Snapshot,
  Delta, Scope, Store, Bucket, read_snapshot, write_snapshot, forget_previous, load, save,
}
use gall_lib.Common.Results.{Result, ok}
use gall_lib.Context.{Interrupt}
use gall_lib.Memory.Buckets.{at, at-write_snapshot, at-forget_ne, sessions-forget}

-- The contract: which snapshot a session has.
abbrev pub stored_in : Dict (Dict Bucket) → Option Scope → String → Option Snapshot
stored_in m none j = none
stored_in m (some sc) j = at m sc.user_id sc.conversation_id j

abbrev pub stored : Store → String → Option Snapshot
stored s j = stored_in s.buckets (get j s.sessions) j

module _ (sc : Scope) (id : String) (snap : Snapshot) (s : Store) where
  pub session-write :
      (j : String)
      → get j (write_snapshot sc id snap (forget_previous sc id s)).sessions
        ≡ (if id == j then some sc else get j s.sessions)
  unfolding write_snapshot
  session-write j = rw (get-put, sessions-forget)

  stored-write_self :
      (j : String)
      → (id == j) ≡ true
      → stored_in (write_snapshot sc id snap (forget_previous sc id s)).buckets (some sc) j
        ≡ some snap
  stored-write_self j e = rw (at-write_snapshot, e, eq_refl, eq_refl)

  stored-write_ne :
      (j : String) (o : Option Scope)
      → (id == j) ≡ false
      → stored_in (write_snapshot sc id snap (forget_previous sc id s)).buckets o j
        ≡ stored_in s.buckets o j
  stored-write_ne j none e = refl
  stored-write_ne j (some t) e =
      rw at-write_snapshot (ground (arith, at-forget_ne sc id s t.user_id t.conversation_id j e))

  pub stored-write :
      (j : String)
      → stored (write_snapshot sc id snap (forget_previous sc id s)) j
        ≡ (if id == j then some snap else stored s j)
  stored-write j = elim (Bool-cases (id == j)) [
    | inl e ↦ rw (session-write, e) (stored-write_self j e)
    | inr e ↦ rw (session-write, e) (stored-write_ne j (get j s.sessions) e)
  ]

-- What a load answers for a stored snapshot, or for none.
abbrev pub loaded : Option Snapshot → Result Interrupt Snapshot
loaded none = ok no_snapshot
loaded (some snap) = ok snap

clone_records_lem : (rs : List Record) → clone_records rs ≡ rs
unfolding clone_records
clone_records_lem [] = refl
clone_records_lem (r ∷ rs) = rw (clone_map_lem r.fields, clone_records_lem rs)

clone_snapshot_lem : (snap : Snapshot) → clone_snapshot snap ≡ snap
unfolding clone_snapshot
clone_snapshot_lem snap = rw (
  clone_messages_lem snap.messages,
  clone_records_lem snap.records,
  clone_metadata_lem snap.metadata,
)

materialize_lem :
    (d : Delta)
    → materialize d ≡ record { messages = d.messages; records = d.records; metadata = d.metadata }
unfolding materialize
materialize_lem d =
    rw (clone_messages_lem d.messages, clone_records_lem d.records, clone_metadata_lem d.metadata)

-- The three reads of `load` answer what is stored.
pub load-eq-stored : (j : String) (s : Store) → load none j s ≡ loaded (stored s j)
unfolding load read_snapshot
load-eq-stored j s = elim (Option-cases (get j s.sessions)) [
  | inl e ↦ rw (e, load)
  | inr (sc, e) ↦
      rw (e, load)
        (elim (Option-cases (at s.buckets sc.user_id sc.conversation_id j)) [
          | inl f ↦ rw f
          | inr (snap, f) ↦ rw f (ap ok (clone_snapshot_lem snap))
        ])
]

load-written :
    (sc : Scope) (id j : String) (d : Delta) (s : Store)
    → load none j (write_snapshot sc id (materialize d) (forget_previous sc id s)) ≡ (
        if id == j
        then ok (record { messages = d.messages; records = d.records; metadata = d.metadata })
        else load none j s)
load-written sc id j d s =
    rw (load-eq-stored, stored-write)
      (elim (Bool-cases (id == j)) [
        | inl e ↦ rw e (ap ok (materialize_lem d))
        | inr e ↦ rw e (sym (load-eq-stored j s))
      ])

-- With a live context, after a save that returns, a load of the saved session answers the delta's
-- messages, records and metadata, and a load of any other session answers what it answered before,
-- whatever scopes the metadata put them in.
pub load-save :
    (id j : String) (d : Delta) (s s' : Store)
    → save none id d s ≡ ok s'
    → load none j s' ≡ (
        if id == j
        then ok (record { messages = d.messages; records = d.records; metadata = d.metadata })
        else load none j s)
unfolding save
load-save id j d s s' h =
    let written : write_snapshot (scope_for_session d.metadata) id (materialize d)
          (forget_previous (scope_for_session d.metadata) id s)
        ≡ s' =
      cc in
    rw (← written) (load-written (scope_for_session d.metadata) id j d s)
