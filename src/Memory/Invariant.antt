-- ===== src/Memory/Invariant.antt =====
-- The store keeps one snapshot a session, filed where the session's scope says.
use gall_lib.Common.{
  String, ◌≡◌, refl, Bool, true, false, none, some, ◌==◌, arith, eq_iff, Bool-cases, Option-cases,
  inl, inr, if◌then◌else◌,
}
use gall_lib.Common.Dict.{Dict, get, is_some, get-nil}
use gall_lib.Memory.{
  Snapshot, Delta, Scope, Store, Bucket, materialize, scope_for_session, delete_session,
  write_snapshot, forget_previous, scope_eq, save, empty_store,
}
use gall_lib.Common.Results.{ok}
use gall_lib.Memory.Buckets.{at, same, at-write_snapshot, at-delete_session, at-forget_ne}
use gall_lib.Memory.Refinement.{stored, session-write, stored-write}

abbrev pub scope : String → String → Scope
scope u c = record { user_id = u; conversation_id = c }

-- Every filed snapshot is the one of its session, and every session has one.
pub record IsConsistent (s : Store) : Type 0 where
  pub filed :
      (u c j : String) (snap : Snapshot)
      → at s.buckets u c j ≡ some snap
      → get j s.sessions ≡ some (scope u c)
  pub kept : (j : String) (sc : Scope) → get j s.sessions ≡ some sc → is_some (stored s j) ≡ true

pub IsConsistent-empty : IsConsistent empty_store
IsConsistent-empty = record {
  filed = λ u c j snap h.
      cc (get-nil {V = Dict Bucket} u, get-nil {V = Bucket} c, get-nil {V = Snapshot} j, h);
  kept = λ j sc h. cc (get-nil {V = Scope} j);
}

scope_eq_sound : (a b : Scope) → scope_eq a b ≡ true → a ≡ b
unfolding scope_eq
scope_eq_sound a b h =
    ground (arith, eq_iff a.user_id b.user_id, eq_iff a.conversation_id b.conversation_id)

module _ (sc : Scope) (id : String) (s : Store) (h : IsConsistent s) where
  filed-delete :
      (previous : Scope) (u c : String) (snap : Snapshot)
      → get id s.sessions ≡ some previous
      → at (delete_session previous id s).buckets u c id ≡ some snap
      → ⊥
  filed-delete previous u c snap e p = ground (
    arith,
    h.filed u c id snap,
    at-delete_session previous id s u c id,
    eq_iff previous.user_id u,
    eq_iff previous.conversation_id c,
    eq_iff id id,
  )

  -- What is left of the saved session once its old scope is forgotten lies in the new scope.
  filed-forget :
      (u c : String) (snap : Snapshot)
      → at (forget_previous sc id s).buckets u c id ≡ some snap
      → scope u c ≡ sc
  unfolding forget_previous
  filed-forget u c snap p = elim (Option-cases (get id s.sessions)) [
    | inl e ↦ let q = rw (e, forget_previous) at p in cc (h.filed u c id snap q)
    | inr (previous, e) ↦ elim (Bool-cases (scope_eq previous sc)) [
      | inl still ↦
          let q = rw (e, forget_previous, still) at p in
          cc (h.filed u c id snap q, scope_eq_sound previous sc still)
      | inr moved ↦ absurd (filed-delete previous u c snap e (rw (e, forget_previous, moved) at p))
    ]
  ]

  filed-write_self :
      (written : Snapshot) (u c : String) (snap : Snapshot) (b : Bool)
      → same sc id u c id ≡ b
      → (if b then some written else at (forget_previous sc id s).buckets u c id) ≡ some snap
      → some sc ≡ some (scope u c)
  filed-write_self written u c snap true e p =
      ground (arith, eq_iff sc.user_id u, eq_iff sc.conversation_id c)
  filed-write_self written u c snap false e p = cc (filed-forget u c snap p)

  filed-write :
      (written : Snapshot) (u c j : String) (snap : Snapshot)
      → at (write_snapshot sc id written (forget_previous sc id s)).buckets u c j ≡ some snap
      → get j (write_snapshot sc id written (forget_previous sc id s)).sessions ≡ some (scope u c)
  filed-write written u c j snap p = elim (Bool-cases (id == j)) [
    | inl e ↦
        let q = rw (← (eq_iff id j).0 e, at-write_snapshot) at p in
        rw (session-write, e) (filed-write_self written u c snap (same sc id u c id) refl q)
    | inr e ↦
        let q = rw (at-write_snapshot) at p in
        rw (session-write, e) (h.filed u c j snap (ground (arith, at-forget_ne sc id s u c j e)))
  ]

kept-write :
    (sc : Scope) (id : String) (s : Store) (written : Snapshot) (j : String) (t : Scope)
    → IsConsistent s
    → get j (write_snapshot sc id written (forget_previous sc id s)).sessions ≡ some t
    → is_some (stored (write_snapshot sc id written (forget_previous sc id s)) j) ≡ true
kept-write sc id s written j t h p = elim (Bool-cases (id == j)) [
  | inl e ↦ rw (stored-write, e) refl
  | inr e ↦ rw (stored-write, e) (h.kept j t (rw (session-write, e) at p))
]

-- If a store is consistent, each snapshot being filed under the very scope that its session is
-- registered with and each registered session having a snapshot, then so is the store after a save
-- that returns, with a live context: no copy is left in an old scope, and no session loses its
-- snapshot.
pub save-IsConsistent :
    (id : String) (d : Delta) (s s' : Store)
    → IsConsistent s
    → save none id d s ≡ ok s'
    → IsConsistent s'
unfolding save
save-IsConsistent id d s s' h p =
    let written : write_snapshot (scope_for_session d.metadata) id (materialize d)
          (forget_previous (scope_for_session d.metadata) id s)
        ≡ s' =
      cc in
    rw (← written) (record {
      filed = filed-write (scope_for_session d.metadata) id s h (materialize d);
      kept = λ j t q. kept-write (scope_for_session d.metadata) id s (materialize d) j t h q;
    })
