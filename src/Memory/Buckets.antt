-- ===== src/Memory/Buckets.antt =====
-- What is stored under a user, a conversation and a session, after a write and after a delete.
use gall_lib.Common.{
  String, ◌≡◌, Bool, true, false, ◌&&◌, Option, none, some, [], ◌∷◌, ◌==◌, arith, eq_iff,
  Bool-cases, Option-cases, inl, inr, if◌then◌else◌,
}
use gall_lib.Common.Dict.{Dict, get, put, remove, get-nil, get-put, get-remove}
use gall_lib.Memory.{
  Snapshot, Scope, Store, Bucket, bucket, put_or_drop, is_empty, delete_session, write_snapshot,
  forget_previous, scope_eq,
}

-- What is stored for a session under a user and a conversation.
abbrev pub at : Dict (Dict Bucket) → String → String → String → Option Snapshot
at m u c id = get id (bucket (get c (bucket (get u m))))

abbrev pub same : Scope → String → String → String → String → Bool
same scope id u c j = scope.user_id == u && scope.conversation_id == c && id == j

get_of_is_empty : {V : Type 0} (b : Dict V) (j : String) → is_empty b ≡ true → get j b ≡ none
get_of_is_empty [] j h = get-nil j
get_of_is_empty (e ∷ b) j h = cc

get-put_or_drop :
    {V : Type 0} (k u : String) (b : Dict V) (m : Dict (Dict V)) (j : String)
    → get j (bucket (get u (put_or_drop k b m)))
      ≡ (if k == u then get j b else get j (bucket (get u m)))
get-put_or_drop {V} k u b m j = elim (Bool-cases (is_empty b)) [
  | inl e ↦ rw (e, get-remove) (ground (arith, get_of_is_empty b j e, get-nil {V = V} j))
  | inr e ↦ rw (e, get-put) (ground arith)
]

pub at-write_snapshot :
    (sc : Scope) (id : String) (snap : Snapshot) (s : Store) (u c j : String)
    → at (write_snapshot sc id snap s).buckets u c j
      ≡ (if same sc id u c j then some snap else at s.buckets u c j)
unfolding write_snapshot
at-write_snapshot sc id snap s u c j = rw get-put (
    ground (
      arith,
      eq_iff sc.user_id u,
      eq_iff sc.conversation_id c,
      eq_iff id j,
      get-put sc.conversation_id c
          (put id snap (bucket (get sc.conversation_id (bucket (get sc.user_id s.buckets)))))
          (bucket (get sc.user_id s.buckets)),
      get-put id j snap (bucket (get sc.conversation_id (bucket (get sc.user_id s.buckets)))),
    ))

module _ (sc : Scope) (id : String) (s : Store) (u c j : String) where
  at-dropped :
      (user : Dict Bucket) (conversation : Bucket)
      → get sc.user_id s.buckets ≡ some user
      → get sc.conversation_id user ≡ some conversation
      → at
          (put_or_drop sc.user_id
            (put_or_drop sc.conversation_id (remove id conversation) user)
            s.buckets)
          u
          c
          j
        ≡ (if same sc id u c j then none else at s.buckets u c j)
  at-dropped user conversation hu hc = rw get-put_or_drop (
      ground (
        arith,
        eq_iff sc.user_id u,
        eq_iff sc.conversation_id c,
        eq_iff id j,
        get-put_or_drop sc.conversation_id c (remove id conversation) user j,
        get-remove id j conversation,
      ))

  -- Where a bucket on the way is missing, there was nothing to delete.
  at-missing_user :
      get sc.user_id s.buckets ≡ none
      → at s.buckets u c j ≡ (if same sc id u c j then none else at s.buckets u c j)
  at-missing_user hu =
      ground (arith, eq_iff sc.user_id u, get-nil {V = Bucket} c, get-nil {V = Snapshot} j)

  at-missing_conversation :
      (user : Dict Bucket)
      → get sc.user_id s.buckets ≡ some user
      → get sc.conversation_id user ≡ none
      → at s.buckets u c j ≡ (if same sc id u c j then none else at s.buckets u c j)
  at-missing_conversation user hu hc =
      ground (arith, eq_iff sc.user_id u, eq_iff sc.conversation_id c, get-nil {V = Snapshot} j)

  pub at-delete_session :
      at (delete_session sc id s).buckets u c j
      ≡ (if same sc id u c j then none else at s.buckets u c j)
  unfolding delete_session
  at-delete_session = elim (Option-cases (get sc.user_id s.buckets)) [
    | inl hu ↦ rw (hu, delete_session) (at-missing_user hu)
    | inr (user, hu) ↦ elim (Option-cases (get sc.conversation_id user)) [
      | inl hc ↦
          rw (hu, delete_session) (rw (hc, delete_session) (at-missing_conversation user hu hc))
      | inr (conversation, hc) ↦
          rw (hu, delete_session) (rw (hc, delete_session) (at-dropped user conversation hu hc))
    ]
  ]

-- Deleting touches one session alone.
pub at-forget_ne :
    (sc : Scope) (id : String) (s : Store) (u c j : String)
    → (id == j) ≡ false
    → at (forget_previous sc id s).buckets u c j ≡ at s.buckets u c j
unfolding forget_previous
at-forget_ne sc id s u c j h = elim (Option-cases (get id s.sessions)) [
  | inl e ↦ rw (e, forget_previous)
  | inr (previous, e) ↦
      rw (e, forget_previous)
        (elim (Bool-cases (scope_eq previous sc)) [
          | inl same_scope ↦ rw same_scope
          | inr moved ↦ rw moved (ground (arith, at-delete_session previous id s u c j))
        ])
]

pub sessions-forget :
    (sc : Scope) (id : String) (s : Store) → (forget_previous sc id s).sessions ≡ s.sessions
unfolding forget_previous
sessions-forget sc id s = ground arith
