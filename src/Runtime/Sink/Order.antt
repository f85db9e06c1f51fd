-- ===== src/Runtime/Sink/Order.antt =====
-- The order of a stream's events and answers.
-- end after them.
use gall_lib.Common.{◌≡◌, refl, ◌≤◌, false, List, [], ◌∷◌, ◌++◌, length}
use gall_lib.Runtime.{Event}
use gall_lib.Runtime.Sink.{
  Answer, got, stopped, end_of_file, Position, selecting, Channel, capacity,
}

-- A list is another one without some of its elements.
pub data Within {A : Type 0} : List A → List A → Type 0 where
  nothing : Within [] []
  keeps : {a : A} {xs ys : List A} → Within xs ys → Within (a ∷ xs) (a ∷ ys)
  skips : {a : A} {xs ys : List A} → Within xs ys → Within xs (a ∷ ys)

pub Within-rest : {A : Type 0} {a : A} {xs ys : List A} → Within (a ∷ xs) ys → Within xs ys
Within-rest (keeps w) = skips w
Within-rest (skips w) = skips (Within-rest w)

-- Elements are put on a list one by one, the first at first.
unfoldable pub onto : {A : Type 0} → List A → List A → List A
onto [] below = below
onto (x ∷ xs) below = onto xs (x ∷ below)

pub onto-append :
    {A : Type 0} (xs below : List A) (a : A) → onto (xs ++ a ∷ []) below ≡ a ∷ onto xs below
unfolding onto
onto-append [] below a = refl
onto-append (x ∷ xs) below a = onto-append xs (x ∷ below) a

Within-onto :
    {A : Type 0} (xs below : List A) {ys : List A} → Within (onto xs below) ys → Within below ys
unfolding onto
Within-onto [] below w = w
Within-onto (x ∷ xs) below w = Within-rest (Within-onto xs (x ∷ below) w)

-- The events among the answers.
abbrev pub received : List Answer → List Event
received [] = []
received (got e ∷ answers) = e ∷ received answers
received (_ ∷ answers) = received answers

abbrev pub AreEvents : List Answer → Type 0
AreEvents [] = Unit
AreEvents (got e ∷ answers) = AreEvents answers
AreEvents (_ ∷ answers) = ⊥

-- Events first, then an error at most once, then only the end.
abbrev pub AreInOrder : List Answer → Type 0
AreInOrder [] = Unit
AreInOrder (got e ∷ answers) = AreEvents answers
AreInOrder (stopped c ∷ answers) = AreEvents answers
AreInOrder (end_of_file ∷ answers) = AreInOrder answers

abbrev pub pending : Position → List Event → List Event
pending (selecting e) events = e ∷ events
pending _ events = events

-- What was received, what is in the buffer, and the event at the select, the newest first.
abbrev pub handled : Channel → List Event
handled c = pending c.position (onto c.sink.events (received c.answers))

pub record IsOrderly (c : Channel) : Type 0 where
  pub in_order : AreInOrder c.answers
  pub within : Within (handled c) c.sent
  pub lossless : c.canceled ≡ false → handled c ≡ c.sent
  pub room : length c.sink.events ≤ capacity
