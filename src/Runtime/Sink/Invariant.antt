-- ===== src/Runtime/Sink/Invariant.antt =====
-- What every step of a stream keeps, and the changes of its flags that leave the buffer.
-- end after them.
use gall_lib.Common.{
  ◌≡◌, refl, ap, Bool, true, false, Option, none, [], if◌then◌else◌, ◌⊎◌, inl, inr, arith,
}
use gall_lib.Runtime.{Cause, Failure}
use gall_lib.Runtime.Sink.{
  Sink, close, mark_terminal_sent, set_post_drain_err, Position, finished, Channel, marked_if,
  after_execute,
}
use gall_lib.Runtime.Sink.Order.{AreEvents, IsOrderly}

pub record IsOver (c : Channel) : Type 0 where
  pub at : c.position ≡ finished
  pub done : c.sink.done ≡ true
  pub drained : c.sink.post_drain_err ≡ none
  pub empty : c.sink.events ≡ []

pub record Inv (c : Channel) : Type 0 where
  pub orderly : IsOrderly c
  pub stage : AreEvents c.answers ⊎ IsOver c
  pub closing : c.sink.closed ≡ true → (c.position ≡ finished) × (c.sink.done ≡ true)

abbrev pub is_finished : Position → Bool
is_finished finished = true
is_finished _ = false

pub live : {c : Channel} → Inv c → is_finished c.position ≡ false → AreEvents c.answers
live inv h = elim inv.stage [
  | inl events ↦ events
  | inr over ↦ absurd (cc (ap is_finished over.at))
]

pub not_closed :
    {c : Channel} {A : Type 0} → Inv c → is_finished c.position ≡ false → c.sink.closed ≡ true → A
not_closed inv h closed = absurd (cc (ap is_finished (inv.closing closed).0))

-- A change of the flags of a sink that leaves the buffer.
pub record Keeps (s t : Sink) : Type 0 where
  pub events : t.events ≡ s.events
  pub closed : t.closed ≡ s.closed
  pub done : t.done ≡ s.done
  pub drained : s.done ≡ true → s.post_drain_err ≡ none → t.post_drain_err ≡ none

pub Keeps-self : (s : Sink) → Keeps s s
Keeps-self s = record { events = refl; closed = refl; done = refl; drained = λ d e. e }

pub Keeps-marked_if : (terminal : Bool) (s : Sink) → Keeps s (marked_if terminal s)
unfolding mark_terminal_sent
Keeps-marked_if true s = record { events = refl; closed = refl; done = refl; drained = λ d e. e }
Keeps-marked_if false s = Keeps-self s

Keeps-set_post_drain_err : (c : Cause) (s : Sink) → Keeps s (set_post_drain_err c s)
unfolding set_post_drain_err
Keeps-set_post_drain_err c s = record {
  events = ground arith;
  closed = ground arith;
  done = ground arith;
  drained = λ d e. ground arith;
}

Keeps-if : (b : Bool) (c : Cause) (s : Sink) → Keeps s (if b then set_post_drain_err c s else s)
Keeps-if true c s = Keeps-set_post_drain_err c s
Keeps-if false c s = Keeps-self s

pub Keeps-after_execute : (e : Option Failure) (s : Sink) → Keeps s (after_execute e s)
Keeps-after_execute e s = Keeps-if _ _ s

pub Keeps-close : (s : Sink) → Keeps s (close s)
unfolding close
Keeps-close s = record {
  events = ground arith;
  closed = ground arith;
  done = ground arith;
  drained = λ d e. ground arith;
}
