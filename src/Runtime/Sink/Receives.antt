-- ===== src/Runtime/Sink/Receives.antt =====
-- Recv keeps the invariant.
-- end after them.
use mathlib.Core.Path.{subst}
use gall_lib.Common.{
  ◌≡◌, refl, sym, ◌∙◌, ap, ◌≤◌, Bool, true, false, Option, none, some, List, [], ◌∷◌, length, inl,
  inr, arith,
}
use gall_lib.Runtime.{Event, Cause}
use gall_lib.Runtime.Sink.{
  Sink, Answer, got, stopped, end_of_file, answer_drained, recv_empty, recv_from, Channel, capacity,
}
use gall_lib.Runtime.Sink.Order.{onto, received, AreEvents, pending}
use gall_lib.Runtime.Sink.Invariant.{Inv}

-- What Recv answers: the next event of the buffer, or, when that is empty and closed, the error
-- that is left, or the end.
pub data Received (s : Sink) : Answer → Sink → Type 0 where
  next :
      (e : Event) (events : List Event)
      → s.events ≡ e ∷ events
      → Received s (got e) (record s { events = events })
  failed :
      (c : Cause)
      → s.events ≡ []
      → s.closed ≡ true
      → s.post_drain_err ≡ some c
      → Received s (stopped c) (record s { post_drain_err = none })
  exhausted : s.events ≡ [] → s.closed ≡ true → s.post_drain_err ≡ none → Received s end_of_file s

Received-same :
    {s : Sink} (x y : Answer × Sink) → some x ≡ some y → Received s x.0 x.1 → Received s y.0 y.1
Received-same {s} x y e r = let same : x ≡ y = cc e in subst (λ z. Received s z.0 z.1) same r

Received-drained :
    (s : Sink) (o : Option Cause)
    → s.events ≡ []
    → s.closed ≡ true
    → s.post_drain_err ≡ o
    → let r = answer_drained s o in Received s r.0 r.1
Received-drained s none empty closed e = exhausted empty closed e
Received-drained s (some c) empty closed e = failed c empty closed e

Received-empty :
    (s : Sink) (b : Bool) (y : Answer × Sink)
    → s.events ≡ []
    → s.closed ≡ b
    → recv_empty s b ≡ some y
    → Received s y.0 y.1
Received-empty s true y empty closed e =
    Received-same _ y e (Received-drained s s.post_drain_err empty closed refl)
Received-empty s false y empty closed e = absurd (cc e)

pub Received-from :
    (s : Sink) (events : List Event) (y : Answer × Sink)
    → s.events ≡ events
    → recv_from s events ≡ some y
    → Received s y.0 y.1
Received-from s (x ∷ events) y h e = Received-same _ y e (next x events h)
Received-from s [] y h e = Received-empty s s.closed y h refl e

shown_with_more :
    {c : Channel} {e : Event} {events : List Event}
    → Inv c
    → c.sink.events ≡ e ∷ events
    → AreEvents c.answers
shown_with_more inv h = elim inv.stage [
  | inl events ↦ events
  | inr over ↦ absurd (cc (over.empty, h))
]

shown_with_error :
    {c : Channel} {x : Cause} → Inv c → c.sink.post_drain_err ≡ some x → AreEvents c.answers
shown_with_error inv h = elim inv.stage [
  | inl events ↦ events
  | inr over ↦ absurd (cc (over.drained, h))
]

shorter :
    {A : Type 0} {x : A} (xs : List A) {rest : List A}
    → xs ≡ x ∷ rest
    → length xs ≤ capacity
    → length rest ≤ capacity
shorter {A} {x} xs {rest} h room =
    let long : length (x ∷ rest) ≤ capacity = subst (λ ys. length ys ≤ capacity) h room in
    omega (arith, long)

pub receives-Inv :
    {c : Channel} {a : Answer} {t : Sink}
    → Received c.sink a t
    → Inv c
    → Inv (record c { sink = t; answers = a ∷ c.answers })
unfolding onto
receives-Inv {c} (next e events h) inv =
    let same = ap (λ es. pending c.position (onto es (received c.answers))) (sym h) in
    record {
      orderly = record {
        in_order = shown_with_more inv h;
        within = rw same inv.orderly.within;
        lossless = λ l. same ∙ inv.orderly.lossless l;
        room = shorter c.sink.events h inv.orderly.room;
      };
      stage = inl (shown_with_more inv h);
      closing = inv.closing;
    }
receives-Inv {c} (failed x empty closed h) inv = record {
  orderly = record {
    in_order = shown_with_error inv h;
    within = inv.orderly.within;
    lossless = inv.orderly.lossless;
    room = inv.orderly.room;
  };
  stage = inr (record {
    at = (inv.closing closed).0;
    done = (inv.closing closed).1;
    drained = refl;
    empty = empty;
  });
  closing = inv.closing;
}
receives-Inv {c} (exhausted empty closed h) inv = record {
  orderly = record {
    in_order = inv.orderly.in_order;
    within = inv.orderly.within;
    lossless = inv.orderly.lossless;
    room = inv.orderly.room;
  };
  stage = inr (record {
    at = (inv.closing closed).0;
    done = (inv.closing closed).1;
    drained = h;
    empty = empty;
  });
  closing = inv.closing;
}
