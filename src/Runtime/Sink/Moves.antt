-- ===== src/Runtime/Sink/Moves.antt =====
-- The steps of the run, Close and the end of the context keep the invariant.
-- end after them.
use gall_lib.Common.{
  ◌+◌, ◌≡◌, refl, sym, ◌∙◌, ap, ◌≤◌, true, List, [], ◌∷◌, ◌++◌, length, ltb, inl, inr, arith,
}
use gall_lib.Runtime.{Event}
use gall_lib.Runtime.Sink.{
  Sink, Answer, finish, Position, executing, selecting, executed, finished, Channel, capacity,
}
use gall_lib.Runtime.Sink.Order.{keeps, Within-rest, onto, onto-append, received, pending, handled}
use gall_lib.Runtime.Sink.Invariant.{Inv, is_finished, live, not_closed, Keeps}

-- The events that are handled, at a position that is known.
handled_at :
    (c : Channel) {p : Position}
    → c.position ≡ p
    → handled c ≡ pending p (onto c.sink.events (received c.answers))
handled_at c h = ap (λ p. pending p (onto c.sink.events (received c.answers))) h

-- The same events stand in the buffer of a changed sink.
buffered :
    {s t : Sink} (answers : List Answer)
    → Keeps s t
    → onto t.events (received answers) ≡ onto s.events (received answers)
buffered answers k = ap (λ es. onto es (received answers)) k.events

room_kept : {s t : Sink} → Keeps s t → length s.events ≤ capacity → length t.events ≤ capacity
room_kept k h = rw k.events h

pub emits-Inv :
    {c : Channel} (e : Event) (t : Sink)
    → c.position ≡ executing
    → Keeps c.sink t
    → Inv c
    → Inv (record c { position = selecting e; sink = t; sent = e ∷ c.sent })
emits-Inv {c} e t h k inv = record {
  orderly = record {
    in_order = inv.orderly.in_order;
    within = rw (buffered c.answers k) (keeps (rw (sym (handled_at c h)) inv.orderly.within));
    lossless = λ l.
        ap (λ es. e ∷ es) (buffered c.answers k ∙ (sym (handled_at c h) ∙ inv.orderly.lossless l));
    room = room_kept k inv.orderly.room;
  };
  stage = inl (live inv (ap is_finished h));
  closing = λ closed. not_closed inv (ap is_finished h) (sym k.closed ∙ closed);
}

length-snoc : {A : Type 0} (xs : List A) (a : A) → length (xs ++ a ∷ []) ≡ length xs + 1
length-snoc [] a = refl
length-snoc (x ∷ xs) a = omega (arith, length-snoc xs a)

ltb-room : {A : Type 0} (xs : List A) → ltb (length xs) capacity ≡ true → length xs + 1 ≤ capacity
ltb-room xs h = ground arith

pub sends-Inv :
    {c : Channel} (e : Event)
    → c.position ≡ selecting e
    → ltb (length c.sink.events) capacity ≡ true
    → Inv c
    → Inv (record c {
      position = executing;
      sink = record c.sink { events = c.sink.events ++ e ∷ [] };
    })
sends-Inv {c} e h small inv =
    let same = onto-append c.sink.events (received c.answers) e ∙ sym (handled_at c h) in
    record {
      orderly = record {
        in_order = inv.orderly.in_order;
        within = rw same inv.orderly.within;
        lossless = λ l. same ∙ inv.orderly.lossless l;
        room = rw (length-snoc c.sink.events e) (ltb-room c.sink.events small);
      };
      stage = inl (live inv (ap is_finished h));
      closing = λ closed. not_closed inv (ap is_finished h) closed;
    }

pub gives_up-Inv :
    {c : Channel} (e : Event)
    → c.position ≡ selecting e
    → c.canceled ≡ true
    → Inv c
    → Inv (record c { position = executing })
gives_up-Inv {c} e h ended inv = record {
  orderly = record {
    in_order = inv.orderly.in_order;
    within = Within-rest {a = e} (rw (sym (handled_at c h)) inv.orderly.within);
    lossless = λ l. absurd (cc (ended, l));
    room = inv.orderly.room;
  };
  stage = inl (live inv (ap is_finished h));
  closing = λ closed. not_closed inv (ap is_finished h) closed;
}

pub returns-Inv :
    {c : Channel} (t : Sink)
    → c.position ≡ executing
    → Keeps c.sink t
    → Inv c
    → Inv (record c { position = executed; sink = t })
returns-Inv {c} t h k inv =
    let same = buffered c.answers k ∙ sym (handled_at c h) in
    record {
      orderly = record {
        in_order = inv.orderly.in_order;
        within = rw same inv.orderly.within;
        lossless = λ l. same ∙ inv.orderly.lossless l;
        room = room_kept k inv.orderly.room;
      };
      stage = inl (live inv (ap is_finished h));
      closing = λ closed. not_closed inv (ap is_finished h) (sym k.closed ∙ closed);
    }

pub finishes-Inv :
    {c : Channel}
    → c.position ≡ executed
    → Inv c
    → Inv (record c { position = finished; sink = finish c.sink })
unfolding finish
finishes-Inv {c} h inv = record {
  orderly = record {
    in_order = inv.orderly.in_order;
    within = rw (sym (handled_at c h)) inv.orderly.within;
    lossless = λ l. sym (handled_at c h) ∙ inv.orderly.lossless l;
    room = inv.orderly.room;
  };
  stage = inl (live inv (ap is_finished h));
  closing = λ closed. (refl, refl);
}

pub closes-Inv :
    {c : Channel} (t : Sink) → Keeps c.sink t → Inv c → Inv (record c { sink = t; canceled = true })
closes-Inv {c} t k inv =
    let same = ap (pending c.position) (buffered c.answers k) in
    record {
      orderly = record {
        in_order = inv.orderly.in_order;
        within = rw same inv.orderly.within;
        lossless = λ l. absurd (cc l);
        room = room_kept k inv.orderly.room;
      };
      stage = elim inv.stage [
        | inl events ↦ inl events
        | inr over ↦ inr (record {
          at = over.at;
          done = k.done ∙ over.done;
          drained = k.drained over.done over.drained;
          empty = k.events ∙ over.empty;
        })
      ];
      closing = λ closed. let was = inv.closing (sym k.closed ∙ closed) in (was.0, k.done ∙ was.1);
    }
