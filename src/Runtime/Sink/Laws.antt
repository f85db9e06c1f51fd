-- ===== src/Runtime/Sink/Laws.antt =====
-- Whatever the run, its consumer and the context do, a stream's events come in their order, and its
-- end after them.
-- end after them.
use gall_lib.Common.{refl, inl, arith}
use gall_lib.Runtime.Sink.{
  recv, Channel, Step, emits, sends, gives_up, returns, finishes, receives, closes, ends, Reach,
  start, later,
}
use gall_lib.Runtime.Sink.Order.{nothing, onto, IsOrderly}
use gall_lib.Runtime.Sink.Invariant.{
  Inv, Keeps-self, Keeps-marked_if, Keeps-after_execute, Keeps-close,
}
use gall_lib.Runtime.Sink.Moves.{
  emits-Inv, sends-Inv, gives_up-Inv, returns-Inv, finishes-Inv, closes-Inv,
}
use gall_lib.Runtime.Sink.Receives.{Received-from, receives-Inv}

Step-Inv : {c d : Channel} → Step c d → Inv c → Inv d
unfolding recv
Step-Inv {c} (emits e terminal h) inv = emits-Inv e _ h (Keeps-marked_if terminal c.sink) inv
Step-Inv (sends e h small) inv = sends-Inv e h small inv
Step-Inv (gives_up e h ended) inv = gives_up-Inv e h ended inv
Step-Inv {c} (returns result h) inv = returns-Inv _ h (Keeps-after_execute result c.sink) inv
Step-Inv (finishes h) inv = finishes-Inv h inv
Step-Inv {c} (receives a s h) inv =
    receives-Inv (Received-from c.sink c.sink.events (a, s) refl h) inv
Step-Inv {c} closes inv = closes-Inv _ (Keeps-close c.sink) inv
Step-Inv {c} ends inv = closes-Inv c.sink (Keeps-self c.sink) inv

Reach-Inv : {c : Channel} → Reach c → Inv c
unfolding onto
Reach-Inv start = record {
  orderly = record { in_order = tt; within = nothing; lossless = λ l. refl; room = omega arith };
  stage = inl tt;
  closing = λ closed. absurd (cc closed);
}
Reach-Inv (later r step) = Step-Inv step (Reach-Inv r)

-- In every state that a stream can reach by steps of the run, Recv and Close of the consumer and
-- the end of the context, in any order: Recv has answered events first, then at most one error,
-- then only io.EOF; the events received, buffered and at the select, the newest first, are those
-- meant for the stream with some left out, and all of them while the context has not ended; and at
-- most 32 events are buffered.
pub Reach-IsOrderly : {c : Channel} → Reach c → IsOrderly c
Reach-IsOrderly r = (Reach-Inv r).orderly
