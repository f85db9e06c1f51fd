-- ===== src/Runtime/Sink.antt =====
-- streamSink of internal/runtime/engine.go, with Stream: the run emits in a goroutine of its own
-- while a consumer calls Recv and Close. A method under the sink's lock is one step; finish, which
-- sets `done` and closes the channel, is one too.
pub mod Order
pub mod Invariant
pub mod Moves
pub mod Receives
pub mod Laws
use gall_lib.Common.{
  ℕ, ◌≡◌, Bool, true, false, ◌&&◌, ◌||◌, not, Option, none, some, List, [], ◌∷◌, ◌++◌, length, ltb,
  if◌then◌else◌,
}
use gall_lib.Runtime.{Sentinel, aborted, Cause, Event, Failure}
use gall_lib.Runtime.Classify.{failure_is}
use gall_lib.Runtime.Emitter.{error_is}

-- `events` is the channel's buffer, the oldest first; `closed` is set by close(events), and
-- `close_once` when the once has run.
pub record Sink : Type 0 where
  pub events : List Event
  pub closed : Bool
  pub post_drain_err : Option Cause
  pub terminal_sent : Bool
  pub done : Bool
  pub close_once : Bool

abbrev pub capacity : ℕ
capacity = 32

abbrev pub new_stream_sink : Sink
new_stream_sink = record {
  events = [];
  closed = false;
  post_drain_err = none;
  terminal_sent = false;
  done = false;
  close_once = false;
}

-- What Recv answers.
pub data Answer : Type 0 where
  got : Event → Answer
  stopped : Cause → Answer
  end_of_file : Answer

abbrev pub answer_drained : Sink → Option Cause → Answer × Sink
answer_drained s none = (end_of_file, s)
answer_drained s (some c) = (stopped c, record s { post_drain_err = none })

-- An empty channel is waited for until it is closed: nothing.
abbrev pub recv_empty : Sink → Bool → Option (Answer × Sink)
recv_empty s true = some (answer_drained s s.post_drain_err)
recv_empty s false = none

abbrev pub recv_from : Sink → List Event → Option (Answer × Sink)
recv_from s (e ∷ events) = some (got e, record s { events = events })
recv_from s [] = recv_empty s s.closed

unfoldable pub recv : Sink → Option (Answer × Sink)
recv s = recv_from s s.events

abbrev pub is_none : Option Cause → Bool
is_none none = true
is_none (some c) = false

unfoldable pub close : Sink → Sink
close s = if s.close_once then s else record s {
  close_once = true;
  post_drain_err =
      if not s.done && not s.terminal_sent && is_none s.post_drain_err
      then some (Cause.sentinel aborted)
      else s.post_drain_err;
}

unfoldable pub mark_terminal_sent : Sink → Sink
mark_terminal_sent s = record s { terminal_sent = true }

unfoldable pub set_post_drain_err : Cause → Sink → Sink
set_post_drain_err c s =
    if s.terminal_sent || s.done || not (is_none s.post_drain_err)
    then s
    else record s { post_drain_err = some c }

unfoldable pub finish : Sink → Sink
finish s = record s { done = true; closed = true }

-- Where the goroutine of the run stands: between two events, at the select of one, after `execute`,
-- and after its deferred finish.
pub data Position : Type 0 where
  executing : Position
  selecting : Event → Position
  executed finished : Position

-- A stream, with the events that are meant for it and Recv's answers so far, each with the newest
-- first. `canceled` is the state of the run's context.
pub record Channel : Type 0 where
  pub sink : Sink
  pub position : Position
  pub canceled : Bool
  pub sent : List Event
  pub answers : List Answer

abbrev pub opened : Channel
opened = record {
  sink = new_stream_sink;
  position = executing;
  canceled = false;
  sent = [];
  answers = [];
}

abbrev pub marked_if : Bool → Sink → Sink
marked_if true s = mark_terminal_sent s
marked_if false s = s

-- if errors.Is(err, agent.ErrStreamAborted) { sink.setPostDrainErr(agent.ErrStreamAborted) }
abbrev pub after_execute : Option Failure → Sink → Sink
after_execute e s = if error_is e aborted then set_post_drain_err (Cause.sentinel aborted) s else s

-- A step of the run, of its consumer, or of the context from which the run's context is derived.
-- At a select the event is sent if there is room, or given up if the context has ended; if both
-- hold, either happens.
pub data Step (c : Channel) : Channel → Type 0 where
  emits :
      (e : Event) (terminal : Bool)
      → c.position ≡ executing
      → Step c
          (record c { position = selecting e; sink = marked_if terminal c.sink; sent = e ∷ c.sent })
  sends :
      (e : Event)
      → c.position ≡ selecting e
      → ltb (length c.sink.events) capacity ≡ true
      → Step c (record c {
        position = executing;
        sink = record c.sink { events = c.sink.events ++ e ∷ [] };
      })
  gives_up :
      (e : Event)
      → c.position ≡ selecting e
      → c.canceled ≡ true
      → Step c (record c { position = executing })
  returns :
      (result : Option Failure)
      → c.position ≡ executing
      → Step c (record c { position = executed; sink = after_execute result c.sink })
  finishes : c.position ≡ executed → Step c (record c { position = finished; sink = finish c.sink })
  receives :
      (a : Answer) (s : Sink)
      → recv c.sink ≡ some (a, s)
      → Step c (record c { sink = s; answers = a ∷ c.answers })
  closes : Step c (record c { sink = close c.sink; canceled = true })
  ends : Step c (record c { canceled = true })

pub data Reach : Channel → Type 0 where
  start : Reach opened
  later : {c d : Channel} → Reach c → Step c d → Reach d
