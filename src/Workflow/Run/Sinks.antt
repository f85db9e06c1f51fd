-- ===== src/Workflow/Run/Sinks.antt =====
-- The deferred event of Run and the history sink: without a sink it always reaches the hooks, and
-- with a sink that fails no event does.
use gall_lib.Common.{
  ℕ, ◌≡◌, refl, ap, ◌∙◌, Bool, true, false, Option, none, some, [], inl, inr, Bool-cases, ◌==◌,
}
use gall_lib.Common.Dict.{is_some}
use gall_lib.Context.{Fault}
use gall_lib.Text.{trim_space}
use gall_lib.Types.{Fields, Metadata}
use gall_lib.Workflow.{
  Status, EventType, EventError, HistoryEntry, HistorySink, Request, Response, workflow_started,
  workflow_ended, is, err_history_write,
}
use gall_lib.Workflow.Exec.{Sim, Outcome, ok, err, running, Exec, continue, ◌>>=◌}
use gall_lib.Workflow.Builder.{Chain}
use gall_lib.Workflow.Chain.{
  Env, noted, append_history, emit_lifecycle, normalize_request, new_run_id,
}
use gall_lib.Workflow.Run
use gall_lib.Workflow.Run.{
  emit, event_of, deferred, run, run_normalized, body, started, first_error, end_status, returned,
}
use gall_lib.Workflow.Run.Lifecycle
use gall_lib.Workflow.Run.Lifecycle.{
  Phase, finished, ended, aborted, is_open, phase, Post, emit-no_history,
}
use gall_lib.Workflow.Run.Order.{aborted_of_open, Moves-body, delivered-normalize_request}

-- How a run without a sink leaves the phase.
abbrev pub Ended : {W : Type 0} → Outcome Response × Sim W → Type 0
Ended (ok resp, s) = phase s ≡ ended
Ended (err e, s) = phase s ≡ aborted
Ended (running, s) = Unit

abbrev has_value : {A : Type 0} → Outcome A → Bool
has_value (ok a) = true
has_value (err e) = false
has_value running = false

value_of : {A : Type 0} (x : Outcome A) → has_value x ≡ true → (a : A) × (x ≡ ok a)
value_of (ok a) h = (a, refl)
value_of (err e) h = cc
value_of running h = cc

normalize_ok :
    {W : Type 0} (w : Chain W) (req : Request) (s : Sim W)
    → (n : Request) × ((normalize_request w req s).0 ≡ ok n)
normalize_ok w req s = value_of (normalize_request w req s).0 some_value
  where
    some_value : has_value (normalize_request w req s).0 ≡ true
    some_value =
        unfold normalize_request new_run_id ◌>>=◌ in
        elim (Bool-cases (trim_space req.run_id == "")) [
          | inl e ↦ rw (e, normalize_request) refl
          | inr e ↦ rw (e, normalize_request) refl
        ]

module _ {W : Type 0} (env : Env W) (w : Chain W) (quiet : w.history ≡ none) where
  deferred-Ended :
      (req : Request) (r : Outcome Response) (s : Sim W)
      → Post (λ _. finished) (r, s)
      → Ended (deferred env w req r s)
  unfolding deferred
  deferred-Ended req (ok resp) s h =
      let (sent, moved) =
        emit-no_history env w req workflow_ended 0 (end_status (ok resp) s)
          (Run.the_output env w req) none (Run.run_metadata env w req) s quiet in
      rw sent (moved ∙ ap (λ p. Lifecycle.advance p workflow_ended) h)
  deferred-Ended req (err e) s h =
      let (sent, moved) =
        emit-no_history env w req workflow_ended 0 (end_status (err e) s) (Run.the_output env w req)
          (returned (err e)) (Run.run_metadata env w req) s quiet in
      moved ∙ aborted_of_open (phase s) h
  deferred-Ended req running s h = tt

  -- For a chain without a history sink and from no events, if a run with a chain and a context
  -- returns, then the deferred end event has reached the hooks, exactly once and as the last one:
  -- after the finish event if a response is returned, and without a finish event if an error is.
  pub run-Ended :
      (fuel tries : ℕ) (req : Request) (s : Sim W)
      → s.delivered ≡ []
      → Ended (run fuel tries (some w) (some env) req s)
  unfolding run ◌>>=◌ run_normalized
  run-Ended fuel tries req s h =
      let (n, e) = normalize_ok w req s in
      rw (e, run)
        (deferred-Ended n _ _ (
          (Moves-body env w n fuel tries).at (started env w n (normalize_request w req s).1)
            (rw (delivered-normalize_request w req s ∙ h) refl)))

-- The sink refuses every entry.
abbrev pub Refuses : {W : Type 0} → HistorySink W → Type 0
Refuses {W} sink = (entry : HistoryEntry) (world : W) → is_some (sink entry world).0 ≡ true

-- An error of the history, and the events as they were.
abbrev pub Silent : {W A : Type 0} → Sim W → Outcome A × Sim W → Type 0
Silent s (ok a, s') = ⊥
Silent s (err e, s') = (is e err_history_write ≡ true) × (s'.delivered ≡ s.delivered)
Silent s (running, s') = ⊥

module _ {W : Type 0} (env : Env W) (w : Chain W) (sink : HistorySink W)
    (given : w.history ≡ some sink) (refuses : Refuses sink) where
  noted-Silent :
      (entry : HistoryEntry) (answer : Option Fault × W) (s : Sim W)
      → is_some answer.0 ≡ true
      → Silent s (noted w entry answer s)
  unfolding is
  noted-Silent entry (none, world) s h = cc
  noted-Silent entry (some fault, world) s h = (refl, refl)

  append_history-Silent : (entry : HistoryEntry) (s : Sim W) → Silent s (append_history w entry s)
  unfolding append_history
  append_history-Silent entry s =
      rw (given, append_history) (noted-Silent _ (sink _ s.world) s (refuses _ s.world))

  Silent-continue :
      {A B : Type 0} (x : Outcome A) (f : A → Exec W B) (s s' : Sim W)
      → Silent s (x, s')
      → Silent s (continue x f s')
  Silent-continue (ok a) f s s' h = absurd h
  Silent-continue (err e) f s s' h = h
  Silent-continue running f s s' h = absurd h

  emit-Silent :
      (req : Request) (type : EventType) (attempt : ℕ) (status : Status) (output : Sim W → Fields)
      (error : Option EventError) (metadata : Metadata) (s : Sim W)
      → Silent s (emit env w req type attempt status output error metadata s)
  unfolding emit emit_lifecycle ◌>>=◌
  emit-Silent req type attempt status output error metadata s =
      Silent-continue _ _ s _ (append_history-Silent _ s)

  body-Silent :
      (req : Request) (fuel tries : ℕ) (s : Sim W) → Silent s (body env w req fuel tries s)
  unfolding body ◌>>=◌
  body-Silent req fuel tries s =
      Silent-continue _ _ s _ (emit-Silent req workflow_started 0 _ _ _ _ s)

  Silent-delivered :
      {A : Type 0} (x : Outcome A) (s s' : Sim W) → Silent s (x, s') → s'.delivered ≡ s.delivered
  Silent-delivered (ok a) s s' h = absurd h
  Silent-delivered (err e) s s' h = h.1
  Silent-delivered running s s' h = absurd h

  Silent-from :
      {A : Type 0} (x : Outcome A) (a s s' : Sim W)
      → a.delivered ≡ s.delivered
      → Silent a (x, s')
      → Silent s (x, s')
  Silent-from (ok v) a s s' p h = h
  Silent-from (err e) a s s' p h = (h.0, h.1 ∙ p)
  Silent-from running a s s' p h = h

  deferred-Silent :
      (req : Request) (r : Outcome Response) (s s' : Sim W)
      → Silent s (r, s')
      → Silent s (deferred env w req r s')
  unfolding deferred
  deferred-Silent req (ok resp) s s' h = absurd h
  deferred-Silent req (err e) s s' h =
      (h.0, Silent-delivered _ s' _ (emit-Silent req workflow_ended 0 _ _ _ _ s') ∙ h.1)
  deferred-Silent req running s s' h = absurd h

  -- For a chain whose history sink refuses every entry, a run with a chain and a context returns
  -- an error that matches ErrHistoryWrite, whatever the fuel, and no event reaches the hooks, the
  -- deferred end event included.
  pub run-Silent :
      (fuel tries : ℕ) (req : Request) (s : Sim W)
      → Silent s (run fuel tries (some w) (some env) req s)
  unfolding run ◌>>=◌ run_normalized
  run-Silent fuel tries req s =
      let (n, e) = normalize_ok w req s in
      let same = delivered-normalize_request w req s in
      let begun = started env w n (normalize_request w req s).1 in
      let silent = deferred-Silent n _ begun _ (body-Silent n fuel tries begun) in
      rw (e, run) (Silent-from _ begun s _ same silent)
