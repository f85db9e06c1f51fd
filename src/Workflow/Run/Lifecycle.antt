-- ===== src/Workflow/Run/Lifecycle.antt =====
-- The order of the lifecycle events, as an automaton over the events that reached the hooks, and
-- the rules for the code that emits them.
use gall_lib.Common.{
  ℕ, ◌≡◌, refl, ◌∙◌, Bool, true, false, Option, none, some, List, [], ◌∷◌, arith, inl, inr,
  Option-cases,
}
use gall_lib.Context.{Fault}
use gall_lib.Types.{Fields, Metadata}
use gall_lib.Workflow.{
  Status, Event, EventType, workflow_started, step_started, step_ended, workflow_error,
  workflow_finished, workflow_ended, EventError, HistoryEntry, Request,
}
use gall_lib.Workflow.Exec.{Sim, Outcome, ok, err, running, Exec, continue, ◌>>=◌}
use gall_lib.Workflow.Builder.{Chain}
use gall_lib.Workflow.Chain.{Env, noted, append_history, emit_lifecycle}
use gall_lib.Workflow.Run.{emit, event_of}

-- Between the events of a run: nothing yet, between two steps, inside a step, after a failed try,
-- after the finish, after the end of a finished run and after the end of any other. `broken` follows
-- an event out of order.
pub data Phase : Type 0 where
  initial ready in_step failed_try finished ended aborted broken : Phase

abbrev pub advance : Phase → EventType → Phase
advance initial workflow_started = ready
advance ready step_started = in_step
advance failed_try step_started = in_step
advance in_step step_ended = ready
advance in_step workflow_error = failed_try
advance ready workflow_finished = finished
advance initial workflow_ended = aborted
advance ready workflow_ended = aborted
advance in_step workflow_ended = aborted
advance failed_try workflow_ended = aborted
advance finished workflow_ended = ended
advance _ _ = broken

-- The run has begun at most, and not finished.
abbrev pub is_open : Phase → Bool
is_open initial = true
is_open ready = true
is_open in_step = true
is_open failed_try = true
is_open _ = false

abbrev pub phase_of : List Event → Phase
phase_of [] = initial
phase_of (e ∷ es) = advance (phase_of es) e.type

abbrev pub phase : {W : Type 0} → Sim W → Phase
phase s = phase_of s.delivered

-- After a value, the phase that the value says; after an early return or out of fuel, an open one.
abbrev pub Post : {W A : Type 0} → (A → Phase) → Outcome A × Sim W → Type 0
Post q (ok a, s) = phase s ≡ q a
Post q (err e, s) = is_open (phase s) ≡ true
Post q (running, s) = is_open (phase s) ≡ true

pub record Moves {W A : Type 0} (p : Phase) (m : Exec W A) (q : A → Phase) : Type 0 where
  pub at : (s : Sim W) → phase s ≡ p → Post q (m s)

module _ {W A B : Type 0} where
  Post-continue :
      (q : A → Phase) (r : B → Phase) (f : A → Exec W B) (x : Outcome A) (s : Sim W)
      → ((a : A) → Moves (q a) (f a) r)
      → Post q (x, s)
      → Post r (continue x f s)
  Post-continue q r f (ok a) s step h = (step a).at s h
  Post-continue q r f (err e) s step h = h
  Post-continue q r f running s step h = h

  pub Moves-bind :
      {p : Phase} {r : B → Phase} (q : A → Phase) (m : Exec W A) (f : A → Exec W B)
      → Moves p m q
      → ((a : A) → Moves (q a) (f a) r)
      → Moves p (m >>= f) r
  unfolding ◌>>=◌
  Moves-bind {r} q m f first rest = record {
    at = λ s h. Post-continue q r f (m s).0 (m s).1 rest (first.at s h);
  }

module _ {W : Type 0} where
  -- The history does not touch what the hooks saw.
  pub delivered-append_history :
      (w : Chain W) (entry : HistoryEntry) (s : Sim W)
      → (append_history w entry s).1.delivered ≡ s.delivered
  unfolding append_history
  delivered-append_history w entry s = ground arith

  -- Code that leaves the delivered events alone.
  pub Moves-silent :
      {A : Type 0} {p : Phase} (m : Exec W A)
      → is_open p ≡ true
      → ((s : Sim W) → (m s).1.delivered ≡ s.delivered)
      → Moves p m (λ _. p)
  Moves-silent {A} {p} m open' same = record { at = λ s h. stay (m s).0 (m s).1 (rw (same s) h) }
    where
      stay : (x : Outcome A) (s : Sim W) → phase s ≡ p → Post (λ _. p) (x, s)
      stay (ok a) s h = h
      stay (err e) s h = rw h open'
      stay running s h = rw h open'

  pub Moves-append_history :
      {p : Phase} (w : Chain W) (entry : Sim W → HistoryEntry)
      → is_open p ≡ true
      → Moves p (λ s. append_history w (entry s) s) (λ _. p)
  Moves-append_history w entry open' =
      Moves-silent _ open' (λ s. delivered-append_history w (entry s) s)

  -- An event in its place moves the phase; where the sink refuses it, the phase stays.
  Moves-emit_lifecycle :
      {p q : Phase} (w : Chain W) (e : Event)
      → is_open p ≡ true
      → advance p e.type ≡ q
      → Moves p (emit_lifecycle w e) (λ _. q)
  unfolding emit_lifecycle
  Moves-emit_lifecycle {p} w e open' step =
      Moves-bind (λ _. p) _ _ (Moves-append_history w _ open')
        (λ _. record { at = λ s h. rw h step })

  pub Moves-emit :
      {p q : Phase} (env : Env W) (w : Chain W) (req : Request) (type : EventType) (attempt : ℕ)
      (status : Status) (output : Sim W → Fields) (error : Option EventError) (metadata : Metadata)
      → is_open p ≡ true
      → advance p type ≡ q
      → Moves p (emit env w req type attempt status output error metadata) (λ _. q)
  unfolding emit
  Moves-emit env w req type attempt status output error metadata open' step = record {
    at = λ s h.
        (Moves-emit_lifecycle w
            (event_of env w req type s.last_step attempt status (output s) error metadata s) open'
            step).at
          s h;
  }

  -- What an emission does to the phase, on either answer of the sink.
  abbrev pub Sent : Phase → Phase → Outcome (Unit {0}) × Sim W → Type 0
  Sent p q (ok _, s) = phase s ≡ q
  Sent p q (err _, s) = phase s ≡ p
  Sent p q (running, s) = ⊥

  abbrev Same : Phase → Outcome (Unit {0}) × Sim W → Type 0
  Same p (ok _, s) = phase s ≡ p
  Same p (err _, s) = phase s ≡ p
  Same p (running, s) = ⊥

  noted-Same :
      (w : Chain W) (entry : HistoryEntry) (answer : Option Fault × W) (s : Sim W)
      → Same (phase s) (noted w entry answer s)
  noted-Same w entry (none, world) s = refl
  noted-Same w entry (some fault, world) s = refl

  append_history-Same :
      (w : Chain W) (entry : HistoryEntry) (s : Sim W) → Same (phase s) (append_history w entry s)
  unfolding append_history
  append_history-Same w entry s = elim (Option-cases w.history) [
    | inl e ↦ rw (e, append_history) refl
    | inr (sink, e) ↦ rw (e, append_history) (noted-Same w _ (sink _ s.world) s)
  ]

  Sent-continue :
      (p : Phase) (e : EventType) (g : Sim W → Sim W) (x : Outcome (Unit {0})) (s : Sim W)
      → ((s : Sim W) → phase (g s) ≡ advance (phase s) e)
      → Same p (x, s)
      → Sent p (advance p e) (continue x (λ _ s'. (ok tt, g s')) s)
  Sent-continue p e g (ok _) s step h = step s ∙ rw h
  Sent-continue p e g (err _) s step h = h
  Sent-continue p e g running s step h = h

  pub Sent-emit :
      (env : Env W) (w : Chain W) (req : Request) (type : EventType) (attempt : ℕ) (status : Status)
      (output : Sim W → Fields) (error : Option EventError) (metadata : Metadata) (s : Sim W)
      → Sent
          (phase s)
          (advance (phase s) type)
          (emit env w req type attempt status output error metadata s)
  unfolding emit emit_lifecycle ◌>>=◌
  Sent-emit env w req type attempt status output error metadata s =
      Sent-continue (phase s) type _ _ _ (λ s'. refl) (append_history-Same w _ s)

  append-no_history :
      (w : Chain W) (entry : HistoryEntry) (s : Sim W)
      → w.history ≡ none
      → append_history w entry s ≡ (ok tt, s)
  unfolding append_history
  append-no_history w entry s h = rw (h, append_history)

  -- Without a history sink no emission fails.
  pub emit-no_history :
      (env : Env W) (w : Chain W) (req : Request) (type : EventType) (attempt : ℕ) (status : Status)
      (output : Sim W → Fields) (error : Option EventError) (metadata : Metadata) (s : Sim W)
      → w.history ≡ none
      → ((emit env w req type attempt status output error metadata s).0 ≡ ok tt)
        × (phase (emit env w req type attempt status output error metadata s).1
            ≡ advance (phase s) type)
  unfolding emit emit_lifecycle ◌>>=◌
  emit-no_history env w req type attempt status output error metadata s h =
      (rw (append-no_history w _ s h) refl, rw (append-no_history w _ s h) refl)
