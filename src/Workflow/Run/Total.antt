-- ===== src/Workflow/Run/Total.antt =====
-- Total correctness of the code of a run: it does not stop for want of fuel, and a value that it
-- returns comes with a fact about the locals. An early return with an error says nothing more.
use gall_lib.Common.{ℕ, ◌≡◌, Option, none, some, inl, inr, Option-cases}
use gall_lib.Context.{Fault}
use gall_lib.Types.{Fields, Metadata}
use gall_lib.Workflow.{Status, EventType, EventError, HistoryEntry, Request}
use gall_lib.Workflow.Exec.{Sim, Outcome, ok, err, running, Exec, continue, ◌>>=◌}
use gall_lib.Workflow.Builder.{Chain}
use gall_lib.Workflow.Chain.{Env, noted, append_history, emit_lifecycle}
use gall_lib.Workflow.Run.{emit}

abbrev pub Returns : {W A : Type 0} → (A → Sim W → Type 0) → Outcome A × Sim W → Type 0
Returns q (ok a, s) = q a s
Returns q (err e, s) = Unit
Returns q (running, s) = ⊥

pub record Total {W A : Type 0} (p : Sim W → Type 0) (m : Exec W A) (q : A → Sim W → Type 0)
    : Type 0 where
  pub at : (s : Sim W) → p s → Returns q (m s)

module _ {W A B : Type 0} where
  Returns-continue :
      (q : A → Sim W → Type 0) (r : B → Sim W → Type 0) (x : Outcome A) (f : A → Exec W B)
      (s : Sim W)
      → ((a : A) → Total (q a) (f a) r)
      → Returns q (x, s)
      → Returns r (continue x f s)
  Returns-continue q r (ok a) f s step h = (step a).at s h
  Returns-continue q r (err e) f s step h = tt
  Returns-continue q r running f s step h = absurd h

  pub Total-bind :
      {p : Sim W → Type 0} {r : B → Sim W → Type 0} (q : A → Sim W → Type 0) (m : Exec W A)
      (f : A → Exec W B)
      → Total p m q
      → ((a : A) → Total (q a) (f a) r)
      → Total p (m >>= f) r
  unfolding ◌>>=◌
  Total-bind {r} q m f first rest = record {
    at = λ s h. Returns-continue q r (m s).0 f (m s).1 rest (first.at s h);
  }

-- The index of the current step is k.
abbrev pub At : {W : Type 0} → ℕ → Sim W → Type 0
At k s = s.current_index ≡ k

module _ {W : Type 0} where
  noted-At :
      (w : Chain W) (entry : HistoryEntry) (answer : Option Fault × W) (s : Sim W) (k : ℕ)
      → At k s
      → Returns (λ _. At k) (noted w entry answer s)
  noted-At w entry (none, world) s k h = h
  noted-At w entry (some fault, world) s k h = tt

  append_history-At :
      (w : Chain W) (entry : HistoryEntry) (s : Sim W) (k : ℕ)
      → At k s
      → Returns (λ _. At k) (append_history w entry s)
  unfolding append_history
  append_history-At w entry s k h = elim (Option-cases w.history) [
    | inl e ↦ rw (e, append_history) h
    | inr (sink, e) ↦ rw (e, append_history) (noted-At w _ (sink _ s.world) s k h)
  ]

  pub Total-append_history :
      {k : ℕ} (w : Chain W) (entry : Sim W → HistoryEntry)
      → Total (At k) (λ s. append_history w (entry s) s) (λ _. At k)
  Total-append_history {k} w entry = record { at = λ s h. append_history-At w (entry s) s k h }

  pub Total-emit :
      {k : ℕ} (env : Env W) (w : Chain W) (req : Request) (type : EventType) (attempt : ℕ)
      (status : Status) (output : Sim W → Fields) (error : Option EventError) (metadata : Metadata)
      → Total (At k) (emit env w req type attempt status output error metadata) (λ _. At k)
  unfolding emit emit_lifecycle
  Total-emit {k} env w req type attempt status output error metadata = record {
    at = λ s h.
        (Total-bind (λ _. At k) _ _ (Total-append_history w _)
            (λ _. record { at = λ s' h'. h' })).at
          s h;
  }
