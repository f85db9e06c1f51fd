-- ===== src/Runtime/Exec.antt =====
-- The locals of a run of the engine and its emitter, and the code that changes them as a state
-- monad. An early return with an error is `err`, and a read through a nil pointer `panicked`;
-- `running` means that the fuel ended before the model's stream did.
use gall_lib.Common.{ℕ, Bool, List}
use gall_lib.Types.{Message, Usage}
use gall_lib.Memory.{WorkingSet}
use gall_lib.Runtime.{Failure, Event, ToolCallRecord, GuardrailDecision}

-- `emitted` are the events of the emitter, the newest first. `terminal_sent` is the sink's mark.
pub record Sim (W : Type 0) : Type 0 where
  pub world : W
  pub sequence : ℕ
  pub emitted : List Event
  pub terminal_sent : Bool
  pub conversation : List Message
  pub working : WorkingSet
  pub usage : Usage
  pub tool_calls : List ToolCallRecord
  pub tool_used : Bool
  pub decisions : List GuardrailDecision

pub data Outcome (A : Type 0) : Type 0 where
  ok : A → Outcome A
  err : Failure → Outcome A
  running panicked : Outcome A

abbrev pub Exec : Type 0 → Type 0 → Type 0
Exec W A = Sim W → Outcome A × Sim W

abbrev pub continue : {W A B : Type 0} → Outcome A × Sim W → (A → Exec W B) → Outcome B × Sim W
continue (ok a, s) f = f a s
continue (err e, s) f = (err e, s)
continue (running, s) f = (running, s)
continue (panicked, s) f = (panicked, s)

infixl 10 ◌>>=◌ ◌>>◌
unfoldable pub ◌>>=◌ : {W A B : Type 0} → Exec W A → (A → Exec W B) → Exec W B
◌>>=◌ m f s = continue (m s) f

abbrev pub ◌>>◌ : {W A B : Type 0} → Exec W A → Exec W B → Exec W B
m >> n = m >>= λ _. n

abbrev pub pure : {W A : Type 0} → A → Exec W A
pure a s = (ok a, s)

abbrev pub raise : {W A : Type 0} → Failure → Exec W A
raise e s = (err e, s)

abbrev pub modify : {W : Type 0} → (Sim W → Sim W) → Exec W (Unit {0})
modify f s = (ok tt, f s)

abbrev pub reading : {W A : Type 0} → (Sim W → A) → Exec W A
reading f s = (ok (f s), s)

-- A call of other code.
abbrev pub calling : {W A : Type 0} → (W → A × W) → Exec W A
calling f s = let (a, w) = f s.world in (ok a, record s { world = w })
