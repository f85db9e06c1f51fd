-- ===== src/Workflow/Exec.antt =====
-- The locals of a run and the code that changes them, as a state monad. An early return with an
-- error is `err`; `running` means that the fuel ended before the run did.
use gall_lib.Common.{ℕ, String, Option, List}
use gall_lib.Types.{Fields}
use gall_lib.Workflow.{Error, Status, Event, HistoryEntry, Checkpoint}

-- `state` is the shared *State, `delivered` and `appended` are the events that reached the hooks
-- and the entries that the sink took, the newest first.
pub record Sim (W : Type 0) : Type 0 where
  pub world : W
  pub sequence : ℕ
  pub state : Fields
  pub current_input : Fields
  pub current_index : ℕ
  pub last_step : String
  pub last_output : Fields
  pub status : Status
  pub checkpoint : Option Checkpoint
  pub delivered : List Event
  pub appended : List HistoryEntry

pub data Outcome (A : Type 0) : Type 0 where
  ok : A → Outcome A
  err : Error → Outcome A
  running : Outcome A

abbrev pub Exec : Type 0 → Type 0 → Type 0
Exec W A = Sim W → Outcome A × Sim W

abbrev pub continue : {W A B : Type 0} → Outcome A → (A → Exec W B) → Exec W B
continue (ok a) f s = f a s
continue (err e) f s = (err e, s)
continue running f s = (running, s)

infixl 10 ◌>>=◌ ◌>>◌
unfoldable pub ◌>>=◌ : {W A B : Type 0} → Exec W A → (A → Exec W B) → Exec W B
◌>>=◌ m f s = let (r, s') = m s in continue r f s'

abbrev pub ◌>>◌ : {W A B : Type 0} → Exec W A → Exec W B → Exec W B
m >> n = m >>= λ _. n

abbrev pub pure : {W A : Type 0} → A → Exec W A
pure a s = (ok a, s)

abbrev pub raise : {W A : Type 0} → Error → Exec W A
raise e s = (err e, s)

abbrev pub modify : {W : Type 0} → (Sim W → Sim W) → Exec W (Unit {0})
modify f s = (ok tt, f s)

abbrev pub reading : {W A : Type 0} → (Sim W → A) → Exec W A
reading f s = (ok (f s), s)
