-- ===== src/Context.antt =====
-- context.Context as the sources read it: `ctx.Err()` answers nothing while the context lives, and
-- then one of two errors for good.
use gall_lib.Common.{Option, String}

pub data Interrupt : Type 0 where
  canceled deadline_exceeded : Interrupt

-- An error that other code returned: its text, and whether errors.Is finds a context error in it.
pub record Fault : Type 0 where
  pub text : String
  pub interrupt : Option Interrupt
