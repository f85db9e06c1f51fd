-- ===== src/Runtime/Collect/Spoken.antt =====
-- The text of the deltas that a streamed answer emits, against the text that it buffers.
use Prim.Native.String.{◌++◌ as text_append}
use text.Mathlib.TextLemmas.{append-nil as text_append-nil, append_assoc as text_append_assoc}
use gall_lib.Common.{String, ◌≡◌, Bool, ◌&&◌, ◌||◌, ◌==◌}
use gall_lib.Runtime.Exec.{Sim, Outcome, ok, Exec}
use gall_lib.Runtime.Collect.{Collected}
use gall_lib.Runtime.Collect.Quiet.{spoken}

-- What was buffered was emitted, after a text.
abbrev Heard : {W : Type 0} → String → Outcome Collected × Sim W → Type 0
Heard before (ok c, s) = spoken s.emitted ≡ text_append before c.buffered
Heard before _ = Unit

-- What the guardrails let through replaces the model's own text.
abbrev pub replaces : Collected → Bool
replaces c = c.saw_delta && (c.saw_adjustment || c.message.content == "")
