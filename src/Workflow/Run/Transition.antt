-- ===== src/Workflow/Run/Transition.antt =====
-- resolveNext: which transitions are refused, and that the others stay inside of the chain.
use gall_lib.Common.{
  ℕ, ◌+◌, ◌<◌, ◌⊎◌, String, ◌≡◌, Bool, true, false, not, ◌&&◌, ◌||◌, some, arith, ◌==◌, leb, length,
  get_elem?-lt, inl, inr,
}
use gall_lib.Common.Dict.{get, is_some}
use gall_lib.Text.{trim_space}
use gall_lib.Types.{Fields, Metadata}
use gall_lib.Workflow.{Error, Next, err_invalid_transition, is}
use gall_lib.Workflow.Builder.{Chain}
use gall_lib.Workflow.Builder.Laws.{IsIndexed}
use gall_lib.Workflow.Chain.{Resolved, goto, refuse, resolve_next}

abbrev pub is_refused : Resolved → Bool
is_refused (refuse e) = true
is_refused _ = false

abbrev pub names_step : Next → Bool
names_step next = not (trim_space next.step == "")

-- Two of the three ways to go on at once.
abbrev pub conflicting : Next → Bool
conflicting next =
    (names_step next && next.end) || (names_step next && next.suspend) || (next.end && next.suspend)

module _ {W : Type 0} (w : Chain W) (index : ℕ) (step : String) (state : Fields) (time : ℕ) where
  -- resolveNext refuses a transition exactly if it asks for two of a step, the end and a
  -- suspension at once, or names a step that the chain's index does not have.
  pub resolve_next_refuses :
      (next : Next) (metadata : Metadata)
      → is_refused (resolve_next w index step state time next metadata) ≡ (
          conflicting next
          || (names_step next && not (is_some (get (trim_space next.step) w.step_index))))
  unfolding resolve_next
  resolve_next_refuses next metadata = ground arith

  refusal-is_transition :
      (next : Next) (metadata : Metadata) (e : Error)
      → resolve_next w index step state time next metadata ≡ refuse e
      → is e err_invalid_transition ≡ true
  unfolding resolve_next is
  refusal-is_transition next metadata e h = ground arith

  goto-cases :
      (next : Next) (metadata : Metadata) (i : ℕ)
      → resolve_next w index step state time next metadata ≡ goto i
      → (get (trim_space next.step) w.step_index ≡ some i)
        ⊎ ((i ≡ index + 1) × (leb (length w.steps) (index + 1) ≡ false))
  unfolding resolve_next
  goto-cases next metadata i h = ground arith

  -- If the chain's index takes names only to positions of its steps, then the index that
  -- resolveNext goes on at, if it goes on, is a position of the chain's steps.
  pub goto-lt-length :
      (next : Next) (metadata : Metadata) (i : ℕ)
      → IsIndexed w.steps w.step_index
      → resolve_next w index step state time next metadata ≡ goto i
      → i < length w.steps
  goto-lt-length next metadata i inv h = elim (goto-cases next metadata i h) [
    | inl named ↦
        let (target, here, _) = inv.resolves (trim_space next.step) i named in
        get_elem?-lt w.steps i here
    | inr (next_one, room) ↦ ground arith
  ]
