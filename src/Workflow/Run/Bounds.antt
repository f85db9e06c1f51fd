-- ===== src/Workflow/Run/Bounds.antt =====
-- The index of a run stays inside of a chain that Build returned, so the code behind the outer loop
-- is never reached.
use gall_lib.Common.{
  ℕ, zero, suc, ◌+◌, ◌<◌, ◌≡◌, refl, Option, none, some, arith, length, get_elem?, get_elem?-of_lt,
}
use gall_lib.Types.{Fields, Metadata, ℤ, merge_metadata}
use gall_lib.Workflow.{
  Cause, Status, EventType, EventError, HistoryEntry, Request, Response, Reply, StepResult, Step,
  Next,
}
use gall_lib.Workflow.Exec.{Sim, Outcome, ok, err, running, Exec, reading, continue, ◌>>=◌}
use gall_lib.Workflow.Builder.{Builder, Chain, build}
use gall_lib.Workflow.Builder.Laws.{IsIndexed, build-IsBuilt}
use gall_lib.Workflow.Chain.{
  Env, append_history, emit_lifecycle, wait_for_retry, Resolved, goto, suspend, finish, refuse,
  resolve_next,
}
use gall_lib.Workflow.Run
use gall_lib.Workflow.Run.{
  emit, Turn, again, advance, done, run_step, on_failure, on_success, after_step, attempt_step,
  attempts, round, drive, body, started,
}
use gall_lib.Workflow.Run.Transition.{goto-lt-length}
use gall_lib.Common.Results

abbrev pub Within : {W : Type 0} → ℕ → Sim W → Type 0
Within n s = s.current_index < n

-- The code leaves an index inside of the chain inside of it, however it returns.
pub record Keeps {W A : Type 0} (n : ℕ) (m : Exec W A) : Type 0 where
  pub at : (s : Sim W) → Within n s → Within n (m s).1

module _ {W A B : Type 0} {n : ℕ} where
  Keeps-continue :
      (x : Outcome A) (f : A → Exec W B) (s : Sim W)
      → ((a : A) → Keeps n (f a))
      → Within n s
      → Within n (continue x f s).1
  Keeps-continue (ok a) f s k h = (k a).at s h
  Keeps-continue (err e) f s k h = h
  Keeps-continue running f s k h = h

  Keeps-bind :
      (m : Exec W A) (f : A → Exec W B) → Keeps n m → ((a : A) → Keeps n (f a)) → Keeps n (m >>= f)
  unfolding ◌>>=◌
  Keeps-bind m f k l = record { at = λ s h. Keeps-continue (m s).0 f (m s).1 l (k.at s h) }

-- Code that leaves the index alone.
module _ {W A : Type 0} {n : ℕ} where
  Keeps-still : (m : Exec W A) → ((s : Sim W) → (m s).1.current_index ≡ s.current_index) → Keeps n m
  Keeps-still m same = record { at = λ s h. rw (same s) h }

module _ {W : Type 0} (env : Env W) (w : Chain W) (req : Request)
    (inv : IsIndexed w.steps w.step_index) where
  index-append_history :
      (entry : HistoryEntry) (s : Sim W)
      → (append_history w entry s).1.current_index ≡ s.current_index
  unfolding append_history
  index-append_history entry s = ground arith

  Keeps-append_history :
      (entry : Sim W → HistoryEntry) → Keeps (length w.steps) (λ s. append_history w (entry s) s)
  Keeps-append_history entry = Keeps-still _ (λ s. index-append_history (entry s) s)

  Keeps-emit :
      (type : EventType) (attempt : ℕ) (status : Status) (output : Sim W → Fields)
      (error : Option EventError) (metadata : Metadata)
      → Keeps (length w.steps) (emit env w req type attempt status output error metadata)
  unfolding emit emit_lifecycle
  Keeps-emit type attempt status output error metadata = record {
    at = λ s h. (Keeps-bind _ _ (Keeps-append_history _) (λ _. Keeps-still _ (λ s'. refl))).at s h;
  }

  Keeps-wait : (delay : ℤ) → Keeps (length w.steps) (wait_for_retry env delay)
  unfolding wait_for_retry
  Keeps-wait delay = Keeps-still _ (λ s. ground arith)

  Keeps-on_failure :
      (step : Step W) (attempt : ℕ) (metadata : Metadata) (c : Cause)
      → Keeps (length w.steps) (on_failure env w req step attempt metadata c)
  unfolding on_failure
  Keeps-on_failure step attempt metadata c =
      Keeps-bind _ _ (Keeps-emit _ attempt _ _ _ metadata)
        (λ _. Keeps-bind _ _ (Keeps-still _ (λ s. refl)) (λ delay. later delay))
    where
      later :
          (delay : Option ℤ)
          → Keeps (length w.steps) (Run.retry_later env w req attempt metadata delay c)
      later none = Keeps-still _ (λ s. refl)
      later (some delay) =
          Keeps-bind _ _ (Keeps-append_history _)
            (λ _. Keeps-bind _ _ (Keeps-wait delay) (λ o. Keeps-still _ (λ s. ground arith)))

  Keeps-follow :
      (attempt : ℕ) (r : Resolved)
      → ((i : ℕ) → r ≡ goto i → i < length w.steps)
      → Keeps (length w.steps) (Run.follow env w req attempt r)
  unfolding Run.follow
  Keeps-follow attempt (refuse e) h = Keeps-still _ (λ s. refl)
  Keeps-follow attempt (suspend c) h = Keeps-bind _ _ (Keeps-still _ (λ s. refl)) (λ _.
      Keeps-bind _ _ (Keeps-append_history _)
        (λ _. Keeps-bind _ _ (Keeps-emit _ 0 _ _ _ _) (λ _. Keeps-still _ (λ s. refl))))
  Keeps-follow attempt finish h =
      Keeps-bind _ _ (Keeps-still _ (λ s. refl))
        (λ _. Keeps-bind _ _ (Keeps-emit _ 0 _ _ _ _) (λ _. Keeps-still _ (λ s. refl)))
  Keeps-follow attempt (goto i) h =
      Keeps-bind _ _ (record { at = λ s _. h i refl }) (λ _. Keeps-still _ (λ s. refl))

  -- What follows the end of a step: the next index is read off the locals.
  Keeps-resolved :
      (attempt : ℕ) (next : Next) (metadata : Metadata)
      → Keeps (length w.steps) (λ s.
        Run.follow env w req attempt
          (resolve_next w s.current_index s.last_step s.state (env.now s.world) next metadata)
          s)
  Keeps-resolved attempt next metadata = record {
    at = λ s h.
        (Keeps-follow attempt _ (λ i e.
            goto-lt-length w s.current_index s.last_step s.state (env.now s.world) next metadata i
              inv e)).at
          s h;
  }

  Keeps-on_success :
      (attempt : ℕ) (metadata : Metadata) (result : StepResult)
      → Keeps (length w.steps) (on_success env w req attempt metadata result)
  unfolding on_success
  Keeps-on_success attempt metadata result = Keeps-bind _ _ (Keeps-still _ (λ s. refl)) (λ _.
      Keeps-bind _ _ (Keeps-emit _ attempt _ _ _ _)
        (λ _. Keeps-bind _ _ (Keeps-still _ (λ s. refl)) (λ _. after)))
    where
      after : Keeps (length w.steps) (
          reading (λ s.
            resolve_next w s.current_index s.last_step s.state
              (env.now s.world)
              result.next
              (merge_metadata metadata result.metadata))
          >>= Run.follow env w req attempt)
      after =
          unfold ◌>>=◌ in
          Keeps-resolved attempt result.next (merge_metadata metadata result.metadata)

  Keeps-after_step :
      (step : Step W) (attempt : ℕ) (metadata : Metadata) (reply : Reply StepResult)
      → Keeps (length w.steps) (after_step env w req step attempt metadata reply)
  Keeps-after_step step attempt metadata (Results.ok result) =
      Keeps-on_success attempt metadata result
  Keeps-after_step step attempt metadata (Results.err c) = Keeps-on_failure step attempt metadata c

  Keeps-run_step :
      (step : Step W) (attempt : ℕ) (metadata : Metadata)
      → Keeps (length w.steps) (run_step env w req step attempt metadata)
  unfolding run_step
  Keeps-run_step step attempt metadata = Keeps-still _ (λ s. refl)

  Keeps-attempt_step :
      (step : Step W) (attempt : ℕ) → Keeps (length w.steps) (attempt_step env w req step attempt)
  unfolding attempt_step
  Keeps-attempt_step step attempt = Keeps-bind _ _ (Keeps-emit _ attempt _ _ _ _) (λ _.
      Keeps-bind _ _ (Keeps-run_step step attempt _)
        (λ reply. Keeps-after_step step attempt _ reply))

  Keeps-after_turn :
      (more : Exec W (Option Response)) (turn : Turn)
      → Keeps (length w.steps) more
      → Keeps (length w.steps) (Run.after_turn env w req more turn)
  unfolding Run.after_turn
  Keeps-after_turn more again k = k
  Keeps-after_turn more advance k = Keeps-still _ (λ s. refl)
  Keeps-after_turn more (done resp) k = Keeps-still _ (λ s. refl)

  Keeps-attempts :
      (tries : ℕ) (step : Step W) (attempt : ℕ)
      → Keeps (length w.steps) (attempts env w req tries step attempt)
  unfolding attempts
  Keeps-attempts zero step attempt = Keeps-still _ (λ s. refl)
  Keeps-attempts (suc tries) step attempt =
      Keeps-bind _ _ (Keeps-attempt_step step attempt)
        (λ turn. Keeps-after_turn _ turn (Keeps-attempts tries step (attempt + 1)))

  Keeps-round : (tries : ℕ) (step : Step W) → Keeps (length w.steps) (round env w req tries step)
  unfolding round
  Keeps-round tries step =
      Keeps-bind _ _ (Keeps-still _ (λ s. ground arith))
        (λ _. Keeps-bind _ _ (Keeps-still _ (λ s. refl)) (λ _. Keeps-attempts tries step 1))

-- The outer loop without the code behind it: it has no answer where no step stands at the index.
module _ {W : Type 0} (env : Env W) (w : Chain W) (req : Request) where
  pub loop_only : ℕ → ℕ → Exec W Response
  loop_only zero tries s = (running, s)
  loop_only (suc fuel) tries s = elim (get_elem? w.steps s.current_index) [
    | none ↦ (running, s)
    | some step ↦
        (do
          answer ← round env w req tries step
          Run.after_answer env w req (loop_only fuel tries) answer)
          s
  ]

  same_answer :
      (n : ℕ) (more more' : Exec W Response) (x : Outcome (Option Response)) (s : Sim W)
      → ((s : Sim W) → Within n s → more s ≡ more' s)
      → Within n s
      → continue x (Run.after_answer env w req more) s
        ≡ continue x (Run.after_answer env w req more') s
  unfolding Run.after_answer
  same_answer n more more' (ok none) s same h = same s h
  same_answer n more more' (ok (some resp)) s same h = refl
  same_answer n more more' (err e) s same h = refl
  same_answer n more more' running s same h = refl

  drive-eq-loop_only :
      (fuel tries : ℕ) (s : Sim W)
      → IsIndexed w.steps w.step_index
      → Within (length w.steps) s
      → drive env w req fuel tries s ≡ loop_only fuel tries s
  unfolding drive loop_only ◌>>=◌
  drive-eq-loop_only zero tries s inv h = refl
  drive-eq-loop_only (suc fuel) tries s inv h =
      let (step, e) = get_elem?-of_lt w.steps s.current_index h in
      rw (e, drive, loop_only)
        (same_answer (length w.steps) _ _ _ _ (λ s' h'. drive-eq-loop_only fuel tries s' inv h')
          ((Keeps-round env w req inv tries step).at s h))

  -- For a chain that Build returned, the loop of Run, from the locals as they are declared, gives
  -- what the loop without the code behind it gives: the index always stays inside of the chain,
  -- and the finish event and the response behind the loop are never reached.
  pub body-eq-loop_only :
      (b : Builder W) (fuel tries : ℕ) (s : Sim W)
      → build (some b) ≡ Results.ok w
      → drive env w req fuel tries (started env w req s)
        ≡ loop_only fuel tries (started env w req s)
  body-eq-loop_only b fuel tries s h =
      let built = build-IsBuilt b w h in
      drive-eq-loop_only fuel tries (started env w req s) built.index_ok built.some_step
