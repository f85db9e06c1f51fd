-- ===== src/Workflow/Run/Rounds.antt =====
-- One round of the outer loop of Run: the tries of a step end when its policy gives up.
use gall_lib.Common.{
  ℕ, zero, suc, ◌+◌, ◌<◌, ◌≤◌, String, ◌≡◌, refl, ap, ◌∙◌, false, Option, none, some, arith, inl,
  inr, Option-cases,
}
use gall_lib.Context.{Interrupt}
use native.Mathlib.Decide.{dec_le}
use gall_lib.Types.{Fields, Metadata, ℤ, pos, negsuc, merge_metadata}
use gall_lib.Workflow.{
  Cause, Request, Response, Reply, StepContext, StepResult, Step, Next, RetryPolicy,
}
use gall_lib.Workflow.Exec.{Sim, Exec, reading, ◌>>=◌}
use gall_lib.Workflow.Builder.{Chain}
use gall_lib.Workflow.Chain.{
  Env, wait_for_retry, effective_retry, Resolved, goto, suspend, finish, refuse, resolve_next,
}
use gall_lib.Workflow.Run
use gall_lib.Workflow.Run.{
  emit, run, Turn, again, advance, done, run_step, on_failure, on_success, after_step, attempt_step,
  attempts, round, drive, fall_through, deferred, body, started, run_normalized, first_error,
}
use gall_lib.Workflow.Run.Transition.{names_step}
use gall_lib.Workflow.Run.Total.{Total, Total-bind, At, Total-append_history, Total-emit}
use gall_lib.Common.Results

-- The policy gives up after m retries.
abbrev pub GivesUp : {W : Type 0} → ℕ → Option (RetryPolicy W) → Type 0
GivesUp m none = Unit
GivesUp {W} m (some policy) =
    (attempt : ℕ) (c : Cause) (world : W) → m < attempt → policy attempt c world ≡ none

-- No result of the step names a next step.
abbrev pub IsLinear : {W : Type 0} → Step W → Type 0
IsLinear {W} step =
    (ctx : StepContext) (state : Fields) (world : W) (result : StepResult)
    → (step.run ctx state world).0 ≡ Results.ok result
    → names_step result.next ≡ false

abbrev TurnAt : {W : Type 0} → ℕ → ℕ → ℕ → Turn → Sim W → Type 0
TurnAt m attempt k again s = (attempt ≤ m) × At k s
TurnAt m attempt k advance s = At (suc k) s
TurnAt m attempt k (done resp) s = Unit

abbrev pub AnswerAt : {W : Type 0} → ℕ → Option Response → Sim W → Type 0
AnswerAt k none s = At (suc k) s
AnswerAt k (some resp) s = Unit

module _ {W : Type 0} (env : Env W) (w : Chain W) (req : Request) (m : ℕ) where
  Total-wait : {k : ℕ} (delay : ℤ) → Total (At k) (wait_for_retry env delay) (λ _. At k)
  unfolding wait_for_retry
  Total-wait (pos zero) = record { at = λ s h. h }
  Total-wait (pos (suc n)) = record { at = λ s h. h }
  Total-wait (negsuc n) = record { at = λ s h. h }

  -- A failed try is followed by another one only while the policy allows it.
  Total-retry_later :
      {k : ℕ} (attempt : ℕ) (metadata : Metadata) (delay : Option ℤ) (c : Cause)
      → ((d : ℤ) → delay ≡ some d → attempt ≤ m)
      → Total (At k) (Run.retry_later env w req attempt metadata delay c) (TurnAt m attempt k)
  unfolding Run.retry_later
  Total-retry_later attempt metadata none c h = record { at = λ s i. tt }
  Total-retry_later {k} attempt metadata (some delay) c h =
      Total-bind (λ _. At k) _ _ (Total-append_history w _)
        (λ _. Total-bind (λ _. At k) _ _ (Total-wait delay) (λ o. after o))
    where
      after :
          (o : Option Interrupt) → Total (At k) (Run.after_wait env w req o) (TurnAt m attempt k)
      after none = record { at = λ s i. (h delay refl, i) }
      after (some i) = record { at = λ s _. tt }

  allowed :
      (policy : Option (RetryPolicy W)) (attempt : ℕ) (c : Cause) (world : W) (d : ℤ)
      → GivesUp m policy
      → Run.next_try env w req policy attempt c world ≡ some d
      → attempt ≤ m
  allowed none attempt c world d g e = cc
  allowed (some policy) attempt c world d g e = elim (dec_le attempt m) [
    | yes p ↦ p
    | no p ↦ let q : m < attempt = omega arith in cc (g attempt c world q)
  ]

  Total-on_failure :
      {k : ℕ} (step : Step W) (attempt : ℕ) (metadata : Metadata) (c : Cause)
      → GivesUp m (effective_retry w step)
      → Total (At k) (on_failure env w req step attempt metadata c) (TurnAt m attempt k)
  unfolding on_failure ◌>>=◌
  Total-on_failure {k} step attempt metadata c g =
      Total-bind (λ _. At k) _ _ (Total-emit env w req _ attempt _ _ _ metadata)
        (λ _. record {
          at = λ s h.
              (Total-retry_later attempt metadata _ c
                  (λ d e. allowed (effective_retry w step) attempt c s.world d g e)).at
                s h;
        })

  goto_next :
      (index : ℕ) (step : String) (state : Fields) (time : ℕ) (next : Next) (metadata : Metadata)
      (i : ℕ)
      → names_step next ≡ false
      → resolve_next w index step state time next metadata ≡ goto i
      → i ≡ suc index
  unfolding resolve_next
  goto_next index step state time next metadata i n h = ground arith

  Total-follow :
      {k : ℕ} (attempt : ℕ) (r : Resolved)
      → ((i : ℕ) → r ≡ goto i → i ≡ suc k)
      → Total (At k) (Run.follow env w req attempt r) (TurnAt m attempt k)
  unfolding Run.follow
  Total-follow attempt (refuse e) h = record { at = λ s i. tt }
  Total-follow {k} attempt (suspend c) h =
      Total-bind (λ _. At k) _ _ (record { at = λ s i. i })
        (λ _.
          Total-bind (λ _. At k) _ _ (Total-append_history w _)
            (λ _.
              Total-bind (λ _. At k) _ _ (Total-emit env w req _ 0 _ _ _ _)
                (λ _. record { at = λ s i. tt })))
  Total-follow {k} attempt finish h =
      Total-bind (λ _. At k) _ _ (record { at = λ s i. i })
        (λ _.
          Total-bind (λ _. At k) _ _ (Total-emit env w req _ 0 _ _ _ _)
            (λ _. record { at = λ s i. tt }))
  Total-follow {k} attempt (goto i) h =
      Total-bind (λ _. At (suc k)) _ _ (record { at = λ s _. h i refl })
        (λ _. record { at = λ s j. j })

  Total-on_success :
      {k : ℕ} (attempt : ℕ) (metadata : Metadata) (result : StepResult)
      → names_step result.next ≡ false
      → Total (At k) (on_success env w req attempt metadata result) (TurnAt m attempt k)
  unfolding on_success
  Total-on_success {k} attempt metadata result n =
      Total-bind (λ _. At k) _ _ (record { at = λ s i. i })
        (λ _.
          Total-bind (λ _. At k) _ _ (Total-emit env w req _ attempt _ _ _ _)
            (λ _. Total-bind (λ _. At k) _ _ (record { at = λ s i. i }) (λ _. after)))
    where
      after :
          Total
            (At k)
            (reading (λ s.
                resolve_next w s.current_index s.last_step s.state
                  (env.now s.world)
                  result.next
                  (merge_metadata metadata result.metadata))
              >>= Run.follow env w req attempt)
            (TurnAt m attempt k)
      after =
          unfold ◌>>=◌ in
          record {
            at = λ s h.
                (Total-follow attempt
                    (resolve_next w s.current_index s.last_step s.state (env.now s.world)
                      result.next (merge_metadata metadata result.metadata))
                    (λ i e.
                      goto_next s.current_index s.last_step s.state (env.now s.world) result.next _
                        i n e
                      ∙ ap suc h)).at
                  s h;
          }

  -- A reply of a linear step.
  abbrev Linear : ℕ → Reply StepResult → Sim W → Type 0
  Linear k reply s =
      At k s × ((result : StepResult) → reply ≡ Results.ok result → names_step result.next ≡ false)

  Total-run_step :
      {k : ℕ} (step : Step W) (attempt : ℕ) (metadata : Metadata)
      → IsLinear step
      → Total (At k) (run_step env w req step attempt metadata) (Linear k)
  unfolding run_step
  Total-run_step step attempt metadata linear = record {
    at = λ s h. (h, λ result e. linear _ s.state s.world result e);
  }

  Total-after_step :
      {k : ℕ} (step : Step W) (attempt : ℕ) (metadata : Metadata) (reply : Reply StepResult)
      → GivesUp m (effective_retry w step)
      → Total
          (Linear k reply)
          (after_step env w req step attempt metadata reply)
          (TurnAt m attempt k)
  Total-after_step step attempt metadata (Results.ok result) g = record {
    at = λ s h. (Total-on_success attempt metadata result (h.1 result refl)).at s h.0;
  }
  Total-after_step step attempt metadata (Results.err c) g = record {
    at = λ s h. (Total-on_failure step attempt metadata c g).at s h.0;
  }

  Total-attempt_step :
      {k : ℕ} (step : Step W) (attempt : ℕ)
      → GivesUp m (effective_retry w step)
      → IsLinear step
      → Total (At k) (attempt_step env w req step attempt) (TurnAt m attempt k)
  unfolding attempt_step
  Total-attempt_step {k} step attempt g linear =
      Total-bind (λ _. At k) _ _ (Total-emit env w req _ attempt _ _ _ _)
        (λ _.
          Total-bind (Linear k) _ _ (Total-run_step step attempt _ linear)
            (λ reply. Total-after_step step attempt _ reply g))

  Total-after_turn :
      {k attempt : ℕ} (more : Exec W (Option Response)) (turn : Turn)
      → (attempt ≤ m → Total (At k) more (AnswerAt k))
      → Total (TurnAt m attempt k turn) (Run.after_turn env w req more turn) (AnswerAt k)
  unfolding Run.after_turn
  Total-after_turn more again rest = record { at = λ s h. (rest h.0).at s h.1 }
  Total-after_turn more advance rest = record { at = λ s h. h }
  Total-after_turn more (done resp) rest = record { at = λ s h. tt }

  Total-attempts :
      {k : ℕ} (tries : ℕ) (step : Step W) (attempt : ℕ)
      → GivesUp m (effective_retry w step)
      → IsLinear step
      → suc m < tries + attempt
      → attempt ≤ suc m
      → Total (At k) (attempts env w req tries step attempt) (AnswerAt k)
  unfolding attempts
  Total-attempts zero step attempt g linear enough small = absurd (omega arith)
  Total-attempts {k} (suc tries) step attempt g linear enough small =
      Total-bind (TurnAt m attempt k) _ _ (Total-attempt_step step attempt g linear) (λ turn.
        Total-after_turn _ turn
          (λ h. Total-attempts tries step (attempt + 1) g linear (omega arith) (omega arith)))

  Total-check_context : {k : ℕ} → Total (At k) (Run.check_context env w req) (λ _. At k)
  unfolding Run.check_context
  Total-check_context {k} = record {
    at = λ s h. elim (Option-cases (env.ctx_err s.world)) [
      | inl e ↦ rw (e, Run.check_context) h
      | inr (i, e) ↦ rw (e, Run.check_context) tt
    ];
  }

  pub Total-round :
      {k : ℕ} (tries : ℕ) (step : Step W)
      → GivesUp m (effective_retry w step)
      → IsLinear step
      → m < tries
      → Total (At k) (round env w req tries step) (AnswerAt k)
  unfolding round
  Total-round {k} tries step g linear enough =
      Total-bind (λ _. At k) _ _ Total-check_context
        (λ _.
          Total-bind (λ _. At k) _ _ (record { at = λ s h. h })
            (λ _. Total-attempts tries step 1 g linear (omega arith) (omega arith)))
