-- ===== src/Workflow/Run/Order.antt =====
-- The lifecycle events of a run come in order, whatever the steps, the hooks and the sink do.
use gall_lib.Common.{
  ℕ, zero, suc, ◌+◌, ◌≡◌, ◌∙◌, ◌==◌, refl, Bool, true, false, Option, none, some, [], arith, inl,
  inr, Bool-cases, Option-cases, get_elem?,
}
use gall_lib.Context.{Interrupt}
use gall_lib.Types.{Metadata, ℤ}
use gall_lib.Workflow.{
  Error, Cause, workflow_started, step_started, step_ended, workflow_error, workflow_finished,
  workflow_ended, Request, Response, Reply, StepResult, Step, Checkpoint,
}
use gall_lib.Workflow.Exec.{Sim, Outcome, ok, err, running, Exec, continue, ◌>>=◌}
use gall_lib.Workflow.Builder.{Chain}
use gall_lib.Workflow.Chain.{
  Env, wait_for_retry, Resolved, goto, suspend, finish, refuse, normalize_request, new_run_id,
}
use gall_lib.Workflow.Run
use gall_lib.Workflow.Run.Lifecycle
use gall_lib.Workflow.Run.{
  emit, Turn, again, advance, done, run_step, on_failure, on_success, after_step, attempt_step,
  attempts, round, drive, fall_through, deferred, body, started, run_normalized, run, first_error,
}
use gall_lib.Workflow.Run.Lifecycle.{
  Phase, initial, ready, in_step, failed_try, finished, ended, aborted, broken, is_open, phase_of,
  phase, Post, Moves, Moves-bind, Moves-silent, Moves-append_history, Moves-emit, Sent, Sent-emit,
}
use gall_lib.Common.Results
use gall_lib.Text.{trim_space}

abbrev turn_phase : Turn → Phase
turn_phase again = failed_try
turn_phase advance = ready
turn_phase (done _) = finished

abbrev answer_phase : Option Response → Phase
answer_phase none = ready
answer_phase (some _) = finished

module _ {W : Type 0} (env : Env W) (w : Chain W) (req : Request) where
  delivered-wait : (delay : ℤ) (s : Sim W) → (wait_for_retry env delay s).1.delivered ≡ s.delivered
  unfolding wait_for_retry
  delivered-wait delay s = ground arith

  Moves-after_wait :
      (o : Option Interrupt) → Moves failed_try (Run.after_wait env w req o) turn_phase
  unfolding Run.after_wait
  Moves-after_wait none = record { at = λ s h. h }
  Moves-after_wait (some i) = record { at = λ s h. rw h refl }

  Moves-retry_later :
      (attempt : ℕ) (metadata : Metadata) (delay : Option ℤ) (c : Cause)
      → Moves failed_try (Run.retry_later env w req attempt metadata delay c) turn_phase
  unfolding Run.retry_later
  Moves-retry_later attempt metadata none c = record { at = λ s h. rw h refl }
  Moves-retry_later attempt metadata (some delay) c =
      Moves-bind (λ _. failed_try) _ _ (Moves-append_history w _ refl)
        (λ _.
          Moves-bind (λ _. failed_try) _ _ (Moves-silent _ refl (delivered-wait delay))
            (λ o. Moves-after_wait o))

  Moves-on_failure :
      (step : Step W) (attempt : ℕ) (metadata : Metadata) (c : Cause)
      → Moves in_step (on_failure env w req step attempt metadata c) turn_phase
  unfolding on_failure
  Moves-on_failure step attempt metadata c =
      Moves-bind (λ _. failed_try) _ _
        (Moves-emit env w req workflow_error attempt _ _ _ metadata refl refl)
        (λ _.
          Moves-bind (λ _. failed_try) _ _ (Moves-silent _ refl (λ s. refl))
            (λ delay. Moves-retry_later attempt metadata delay c))

  Moves-suspend_at :
      (attempt : ℕ) (c : Checkpoint) → Moves ready (Run.suspend_at env w req attempt c) turn_phase
  unfolding Run.suspend_at
  Moves-suspend_at attempt c =
      Moves-bind (λ _. ready) _ _ (Moves-silent _ refl (λ s. refl))
        (λ _.
          Moves-bind (λ _. ready) _ _ (Moves-append_history w _ refl)
            (λ _.
              Moves-bind (λ _. finished) _ _
                (Moves-emit env w req workflow_finished 0 _ _ _ _ refl refl)
                (λ _. record { at = λ s h. h })))

  Moves-finish_run : Moves ready (Run.finish_run env w req) turn_phase
  unfolding Run.finish_run
  Moves-finish_run =
      Moves-bind (λ _. ready) _ _ (Moves-silent _ refl (λ s. refl))
        (λ _.
          Moves-bind (λ _. finished) _ _
            (Moves-emit env w req workflow_finished 0 _ _ _ _ refl refl)
            (λ _. record { at = λ s h. h }))

  Moves-follow :
      (attempt : ℕ) (r : Resolved) → Moves ready (Run.follow env w req attempt r) turn_phase
  unfolding Run.follow
  Moves-follow attempt (refuse e) = record { at = λ s h. rw h refl }
  Moves-follow attempt (suspend c) = Moves-suspend_at attempt c
  Moves-follow attempt finish = Moves-finish_run
  Moves-follow attempt (goto index) =
      Moves-bind (λ _. ready) _ _ (Moves-silent _ refl (λ s. refl)) (λ _. record { at = λ s h. h })

  Moves-on_success :
      (attempt : ℕ) (metadata : Metadata) (result : StepResult)
      → Moves in_step (on_success env w req attempt metadata result) turn_phase
  unfolding on_success
  Moves-on_success attempt metadata result =
      Moves-bind (λ _. in_step) _ _ (Moves-silent _ refl (λ s. refl))
        (λ _.
          Moves-bind (λ _. ready) _ _ (Moves-emit env w req step_ended attempt _ _ _ _ refl refl)
            (λ _.
              Moves-bind (λ _. ready) _ _ (Moves-silent _ refl (λ s. refl))
                (λ _.
                  Moves-bind (λ _. ready) _ _ (Moves-silent _ refl (λ s. refl))
                    (λ resolved. Moves-follow attempt resolved))))

  Moves-after_step :
      (step : Step W) (attempt : ℕ) (metadata : Metadata) (reply : Reply StepResult)
      → Moves in_step (after_step env w req step attempt metadata reply) turn_phase
  Moves-after_step step attempt metadata (Results.ok result) =
      Moves-on_success attempt metadata result
  Moves-after_step step attempt metadata (Results.err c) = Moves-on_failure step attempt metadata c

  delivered-run_step :
      (step : Step W) (attempt : ℕ) (metadata : Metadata) (s : Sim W)
      → (run_step env w req step attempt metadata s).1.delivered ≡ s.delivered
  unfolding run_step
  delivered-run_step step attempt metadata s = refl

  -- A try starts between two steps, or after a failed try.
  abbrev may_start : Phase → Bool
  may_start ready = true
  may_start failed_try = true
  may_start _ = false

  Moves-attempt_step :
      (p : Phase) (step : Step W) (attempt : ℕ)
      → is_open p ≡ true
      → Lifecycle.advance p step_started ≡ in_step
      → Moves p (attempt_step env w req step attempt) turn_phase
  unfolding attempt_step
  Moves-attempt_step p step attempt open' starts =
      Moves-bind (λ _. in_step) _ _ (Moves-emit env w req step_started attempt _ _ _ _ open' starts)
        (λ _.
          Moves-bind (λ _. in_step) _ _ (Moves-silent _ refl (delivered-run_step step attempt _))
            (λ reply. Moves-after_step step attempt _ reply))

  Moves-after_turn :
      (more : Exec W (Option Response)) (turn : Turn)
      → Moves failed_try more answer_phase
      → Moves (turn_phase turn) (Run.after_turn env w req more turn) answer_phase
  unfolding Run.after_turn
  Moves-after_turn more again m = m
  Moves-after_turn more advance m = record { at = λ s h. h }
  Moves-after_turn more (done resp) m = record { at = λ s h. h }

  Moves-attempts :
      (tries : ℕ) (p : Phase) (step : Step W) (attempt : ℕ)
      → is_open p ≡ true
      → Lifecycle.advance p step_started ≡ in_step
      → Moves p (attempts env w req tries step attempt) answer_phase
  unfolding attempts
  Moves-attempts zero p step attempt open' starts = record { at = λ s h. rw h open' }
  Moves-attempts (suc tries) p step attempt open' starts =
      Moves-bind turn_phase _ _ (Moves-attempt_step p step attempt open' starts) (λ turn.
        Moves-after_turn _ turn (Moves-attempts tries failed_try step (attempt + 1) refl refl))

  Moves-check_context : Moves ready (Run.check_context env w req) (λ _. ready)
  unfolding Run.check_context
  Moves-check_context = Moves-silent _ refl (λ s. ground arith)

  Moves-round : (tries : ℕ) (step : Step W) → Moves ready (round env w req tries step) answer_phase
  unfolding round
  Moves-round tries step =
      Moves-bind (λ _. ready) _ _ Moves-check_context
        (λ _.
          Moves-bind (λ _. ready) _ _ (Moves-silent _ refl (λ s. refl))
            (λ _. Moves-attempts tries ready step 1 refl refl))

  Moves-fall_through : Moves ready (fall_through env w req) (λ _. finished)
  unfolding fall_through
  Moves-fall_through =
      Moves-bind (λ _. finished) _ _
        (record {
          at = λ s h. (Moves-emit env w req workflow_finished 0 s.status _ _ _ refl refl).at s h;
        })
        (λ _. record { at = λ s h. h })

  Moves-after_answer :
      (more : Exec W Response) (answer : Option Response)
      → Moves ready more (λ _. finished)
      → Moves (answer_phase answer) (Run.after_answer env w req more answer) (λ _. finished)
  unfolding Run.after_answer
  Moves-after_answer more none m = m
  Moves-after_answer more (some resp) m = record { at = λ s h. h }

  Moves-drive : (fuel tries : ℕ) → Moves ready (drive env w req fuel tries) (λ _. finished)
  unfolding drive
  Moves-drive zero tries = record { at = λ s h. rw h refl }
  Moves-drive (suc fuel) tries = record {
    at = λ s h. elim (Option-cases (get_elem? w.steps s.current_index)) [
      | inl e ↦ rw (e, drive) (Moves-fall_through.at s h)
      | inr (step, e) ↦
          rw (e, drive)
            ((Moves-bind answer_phase _ _ (Moves-round tries step)
                (λ answer. Moves-after_answer _ answer (Moves-drive fuel tries))).at
              s h)
    ];
  }

  pub Moves-body : (fuel tries : ℕ) → Moves initial (body env w req fuel tries) (λ _. finished)
  unfolding body
  Moves-body fuel tries =
      Moves-bind (λ _. ready) _ _ (Moves-emit env w req workflow_started 0 _ _ _ _ refl refl)
        (λ _. Moves-drive fuel tries)

-- How a run may leave the phase. A response comes after the finish and the end; an error leaves
-- neither an event out of order nor a completed end.
abbrev pub may_fail : Phase → Bool
may_fail ended = false
may_fail broken = false
may_fail _ = true

abbrev pub Settled : {W : Type 0} → Outcome Response × Sim W → Type 0
Settled (ok resp, s) = phase s ≡ ended
Settled (err e, s) = may_fail (phase s) ≡ true
Settled (running, s) = is_open (phase s) ≡ true

may_fail_of_open : (p : Phase) → is_open p ≡ true → may_fail p ≡ true
may_fail_of_open p h = ground arith

pub aborted_of_open : (p : Phase) → is_open p ≡ true → Lifecycle.advance p workflow_ended ≡ aborted
aborted_of_open p h = ground arith

module _ {W : Type 0} where
  settle_ok :
      (resp : Response) (p : Phase) (x : Outcome (Unit {0})) (s : Sim W)
      → p ≡ finished
      → Sent p (Lifecycle.advance p workflow_ended) (x, s)
      → Settled (first_error (ok resp) x, s)
  settle_ok resp p (ok _) s e h = rw (h, e) refl
  settle_ok resp p (err _) s e h = rw (h, e) refl
  settle_ok resp p running s e h = absurd h

  settle_err :
      (e : Error) (p : Phase) (x : Outcome (Unit {0})) (s : Sim W)
      → is_open p ≡ true
      → Sent p (Lifecycle.advance p workflow_ended) (x, s)
      → Settled (first_error (err e) x, s)
  settle_err e p (ok _) s open' h = rw (h, aborted_of_open p open') refl
  settle_err e p (err _) s open' h = rw h (may_fail_of_open p open')
  settle_err e p running s open' h = absurd h

module _ {W : Type 0} (env : Env W) (w : Chain W) (req : Request) where
  deferred-Settled :
      (r : Outcome Response) (s : Sim W)
      → Post (λ _. finished) (r, s)
      → Settled (deferred env w req r s)
  unfolding deferred
  deferred-Settled (ok resp) s h =
      settle_ok resp (phase s) _ _ h (Sent-emit env w req workflow_ended 0 _ _ _ _ s)
  deferred-Settled (err e) s h =
      settle_err e (phase s) _ _ h (Sent-emit env w req workflow_ended 0 _ _ _ _ s)
  deferred-Settled running s h = h

  run_normalized-Settled :
      (fuel tries : ℕ) (s : Sim W)
      → s.delivered ≡ []
      → Settled (run_normalized env w req fuel tries s)
  unfolding run_normalized
  run_normalized-Settled fuel tries s h =
      deferred-Settled _ _ ((Moves-body env w req fuel tries).at (started env w req s) (rw h refl))

module _ {W : Type 0} where
  pub delivered-normalize_request :
      (w : Chain W) (req : Request) (s : Sim W)
      → (normalize_request w req s).1.delivered ≡ s.delivered
  unfolding normalize_request new_run_id ◌>>=◌
  delivered-normalize_request w req s = elim (Bool-cases (trim_space req.run_id == "")) [
    | inl e ↦ rw e refl
    | inr e ↦ rw e refl
  ]

  Settled-continue :
      {A : Type 0} (x : Outcome A) (f : A → Exec W Response) (s : Sim W)
      → s.delivered ≡ []
      → ((a : A) → Settled (f a s))
      → Settled (continue x f s)
  Settled-continue (ok a) f s e h = h a
  Settled-continue (err _) f s e h = rw e refl
  Settled-continue running f s e h = rw e refl

  -- From no events, whatever the steps, hooks, sink, clock and context do and whatever the fuel,
  -- the lifecycle events that the hooks have seen are in order: the start, for each try of a step
  -- its start and then its end or an error, at most one finish, and the deferred end last. If a
  -- response is returned, the run was reported finished and then ended; if an error is returned,
  -- it was not reported finished and ended both.
  pub run-Settled :
      (fuel tries : ℕ) (chain : Option (Chain W)) (ctx : Option (Env W)) (req : Request) (s : Sim W)
      → s.delivered ≡ []
      → Settled (run fuel tries chain ctx req s)
  unfolding run ◌>>=◌
  run-Settled fuel tries none ctx req s h = rw h refl
  run-Settled fuel tries (some w) none req s h = rw h refl
  run-Settled fuel tries (some w) (some env) req s h =
      let same : (normalize_request w req s).1.delivered ≡ [] =
        delivered-normalize_request w req s ∙ h in
      Settled-continue (normalize_request w req s).0 _ (normalize_request w req s).1 same
        (λ req'. run_normalized-Settled env w req' fuel tries (normalize_request w req s).1 same)
