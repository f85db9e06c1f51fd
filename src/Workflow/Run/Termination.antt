-- ===== src/Workflow/Run/Termination.antt =====
-- A chain whose steps name no next step, under retry policies that give up, always comes to an end.
use gall_lib.Common.{
  ℕ, zero, suc, ◌+◌, ◌<◌, ◌≤◌, ◌≡◌, ◌≢◌, refl, sym, Option, none, some, arith, inl, inr,
  Option-cases, Bool-cases, length, get_elem?, get_elem?-lt, ◌==◌,
}
use gall_lib.Text.{trim_space}
use gall_lib.Types.{pos}
use gall_lib.Workflow.{workflow_ended, Request, Response, Step}
use gall_lib.Workflow.Exec.{Sim, Outcome, ok, err, running, Exec, continue, ◌>>=◌}
use gall_lib.Workflow.Builder.{Chain}
use gall_lib.Workflow.Chain.{Env, new_run_id, effective_retry, normalize_request}
use gall_lib.Workflow.Run
use gall_lib.Workflow.Run.{
  emit, run, Turn, again, advance, done, run_step, on_failure, on_success, after_step, attempt_step,
  attempts, round, drive, fall_through, deferred, body, started, run_normalized, first_error,
}
use gall_lib.Workflow.Run.Total.{Returns, Total, Total-bind, At, Total-emit}
use gall_lib.Workflow.Run.Rounds.{GivesUp, IsLinear, AnswerAt, Total-round}
use gall_lib.Workflow.History.{FixedRetryPolicy, next_delay}

-- The emit of the deferred event ends.
ended :
    {W : Type 0} (p : Sim W → Type 0) (x : Outcome Response) (y : Outcome (Unit {0})) (s s' : Sim W)
    → Returns (λ _. p) (x, s)
    → Returns (λ _. p) (y, s')
    → first_error x y ≢ running
ended p (ok resp) (ok _) s s' h i = λ e. cc
ended p (ok resp) (err e) s s' h i = λ e. cc
ended p (ok resp) running s s' h i = absurd i
ended p (err e) y s s' h i = λ e. cc
ended p running y s s' h i = absurd h

module _ {W : Type 0} (env : Env W) (w : Chain W) (req : Request) (m : ℕ) where
  fall_through-Total : {k : ℕ} → Total (At k) (fall_through env w req) (λ _ s. Unit)
  unfolding fall_through
  fall_through-Total {k} =
      Total-bind (λ _. At k) _ _
        (record { at = λ s h. (Total-emit env w req _ 0 s.status _ _ _).at s h })
        (λ _. record { at = λ s h. tt })

  -- Every step of the chain comes to an end.
  abbrev pub StepsEnd : Type 0
  StepsEnd =
      (k : ℕ) (step : Step W)
      → get_elem? w.steps k ≡ some step
      → GivesUp m (effective_retry w step) × IsLinear step

  Total-after_answer :
      {k : ℕ} (more : Exec W Response) (answer : Option Response)
      → Total (At (suc k)) more (λ _ s. Unit)
      → Total (AnswerAt k answer) (Run.after_answer env w req more answer) (λ _ s. Unit)
  unfolding Run.after_answer
  Total-after_answer more none rest = rest
  Total-after_answer more (some resp) rest = record { at = λ s h. tt }

  Total-drive :
      {k : ℕ} (fuel tries : ℕ)
      → StepsEnd
      → m < tries
      → length w.steps < fuel + k
      → k ≤ length w.steps
      → Total (At k) (drive env w req fuel tries) (λ _ s. Unit)
  unfolding drive
  Total-drive zero tries ends enough more h = absurd (omega arith)
  Total-drive {k} (suc fuel) tries ends enough more h = record {
    at = λ s i. elim (Option-cases (get_elem? w.steps s.current_index)) [
      | inl e ↦ rw (e, drive) (fall_through-Total.at s i)
      | inr (step, e) ↦
          let e' : get_elem? w.steps k ≡ some step = rw (sym i) e in
          let (g, linear) = ends k step e' in
          let below = get_elem?-lt w.steps k e' in
          let rest : Total (At k)
              (round env w req tries step
                >>= Run.after_answer env w req (drive env w req fuel tries))
              (λ _ s. Unit) =
            Total-bind (AnswerAt k) _ _ (Total-round env w req m tries step g linear enough)
              (λ answer.
                Total-after_answer _ answer
                  (Total-drive fuel tries ends enough (omega arith) (omega arith))) in
          rw (e, drive) (rest.at s i)
    ];
  }

  body-Total :
      (fuel tries : ℕ)
      → StepsEnd
      → m < tries
      → length w.steps < fuel
      → Total (At 0) (body env w req fuel tries) (λ _ s. Unit)
  unfolding body
  body-Total fuel tries ends enough more =
      Total-bind (λ _. At 0) _ _ (Total-emit env w req _ 0 _ _ _ _)
        (λ _. Total-drive fuel tries ends enough (omega arith) (omega arith))

  deferred_ends :
      (x : Outcome Response) (s : Sim W)
      → Returns (λ _ s. Unit) (x, s)
      → (deferred env w req x s).0 ≢ running
  unfolding deferred
  deferred_ends (ok resp) s h =
      ended (At s.current_index) (ok resp)
        (emit env w req workflow_ended 0 (Run.end_status (ok resp) s) (Run.the_output env w req)
          none (Run.run_metadata env w req) s).0
        s _ refl
        ((Total-emit env w req workflow_ended 0 (Run.end_status (ok resp) s) _ none _).at s refl)
  deferred_ends (err e) s h = λ e'. cc
  deferred_ends running s h = absurd h

  pub run_normalized_ends :
      (fuel tries : ℕ) (s : Sim W)
      → StepsEnd
      → m < tries
      → length w.steps < fuel
      → (run_normalized env w req fuel tries s).0 ≢ running
  unfolding run_normalized
  run_normalized_ends fuel tries s ends enough more =
      deferred_ends _ _ ((body-Total fuel tries ends enough more).at (started env w req s) refl)

module _ {W : Type 0} (env : Env W) (w : Chain W) (m : ℕ) where
  normalize_ends : (req : Request) (s : Sim W) → (normalize_request w req s).0 ≢ running
  unfolding normalize_request new_run_id ◌>>=◌
  normalize_ends req s = elim (Bool-cases (trim_space req.run_id == "")) [
    | inl e ↦ rw (e, normalize_request) (λ h. cc)
    | inr e ↦ rw (e, normalize_request) (λ h. cc)
  ]

  continue_ends :
      (fuel tries : ℕ) (x : Outcome Request) (s : Sim W)
      → ((k : ℕ) (step : Step W)
          → get_elem? w.steps k ≡ some step
          → GivesUp m (effective_retry w step) × IsLinear step)
      → m < tries
      → length w.steps < fuel
      → x ≢ running
      → (continue x (λ req. run_normalized env w req fuel tries) s).0 ≢ running
  continue_ends fuel tries (ok req) s ends enough more h =
      run_normalized_ends env w req m fuel tries s ends enough more
  continue_ends fuel tries (err e) s ends enough more h = λ e'. cc
  continue_ends fuel tries running s ends enough more h = absurd (h refl)

  -- If every step of the chain has a retry policy that gives up after m retries (or none), and no
  -- result of a step names a next step, then a run whose fuel exceeds the number of steps, with
  -- more than m tries for each step, comes to an end: it returns a response or an error and does
  -- not stop for want of fuel.
  pub run_ends :
      (fuel tries : ℕ) (req : Request) (s : Sim W)
      → ((k : ℕ) (step : Step W)
          → get_elem? w.steps k ≡ some step
          → GivesUp m (effective_retry w step) × IsLinear step)
      → m < tries
      → length w.steps < fuel
      → (run fuel tries (some w) (some env) req s).0 ≢ running
  unfolding run ◌>>=◌
  run_ends fuel tries req s ends enough more =
      continue_ends fuel tries _ _ ends enough more (normalize_ends req s)

module _ {W : Type 0} where
  -- A fixed retry policy whose bound is n retries, n not negative, allows no further try after a
  -- failed try whose number is above n.
  pub next_delay-GivesUp :
      (p : FixedRetryPolicy) (n : ℕ)
      → p.max_retries ≡ pos n
      → GivesUp {W = W} n (some (λ attempt c world. next_delay p attempt c))
  unfolding next_delay
  next_delay-GivesUp p n e attempt c world h = ground arith
