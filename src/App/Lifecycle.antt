-- ===== src/App/Lifecycle.antt =====
-- EnsureStarted, Run, Shutdown and Invoke of an App. Each stretch of code under the lock is one
-- step; what happens between two of them is the matter of the `Env`.
use gall_lib.Common.{ℕ, zero, suc, Bool, true, false, Option, none, some, List, [], ◌∷◌}
use gall_lib.Common.Results.{Result, ok, err}
use gall_lib.Context.{Fault}
use gall_lib.App.{
  Address, State, created, starting, running, stopping, stopped, EventType, Error, Invalid, Target,
  Action, Ctx, Sim, Env, note, assign, set_state, with_timeout,
}
use gall_lib.Types.{ℤ, pos, negsuc}
use gall_lib.App.Events.{emit_event, shutdown_context}
use gall_lib.App.Servers.{ended, shut_down_all}
use gall_lib.App.Bootstrap.{start}

-- What a call answers: nothing yet, if the fuel ended while the caller was still waiting.
pub data Answer : Type 0 where
  waiting : Answer
  returned : Option Error → Answer

abbrev pub background : {W : Type 0} → Ctx W
background = record { err = λ w. none; deadline = none }

module _ {W : Type 0} (env : Env W) where
  -- The case of an app that was created: `start`, and the error that it ends with.
  unfoldable pub first_start : Ctx W → Sim W → Answer × Sim W
  first_start ctx s =
      let (error, s') = start env ctx (set_state starting s) in
      (returned error, assign (λ a. record a { start_err = error }) s')

  abbrev pub or_stopped : Option Error → Option Error
  or_stopped none = some Error.app_stopped
  or_stopped (some e) = some e

  -- After the wait: the caller's context has ended, or the start has and the loop goes on.
  abbrev pub after_wait : Ctx W → (Sim W → Answer × Sim W) → Bool × Sim W → Answer × Sim W
  after_wait ctx again (true, s) = again s
  after_wait ctx again (false, s) = (returned (ended (ctx.err s.world) none), s)

  -- One turn of the loop in EnsureStarted.
  abbrev pub turn : Ctx W → (Sim W → Answer × Sim W) → State → Sim W → Answer × Sim W
  turn ctx again running s = (returned none, s)
  turn ctx again starting s = after_wait ctx again (env.wait s)
  turn ctx again created s = first_start ctx s
  turn ctx again stopping s = (returned (some Error.app_is_stopping), s)
  turn ctx again stopped s = (returned (or_stopped s.app.start_err), s)

  -- The loop on fuel: a turn that waits in vain uses one.
  unfoldable pub ensure_loop : ℕ → Ctx W → Sim W → Answer × Sim W
  ensure_loop zero ctx s = (waiting, s)
  ensure_loop (suc fuel) ctx s = turn ctx (ensure_loop fuel ctx) s.app.state s

  abbrev pub no_context : Error
  no_context = Error.invalid_config Invalid.context_required

  unfoldable pub ensure_started : ℕ → Option (Ctx W) → Sim W → Answer × Sim W
  unfolding ensure_loop
  ensure_started fuel none s = (returned (some no_context), s)
  ensure_started fuel (some ctx) s = ensure_loop fuel ctx s

  -- Start
  abbrev pub start_app : ℕ → Option (Ctx W) → Sim W → Answer × Sim W
  start_app = ensure_started

  -- The shutdown of an app that is starting or running.
  unfoldable pub shut_down : Ctx W → Sim W → Option Error × Sim W
  shut_down ctx s =
      let servers = s.app.started_servers in
      let s₁ = emit_event env EventType.app_stopping_event none [] (set_state stopping s) in
      let (error, s₂) = shut_down_all env (shutdown_context env ctx s₁) servers s₁ in
      (
        error,
        emit_event env EventType.app_stopped_event error []
            (assign (λ a. record a { state = stopped; started_servers = [] }) s₂),
      )

  abbrev pub shutdown_in : Ctx W → State → Sim W → Option Error × Sim W
  shutdown_in ctx stopped s = (none, s)
  shutdown_in ctx created s = (none, set_state stopped s)
  shutdown_in ctx stopping s = (none, s)
  shutdown_in ctx starting s = shut_down ctx s
  shutdown_in ctx running s = shut_down ctx s

  unfoldable pub shutdown : Option (Ctx W) → Sim W → Option Error × Sim W
  shutdown none s = (some no_context, s)
  shutdown (some ctx) s = shutdown_in ctx s.app.state s

  -- The context of the shutdown that ends Run.
  abbrev pub run_shutdown_context : ℤ → W → Ctx W
  run_shutdown_context (negsuc n) world = background
  run_shutdown_context (pos zero) world = background
  run_shutdown_context (pos (suc n)) world = with_timeout env.clock (suc n) background world

  abbrev pub after_shutdown : Ctx W → Option Error × Sim W → Answer × Sim W
  after_shutdown ctx (some e, s) = (returned (some e), s)
  after_shutdown ctx (none, s) = (returned (ended (ctx.err s.world) none), s)

  abbrev pub run_on : Ctx W → Answer × Sim W → Answer × Sim W
  run_on ctx (waiting, s) = (waiting, s)
  run_on ctx (returned (some e), s) = (returned (some e), s)
  run_on ctx (returned none, s) =
      let s' = env.until_done ctx s in
      after_shutdown ctx
        (shutdown (some (run_shutdown_context s'.app.defaults.shutdown_timeout s'.world)) s')

  unfoldable pub run : ℕ → Option (Ctx W) → Sim W → Answer × Sim W
  run fuel none s = (returned (some no_context), s)
  run fuel (some ctx) s = run_on ctx (ensure_started fuel (some ctx) s)

  -- OnInvokeStart of each hook; the first error ends the loop.
  unfoldable pub start_hooks :
      List (Option Address) → Target → Ctx W → Sim W → Result Fault (Ctx W) × Sim W
  start_hooks [] target ctx s = (ok ctx, s)
  start_hooks (none ∷ hooks) target ctx s = start_hooks hooks target ctx s
  start_hooks (some h ∷ hooks) target ctx s =
      let (answer, s') =
        env.on_invoke_start h target ctx (note (Action.invoke_started h target) s) in
      elim answer [ err f ↦ (err f, s') | ok next ↦ start_hooks hooks target next s' ]

  -- The deferred calls of OnInvokeDone.
  unfoldable pub done_hooks : List (Option Address) → Target → Option Error → Sim W → Sim W
  done_hooks [] target error s = s
  done_hooks (none ∷ hooks) target error s = done_hooks hooks target error s
  done_hooks (some h ∷ hooks) target error s =
      done_hooks hooks target error
        (env.on_invoke_done h target error (note (Action.invoke_done h target) s))

  abbrev pub run_target :
      (Ctx W → Sim W → Option Error × Sim W) → Result Fault (Ctx W) × Sim W → Option Error × Sim W
  run_target body (err f, s) = (some (Error.foreign f), s)
  run_target body (ok ctx, s) = body ctx s

  abbrev pub deferred : List (Option Address) → Target → Option Error × Sim W → Answer × Sim W
  deferred hooks target (error, s) = (returned error, done_hooks hooks target error s)

  abbrev pub invoke_on :
      Ctx W → Target → (Ctx W → Sim W → Option Error × Sim W) → Answer × Sim W → Answer × Sim W
  invoke_on ctx target body (waiting, s) = (waiting, s)
  invoke_on ctx target body (returned (some e), s) = (returned (some e), s)
  invoke_on ctx target body (returned none, s) =
      deferred s.app.serverless_hooks target
        (run_target body (start_hooks s.app.serverless_hooks target ctx s))

  unfoldable pub invoke :
      ℕ
      → Option (Ctx W)
      → Target
      → Option (Ctx W → Sim W → Option Error × Sim W)
      → Sim W
      → Answer × Sim W
  invoke fuel none target body s = (returned (some no_context), s)
  invoke fuel (some ctx) target none s = (returned (some (Error.invalid_config Invalid.run_nil)), s)
  invoke fuel (some ctx) target (some body) s =
      invoke_on ctx target body (ensure_started fuel (some ctx) s)
