-- ===== src/App/Revival.antt =====
-- What `start` of an App makes of the app's state, whatever happens while it runs.
use gall_lib.Common.{◌≡◌, Option, none, some, List, [], inl, inr, Option-cases}
use gall_lib.Common.Results.{Result-cases}
use gall_lib.Common.Dict.{Dict}
use gall_lib.App.{
  Address, Handle, running, stopped, EventType, Error, Ctx, Sim, Env, assign, set_state,
}
use gall_lib.App.Events.{emit_event}
use gall_lib.App.Servers.{Launch, launched, stopping_seen, refused}
use gall_lib.App.Bootstrap.{
  fail_start, roll_back, run_cold_start_hooks, finish_start, after_servers, launch, start,
  materialize_agents, materialize_workflows,
}
use gall_lib.App.Calm.{AreQuietHooks, emit_event-Calm}

module _ {W : Type 0} (env : Env W) (silent : AreQuietHooks env) where
  -- The state that goes with the error that `start` answers.
  abbrev pub Sets : Option Error × Sim W → Type 0
  Sets (none, s) = s.app.state ≡ running
  Sets (some e, s) = s.app.state ≡ stopped

  fail_start-Sets : (e : Error) (s : Sim W) → Sets (fail_start env e s)
  unfolding fail_start
  fail_start-Sets e s =
      (emit_event-Calm env silent EventType.bootstrap_failed (some e) []
        (set_state stopped s)).state

  roll_back-Sets :
      (ctx : Ctx W) (begun : List Address) (e : Error) (s : Sim W)
      → Sets (roll_back env ctx begun e s)
  unfolding roll_back
  roll_back-Sets ctx begun e s = fail_start-Sets _ _

  finish_start-Sets :
      (ctx : Ctx W) (begun : List Address) (s : Sim W) → Sets (finish_start env ctx begun s)
  unfolding finish_start
  finish_start-Sets ctx begun s = elim (Option-cases (run_cold_start_hooks env s).0) [
    | inl e ↦
        rw (e, finish_start)
          (emit_event-Calm env silent EventType.app_started none [] (
            assign (λ a. record a { started_servers = begun; state = running })
              (run_cold_start_hooks env s).1)).state
    | inr (x, e) ↦ rw (e, finish_start) (roll_back-Sets ctx begun x (run_cold_start_hooks env s).1)
  ]

  after_servers-Sets :
      (ctx : Ctx W) (r : Launch × List Address × Sim W) → Sets (after_servers env ctx r)
  after_servers-Sets ctx (launched, begun, s) = finish_start-Sets ctx begun s
  after_servers-Sets ctx (stopping_seen, begun, s) = fail_start-Sets Error.app_is_stopping s
  after_servers-Sets ctx (refused f, begun, s) = roll_back-Sets ctx begun (Error.foreign f) s

  launch-Sets :
      (ctx : Ctx W) (agents workflows : Dict Handle) (s : Sim W)
      → Sets (launch env ctx agents workflows s)
  unfolding launch
  launch-Sets ctx agents workflows s = after_servers-Sets ctx _

  -- If the app's hooks leave the app alone, then start leaves it running if it answers no error
  -- and stopped if it answers one, whatever factories, servers, serverless hooks and other
  -- goroutines did to the app meanwhile, a Shutdown that ended included.
  pub start-Sets : (ctx : Ctx W) (s : Sim W) → Sets (start env ctx s)
  unfolding start
  start-Sets ctx s =
      let s₀ : Sim W = emit_event env EventType.app_starting none [] s in
      let s₁ : Sim W = (materialize_agents env s₀).1 in
      let s₂ : Sim W = (materialize_workflows env s₁).1 in
      elim (Result-cases (materialize_agents env s₀).0) [
        | inl (e, failed) ↦ rw (failed, start) (fail_start-Sets e s₁)
        | inr (agents, made) ↦ elim (Result-cases (materialize_workflows env s₁).0) [
          | inl (e, failed) ↦ rw (made, start, failed, start) (fail_start-Sets e s₂)
          | inr (workflows, made') ↦
              rw (made, start, made', start) (launch-Sets ctx agents workflows s₂)
        ]
      ]
