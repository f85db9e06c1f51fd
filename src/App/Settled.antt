-- ===== src/App/Settled.antt =====
-- After any calls of its methods, one after another, an App is settled.
use gall_lib.Common.{ℕ, suc, refl, Option, none, some, List, [], ◌∷◌, inl, inr}
use gall_lib.Common.Results.{Result, ok, err, Result-cases}
use gall_lib.Context.{Fault}
use gall_lib.App.{Address, Error, Target, Action, Ctx, Sim, Env, note}
use gall_lib.App.Lifecycle.{
  Answer, waiting, returned, ensure_started, shutdown, after_shutdown, run_on, run,
  run_shutdown_context, start_hooks, done_hooks, run_target, invoke_on, invoke,
}
use gall_lib.App.Calm.{
  open_servers, Same, Calm, Calm-refl, Calm-trans, Calm-of_same, Quiet, Calm-note,
}
use gall_lib.App.History.{
  IsSettled, IsDone, Tells, IsSettled-Calm, ensure_started-Tells, shutdown-IsSettled,
}
use gall_lib.App.Calls.{
  Call, start_call, run_call, shutdown_call, invoke_call, register_agent, register_workflow,
  register_agent_maker, register_workflow_maker, call, calls, IsQuietCall, AreQuiet,
  registered-IsSettled, register_ready_agent-Keeps, register_ready_workflow-Keeps,
  register_agent_factory-Keeps, register_workflow_factory-Keeps,
}

module _ {W : Type 0} (env : Env W) (quiet : Quiet env) where
  after_shutdown-IsDone :
      (ctx : Ctx W) (r : Option Error × Sim W) → IsSettled r.1 → IsDone (after_shutdown env ctx r)
  after_shutdown-IsDone ctx (some e, s) h = h
  after_shutdown-IsDone ctx (none, s) h = h

  run_on-IsDone : (ctx : Ctx W) (r : Answer × Sim W) → Tells r → IsDone (run_on env ctx r)
  run_on-IsDone ctx (waiting, s) t = elim t [ ]
  run_on-IsDone ctx (returned (some e), s) t = t.0
  run_on-IsDone ctx (returned none, s) t =
      let s' : Sim W = env.until_done ctx s in
      let settled = IsSettled-Calm (Calm-of_same (quiet.until_done ctx s)) t.0 in
      let ctx' : Ctx W = run_shutdown_context env s'.app.defaults.shutdown_timeout s'.world in
      after_shutdown-IsDone ctx (shutdown env (some ctx') s')
        (shutdown-IsSettled env quiet ctx' s' settled).0

  start_hooks-Calm :
      (hooks : List (Option Address)) (target : Target) (ctx : Ctx W) (s : Sim W)
      → Calm s (start_hooks env hooks target ctx s).1
  unfolding start_hooks open_servers
  start_hooks-Calm [] target ctx s = Calm-refl s
  start_hooks-Calm (none ∷ hooks) target ctx s = start_hooks-Calm hooks target ctx s
  start_hooks-Calm (some h ∷ hooks) target ctx s =
      let a : Action = Action.invoke_started h target in
      let r : Result Fault (Ctx W) × Sim W = env.on_invoke_start h target ctx (note a s) in
      let here : Calm s r.1 =
        Calm-note a {s = s} refl (quiet.on_invoke_start h target ctx (note a s)) in
      elim (Result-cases r.0) [
        | inl (f, e) ↦ rw (e, start_hooks) here
        | inr (next, e) ↦
            rw (e, start_hooks) (Calm-trans here (start_hooks-Calm hooks target next r.1))
      ]

  done_hooks-Calm :
      (hooks : List (Option Address)) (target : Target) (e : Option Error) (s : Sim W)
      → Calm s (done_hooks env hooks target e s)
  unfolding done_hooks open_servers
  done_hooks-Calm [] target e s = Calm-refl s
  done_hooks-Calm (none ∷ hooks) target e s = done_hooks-Calm hooks target e s
  done_hooks-Calm (some h ∷ hooks) target e s =
      let a : Action = Action.invoke_done h target in
      Calm-trans (Calm-note a {s = s} refl (quiet.on_invoke_done h target e (note a s)))
        (done_hooks-Calm hooks target e (env.on_invoke_done h target e (note a s)))

  run_target-Calm :
      (body : Ctx W → Sim W → Option Error × Sim W)
      → ((c : Ctx W) (s : Sim W) → Same s (body c s).1)
      → (r : Result Fault (Ctx W) × Sim W) → Calm r.1 (run_target env body r).1
  run_target-Calm body same (err f, s) = Calm-refl s
  run_target-Calm body same (ok ctx, s) = Calm-of_same (same ctx s)

  invoke_on-IsDone :
      (ctx : Ctx W) (target : Target) (body : Ctx W → Sim W → Option Error × Sim W)
      → ((c : Ctx W) (s : Sim W) → Same s (body c s).1)
      → (r : Answer × Sim W) → Tells r
      → IsDone (invoke_on env ctx target body r)
  invoke_on-IsDone ctx target body same (waiting, s) t = elim t [ ]
  invoke_on-IsDone ctx target body same (returned (some e), s) t = t.0
  invoke_on-IsDone ctx target body same (returned none, s) t =
      let hooks = s.app.serverless_hooks in
      let begun : Result Fault (Ctx W) × Sim W = start_hooks env hooks target ctx s in
      let ran : Option Error × Sim W = run_target env body begun in
      IsSettled-Calm
        (Calm-trans (start_hooks-Calm hooks target ctx s)
          (Calm-trans (run_target-Calm body same begun) (done_hooks-Calm hooks target ran.0 ran.1)))
        t.0

  IsSettled-of_IsDone : (r : Answer × Sim W) → IsDone r → IsSettled r.1
  IsSettled-of_IsDone (waiting, s) d = elim d [ ]
  IsSettled-of_IsDone (returned e, s) d = d

  IsSettled-of_Tells : (r : Answer × Sim W) → Tells r → IsSettled r.1
  IsSettled-of_Tells (waiting, s) t = elim t [ ]
  IsSettled-of_Tells (returned e, s) t = t.0

  pub call-IsSettled :
      (fuel : ℕ) (c : Call W) (s : Sim W)
      → IsQuietCall c
      → IsSettled s
      → IsSettled (call env fuel c s)
  unfolding call ensure_started run shutdown invoke
  call-IsSettled fuel (start_call none) s q h = h
  call-IsSettled fuel (start_call (some ctx)) s q h =
      IsSettled-of_Tells (ensure_started env (suc fuel) (some ctx) s)
        (ensure_started-Tells env quiet fuel ctx s h)
  call-IsSettled fuel (run_call none) s q h = h
  call-IsSettled fuel (run_call (some ctx)) s q h =
      IsSettled-of_IsDone _ (run_on-IsDone ctx _ (ensure_started-Tells env quiet fuel ctx s h))
  call-IsSettled fuel (shutdown_call none) s q h = h
  call-IsSettled fuel (shutdown_call (some ctx)) s q h = (shutdown-IsSettled env quiet ctx s h).0
  call-IsSettled fuel (invoke_call none target body) s q h = h
  call-IsSettled fuel (invoke_call (some ctx) target none) s q h = h
  call-IsSettled fuel (invoke_call (some ctx) target (some body)) s q h =
      IsSettled-of_IsDone _
        (invoke_on-IsDone ctx target body q _ (ensure_started-Tells env quiet fuel ctx s h))
  call-IsSettled fuel (register_agent x) s q h =
      registered-IsSettled s _ (register_ready_agent-Keeps x s) h
  call-IsSettled fuel (register_workflow x) s q h =
      registered-IsSettled s _ (register_ready_workflow-Keeps x s) h
  call-IsSettled fuel (register_agent_maker x) s q h =
      registered-IsSettled s _ (register_agent_factory-Keeps x s) h
  call-IsSettled fuel (register_workflow_maker x) s q h =
      registered-IsSettled s _ (register_workflow_factory-Keeps x s) h

  pub calls-IsSettled :
      (fuel : ℕ) (cs : List (Call W)) (s : Sim W)
      → AreQuiet cs
      → IsSettled s
      → IsSettled (calls env fuel cs s)
  unfolding calls
  calls-IsSettled fuel [] s q h = h
  calls-IsSettled fuel (c ∷ cs) s q h =
      calls-IsSettled fuel cs (call env fuel c s) q.1 (call-IsSettled fuel c s q.0 h)
