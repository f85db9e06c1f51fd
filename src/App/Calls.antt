-- ===== src/App/Calls.antt =====
-- Any calls of the methods of an App, one after another.
use gall_lib.Common.{ℕ, suc, ◌≡◌, refl, ap, Option, none, some, List, [], ◌∷◌}
use gall_lib.Common.Results.{Result, ok, err, ◌>>◌}
use gall_lib.Text.{trim_space}
use gall_lib.App.{Handle, Factory, Error, Target, App, Ctx, Sim, Env, assign}
use gall_lib.App.Registration.{
  check_ready, check_factory, register_ready_agent, register_agent_factory, register_ready_workflow,
  register_workflow_factory,
}
use gall_lib.App.Lifecycle.{ensure_started, shutdown, run, invoke}
use gall_lib.App.Calm.{open_servers, Same, Calm}
use gall_lib.App.History.{IsSettled, IsSettled-Calm}

-- A call of a public method that can change the app. A nil context is `none`.
pub data Call (W : Type 0) : Type 0 where
  start_call run_call shutdown_call : Option (Ctx W) → Call W
  invoke_call : Option (Ctx W) → Target → Option (Ctx W → Sim W → Option Error × Sim W) → Call W
  register_agent register_workflow : Option Handle → Call W
  register_agent_maker register_workflow_maker : Option Factory → Call W

module _ {W : Type 0} where
  abbrev pub registered : Sim W → Result Error App → Sim W
  registered s (err e) = s
  registered s (ok a) = assign (λ _. a) s

  -- The state after a call; a caller that has to wait gets `suc fuel` turns.
  unfoldable pub call : Env W → ℕ → Call W → Sim W → Sim W
  call env fuel (start_call ctx) s = (ensure_started env (suc fuel) ctx s).1
  call env fuel (run_call ctx) s = (run env (suc fuel) ctx s).1
  call env fuel (shutdown_call ctx) s = (shutdown env ctx s).1
  call env fuel (invoke_call ctx target body) s = (invoke env (suc fuel) ctx target body s).1
  call env fuel (register_agent h) s = registered s (register_ready_agent h s.app)
  call env fuel (register_workflow h) s = registered s (register_ready_workflow h s.app)
  call env fuel (register_agent_maker f) s = registered s (register_agent_factory f s.app)
  call env fuel (register_workflow_maker f) s = registered s (register_workflow_factory f s.app)

  unfoldable pub calls : Env W → ℕ → List (Call W) → Sim W → Sim W
  calls env fuel [] s = s
  calls env fuel (c ∷ cs) s = calls env fuel cs (call env fuel c s)

  -- The function that Invoke is given leaves the app alone.
  abbrev pub IsQuietCall : Call W → Type 0
  IsQuietCall (invoke_call ctx target (some body)) = (c : Ctx W) (s : Sim W) → Same s (body c s).1
  IsQuietCall _ = Unit

  abbrev pub AreQuiet : List (Call W) → Type 0
  AreQuiet [] = Unit
  AreQuiet (c ∷ cs) = IsQuietCall c × AreQuiet cs

  -- A registration leaves the lifecycle and the servers.
  abbrev pub Keeps : Sim W → Result Error App → Type 0
  Keeps s (err e) = Unit
  Keeps s (ok a) = Calm s (assign (λ _. a) s)

  Keeps-then :
      (s : Sim W) (check : Result Error (Unit {0})) (a : App)
      → Calm s (assign (λ _. a) s)
      → Keeps s (check >> ok a)
  Keeps-then s (err e) a c = tt
  Keeps-then s (ok u) a c = c

  pub registered-IsSettled :
      (s : Sim W) (r : Result Error App) → Keeps s r → IsSettled s → IsSettled (registered s r)
  registered-IsSettled s (err e) k h = h
  registered-IsSettled s (ok a) k h = IsSettled-Calm k h

  kept :
      {s s' : Sim W}
      → s'.app.state ≡ s.app.state
      → s'.app.servers ≡ s.app.servers
      → s'.app.started_servers ≡ s.app.started_servers
      → s'.trace ≡ s.trace
      → Calm s s'
  kept state servers begun trace = record {
    state = state;
    servers = servers;
    begun = begun;
    running = ap open_servers trace;
  }

  pub register_ready_agent-Keeps :
      (h : Option Handle) (s : Sim W) → Keeps s (register_ready_agent h s.app)
  unfolding register_ready_agent
  register_ready_agent-Keeps none s = tt
  register_ready_agent-Keeps (some h) s =
      Keeps-then s (check_ready s.app.state (trim_space h.name) s.app.ready_agents _ _) _
        (kept refl refl refl refl)

  pub register_ready_workflow-Keeps :
      (h : Option Handle) (s : Sim W) → Keeps s (register_ready_workflow h s.app)
  unfolding register_ready_workflow
  register_ready_workflow-Keeps none s = tt
  register_ready_workflow-Keeps (some h) s =
      Keeps-then s (check_ready s.app.state (trim_space h.name) s.app.ready_workflows _ _) _
        (kept refl refl refl refl)

  pub register_agent_factory-Keeps :
      (f : Option Factory) (s : Sim W) → Keeps s (register_agent_factory f s.app)
  unfolding register_agent_factory
  register_agent_factory-Keeps none s = tt
  register_agent_factory-Keeps (some f) s =
      Keeps-then s (check_factory s.app.state (trim_space f.name) s.app.agent_factories _ _) _
        (kept refl refl refl refl)

  pub register_workflow_factory-Keeps :
      (f : Option Factory) (s : Sim W) → Keeps s (register_workflow_factory f s.app)
  unfolding register_workflow_factory
  register_workflow_factory-Keeps none s = tt
  register_workflow_factory-Keeps (some f) s =
      Keeps-then s (check_factory s.app.state (trim_space f.name) s.app.workflow_factories _ _) _
        (kept refl refl refl refl)
