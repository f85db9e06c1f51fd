-- ===== src/App/Calm.antt =====
-- An environment that leaves the app alone, and the parts of the app's code that then change
-- neither its lifecycle nor its servers.
use gall_lib.Common.{
  ◌≡◌, refl, ◌∙◌, ap, String, Bool, true, false, Option, none, some, List, [], ◌∷◌, eqb,
  if◌then◌else◌, inl, inr, Option-cases,
}
use gall_lib.Common.Dict.{Dict}
use gall_lib.Common.Results.{Result, Result-cases}
use gall_lib.Context.{Fault}
use gall_lib.Types.{Metadata}
use gall_lib.App.{
  Address, Handle, Factory, AgentDefaults, WorkflowDefaults, EventType, Event, Error, Target,
  Action, Ctx, Sim, Env, note, assign,
}
use gall_lib.App.Registration.{Descriptor, list_agents, list_workflows}
use gall_lib.App.Events.{call_hooks, emit_event, clone_app_event, after_hook, app_event, level_of}
use gall_lib.App.Bootstrap.{
  built, sorted_factories, shared_name, build_all, materialize, materialize_agents,
  materialize_workflows, cold_start_loop, unless_started, run_cold_start_hooks, emit_agents,
  emit_workflows, announce,
}

-- A shutdown of the server that was started last and still runs; any other leaves the stack.
abbrev pub close : Address → List Address → List Address
close a [] = []
close a (b ∷ begun) = if eqb b a then begun else b ∷ begun

-- The servers that run after the calls of a trace, the last one first.
unfoldable pub open_servers : List Action → List Address
open_servers [] = []
open_servers (Action.server_started a ∷ trace) = a ∷ open_servers trace
open_servers (Action.server_stopped a ∷ trace) = close a (open_servers trace)
open_servers (Action.server_failed a ∷ trace) = open_servers trace
open_servers (Action.logged l t ∷ trace) = open_servers trace
open_servers (Action.delivered h e ∷ trace) = open_servers trace
open_servers (Action.hook_panicked t ∷ trace) = open_servers trace
open_servers (Action.agent_built a ∷ trace) = open_servers trace
open_servers (Action.workflow_built a ∷ trace) = open_servers trace
open_servers (Action.cold_start a ∷ trace) = open_servers trace
open_servers (Action.invoke_started a t ∷ trace) = open_servers trace
open_servers (Action.invoke_done a t ∷ trace) = open_servers trace

module _ {W : Type 0} where
  -- The second state has the app and the trace of the first.
  pub record Same (s s' : Sim W) : Type 0 where
    pub app : s'.app ≡ s.app
    pub trace : s'.trace ≡ s.trace

  -- The lifecycle, the servers and those that run are as they were.
  pub record Calm (s s' : Sim W) : Type 0 where
    pub state : s'.app.state ≡ s.app.state
    pub servers : s'.app.servers ≡ s.app.servers
    pub begun : s'.app.started_servers ≡ s.app.started_servers
    pub running : open_servers s'.trace ≡ open_servers s.trace

  pub Calm-refl : (s : Sim W) → Calm s s
  Calm-refl s = record { state = refl; servers = refl; begun = refl; running = refl }

  pub Calm-trans : {a b c : Sim W} → Calm a b → Calm b c → Calm a c
  Calm-trans p q = record {
    state = q.state ∙ p.state;
    servers = q.servers ∙ p.servers;
    begun = q.begun ∙ p.begun;
    running = q.running ∙ p.running;
  }

  pub Calm-of_same : {s s' : Sim W} → Same s s' → Calm s s'
  Calm-of_same k = record {
    state = ap (λ a. a.state) k.app;
    servers = ap (λ a. a.servers) k.app;
    begun = ap (λ a. a.started_servers) k.app;
    running = ap open_servers k.trace;
  }

-- Other code leaves the app alone: its answers are free, and so is what it does to the world.
pub record Quiet {W : Type 0} (env : Env W) : Type 0 where
  pub on_event : (h : Address) (e : Event) (s : Sim W) → Same s (env.on_event h e s).1
  pub build_agent : (a : Address) (d : AgentDefaults) (s : Sim W) → Same s (env.build_agent a d s).1
  pub build_workflow :
      (a : Address) (d : WorkflowDefaults) (s : Sim W) → Same s (env.build_workflow a d s).1
  pub start_server : (a : Address) (c : Ctx W) (s : Sim W) → Same s (env.start_server a c s).1
  pub shutdown_server : (a : Address) (c : Ctx W) (s : Sim W) → Same s (env.shutdown_server a c s).1
  pub on_cold_start : (h : Address) (s : Sim W) → Same s (env.on_cold_start h s).1
  pub on_invoke_start :
      (h : Address) (t : Target) (c : Ctx W) (s : Sim W) → Same s (env.on_invoke_start h t c s).1
  pub on_invoke_done :
      (h : Address) (t : Target) (e : Option Error) (s : Sim W)
      → Same s (env.on_invoke_done h t e s)
  pub until_done : (c : Ctx W) (s : Sim W) → Same s (env.until_done c s)

module _ {W : Type 0} where
  build_all-Calm :
      (build : Factory → Sim W → Result Fault (Option Handle) × Sim W)
      (calm : (f : Factory) (s : Sim W) → Calm s (build f s).1) (duplicate : String → Error)
      (factories : List (String × Factory)) (out : Dict Handle) (s : Sim W)
      → Calm s (build_all build duplicate factories out s).1
  unfolding build_all
  build_all-Calm build calm duplicate [] out s = Calm-refl s
  build_all-Calm build calm duplicate ((name, f) ∷ factories) out s =
      elim (Result-cases (built name duplicate (build f s).0 out)) [
        | inl (x, e) ↦ rw (e, build_all) (calm f s)
        | inr (more, e) ↦
            rw (e, build_all)
              (Calm-trans (calm f s)
                (build_all-Calm build calm duplicate factories more (build f s).1))
      ]

  materialize-Calm :
      (build : Factory → Sim W → Result Fault (Option Handle) × Sim W)
      (calm : (f : Factory) (s : Sim W) → Calm s (build f s).1) (duplicate : String → Error)
      (ready : Dict Handle) (factories : Dict Factory) (s : Sim W)
      → Calm s (materialize build duplicate ready factories s).1
  unfolding materialize
  materialize-Calm build calm duplicate ready factories s =
      elim (Option-cases (shared_name ready factories)) [
        | inl e ↦
            rw (e, materialize)
              (build_all-Calm build calm duplicate (sorted_factories factories) ready s)
        | inr (x, e) ↦ rw (e, materialize) (Calm-refl s)
      ]

module _ {W : Type 0} where
  -- A call that starts or stops no server.
  pub Calm-note :
      (a : Action) {s s' : Sim W}
      → open_servers (a ∷ s.trace) ≡ open_servers s.trace
      → Same (note a s) s'
      → Calm s s'
  Calm-note a silent k = record {
    state = ap (λ a. a.state) k.app;
    servers = ap (λ a. a.servers) k.app;
    begun = ap (λ a. a.started_servers) k.app;
    running = ap open_servers k.trace ∙ silent;
  }

-- App hooks that leave the app alone.
abbrev pub AreQuietHooks : {W : Type 0} → Env W → Type 0
AreQuietHooks {W} env = (h : Address) (e : Event) (s : Sim W) → Same s (env.on_event h e s).1

module _ {W : Type 0} (env : Env W) (silent : AreQuietHooks env) where
  after_hook-Calm :
      (type : EventType) (r : Bool × Sim W) {s : Sim W}
      → Calm s r.1
      → Calm s (after_hook env type r)
  unfolding open_servers
  after_hook-Calm type (true, s') c =
      Calm-trans c (record { state = refl; servers = refl; begun = refl; running = refl })
  after_hook-Calm type (false, s') c = c

  call_hooks-Calm :
      (hooks : List (Option Address)) (e : Event) (s : Sim W) → Calm s (call_hooks env hooks e s)
  unfolding call_hooks open_servers
  call_hooks-Calm [] e s = Calm-refl s
  call_hooks-Calm (none ∷ hooks) e s = call_hooks-Calm hooks e s
  call_hooks-Calm (some h ∷ hooks) e s =
      let call : Action = Action.delivered h (clone_app_event e) in
      let answer : Bool × Sim W = env.on_event h (clone_app_event e) (note call s) in
      Calm-trans
        (after_hook-Calm e.type answer {s = s}
          (Calm-note call {s = s} refl (silent h (clone_app_event e) (note call s))))
        (call_hooks-Calm hooks e (after_hook env e.type answer))

  pub emit_event-Calm :
      (type : EventType) (error : Option Error) (extra : Metadata) (s : Sim W)
      → Calm s (emit_event env type error extra s)
  unfolding emit_event open_servers
  emit_event-Calm type error extra s =
      Calm-trans
        (Calm-note (Action.logged (level_of type) type) {s = s} refl
          (record { app = refl; trace = refl }))
        (call_hooks-Calm s.app.hooks (app_event s.app type error extra)
          (note (Action.logged (level_of type) type) s))

module _ {W : Type 0} (env : Env W) (quiet : Quiet env) where
  pub materialize_agents-Calm : (s : Sim W) → Calm s (materialize_agents env s).1
  unfolding materialize_agents open_servers
  materialize_agents-Calm s =
      materialize-Calm _
        (λ f s. Calm-note (Action.agent_built f.address) {s = s} refl (quiet.build_agent _ _ _)) _ _
        _ s

  pub materialize_workflows-Calm : (s : Sim W) → Calm s (materialize_workflows env s).1
  unfolding materialize_workflows open_servers
  materialize_workflows-Calm s =
      materialize-Calm _
        (λ f s.
          Calm-note (Action.workflow_built f.address) {s = s} refl (quiet.build_workflow _ _ _))
        _ _ _ s

  cold_start_loop-Calm :
      (hooks : List (Option Address)) (s : Sim W) → Calm s (cold_start_loop env hooks s).1
  unfolding cold_start_loop open_servers
  cold_start_loop-Calm [] s = Calm-refl s
  cold_start_loop-Calm (none ∷ hooks) s = cold_start_loop-Calm hooks s
  cold_start_loop-Calm (some h ∷ hooks) s =
      let call : Action = Action.cold_start h in
      let answer : Option Fault × Sim W = env.on_cold_start h (note call s) in
      let here : Calm s answer.1 =
        Calm-note call {s = s} refl (quiet.on_cold_start h (note call s)) in
      elim (Option-cases answer.0) [
        | inl e ↦ rw (e, cold_start_loop) (Calm-trans here (cold_start_loop-Calm hooks answer.1))
        | inr (x, e) ↦
            rw (e, cold_start_loop)
              (Calm-trans here
                (record { state = refl; servers = refl; begun = refl; running = refl }))
      ]

  unless_started-Calm : (b : Bool) (s : Sim W) → Calm s (unless_started env b s).1
  unless_started-Calm true s = Calm-refl s
  unless_started-Calm false s =
      Calm-trans (record { state = refl; servers = refl; begun = refl; running = refl })
        (cold_start_loop-Calm s.app.serverless_hooks
          (assign (λ a. record a { cold_started = true }) s))

  pub run_cold_start_hooks-Calm : (s : Sim W) → Calm s (run_cold_start_hooks env s).1
  unfolding run_cold_start_hooks
  run_cold_start_hooks-Calm s = unless_started-Calm s.app.cold_started s

  emit_agents-Calm : (ds : List Descriptor) (s : Sim W) → Calm s (emit_agents env ds s)
  unfolding emit_agents
  emit_agents-Calm [] s = Calm-refl s
  emit_agents-Calm (d ∷ ds) s =
      Calm-trans (emit_event-Calm env quiet.on_event EventType.agent_registered none _ s)
        (emit_agents-Calm ds _)

  emit_workflows-Calm : (ds : List Descriptor) (s : Sim W) → Calm s (emit_workflows env ds s)
  unfolding emit_workflows
  emit_workflows-Calm [] s = Calm-refl s
  emit_workflows-Calm (d ∷ ds) s =
      Calm-trans (emit_event-Calm env quiet.on_event EventType.workflow_registered none _ s)
        (emit_workflows-Calm ds _)

  pub announce-Calm : (s : Sim W) → Calm s (announce env s)
  unfolding announce
  announce-Calm s =
      let s' : Sim W = emit_agents env (list_agents s.app) s in
      Calm-trans (emit_agents-Calm (list_agents s.app) s)
        (emit_workflows-Calm (list_workflows s'.app) s')
