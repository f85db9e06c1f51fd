-- ===== src/App/Events.antt =====
-- emitEvent with eventMetadata, the app's log of its events and its hooks, and the contexts of a
-- shutdown.
use gall_lib.Common.{
  ℕ, zero, suc, ◌+◌, String, Bool, true, false, Option, none, some, List, [], ◌∷◌, leb,
  if◌then◌else◌,
}
use gall_lib.Types.{ℤ, pos, negsuc, Metadata, clone_metadata, merge_metadata}
use gall_lib.App.{
  Address, State, EventType, Event, Error, App, Level, Action, Ctx, Sim, Env, note, with_timeout,
}

abbrev pub state_name : State → String
state_name State.created = "created"
state_name State.starting = "starting"
state_name State.running = "running"
state_name State.stopping = "stopping"
state_name State.stopped = "stopped"

abbrev pub event_name : EventType → String
event_name EventType.app_starting = "app.starting"
event_name EventType.app_started = "app.started"
event_name EventType.app_stopping_event = "app.stopping"
event_name EventType.app_stopped_event = "app.stopped"
event_name EventType.agent_registered = "app.agent_registered"
event_name EventType.workflow_registered = "app.workflow_registered"
event_name EventType.bootstrap_failed = "app.bootstrap_failed"

unfoldable pub event_metadata : App → EventType → Metadata → Metadata
event_metadata a type extra = merge_metadata (clone_metadata a.defaults.metadata) (
    merge_metadata
      (("app_name", a.name)
        ∷ ("component", "app")
        ∷ ("event_type", event_name type)
        ∷ ("state", state_name a.state)
        ∷ [])
      extra)

unfoldable pub clone_app_event : Event → Event
clone_app_event e = record {
  type = e.type;
  app_name = e.app_name;
  error = e.error;
  metadata = clone_metadata e.metadata;
}

-- The level at which logAppEvent writes.
abbrev pub level_of : EventType → Level
level_of EventType.bootstrap_failed = Level.error
level_of EventType.agent_registered = Level.debug
level_of EventType.workflow_registered = Level.debug
level_of _ = Level.info

-- The event's time is left out.
abbrev pub app_event : App → EventType → Option Error → Metadata → Event
app_event a type error extra = record {
  type = type;
  app_name = a.name;
  error = error;
  metadata = event_metadata a type extra;
}

module _ {W : Type 0} (env : Env W) where
  -- A panic of a hook is recovered and logged.
  abbrev pub after_hook : EventType → Bool × Sim W → Sim W
  after_hook type (true, s) = note (Action.hook_panicked type) s
  after_hook type (false, s) = s

  unfoldable pub call_hooks : List (Option Address) → Event → Sim W → Sim W
  call_hooks [] e s = s
  call_hooks (none ∷ hooks) e s = call_hooks hooks e s
  call_hooks (some h ∷ hooks) e s = call_hooks hooks e (
      after_hook e.type
        (env.on_event h (clone_app_event e) (note (Action.delivered h (clone_app_event e)) s)))

  unfoldable pub emit_event : EventType → Option Error → Metadata → Sim W → Sim W
  unfolding call_hooks
  emit_event type error extra s =
      call_hooks s.app.hooks (app_event s.app type error extra)
        (note (Action.logged (level_of type) type) s)

  -- A deadline that is not later than the timeout is left as it is.
  abbrev pub bounded : Ctx W → ℕ → W → Option ℕ → Ctx W
  bounded ctx timeout world none = with_timeout env.clock timeout ctx world
  bounded ctx timeout world (some deadline) =
      if leb deadline (env.clock world + timeout)
      then ctx
      else with_timeout env.clock timeout ctx world

  abbrev pub limited : Ctx W → W → ℤ → Ctx W
  limited ctx world (negsuc n) = ctx
  limited ctx world (pos zero) = ctx
  limited ctx world (pos (suc n)) = bounded ctx (suc n) world ctx.deadline

  unfoldable pub shutdown_context : Ctx W → Sim W → Ctx W
  shutdown_context ctx s = limited ctx s.world s.app.defaults.shutdown_timeout
