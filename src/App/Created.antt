-- ===== src/App/Created.antt =====
-- What New returns, and what follows for every later call.
use mathlib.Core.Path.{subst}
use gall_lib.Common.{
  ℕ, ◌≡◌, refl, ◌∙◌, String, true, Option, none, some, List, [], ◌∷◌, ◌==◌, inl, inr, Bool-cases,
}
use gall_lib.Common.Dict.{is_some}
use gall_lib.Common.Results.{Result, ok, err, ◌>>=◌, ◌>>◌}
use gall_lib.Text.{trim_space}
use gall_lib.Types.{ℤ, pos}
use gall_lib.Agent.{less}
use gall_lib.App.{Address, created, Defaults, App, Error, Env}
use gall_lib.App.Merge.{
  Builtins, clone_defaults, or_else, positive_or, default_shutdown_timeout, default_max_steps,
  finalize_defaults,
}
use gall_lib.App.Registration.{
  refuse_if, check_ready, check_factory, register_ready_agent, register_agent_factory,
  register_ready_workflow, register_workflow_factory,
}
use gall_lib.App.Config.{
  Options, AppOption, no_options, apply_options, resolved_defaults, register_each, new_app,
  register_given, new,
}
use gall_lib.App.Calm.{open_servers, Quiet}
use gall_lib.App.History.{IsSettled, IsSettled-at}
use gall_lib.App.Calls.{Call, calls, AreQuiet}
use gall_lib.App.Settled.{calls-IsSettled}

-- The defaults that a factory can count on.
abbrev pub IsComplete : Defaults → Type 0
IsComplete d =
    (less (pos 0) d.shutdown_timeout ≡ true)
    × (less (pos 0) d.agent.max_steps ≡ true)
    × (is_some d.logger ≡ true)
    × (is_some d.agent.engine ≡ true)

pub record IsFresh (a : App) : Type 0 where
  pub state : a.state ≡ created
  pub no_agents : a.started_agents ≡ []
  pub no_servers : a.started_servers ≡ []
  pub complete : IsComplete a.defaults

positive_or-pos :
    (n fallback : ℤ) → less (pos 0) fallback ≡ true → less (pos 0) (positive_or n fallback) ≡ true
positive_or-pos n fallback h = elim (Bool-cases (less (pos 0) n)) [
  | inl e ↦ rw (e, positive_or) e
  | inr e ↦ rw (e, positive_or) h
]

is_some-or_else : (o : Option Address) (a : Address) → is_some (or_else o a) ≡ true
is_some-or_else none a = refl
is_some-or_else (some b) a = refl

finalize_defaults-IsComplete : (b : Builtins) (d : Defaults) → IsComplete (finalize_defaults b d)
unfolding finalize_defaults
finalize_defaults-IsComplete b d = (
  positive_or-pos (clone_defaults d).shutdown_timeout default_shutdown_timeout refl,
  positive_or-pos (clone_defaults d).agent.max_steps default_max_steps refl,
  is_some-or_else _ b.nop,
  is_some-or_else _ b.engine,
)

-- A property of what a computation returns, if it returns.
abbrev pub Holds : {A : Type 0} → (A → Type 0) → Result Error A → Type 0
Holds P (err e) = Unit
Holds P (ok a) = P a

module _ {A B : Type 0} (Q : B → Type 0) where
  Holds-bind :
      (P : A → Type 0) (m : Result Error A) (f : A → Result Error B)
      → Holds P m
      → ((a : A) → P a → Holds Q (f a))
      → Holds Q (m >>= f)
  Holds-bind P (err e) f h next = tt
  Holds-bind P (ok a) f h next = next a h

Holds-then :
    {B : Type 0} (Q : B → Type 0) (m : Result Error (Unit {0})) (n : Result Error B)
    → Holds Q n
    → Holds Q (m >> n)
Holds-then Q (err e) n h = tt
Holds-then Q (ok u) n h = h

abbrev IsKeeping : {A : Type 0} → (Option A → App → Result Error App) → Type 0
IsKeeping {A} register = (o : Option A) (a : App) → IsFresh a → Holds IsFresh (register o a)

fresh :
    {a b : App}
    → b.state ≡ a.state
    → b.started_agents ≡ a.started_agents
    → b.started_servers ≡ a.started_servers
    → b.defaults ≡ a.defaults
    → IsFresh a
    → IsFresh b
fresh state agents servers defaults f = record {
  state = state ∙ f.state;
  no_agents = agents ∙ f.no_agents;
  no_servers = servers ∙ f.no_servers;
  complete = rw defaults f.complete;
}

register_ready_agent-keeps : IsKeeping register_ready_agent
unfolding register_ready_agent
register_ready_agent-keeps none a f = tt
register_ready_agent-keeps (some h) a f =
    Holds-then IsFresh (check_ready a.state (trim_space h.name) a.ready_agents _ _) _
      (fresh {a = a} refl refl refl refl f)

register_ready_workflow-keeps : IsKeeping register_ready_workflow
unfolding register_ready_workflow
register_ready_workflow-keeps none a f = tt
register_ready_workflow-keeps (some h) a f =
    Holds-then IsFresh (check_ready a.state (trim_space h.name) a.ready_workflows _ _) _
      (fresh {a = a} refl refl refl refl f)

register_agent_factory-keeps : IsKeeping register_agent_factory
unfolding register_agent_factory
register_agent_factory-keeps none a f = tt
register_agent_factory-keeps (some h) a f =
    Holds-then IsFresh (check_factory a.state (trim_space h.name) a.agent_factories _ _) _
      (fresh {a = a} refl refl refl refl f)

register_workflow_factory-keeps : IsKeeping register_workflow_factory
unfolding register_workflow_factory
register_workflow_factory-keeps none a f = tt
register_workflow_factory-keeps (some h) a f =
    Holds-then IsFresh (check_factory a.state (trim_space h.name) a.workflow_factories _ _) _
      (fresh {a = a} refl refl refl refl f)

register_each-keeps :
    {A : Type 0} (register : Option A → App → Result Error App)
    → IsKeeping register
    → (xs : List (Option A)) (a : App) → IsFresh a
    → Holds IsFresh (register_each register xs a)
unfolding register_each
register_each-keeps register keeps [] a f = f
register_each-keeps register keeps (x ∷ xs) a f =
    Holds-bind IsFresh IsFresh (register x a) _ (keeps x a f)
      (λ b g. register_each-keeps register keeps xs b g)

register_given-keeps : (o : Options) (a : App) → IsFresh a → Holds IsFresh (register_given o a)
unfolding register_given
register_given-keeps o a f =
    Holds-bind IsFresh IsFresh _ _ (register_each-keeps _ register_ready_agent-keeps o.agents a f)
      λ b g.
        Holds-bind IsFresh IsFresh _ _
          (register_each-keeps _ register_agent_factory-keeps o.agent_factories b g)
          λ c h.
            Holds-bind IsFresh IsFresh _ _
              (register_each-keeps _ register_ready_workflow-keeps o.workflows c h)
              λ d k. register_each-keeps _ register_workflow_factory-keeps o.workflow_factories d k

new-Holds :
    (b : Builtins) (given : String) (configured : Defaults) (opts : List (Option AppOption))
    → Holds IsFresh (new b given configured opts)
unfolding new resolved_defaults
new-Holds b given configured opts = Holds-then IsFresh (refuse_if (trim_space given == "") _) _ (
    Holds-bind IsFresh (λ _. Unit) (apply_options opts no_options) _
      (anything (apply_options opts no_options))
      λ o _.
        register_given-keeps o (new_app (trim_space given) (resolved_defaults b configured o) o)
          (record {
            state = refl;
            no_agents = refl;
            no_servers = refl;
            complete = finalize_defaults-IsComplete b _;
          }))
  where
    anything : (r : Result Error Options) → Holds (λ _. Unit) r
    anything (err e) = tt
    anything (ok o) = tt

pub new-IsFresh :
    (b : Builtins) (given : String) (configured : Defaults) (opts : List (Option AppOption))
    (a : App)
    → new b given configured opts ≡ ok a
    → IsFresh a
new-IsFresh b given configured opts a made =
    subst (Holds IsFresh) made (new-Holds b given configured opts)

-- If other code leaves the app alone while it runs, then an App that New returned is settled after
-- any calls of Start, Run, Shutdown, Invoke and the registrations, one after another: it is
-- created and has started no server, or it runs and exactly its servers run, in their order, or it
-- is stopped and no server runs, each that was started having been shut down in the reverse order,
-- also after a start that failed.
pub calls_after_new-IsSettled :
    {W : Type 0} (env : Env W) (fuel : ℕ) (cs : List (Call W)) (b : Builtins) (given : String)
    (configured : Defaults) (opts : List (Option AppOption)) (a : App) (world : W)
    → Quiet env
    → AreQuiet cs
    → new b given configured opts ≡ ok a
    → IsSettled (calls env fuel cs (record { app = a; trace = []; world = world }))
calls_after_new-IsSettled env fuel cs b given configured opts a world quiet quiet_calls made =
    let f = new-IsFresh b given configured opts a made in
    calls-IsSettled env quiet fuel cs (record { app = a; trace = []; world = world }) quiet_calls
      (IsSettled-at created (record { app = a; trace = []; world = world }) f.state
        (f.no_servers, unfold open_servers in refl))
