-- ===== src/App/Registration/Laws.antt =====
-- A registered agent or workflow is found, and only where a registration is accepted.
use mathlib.Core.Path.{subst}
use gall_lib.Common.{
  ◌≡◌, refl, String, Bool, true, false, ◌&&◌, not, none, some, [], ◌==◌, arith, if◌then◌else◌, inl,
  inr, Bool-cases,
}
use gall_lib.Common.Dict.{Dict, get, put, get-nil, get-put, is_some}
use gall_lib.Common.Results.{ok, >>=-cases}
use gall_lib.Text.{trim_space}
use gall_lib.Tool.Schemas.Laws.{accepts, accepts-then}
use gall_lib.App.{Handle, Factory, App, Error, Invalid}
use gall_lib.App.Registration.{
  refuse_if, is_sealed, check_ready, register_ready_agent, register_agent_factory,
  register_ready_workflow, register_workflow_factory, look_up, resolve_agent,
}

accepts-refuse_if : (b : Bool) (e : Error) → accepts (refuse_if b e) ≡ not b
accepts-refuse_if true e = refl
accepts-refuse_if false e = refl

-- An object may be registered: the app is not started, its name is set, and the name is free.
abbrev pub may_register {ℓ} : {V : Type ℓ} → App → String → Dict V → Bool
may_register a name taken =
    not (is_sealed a.state)
    && not (trim_space name == "")
    && not (is_some (get (trim_space name) taken))

-- Each of the four registrations accepts an agent, a workflow or a factory exactly if the app has
-- not left the created state, the trimmed name is set, and its kind has no entry of that name yet.
pub accepts-register :
    (h : Handle) (f : Factory) (a : App)
    → (accepts (register_ready_agent (some h) a) ≡ may_register a h.name a.ready_agents)
      × (accepts (register_ready_workflow (some h) a) ≡ may_register a h.name a.ready_workflows)
      × (accepts (register_agent_factory (some f) a) ≡ may_register a f.name a.agent_factories)
      × (accepts (register_workflow_factory (some f) a)
          ≡ may_register a f.name a.workflow_factories)
unfolding register_ready_agent register_ready_workflow register_agent_factory
    register_workflow_factory
accepts-register h f a = (
  grind (arith, accepts-then, accepts-refuse_if),
  grind (arith, accepts-then, accepts-refuse_if),
  grind (arith, accepts-then, accepts-refuse_if),
  grind (arith, accepts-then, accepts-refuse_if),
)

-- Before a start, a look-up after a registration answers the new object at its name, and is what
-- it was at every other.
look_up-put :
    (name : String) (h : Handle) (key : String) (begun ready : Dict Handle) (e : Error)
    → get key begun ≡ none
    → look_up key begun (put name h ready) e
      ≡ (if name == key then ok h else look_up key begun ready e)
look_up-put name h key begun ready e fresh =
    rw (fresh, look_up)
      (rw (get-put name key h ready) (elim (Bool-cases (name == key)) [
        | inl same ↦ rw same refl
        | inr differs ↦ rw differs refl
      ]))

-- After a registration of a ready agent that returns, in an app that has started no agents,
-- Resolve answers that agent for every text that trims to its trimmed name, and for every other
-- text what it answered before.
pub resolve_agent-register :
    (h : Handle) (a b : App) (given : String)
    → register_ready_agent (some h) a ≡ ok b
    → a.started_agents ≡ []
    → resolve_agent given b
      ≡ (if trim_space h.name == trim_space given then ok h else resolve_agent given a)
unfolding register_ready_agent resolve_agent
resolve_agent-register h a b given made fresh =
    >>=-cases
      (check_ready a.state (trim_space h.name) a.ready_agents
        (Error.invalid_config Invalid.agent_name) (Error.duplicate_agent (trim_space h.name)))
      _ made
      (λ _ _ same.
        let same' : record a { ready_agents = put (trim_space h.name) h a.ready_agents } ≡ b = cc in
        subst
          (λ c.
            resolve_agent given c
            ≡ (if trim_space h.name == trim_space given then ok h else resolve_agent given a))
          same'
          (unfold resolve_agent in
            look_up-put (trim_space h.name) h (trim_space given) a.started_agents a.ready_agents _
              (rw fresh (get-nil (trim_space given)))))
