-- ===== src/App/Balance.antt =====
-- Which servers run when `start` and `shut_down` of an App end, where other code leaves it alone.
use gall_lib.Common.{
  ◌≡◌, refl, sym, ◌∙◌, ap, false, Option, none, some, List, [], ◌∷◌, ◌++◌, arith, inl, inr,
  Option-cases, append-nil, append_assoc, ◌≢◌,
}
use gall_lib.Common.Results.{Result-cases}
use gall_lib.Common.Dict.{Dict}
use gall_lib.App.{
  Address, Handle, starting, running, stopped, EventType, Error, Action, Ctx, Sim, Env, note,
  assign, set_state,
}
use gall_lib.App.Events.{emit_event, shutdown_context}
use gall_lib.App.Servers.{
  Launch, launched, stopping_seen, refused, is_stopping, stop_server, stop_servers, shut_down_all,
  rollback_started_servers, start_servers,
}
use gall_lib.App.Bootstrap.{
  fail_start, roll_back, run_cold_start_hooks, finish_start, after_servers, announce, launch, start,
  materialize_agents, materialize_workflows,
}
use gall_lib.App.Calm.{
  close, open_servers, Calm-trans, Quiet, emit_event-Calm, materialize_agents-Calm,
  materialize_workflows-Calm, run_cold_start_hooks-Calm, announce-Calm,
}

-- The stack of running servers after the starts of a list on top of those that ran.
abbrev pub opens : List Address → List Address → List Address
opens [] rest = rest
opens (a ∷ servers) rest = opens servers (a ∷ rest)

-- The servers that are not nil.
abbrev pub present : List (Option Address) → List Address
present [] = []
present (none ∷ servers) = present servers
present (some a ∷ servers) = a ∷ present servers

opens-concat :
    (begun : List Address) (a : Address) (rest : List Address)
    → opens (begun ++ a ∷ []) rest ≡ a ∷ opens begun rest
opens-concat [] a rest = refl
opens-concat (b ∷ begun) a rest = opens-concat begun a (b ∷ rest)

close_self : (a : Address) (rest : List Address) → close a (a ∷ rest) ≡ rest
close_self a rest = ground arith

module _ {W : Type 0} where
  -- How `start` may end: the app runs with all of its servers, or it is stopped and none runs.
  abbrev pub IsEnded : List (Option Address) → Option Error × Sim W → Type 0
  IsEnded given (none, s) =
      (s.app.state ≡ running)
      × (s.app.servers ≡ given)
      × (s.app.started_servers ≡ present given)
      × (open_servers s.trace ≡ opens (present given) [])
  IsEnded given (some e, s) = (s.app.state ≡ stopped) × (open_servers s.trace ≡ [])

module _ {W : Type 0} (env : Env W) (quiet : Quiet env) where
  -- What a shutdown of `servers` leaves.
  pub record Closed (rest : List Address) (s s' : Sim W) : Type 0 where
    pub app : s'.app ≡ s.app
    pub running : open_servers s'.trace ≡ rest

  stop_server-Closed :
      (ctx : Ctx W) (a : Address) (rest : List Address) (r : Option Error × Sim W)
      → open_servers r.1.trace ≡ a ∷ rest
      → Closed rest r.1 (stop_server env ctx a r).1
  unfolding stop_server open_servers
  stop_server-Closed ctx a rest (error, s) h =
      let kept = quiet.shutdown_server a ctx (note (Action.server_stopped a) s) in
      record {
        app = kept.app;
        running = ap open_servers kept.trace ∙ (ap (close a) h ∙ close_self a rest);
      }

  stop_servers-Closed :
      (ctx : Ctx W) (servers rest : List Address) (r : Option Error × Sim W)
      → open_servers r.1.trace ≡ opens servers rest
      → Closed rest r.1 (stop_servers env ctx servers r).1
  unfolding stop_servers
  stop_servers-Closed ctx [] rest r h = record { app = refl; running = h }
  stop_servers-Closed ctx (a ∷ servers) rest r h =
      let later = stop_servers-Closed ctx servers (a ∷ rest) r h in
      let here = stop_server-Closed ctx a rest (stop_servers env ctx servers r) later.running in
      record { app = here.app ∙ later.app; running = here.running }

  pub shut_down_all-Closed :
      (ctx : Ctx W) (servers : List Address) (s : Sim W)
      → open_servers s.trace ≡ opens servers []
      → Closed [] s (shut_down_all env ctx servers s).1
  unfolding shut_down_all
  shut_down_all-Closed ctx servers s h = stop_servers-Closed ctx servers [] (none, s) h

  -- What the loop over the servers leaves, in whatever way it ends.
  record Begun (given : List (Option Address)) (begun : List Address) (s : Sim W)
      (r : Launch × List Address × Sim W) : Type 0 where
    state : r.2.app.state ≡ s.app.state
    servers : r.2.app.servers ≡ s.app.servers
    running : open_servers r.2.trace ≡ opens r.1 []
    complete : r.0 ≡ launched → r.1 ≡ begun ++ present given
    unseen : r.0 ≢ stopping_seen

  start_servers-Begun :
      (ctx : Ctx W) (given : List (Option Address)) (begun : List Address) (s : Sim W)
      → s.app.state ≡ starting
      → open_servers s.trace ≡ opens begun []
      → Begun given begun s (start_servers env ctx given begun s)
  unfolding start_servers open_servers
  start_servers-Begun ctx [] begun s here h = record {
    state = refl;
    servers = refl;
    running = h;
    complete = λ _. sym (append-nil begun);
    unseen = λ e. cc;
  }
  start_servers-Begun ctx (none ∷ given) begun s here h =
      let rest = start_servers-Begun ctx given begun s here h in
      record {
        state = rest.state;
        servers = rest.servers;
        running = rest.running;
        complete = rest.complete;
        unseen = rest.unseen;
      }
  start_servers-Begun ctx (some a ∷ given) begun s here h =
      let going : is_stopping s.app.state ≡ false = ap is_stopping here in
      let kept = quiet.start_server a ctx s in
      elim (Option-cases (env.start_server a ctx s).0) [
        | inr (f, e) ↦
            rw (going, e, start_servers)
              (record {
                state = ap (λ a. a.state) kept.app;
                servers = ap (λ a. a.servers) kept.app;
                running = ap open_servers kept.trace ∙ h;
                complete = λ e. cc;
                unseen = λ e. cc;
              })
        | inl e ↦
            let s' : Sim W =
              assign (λ a'. record a' { started_servers = begun ++ a ∷ [] })
                (note (Action.server_started a) (env.start_server a ctx s).1) in
            let rest =
              start_servers-Begun ctx given (begun ++ a ∷ []) s' (ap (λ a. a.state) kept.app ∙ here)
                (ap (λ t. a ∷ open_servers t) kept.trace
                  ∙ (ap (λ l. a ∷ l) h ∙ sym (opens-concat begun a []))) in
            rw (going, e, start_servers)
              (record {
                state = rest.state ∙ ap (λ a. a.state) kept.app;
                servers = rest.servers ∙ ap (λ a. a.servers) kept.app;
                running = rest.running;
                complete = λ e. rest.complete e ∙ append_assoc begun (a ∷ []) (present given);
                unseen = rest.unseen;
              })
      ]

  fail_start-IsEnded :
      (given : List (Option Address)) (e : Error) (s : Sim W)
      → open_servers s.trace ≡ []
      → IsEnded given (fail_start env e s)
  unfolding fail_start
  fail_start-IsEnded given e s h =
      let calm =
        emit_event-Calm env quiet.on_event EventType.bootstrap_failed (some e) []
          (set_state stopped s) in
      (calm.state, calm.running ∙ h)

  roll_back-IsEnded :
      (given : List (Option Address)) (ctx : Ctx W) (begun : List Address) (e : Error) (s : Sim W)
      → open_servers s.trace ≡ opens begun []
      → IsEnded given (roll_back env ctx begun e s)
  unfolding roll_back rollback_started_servers
  roll_back-IsEnded given ctx begun e s h =
      fail_start-IsEnded given _ _
        (shut_down_all-Closed (shutdown_context env ctx s) begun s h).running

  finish_start-IsEnded :
      (given : List (Option Address)) (ctx : Ctx W) (begun : List Address) (s : Sim W)
      → s.app.servers ≡ given
      → begun ≡ present given
      → open_servers s.trace ≡ opens begun []
      → IsEnded given (finish_start env ctx begun s)
  unfolding finish_start
  finish_start-IsEnded given ctx begun s same all h =
      let cold = run_cold_start_hooks-Calm env quiet s in
      let s' : Sim W = (run_cold_start_hooks env s).1 in
      elim (Option-cases (run_cold_start_hooks env s).0) [
        | inr (e, answer) ↦
            rw (answer, finish_start) (roll_back-IsEnded given ctx begun e s' (cold.running ∙ h))
        | inl answer ↦
            let s₁ : Sim W =
              assign (λ a. record a { started_servers = begun; state = running }) s' in
            let last = emit_event-Calm env quiet.on_event EventType.app_started none [] s₁ in
            rw (answer, finish_start)
              (
                last.state,
                last.servers ∙ (cold.servers ∙ same),
                last.begun ∙ all,
                last.running ∙ (cold.running ∙ (h ∙ ap (λ l. opens l []) all)),
              )
      ]

  after_servers-IsEnded :
      (given : List (Option Address)) (ctx : Ctx W) (s : Sim W) (r : Launch × List Address × Sim W)
      → s.app.servers ≡ given
      → Begun given [] s r
      → IsEnded given (after_servers env ctx r)
  after_servers-IsEnded given ctx s (launched, begun, s') same b =
      finish_start-IsEnded given ctx begun s' (b.servers ∙ same) (b.complete refl) b.running
  after_servers-IsEnded given ctx s (stopping_seen, begun, s') same b = absurd (b.unseen refl)
  after_servers-IsEnded given ctx s (refused f, begun, s') same b =
      roll_back-IsEnded given ctx begun (Error.foreign f) s' b.running

  launch-IsEnded :
      (given : List (Option Address)) (ctx : Ctx W) (agents workflows : Dict Handle) (s : Sim W)
      → s.app.servers ≡ given
      → s.app.state ≡ starting
      → open_servers s.trace ≡ []
      → IsEnded given (launch env ctx agents workflows s)
  unfolding launch
  launch-IsEnded given ctx agents workflows s servers here h =
      let s₀ : Sim W =
        assign (λ a. record a { started_agents = agents; started_workflows = workflows }) s in
      let s' : Sim W = announce env s₀ in
      let calm = announce-Calm env quiet s₀ in
      rw (← (calm.servers ∙ servers)) (
        after_servers-IsEnded s'.app.servers ctx s' (start_servers env ctx s'.app.servers [] s')
          refl
          (start_servers-Begun ctx s'.app.servers [] s' (calm.state ∙ here) (calm.running ∙ h)))

  -- `start`, called in the state that EnsureStarted sets, ends in one of the two ways.
  pub start-IsEnded :
      (ctx : Ctx W) (s : Sim W)
      → s.app.state ≡ starting
      → open_servers s.trace ≡ []
      → IsEnded s.app.servers (start env ctx s)
  unfolding start
  start-IsEnded ctx s here h =
      let s₀ : Sim W = emit_event env EventType.app_starting none [] s in
      let c₀ = emit_event-Calm env quiet.on_event EventType.app_starting none [] s in
      let s₁ : Sim W = (materialize_agents env s₀).1 in
      let c₁ = Calm-trans c₀ (materialize_agents-Calm env quiet s₀) in
      let s₂ : Sim W = (materialize_workflows env s₁).1 in
      let c₂ = Calm-trans c₁ (materialize_workflows-Calm env quiet s₁) in
      elim (Result-cases (materialize_agents env s₀).0) [
        | inl (e, failed) ↦
            rw (failed, start) (fail_start-IsEnded s.app.servers e s₁ (c₁.running ∙ h))
        | inr (agents, made) ↦ elim (Result-cases (materialize_workflows env s₁).0) [
          | inl (e, failed) ↦
              rw (made, start, failed, start)
                (fail_start-IsEnded s.app.servers e s₂ (c₂.running ∙ h))
          | inr (workflows, made') ↦
              rw (made, start, made', start)
                (launch-IsEnded s.app.servers ctx agents workflows s₂ c₂.servers (c₂.state ∙ here)
                  (c₂.running ∙ h))
        ]
      ]
