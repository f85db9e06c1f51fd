-- ===== src/App/History.antt =====
-- What holds of an App between two calls of its methods, whatever calls were made before.
use mathlib.Core.Path.{subst}
use gall_lib.Common.{ℕ, suc, ◌≡◌, refl, sym, ◌∙◌, ap, not, Option, none, some, []}
use gall_lib.Common.Dict.{is_some}
use gall_lib.App.{
  State, created, starting, running, stopping, stopped, EventType, Error, Ctx, Sim, Env, assign,
  set_state,
}
use gall_lib.App.Registration.{is_running}
use gall_lib.App.Events.{emit_event, shutdown_context}
use gall_lib.App.Servers.{shut_down_all}
use gall_lib.App.Bootstrap.{start}
use gall_lib.App.Lifecycle.{
  Answer, waiting, returned, or_stopped, first_start, turn, ensure_loop, ensure_started, shut_down,
  shutdown_in, shutdown,
}
use gall_lib.App.Calm.{open_servers, Calm, Quiet, emit_event-Calm}
use gall_lib.App.Balance.{opens, present, IsEnded, start-IsEnded, shut_down_all-Closed}

module _ {W : Type 0} where
  -- Between two calls an app is created and has started no server, or it runs and so do exactly
  -- its servers, in their order, or it is stopped and no server runs.
  abbrev pub IsSettledIn : State → Sim W → Type 0
  IsSettledIn created s = (s.app.started_servers ≡ []) × (open_servers s.trace ≡ [])
  IsSettledIn running s =
      (s.app.started_servers ≡ present s.app.servers)
      × (open_servers s.trace ≡ opens s.app.started_servers [])
  IsSettledIn stopped s = open_servers s.trace ≡ []
  IsSettledIn starting s = ⊥
  IsSettledIn stopping s = ⊥

  abbrev pub IsSettled : Sim W → Type 0
  IsSettled s = IsSettledIn s.app.state s

  pub IsSettled-at : (st : State) (s : Sim W) → s.app.state ≡ st → IsSettledIn st s → IsSettled s
  IsSettled-at st s e h = subst (λ st. IsSettledIn st s) (sym e) h

  -- What a call of EnsureStarted tells: it answered, and with no error exactly if the app runs.
  abbrev pub Tells : Answer × Sim W → Type 0
  Tells (waiting, s) = ⊥
  Tells (returned e, s) = IsSettled s × (is_some e ≡ not (is_running s.app.state))

  pub IsSettled-Calm : {s s' : Sim W} → Calm s s' → IsSettled s → IsSettled s'
  IsSettled-Calm {s} {s'} c h = at s.app.state refl h
    where
      at : (st : State) → s.app.state ≡ st → IsSettledIn st s → IsSettled s'
      at created e (begun, live) =
          IsSettled-at created s' (c.state ∙ e) (c.begun ∙ begun, c.running ∙ live)
      at starting e i = elim i [ ]
      at stopping e i = elim i [ ]
      at running e (begun, live) = IsSettled-at running s' (c.state ∙ e) (
        c.begun ∙ (begun ∙ ap present (sym c.servers)),
        c.running ∙ (live ∙ ap (λ l. opens l []) (sym c.begun)),
      )
      at stopped e live = IsSettled-at stopped s' (c.state ∙ e) (c.running ∙ live)

  -- That a call has answered, and left a settled app.
  abbrev pub IsDone : Answer × Sim W → Type 0
  IsDone (waiting, s) = ⊥
  IsDone (returned e, s) = IsSettled s

module _ {W : Type 0} (env : Env W) (quiet : Quiet env) where
  first_start-Tells :
      (ctx : Ctx W) (s : Sim W) → open_servers s.trace ≡ [] → Tells (first_start env ctx s)
  unfolding first_start
  first_start-Tells ctx s h =
      tells (start env ctx (set_state starting s))
        (start-IsEnded env quiet ctx (set_state starting s) refl h)
    where
      tells :
          (r : Option Error × Sim W)
          → IsEnded s.app.servers r
          → Tells (returned r.0, assign (λ a. record a { start_err = r.0 }) r.1)
      tells (none, s') e =
          let s₁ : Sim W = assign (λ a. record a { start_err = none }) s' in
          let here : s₁.app.state ≡ running = e.0 in
          (
            IsSettled-at running s₁ here
                (e.2 ∙ ap present (sym e.1), e.3 ∙ ap (λ l. opens l []) (sym e.2)),
            sym (ap (λ st. not (is_running st)) here),
          )
      tells (some x, s') e =
          let s₁ : Sim W = assign (λ a. record a { start_err = some x }) s' in
          let here : s₁.app.state ≡ stopped = e.0 in
          (IsSettled-at stopped s₁ here e.1, sym (ap (λ st. not (is_running st)) here))

  ensure_loop-Tells :
      (fuel : ℕ) (ctx : Ctx W) (s : Sim W) → IsSettled s → Tells (ensure_loop env (suc fuel) ctx s)
  unfolding ensure_loop
  ensure_loop-Tells fuel ctx s h = at s.app.state refl h
    where
      at :
          (st : State)
          → s.app.state ≡ st
          → IsSettledIn st s
          → Tells (turn env ctx (ensure_loop env fuel ctx) st s)
      at starting e i = elim i [ ]
      at stopping e i = elim i [ ]
      at created e (begun, live) = first_start-Tells ctx s live
      at running e i = (IsSettled-at running s e i, sym (ap (λ st. not (is_running st)) e))
      at stopped e i = elim s.app.start_err as (λ o. Tells (returned (or_stopped env o), s)) [
        | none ↦ (IsSettled-at stopped s e i, sym (ap (λ st. not (is_running st)) e))
        | some x ↦ (IsSettled-at stopped s e i, sym (ap (λ st. not (is_running st)) e))
      ]

  shut_down-IsSettled :
      (ctx : Ctx W) (s : Sim W)
      → open_servers s.trace ≡ opens s.app.started_servers []
      → IsSettled (shut_down env ctx s).1 × ((shut_down env ctx s).1.app.state ≡ stopped)
  unfolding shut_down
  shut_down-IsSettled ctx s h =
      let servers = s.app.started_servers in
      let first =
        emit_event-Calm env quiet.on_event EventType.app_stopping_event none []
          (set_state stopping s) in
      let s₁ : Sim W = emit_event env EventType.app_stopping_event none [] (set_state stopping s) in
      let r : Option Error × Sim W = shut_down_all env (shutdown_context env ctx s₁) servers s₁ in
      let closed =
        shut_down_all-Closed env quiet (shutdown_context env ctx s₁) servers s₁
          (first.running ∙ h) in
      let s₃ : Sim W = assign (λ a. record a { state = stopped; started_servers = [] }) r.1 in
      let last = emit_event-Calm env quiet.on_event EventType.app_stopped_event r.0 [] s₃ in
      (
        IsSettled-at stopped (emit_event env EventType.app_stopped_event r.0 [] s₃) last.state
            (last.running ∙ closed.running),
        last.state,
      )

  -- After Shutdown a settled app is stopped.
  pub shutdown-IsSettled :
      (ctx : Ctx W) (s : Sim W)
      → IsSettled s
      → IsSettled (shutdown env (some ctx) s).1
        × ((shutdown env (some ctx) s).1.app.state ≡ stopped)
  unfolding shutdown
  shutdown-IsSettled ctx s h = at s.app.state refl h
    where
      at :
          (st : State)
          → s.app.state ≡ st
          → IsSettledIn st s
          → IsSettled (shutdown_in env ctx st s).1
            × ((shutdown_in env ctx st s).1.app.state ≡ stopped)
      at starting e i = elim i [ ]
      at stopping e i = elim i [ ]
      at created e (begun, live) = (live, refl)
      at running e (begun, live) = shut_down-IsSettled ctx s live
      at stopped e i = (IsSettled-at stopped s e i, e)

  -- If other code leaves the app alone, a call of EnsureStarted with a context on a settled App
  -- answers without waiting, leaves the app settled, and answers no error exactly if the app then
  -- runs.
  pub ensure_started-Tells :
      (fuel : ℕ) (ctx : Ctx W) (s : Sim W)
      → IsSettled s
      → Tells (ensure_started env (suc fuel) (some ctx) s)
  unfolding ensure_started
  ensure_started-Tells fuel ctx s h = ensure_loop-Tells fuel ctx s h
