-- ===== src/App/Servers.antt =====
-- The start of an App's servers in order, and their shutdown in reverse.
use gall_lib.Common.{◌⊎◌, inl, inr, Bool, true, false, Option, none, some, List, [], ◌∷◌, ◌++◌}
use gall_lib.Context.{Interrupt, Fault}
use gall_lib.App.{Address, State, Error, Action, Ctx, Sim, Env, note, assign, stopping}
use gall_lib.App.Events.{shutdown_context}

abbrev pub first : Option Error → Option Error → Option Error
first none e = e
first (some e) _ = some e

abbrev pub ended : Option Interrupt → Option Error → Option Error
ended none e = e
ended (some i) e = some (Error.interrupted i)

-- How the loop over the servers ends.
pub data Launch : Type 0 where
  launched : Launch
  stopping_seen : Launch
  refused : Fault → Launch

abbrev pub is_stopping : State → Bool
is_stopping stopping = true
is_stopping _ = false

module _ {W : Type 0} (env : Env W) where
  -- One server is shut down; the first error is kept.
  unfoldable pub stop_server : Ctx W → Address → Option Error × Sim W → Option Error × Sim W
  stop_server ctx server (error, s) =
      let (answer, s') = env.shutdown_server server ctx (note (Action.server_stopped server) s) in
      (first error answer, s')

  -- The loop from the last server to the first.
  unfoldable pub stop_servers : Ctx W → List Address → Option Error × Sim W → Option Error × Sim W
  stop_servers ctx [] r = r
  stop_servers ctx (server ∷ servers) r = stop_server ctx server (stop_servers ctx servers r)

  -- The end of the context counts before what the servers answered.
  abbrev pub with_end : Ctx W → Option Error × Sim W → Option Error × Sim W
  with_end ctx (error, s) = (ended (ctx.err s.world) error, s)

  unfoldable pub shut_down_all : Ctx W → List Address → Sim W → Option Error × Sim W
  unfolding stop_servers
  shut_down_all ctx servers s = with_end ctx (stop_servers ctx servers (none, s))

  unfoldable pub rollback_started_servers : Ctx W → List Address → Sim W → Option Error × Sim W
  rollback_started_servers ctx servers s = shut_down_all (shutdown_context env ctx s) servers s

  abbrev pub after_start :
      Address
      → List Address
      → Option Fault × Sim W
      → (Launch × List Address × Sim W) ⊎ (List Address × Sim W)
  after_start server begun (some f, s) =
      inl (Launch.refused f, begun, note (Action.server_failed server) s)
  after_start server begun (none, s) = inr (
    begun ++ server ∷ [],
    assign (λ a. record a { started_servers = begun ++ server ∷ [] })
        (note (Action.server_started server) s),
  )

  -- The loop of `start` over the servers, with those that it started.
  unfoldable pub start_servers :
      Ctx W → List (Option Address) → List Address → Sim W → Launch × List Address × Sim W
  start_servers ctx [] begun s = (Launch.launched, begun, s)
  start_servers ctx (none ∷ servers) begun s = start_servers ctx servers begun s
  start_servers ctx (some server ∷ servers) begun s = elim (is_stopping s.app.state) [
    | true ↦ (Launch.stopping_seen, begun, s)
    | false ↦ elim (after_start server begun (env.start_server server ctx s)) [
      | inl r ↦ r
      | inr (begun', s') ↦ start_servers ctx servers begun' s'
    ]
  ]
