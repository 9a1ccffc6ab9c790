-- ===== src/Dispatch/Turn.antt =====
-- runDispatcher of src/r_dispatcher.cpp as a whole: the callback that later runs on the main R thread
-- when a byte stands in the wake pipe. A handler of R that stops the server itself is not followed.
pub mod Laws
use drogon_r.Prelude.{ℕ, List, [], ◌∷◌, ◌++◌, Option, none, some}
use drogon_r.Dispatch.{Dispatcher, Host, dispatch_all}
use drogon_r.Dispatch.Watch.{arm, take_requests}
use drogon_r.Ws.{World, HookCall}
use drogon_r.Ws.Pump.{RCall, drain_ws_events}
use drogon_r.Client.{ClientWorld, ClientCall}
use drogon_r.Client.Pump.{drain_ws_client_events}
use drogon_r.Client.Pump as ClientPump

-- What the main R thread works on. The wake pipe and the queue of requests stand in the client's world.
pub record Main : Type 0 where
  pub clients : ClientWorld
  pub dispatcher : Dispatcher
  pub ws : World

module _ (host : Host) (react : World → HookCall → List RCall)
    (client_react : ClientWorld → ClientCall → List ClientPump.RCall) where
  unfoldable pub run_dispatcher : Main → Main
  unfolding take_requests dispatch_all drain_ws_events drain_ws_client_events
  run_dispatcher m = elim m.clients.watch.dispatcher_fd [
    | none ↦ m
    | some fd ↦
        let (watch, items) = take_requests m.clients.watch in
        let clients = drain_ws_client_events client_react (record m.clients { watch = watch }) in
        record {
          dispatcher = dispatch_all host items m.dispatcher;
          ws = drain_ws_events react m.ws;
          clients = record clients { watch = arm clients.watch };
        }
  ]
