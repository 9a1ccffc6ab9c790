-- ===== src/Dispatch/Turn/Laws.antt =====
-- What one call of runDispatcher in src/r_dispatcher.cpp does with everything that is queued.
use drogon_r.Prelude.{ℕ, ◌≡◌, ap, ◌∙◌, List, [], ◌∷◌, ◌++◌, some, All}
use drogon_r.Dispatch.{Host}
use drogon_r.Dispatch.Laws.{tickets, asked, dispatch_all-answers}
use drogon_r.Dispatch.Watch.{take_requests}
use drogon_r.Dispatch.Turn.{Main, run_dispatcher}
use drogon_r.Queue.{drain_queue, drain_wake_pipe}
use drogon_r.Ws.{World, HookCall}
use drogon_r.Ws.Pump.{RCall}
use drogon_r.Ws.Pump.Laws.{calls_of, drain_ws_events_calls}
use drogon_r.Client.{ClientWorld, ClientCall}
use drogon_r.Client.Pump as ClientPump
use drogon_r.Client.Pump.Quiet as ClientQuiet
use drogon_r.Client.Pump.Laws as ClientLaws

-- One call of runDispatcher on a registered descriptor answers every queued request once, in order,
-- runs the hooks of the server's and the client's events, in order, leaves all three queues empty and
-- arms one more wait on the descriptor, where the hooks of the clients send and close only.
pub run_dispatcher_serves :
    (host : Host) (react : World → HookCall → List RCall)
    (client_react : ClientWorld → ClientCall → List ClientPump.RCall) (m : Main) (fd : ℕ)
    → ((w : ClientWorld) (c : ClientCall) → All ClientQuiet.IsQuiet (client_react w c))
    → m.clients.watch.dispatcher_fd ≡ some fd
    → (tickets (run_dispatcher host react client_react m).dispatcher.answers
        ≡ tickets m.dispatcher.answers ++ asked m.clients.watch.queue.queue)
      × ((run_dispatcher host react client_react m).ws.hook_calls
          ≡ m.ws.hook_calls ++ calls_of m.ws.events m.ws.routes)
      × ((run_dispatcher host react client_react m).clients.hook_calls
          ≡ m.clients.hook_calls ++ ClientLaws.calls_of m.clients.events m.clients.clients)
      × ((run_dispatcher host react client_react m).clients.watch.queue.queue ≡ [])
      × ((run_dispatcher host react client_react m).ws.events ≡ [])
      × ((run_dispatcher host react client_react m).clients.events ≡ [])
      × ((run_dispatcher host react client_react m).clients.watch.waits
          ≡ m.clients.watch.waits ++ some fd ∷ [])
unfolding run_dispatcher take_requests drain_queue drain_wake_pipe
run_dispatcher_serves host react client_react m fd quiet e =
    let old = m.clients.watch in
    let v : ClientWorld = record m.clients { watch = (take_requests old).0 } in
    let (calls, events) = ClientLaws.drain_client_events_calls client_react quiet v in
    let watch = ClientLaws.drain_client_events-watch client_react quiet v in
    let (ws_calls, ws_events) = drain_ws_events_calls react m.ws in
    rw (e, run_dispatcher)
      (
        dispatch_all-answers host old.queue.queue m.dispatcher,
        ws_calls,
        calls,
        ap (λ w. w.queue.queue) watch,
        ws_events,
        events,
        ap (λ w. w.waits ++ w.dispatcher_fd ∷ []) watch ∙ ap (λ d. old.waits ++ d ∷ []) e,
      )
