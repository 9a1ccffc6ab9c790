-- ===== src/Server/Lifecycle/Stop.antt =====
-- The stop of the server in src/drogon_server.cpp.
use drogon_r.Prelude.{ℕ, ◌≡◌, refl, true, false, [], ◌∷◌, ◌++◌, none}
use drogon_r.Prelude.Sexp.{Sexp}
use drogon_r.Queue.{set_queue_max_size}
use drogon_r.Dispatch.Watch.{Watch}
use drogon_r.Dispatch.Watch.Laws.{IsDown, IsUp, shutdown-Down}
use drogon_r.Ws.Routes.{clear_all_ws_sessions}
use drogon_r.Server.Lifecycle.{Server, server_stop}

unlimited-Up :
    {A : Type 0} (r e n : ℕ) (w : Watch A)
    → IsUp r e w
    → IsUp r e (record w { queue = set_queue_max_size n w.queue })
unfolding set_queue_max_size
unlimited-Up r e n w h = record {
  ready = h.ready;
  pipe = h.pipe;
  polled = h.polled;
  read_end = h.read_end;
  write_end = h.write_end;
  armed = h.armed;
}

-- The stop of a running server whose wake pipe is up leaves no pipe and nothing that refers to one,
-- both of its ends closed, no queued request, no WebSocket session, room, event or route, no worker
-- pool and no thread; a second stop changes nothing.
pub stop_is_complete :
    (object : Sexp → ℕ) (s : Server) (r e : ℕ)
    → s.tables.running ≡ true
    → IsUp r e s.watch
    → IsDown (server_stop object s).watch
      × ((server_stop object s).watch.closed ≡ s.watch.closed ++ r ∷ e ∷ [])
      × ((server_stop object s).watch.queue.queue ≡ [])
      × ((server_stop object s).ws.sessions ≡ [])
      × ((server_stop object s).ws.rooms ≡ [])
      × ((server_stop object s).ws.events ≡ [])
      × ((server_stop object s).ws.routes ≡ [])
      × ((server_stop object s).cpp_worker_pool ≡ none)
      × ((server_stop object s).drogon_thread ≡ false)
      × (server_stop object (server_stop object s) ≡ server_stop object s)
unfolding server_stop clear_all_ws_sessions
stop_is_complete object s r e running up =
    let (down, queue, closed) =
      shutdown-Down r e (record s.watch { queue = set_queue_max_size 0 s.watch.queue })
        (unlimited-Up r e 0 s.watch up) in
    simp (running, server_stop) (down, closed, queue, refl, refl, refl, refl, refl, refl, refl)
