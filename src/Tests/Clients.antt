-- ===== src/Tests/Clients.antt =====
-- Outbound WebSocket clients of src/ws_client.cpp.
use drogon_r.Prelude.{◌≡◌, refl, true, false, List, [], ◌∷◌, ◌++◌, none, some, arith}
use drogon_r.Prelude.Bytes.{Bytes, codes}
use drogon_r.Prelude.Sexp.{Sexp, null, strings, closure, plain}
use drogon_r.Prelude.Table.{find}
use drogon_r.Prelude.Preserved.{times}
use drogon_r.Dispatch.Request.{PendingRequest}
use drogon_r.Dispatch.Watch.{
  Watch, ensure_dispatcher_running, register_dispatcher_fd, apply_log_level_from_env,
}
use drogon_r.Ws.Routes.{single_string}
use drogon_r.Client.{WsClient, ClientCall, ClientWorld, ensure_client_loop}
use drogon_r.Client.Calls.{close_client, send_to_client, shutdown_ws_clients}
use drogon_r.Client.Connect.{
  Outside, message_of, close_of, ws_connect, with_dispatcher, open_client,
  connection_closed_handler, message_handler,
}
use drogon_r.Client.Pump.{RCall, r_send, handle_client_event, drain_ws_client_events}
use drogon_r.Client.Pump.Laws.{calls_of, drain_client_events_calls}
use drogon_r.Client.Invariant.{here, next, connects, ends, receives, drains}
use drogon_r.Client.Runs.{calls_to, clients-balance, close_is_last}
use drogon_r.Client.Closing.{closed_sends_nothing, connect_failed}

abbrev pub down : Watch PendingRequest
down = record {
  later_fd = true;
  later = true;
  wake_pipe = none;
  dispatcher_fd = none;
  waits = [];
  queue = record {
    queue = [];
    queue_max_size = 0;
    nonblocking = true;
    wake_read_fd = none;
    wake_write_fd = none;
    pipe = 0;
    pipe_size = 100;
  };
  closed = [];
  log_level = none;
}

abbrev idle : ClientWorld
idle = record {
  clients = [];
  events = [];
  next_id = 1;
  loop = none;
  loops_made = 0;
  tasks = [];
  orders = [];
  hook_calls = [];
  preserved = 9 ∷ [];
  watch = down;
}

abbrev chat : WsClient
chat = record {
  client = some 50;
  loop = some 0;
  closing = false;
  on_message = some 7;
  on_open = none;
  on_close = some 8;
}

abbrev pub talking : ClientWorld
talking = record idle {
  clients = (1, chat) ∷ [];
  next_id = 2;
  events =
      message_of 1 (codes "hi") false
      ∷ close_of 1 (codes "closed") 0
      ∷ message_of 1 (codes "late") false
      ∷ [];
}

abbrev reachable : Outside
reachable = record {
  process = record { getenv = none; new_pipe = some (3, 4) };
  new_client = λ host loop. some 50;
}

abbrev broken : Outside
broken = record reachable { new_client = λ host loop. none }

abbrev text : Bytes → Sexp
text s = strings plain (some s ∷ [])

abbrev connected : ClientWorld
connected =
    (ws_connect reachable (text (codes "ws://a")) (text []) (closure 7) null (closure 8) idle).0

abbrev pub greets : ClientWorld → ClientCall → List RCall
greets w c = r_send 1 (codes "hello") false ∷ []

clients-balance_example :
    times 7
      (shutdown_ws_clients
        (drain_ws_client_events greets (connection_closed_handler 1 connected))).preserved
    ≡ times 7 idle.preserved
clients-balance_example =
    clients-balance
      (next
        (next
          (next here
            (connects reachable (text (codes "ws://a")) (text []) (closure 7) null (closure 8)))
          (ends 1))
        (drains greets))
      refl 7

close_is_last_example :
    (find 1
        (message_handler 1
          (codes "late")
          false
          (handle_client_event greets (close_of 1 (codes "closed") 0) talking)).clients
      ≡ none)
    × (calls_to 1 (
          message_handler 1
            (codes "late")
            false
            (handle_client_event greets (close_of 1 (codes "closed") 0) talking))
        ≡ calls_to 1 (handle_client_event greets (close_of 1 (codes "closed") 0) talking))
close_is_last_example =
    close_is_last greets (close_of 1 (codes "closed") 0) talking
      (message_handler 1 (codes "late") false
        (handle_client_event greets (close_of 1 (codes "closed") 0) talking))
      refl (omega arith) (next here (receives 1 (codes "late") false))

drain_client_events_calls_example :
    ((drain_ws_client_events greets talking).hook_calls
      ≡ talking.hook_calls ++ calls_of talking.events talking.clients)
    × ((drain_ws_client_events greets talking).events ≡ [])
drain_client_events_calls_example = drain_client_events_calls greets (λ w c. (tt, tt)) talking

closed_sends_nothing_example :
    send_to_client 1 (codes "x") false (drain_ws_client_events greets (close_client 1 talking))
    ≡ (drain_ws_client_events greets (close_client 1 talking), false)
closed_sends_nothing_example =
    closed_sends_nothing 1 (codes "x") false talking
      (drain_ws_client_events greets (close_client 1 talking)) (omega arith)
      (next here (drains greets))

no_client :
    (ws_connect broken (text (codes "ws://a")) (text []) (closure 7) null (closure 8) talking).1
    ≡ none
unfolding ws_connect single_string with_dispatcher ensure_client_loop ensure_dispatcher_running
    open_client register_dispatcher_fd apply_log_level_from_env
no_client = refl

connect_failed_example :
    ((ws_connect broken
        (text (codes "ws://a"))
        (text [])
        (closure 7)
        null
        (closure 8)
        talking).0.clients
      ≡ talking.clients)
    × ((ws_connect broken
          (text (codes "ws://a"))
          (text [])
          (closure 7)
          null
          (closure 8)
          talking).0.events
        ≡ talking.events)
    × (times 7
          (ws_connect broken
            (text (codes "ws://a"))
            (text [])
            (closure 7)
            null
            (closure 8)
            talking).0.preserved
        ≡ times 7 talking.preserved)
connect_failed_example =
    connect_failed broken (text (codes "ws://a")) (text []) (closure 7) null (closure 8) talking 7
      no_client
