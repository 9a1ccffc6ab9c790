-- ===== src/Client/Connect.antt =====
-- drogonR_ws_connect of src/ws_client.cpp, and the callbacks that it gives to Drogon.
use drogon_r.Prelude.{ℕ, suc, Bool, false, [], ◌∷◌, ◌++◌, Option, none, some, ◌==◌, if◌then◌else◌}
use drogon_r.Prelude.Bytes.{Bytes, codes}
use drogon_r.Prelude.Sexp.{Sexp}
use drogon_r.Dispatch.Watch.{Process, ensure_dispatcher_running}
use drogon_r.Ws.Routes.{single_string, as_closure}
use drogon_r.Client.{
  ClientEvent, ClientWorld, WsClient, close_event, connect_to_server, emplace, enqueue_client_event,
  ensure_client_loop, loop_of, message_event, open_event, preserve_client_hooks,
  release_client_hooks,
}

-- The callbacks that a connect gives to Drogon. A failed connect carries the code of its ReqResult.
abbrev pub message_of : ℕ → Bytes → Bool → ClientEvent
message_of id text binary = record {
  type = message_event;
  client_id = id;
  message = text;
  binary = binary;
  reason = [];
  code = 0;
}

abbrev pub close_of : ℕ → Bytes → ℕ → ClientEvent
close_of id reason code = record {
  type = close_event;
  client_id = id;
  message = [];
  binary = false;
  reason = reason;
  code = code;
}

abbrev pub open_of : ℕ → ClientEvent
open_of id = record {
  type = open_event;
  client_id = id;
  message = [];
  binary = false;
  reason = [];
  code = 0;
}

unfoldable pub message_handler : ℕ → Bytes → Bool → ClientWorld → ClientWorld
unfolding enqueue_client_event
message_handler id text binary w = enqueue_client_event (message_of id text binary) w

unfoldable pub connection_closed_handler : ℕ → ClientWorld → ClientWorld
unfolding enqueue_client_event
connection_closed_handler id w = enqueue_client_event (close_of id (codes "closed") 0) w

-- `ReqResult::Ok` is zero.
unfoldable pub connect_callback : ℕ → ℕ → ClientWorld → ClientWorld
unfolding enqueue_client_event
connect_callback id r w =
    enqueue_client_event (if r == 0 then open_of id else close_of id (codes "connect_failed") r) w

-- What Drogon and the process answer to a connect: the new client of a host
-- and a loop, `none` for a null pointer.
pub record Outside : Type 0 where
  pub process : Process
  pub new_client : Bytes → ℕ → Option ℕ

abbrev pub path_or_root : Bytes → Bytes
path_or_root [] = codes "/"
path_or_root path = path

-- The tail of drogonR_ws_connect, behind the checks and the two starts. `none` is an R error.
unfoldable pub open_client : Option ℕ → Bytes → WsClient → ClientWorld → ClientWorld × Option ℕ
unfolding preserve_client_hooks release_client_hooks emplace
open_client new path c w =
    let id = w.next_id in
    let kept = preserve_client_hooks c w.preserved in
    elim new [
      | none ↦ (record w { next_id = suc id; preserved = release_client_hooks c kept }, none)
      | some handle ↦ (
        record w {
          next_id = suc id;
          preserved = kept;
          clients = emplace id (record c { client = some handle }) w.clients;
          orders = w.orders ++ connect_to_server handle (path_or_root path) ∷ [];
        },
        some id,
      )
    ]

unfoldable pub with_dispatcher : Process → ClientWorld → ClientWorld × Bool
unfolding ensure_dispatcher_running
with_dispatcher p w =
    let (watch, ok) = ensure_dispatcher_running p w.watch in (record w { watch = watch }, ok)

unfoldable pub fresh_client : ℕ → Sexp → Sexp → Sexp → WsClient
unfolding as_closure
fresh_client loop on_message on_open on_close = record {
  client = none;
  loop = some loop;
  closing = false;
  on_message = as_closure on_message;
  on_open = as_closure on_open;
  on_close = as_closure on_close;
}

unfoldable pub ws_connect :
    Outside → Sexp → Sexp → Sexp → Sexp → Sexp → ClientWorld → ClientWorld × Option ℕ
unfolding single_string fresh_client ensure_client_loop with_dispatcher open_client
ws_connect o host path on_message on_open on_close w = elim (single_string host) [
  | none ↦ (w, none)
  | some h ↦ elim (single_string path) [
    | none ↦ (w, none)
    | some p ↦
        let (v, ok) = with_dispatcher o.process (ensure_client_loop w) in
        if ok
        then open_client (o.new_client h (loop_of w)) p
            (fresh_client (loop_of w) on_message on_open on_close) v
        else (v, none)
  ]
]
