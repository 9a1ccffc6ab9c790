-- ===== src/Client/Pump.antt =====
-- drainWsClientEvents of src/ws_client.cpp. What a hook calls in turn is the argument `react`; an error
-- in it is reported and ignored. A hook may call every operation, also dr_ws_shutdown.
pub mod Quiet
pub mod Laws
use drogon_r.Prelude.{ℕ, Bool, true, false, List, [], ◌∷◌, ◌++◌, Option, none, some}
use drogon_r.Prelude.Bytes.{Bytes, c_string}
use drogon_r.Prelude.Table.{find, erase}
use drogon_r.Prelude.Sexp.{Sexp}
use drogon_r.Client.{
  WsClient, ClientEventType, open_event, message_event, close_event, ClientEvent, ClientCall,
  ClientWorld, find_client, release_client_hooks,
}
use drogon_r.Client.Calls.{send_to_client, close_client, shutdown_ws_clients}
use drogon_r.Client.Connect.{Outside, ws_connect}

pub data RCall : Type 0 where
  r_connect : Outside → Sexp → Sexp → Sexp → Sexp → Sexp → RCall
  r_send : ℕ → Bytes → Bool → RCall
  r_close : ℕ → RCall
  r_shutdown : RCall

unfoldable pub run_r_call : RCall → ClientWorld → ClientWorld
unfolding ws_connect send_to_client close_client shutdown_ws_clients
run_r_call (r_connect o host path on_message on_open on_close) w =
    (ws_connect o host path on_message on_open on_close w).0
run_r_call (r_send id buf binary) w = (send_to_client id buf binary w).0
run_r_call (r_close id) w = close_client id w
run_r_call r_shutdown w = shutdown_ws_clients w

unfoldable pub run_r_calls : List RCall → ClientWorld → ClientWorld
unfolding run_r_call
run_r_calls [] w = w
run_r_calls (c ∷ cs) w = run_r_calls cs (run_r_call c w)

abbrev pub hook_of : ClientEventType → WsClient → Option ℕ
hook_of open_event c = c.on_open
hook_of message_event c = c.on_message
hook_of close_event c = c.on_close

-- The hook of the event's client, looked up when the event is handled.
unfoldable pub hook_for : ClientEvent → List (ℕ × WsClient) → Option ℕ
hook_for ev clients = elim (find ev.client_id clients) [ none ↦ none | some c ↦ hook_of ev.type c ]

unfoldable pub hook_call : ℕ → ClientEvent → ClientCall
unfolding c_string
hook_call hook ev = elim ev.type [
  | open_event ↦ record {
    hook = hook;
    type = open_event;
    client_id = ev.client_id;
    text = [];
    binary = false;
    code = 0;
  }
  | message_event ↦ record {
    hook = hook;
    type = message_event;
    client_id = ev.client_id;
    text = c_string ev.message;
    binary = ev.binary;
    code = 0;
  }
  | close_event ↦ record {
    hook = hook;
    type = close_event;
    client_id = ev.client_id;
    text = c_string ev.reason;
    binary = false;
    code = ev.code;
  }
]

-- What follows a Close event: the client leaves the table, and its hooks are released.
unfoldable pub erase_client : ℕ → ClientWorld → ClientWorld
unfolding find_client release_client_hooks
erase_client id w = elim (find_client id w) [
  | none ↦ w
  | some dead ↦ record w {
    clients = erase id w.clients;
    preserved = release_client_hooks dead w.preserved;
  }
]

module _ (react : ClientWorld → ClientCall → List RCall) where
  unfoldable pub call_client_hook : Option ℕ → ClientEvent → ClientWorld → ClientWorld
  unfolding hook_call run_r_calls
  call_client_hook none ev w = w
  call_client_hook (some hook) ev w =
      let call = hook_call hook ev in
      run_r_calls (react w call) (record w { hook_calls = w.hook_calls ++ call ∷ [] })

  unfoldable pub handle_client_event : ClientEvent → ClientWorld → ClientWorld
  unfolding hook_for call_client_hook erase_client
  handle_client_event ev w =
      let after = call_client_hook (hook_for ev w.clients) ev w in
      elim ev.type [ close_event ↦ erase_client ev.client_id after | _ ↦ after ]

  unfoldable pub handle_client_events : List ClientEvent → ClientWorld → ClientWorld
  unfolding handle_client_event
  handle_client_events [] w = w
  handle_client_events (ev ∷ evs) w = handle_client_events evs (handle_client_event ev w)

  unfoldable pub drain_ws_client_events : ClientWorld → ClientWorld
  unfolding handle_client_events
  drain_ws_client_events w = handle_client_events w.events (record w { events = [] })
