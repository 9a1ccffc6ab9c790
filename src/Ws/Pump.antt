-- ===== src/Ws/Pump.antt =====
-- drainWsEvents in src/ws_session.cpp: the main thread takes the queued events and runs the R hooks.
-- What a hook calls in turn is the argument `react`; an error in it is reported and ignored.
pub mod Laws
use drogon_r.Prelude.{
  ℕ, suc, ◌+◌, Bool, true, false, List, [], ◌∷◌, ◌++◌, Option, none, some, ◌==◌, if◌then◌else◌,
}
use drogon_r.Prelude.Bytes.{Bytes, c_string}
use drogon_r.Ws.{WsRoute, WsEvent, WsEventType, connect, message, close, World, HookCall, route_at}
use drogon_r.Ws.Session.{
  send_to_conn, ws_close, ws_join, ws_leave, room_broadcast, erase_ws_session,
}

pub data RCall : Type 0 where
  r_send : ℕ → Bytes → Bool → RCall
  r_close : ℕ → RCall
  r_join : Bytes → ℕ → RCall
  r_leave : Bytes → ℕ → RCall
  r_broadcast : Bytes → Bytes → Bool → RCall

unfoldable pub run_r_call : RCall → World → World
unfolding send_to_conn ws_close ws_join ws_leave room_broadcast
run_r_call (r_send id text binary) w = send_to_conn id text binary w
run_r_call (r_close id) w = ws_close id w
run_r_call (r_join room id) w = ws_join room id w
run_r_call (r_leave room id) w = ws_leave room id w
run_r_call (r_broadcast room text binary) w = (room_broadcast room text binary w).0

unfoldable pub run_r_calls : List RCall → World → World
unfolding run_r_call
run_r_calls [] w = w
run_r_calls (c ∷ cs) w = run_r_calls cs (run_r_call c w)

abbrev pub hook_of : WsEventType → WsRoute → Option ℕ
hook_of connect r = r.on_connect
hook_of message r = r.on_message
hook_of close r = r.on_close

-- The hook of an event's route, looked up when the event is handled.
unfoldable pub hook_for : WsEvent → List WsRoute → Option ℕ
hook_for ev routes = elim (route_at routes ev.route_id) [ none ↦ none | some r ↦ hook_of ev.type r ]

-- Only a Message event hands its text and its kind to the hook.
unfoldable pub hook_call : ℕ → WsEvent → HookCall
unfolding c_string
hook_call hook ev = elim ev.type [
  | message ↦ record {
    hook = hook;
    type = message;
    conn_id = ev.conn_id;
    text = c_string ev.text;
    binary = ev.binary;
  }
  | other ↦ record { hook = hook; type = other; conn_id = ev.conn_id; text = []; binary = false }
]

module _ (react : World → HookCall → List RCall) where
  unfoldable pub call_hook : Option ℕ → WsEvent → World → World
  unfolding hook_call run_r_calls
  call_hook none ev w = w
  call_hook (some hook) ev w =
      let call = hook_call hook ev in
      run_r_calls (react w call) (record w { hook_calls = w.hook_calls ++ call ∷ [] })

  -- The session is erased behind a Close event, and at no other.
  unfoldable pub handle_event : WsEvent → World → World
  unfolding hook_for call_hook erase_ws_session
  handle_event ev w =
      let after = call_hook (hook_for ev w.routes) ev w in
      elim ev.type [ close ↦ erase_ws_session ev.conn_id after | _ ↦ after ]

  unfoldable pub handle_events : List WsEvent → World → World
  unfolding handle_event
  handle_events [] w = w
  handle_events (ev ∷ evs) w = handle_events evs (handle_event ev w)

  unfoldable pub drain_ws_events : World → World
  unfolding handle_events
  drain_ws_events w = handle_events w.events (record w { events = [] })
