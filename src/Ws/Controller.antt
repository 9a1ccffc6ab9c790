-- ===== src/Ws/Controller.antt =====
-- RWebSocketController in src/ws_session.cpp: the three hooks that Drogon calls on an I/O thread.
-- A route with a C++ handler is dispatched on that thread, at which the handler may call back: the
-- argument `script` is what it calls. Other events are queued for the main thread.
pub mod Laws
use drogon_r.Prelude.{
  ℕ, suc, ◌+◌, Bool, true, false, List, [], ◌∷◌, ◌++◌, Option, none, some, ◌==◌, ltb, if◌then◌else◌,
  update_at, get_elem?,
}
use drogon_r.Prelude.Bytes.{Bytes}
use drogon_r.Prelude.Table.{find, modify}
use drogon_r.Ws.{
  WsRoute, WsSession, WsEvent, WsEventType, connect, message, close, World, BackendCall, WsGuards,
  no_guards, guards_for_route, cpp_fn_for_route, route_id_for_path, find_ws_session,
}
use drogon_r.Ws.Session.{Callback, run_callbacks, add_live, sub_live, set_closing, erase_ws_session}

unfoldable pub enqueue_ws_event : WsEvent → World → World
enqueue_ws_event ev w = record w { events = w.events ++ ev ∷ []; wakes = suc w.wakes }

-- What the handlers of this file read from the world outside: which connections Drogon has open, the
-- clock, and the calls of the C++ handler.
pub record Outside : Type 0 where
  pub connected : ℕ → Bool
  pub now : ℕ
  pub script : List Callback

unfoldable pub dispatch_cpp : Outside → Option ℕ → ℕ → WsEventType → Bytes → Bool → World → World
unfolding run_callbacks
dispatch_cpp o none id event msg binary w = w
dispatch_cpp o (some fn) id event msg binary w =
    run_callbacks o.connected o.now o.script (record w {
      backend_calls =
          w.backend_calls
          ++ record { fn = fn; handle = id; event = event; msg = msg; binary = binary } ∷ [];
    })

-- The guards are read for a route with a C++ handler only.
abbrev pub guards_of : List WsRoute → Option ℕ → Option ℕ → WsGuards
guards_of routes none route_id = no_guards
guards_of routes (some fn) route_id = guards_for_route routes route_id

-- The counter that limits the route: `cpp_fn && guards.max_conns > 0 && guards.live`.
unfoldable pub limited_by : Option ℕ → WsGuards → Option ℕ
limited_by none g = none
limited_by (some fn) g = if ltb 0 g.max_conns then g.live else none

abbrev pub live_at : ℕ → List WsRoute → ℕ
live_at i routes = elim (get_elem? routes i) [ none ↦ 0 | some r ↦ r.live ]

unfoldable pub fetch_add_live : ℕ → World → World
fetch_add_live i w = record w { routes = update_at i add_live w.routes }

unfoldable pub fetch_sub_live : ℕ → World → World
fetch_sub_live i w = record w { routes = update_at i sub_live w.routes }

unfoldable pub refuse : ℕ → World → World
refuse conn w = record w { refused = w.refused ++ conn ∷ [] }

unfoldable pub new_session : ℕ → Option ℕ → ℕ → Option ℕ → Option ℕ → WsGuards → WsSession
new_session now route_id conn loop fn g = record {
  route_id = route_id;
  conn = conn;
  loop = loop;
  closing = false;
  cpp_fn = fn;
  idle_ms = g.idle_ms;
  lifetime_ms = g.lifetime_ms;
  connect_ms = elim fn [ none ↦ 0 | some f ↦ now ];
  last_send_ms = elim fn [ none ↦ 0 | some f ↦ now ];
  live_counter = limited_by fn g;
  counted = elim (limited_by fn g) [ none ↦ false | some i ↦ true ];
}

-- The second half of handleNewConnection: the session gets an id and is entered in the table.
unfoldable pub enter_session : WsSession → World → World
enter_session s w = record w {
  next_id = suc w.next_id;
  contexts = (s.conn, w.next_id) ∷ w.contexts;
  sessions = (w.next_id, s) ∷ w.sessions;
}

abbrev pub announce : Outside → Option ℕ → Option ℕ → ℕ → World → World
announce o none route_id id w =
    enqueue_ws_event
      (record { type = connect; conn_id = id; route_id = route_id; text = []; binary = false }) w
announce o (some fn) route_id id w = dispatch_cpp o (some fn) id connect [] false w

abbrev pub admit : Outside → Option ℕ → ℕ → Option ℕ → Option ℕ → WsGuards → World → World
admit o route_id conn loop fn g w =
    announce o fn route_id w.next_id (enter_session (new_session o.now route_id conn loop fn g) w)

-- handleNewConnection behind its lookups. `after > guards.max_conns` is tested behind the increment.
unfoldable pub open_connection :
    Outside → Option ℕ → Option ℕ → WsGuards → ℕ → Option ℕ → World → World
unfolding limited_by fetch_add_live fetch_sub_live refuse enter_session enqueue_ws_event
    dispatch_cpp
open_connection o route_id fn g conn loop w = elim (limited_by fn g) [
  | none ↦ admit o route_id conn loop fn g w
  | some i ↦
      let after = fetch_add_live i w in
      if ltb g.max_conns (live_at i after.routes)
      then refuse conn (fetch_sub_live i after)
      else admit o route_id conn loop fn g after
]

unfoldable pub handle_new_connection : Outside → Bytes → ℕ → Option ℕ → World → World
unfolding open_connection
handle_new_connection o path conn loop w =
    let route_id = route_id_for_path w.routes path in
    let fn = cpp_fn_for_route w.routes route_id in
    open_connection o route_id fn (guards_of w.routes fn route_id) conn loop w

unfoldable pub handle_new_message : Outside → ℕ → Bytes → Bool → World → World
unfolding find_ws_session dispatch_cpp enqueue_ws_event
handle_new_message o conn text binary w = elim (find conn w.contexts) [
  | none ↦ w
  | some id ↦ elim (find_ws_session id w) [
    | none ↦ w
    | some s ↦ elim s.cpp_fn [
      | some fn ↦ dispatch_cpp o (some fn) id message text binary w
      | none ↦
          enqueue_ws_event
            (record {
              type = message;
              conn_id = id;
              route_id = s.route_id;
              text = text;
              binary = binary;
            })
            w
    ]
  ]
]

unfoldable pub handle_connection_closed : Outside → ℕ → World → World
unfolding find_ws_session dispatch_cpp enqueue_ws_event erase_ws_session
handle_connection_closed o conn w = elim (find conn w.contexts) [
  | none ↦ w
  | some id ↦ elim (find_ws_session id w) [
    | none ↦ w
    | some s ↦
        let marked : World = record w { sessions = modify id set_closing w.sessions } in
        elim s.cpp_fn [
          | some fn ↦ erase_ws_session id (dispatch_cpp o (some fn) id close [] false marked)
          | none ↦
              enqueue_ws_event
                (record {
                  type = close;
                  conn_id = id;
                  route_id = s.route_id;
                  text = [];
                  binary = false;
                })
                marked
        ]
  ]
]
