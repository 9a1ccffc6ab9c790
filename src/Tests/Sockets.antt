-- ===== src/Tests/Sockets.antt =====
-- WebSocket sessions of src/ws_session.cpp.
use drogon_r.Prelude.{
  ℕ, ◌+◌, ◌≤◌, ◌<◌, ◌≡◌, refl, ◌⊎◌, true, false, List, [], ◌∷◌, ◌++◌, none, some, arith, length,
  All,
}
use drogon_r.Prelude.Bytes.{codes, bytes_eq}
use drogon_r.Prelude.Table.{find}
use drogon_r.Prelude.Preserved.{times}
use drogon_r.Ws.{
  LoopTask, shutdown_conn, cpp_fn_for_route, guards_for_route, WsRoute, WsSession, connect, close,
  World, HookCall, route_id_for_path, route_index,
}
use drogon_r.Ws.Rooms.{members}
use drogon_r.Ws.Rooms.Laws.{is_in}
use drogon_r.Ws.Rooms.Refinement.{RoomOp, joins, leaves, drops, run_ops, spec_ops, rooms-refine}
use drogon_r.Ws.Session.{sends, queue_frame, open_session, ws_close, room_broadcast}
use drogon_r.Ws.Race.{Race, frames_of, queues, late_frames}
use drogon_r.Ws.Race as Race
use drogon_r.Ws.Session.Laws.{frames, gone, room_broadcast_lem}
use drogon_r.Ws.Controller.{
  Outside, handle_new_connection, handle_connection_closed, live_at, limited_by, enter_session,
  fetch_add_live,
}
use drogon_r.Ws.Controller.Laws.{connect_refused, closed_cpp}
use drogon_r.Ws.Pump.{RCall, r_send, drain_ws_events}
use drogon_r.Ws.Pump.Laws.{calls_of, drain_ws_events_calls}
use drogon_r.Ws.Reaper.{reap_expired_sessions, arm_interval}
use drogon_r.Ws.Reaper.Scan.{IsOverdue, IsDue, Occurs, reap-closes}
use drogon_r.Ws.Reaper.Laws.{arm_interval_cases, HasNoLimit, IsTimely}
use drogon_r.Ws.Routes.{clear_all_ws_sessions}
use drogon_r.Ws.Routes.Laws.{add_routes, clear_all-balance}
use drogon_r.Ws.Counters.{holders, occupants, cap_at}
use drogon_r.Ws.Traffic.{
  Traffic, here, next, reserves, enters, reserve, fewer, guards_at, limit_at, session_at,
}
use drogon_r.Ws.Capacity.{capacity_kept}

abbrev native : WsRoute
native = record {
  path = codes "/n";
  on_connect = none;
  on_message = none;
  on_close = none;
  cpp_fn = some 7;
  max_conns = 1;
  idle_ms = 100;
  lifetime_ms = 0;
  live = 1;
}

abbrev hooked : WsRoute
hooked = record native {
  path = codes "/h";
  on_connect = some 3;
  cpp_fn = none;
  max_conns = 0;
  live = 0;
}

abbrev session : WsSession
session = record {
  route_id = some 0;
  conn = 40;
  loop = some 1;
  closing = false;
  cpp_fn = some 7;
  idle_ms = 100;
  lifetime_ms = 0;
  connect_ms = 0;
  last_send_ms = 10;
  live_counter = some 0;
  counted = true;
}

abbrev busy : World
busy = record {
  routes = native ∷ hooked ∷ [];
  sessions = (1, session) ∷ [];
  events =
      record { type = connect; conn_id = 2; route_id = some 1; text = []; binary = false } ∷ [];
  next_id = 3;
  rooms = (codes "lobby", 1 ∷ 9 ∷ []) ∷ [];
  contexts = (40, 1) ∷ [];
  tasks = [];
  backend_calls = [];
  refused = [];
  wakes = 0;
  hook_calls = [];
  preserved = [];
  reaper_stop = false;
  reaper_armed = false;
}

abbrev outside : Outside
outside = record { connected = λ c. true; now = 20; script = sends 1 (codes "bye") false ∷ [] }

at_n : route_id_for_path busy.routes (codes "/n") ≡ some 0
unfolding route_id_for_path route_index bytes_eq
at_n = refl

connect_refused_example :
    handle_new_connection outside (codes "/n") 41 (some 1) busy ≡ record busy { refused = 41 ∷ [] }
connect_refused_example =
    connect_refused outside (codes "/n") 41 0 (some 1) busy native at_n refl (λ e. cc) (omega arith)
      (omega arith)

context_40 : find 40 busy.contexts ≡ some 1
unfolding find
context_40 = refl

session_1 : find 1 busy.sessions ≡ some session
unfolding find
session_1 = refl

closed_cpp_example :
    ((handle_connection_closed outside 40 busy).backend_calls
      ≡ record { fn = 7; handle = 1; event = close; msg = []; binary = false } ∷ [])
    × (find 1 (handle_connection_closed outside 40 busy).sessions ≡ none)
    × (is_in 1 (codes "lobby") (handle_connection_closed outside 40 busy).rooms ≡ false)
closed_cpp_example =
    closed_cpp outside 40 1 7 busy session (codes "lobby") context_40 session_1 refl

abbrev greets : World → HookCall → List RCall
greets w c = r_send 1 (codes "hello") false ∷ []

drain_ws_events_calls_example :
    ((drain_ws_events greets busy).hook_calls ≡ busy.hook_calls ++ calls_of busy.events busy.routes)
    × ((drain_ws_events greets busy).events ≡ [])
drain_ws_events_calls_example = drain_ws_events_calls greets busy

clear_all-balance_example :
    times 3
      (clear_all_ws_sessions
        (add_routes (hooked ∷ native ∷ []) (record busy { routes = [] }))).preserved
    ≡ times 3 busy.preserved
clear_all-balance_example =
    clear_all-balance (hooked ∷ native ∷ []) (record busy { routes = [] }) refl 3

room_broadcast_lem_example :
    ((room_broadcast (codes "lobby") (codes "x") false busy).0 ≡ record busy {
      tasks = busy.tasks ++ frames (members (codes "lobby") busy.rooms) (codes "x") false busy;
    })
    × ((room_broadcast (codes "lobby") (codes "x") false busy).1
        ≡ length (frames (members (codes "lobby") busy.rooms) (codes "x") false busy)
          + gone (members (codes "lobby") busy.rooms) busy)
room_broadcast_lem_example = room_broadcast_lem (codes "lobby") (codes "x") false busy

abbrev race : Race
race = record { world = busy; pending = session ∷ [] }

-- A send that has passed its tests queues behind the close.
abbrev raced : Race
raced = record {
  world = queue_frame 20 1 session (codes "x") false (ws_close 1 busy);
  pending = [];
}

late_frames_example :
    (open_session 1 raced.world ≡ none)
    × (frames_of raced.world + length raced.pending ≡ frames_of race.world + length race.pending)
late_frames_example =
    late_frames 1 race raced (Race.next Race.here (queues 20 [] session [] (codes "x") false refl))

reap-closes_example :
    (IsOverdue 200 session
        × (find 1 (reap_expired_sessions 200 busy).sessions
            ≡ some (record session { closing = true }))
        × ((session.loop ≡ none)
            ⊎ Occurs (shutdown_conn session.conn) (reap_expired_sessions 200 busy).tasks)
      ⊎ (¬ IsOverdue 200 session)
        × (find 1 (reap_expired_sessions 200 busy).sessions ≡ some session))
    × ((queued : List LoopTask) × ((reap_expired_sessions 200 busy).tasks ≡ busy.tasks ++ queued)
        × All (IsDue 200 busy.sessions) queued)
reap-closes_example = reap-closes 200 1 busy session refl session_1

arm_interval_cases_example :
    ((arm_interval busy.routes ≡ none) × All HasNoLimit busy.routes)
    ⊎ ((t : ℕ) × (arm_interval busy.routes ≡ some t)
        × (¬ All HasNoLimit busy.routes)
        × (50000 ≤ t)
        × (t ≤ 1000000)
        × All (IsTimely t) busy.routes)
arm_interval_cases_example = arm_interval_cases busy.routes

abbrev quiet : Traffic
quiet = record {
  world = record busy { routes = record native { live = 0 } ∷ hooked ∷ []; sessions = [] };
  taken = λ i. 0;
  doomed = λ i. 0;
}

-- A connect to the first route has been counted.
abbrev counted : Traffic
counted = reserve 0 (guards_at quiet.world.routes (some 0)) quiet

abbrev entered : Traffic
entered = record counted {
  world = enter_session (session_at 5 (some 0) 41 (some 1) counted.world.routes) counted.world;
  taken = fewer 0 counted.taken;
}

first_limit : limit_at quiet.world.routes (some 0) ≡ some 0
unfolding limited_by guards_for_route cpp_fn_for_route
first_limit = refl

then_limit : limit_at counted.world.routes (some 0) ≡ some 0
unfolding limited_by guards_for_route cpp_fn_for_route reserve fetch_add_live
then_limit = refl

one_taken : 0 < counted.taken 0
unfolding reserve fetch_add_live guards_for_route cpp_fn_for_route
one_taken = omega arith

capacity_kept_example :
    (live_at 0 entered.world.routes
      ≡ holders 0 entered.world.sessions + entered.taken 0 + entered.doomed 0)
    × ((cap_at 0 entered.world.routes ≡ 0)
        ⊎ (occupants 0 entered.world.sessions + entered.taken 0 ≤ cap_at 0 entered.world.routes))
capacity_kept_example = capacity_kept 0 quiet entered refl refl refl refl (
    next (next here (reserves (some 0) 0 first_limit))
      (enters 5 41 0 (some 0) (some 1) then_limit one_taken))

abbrev evening : List RoomOp
evening = joins (codes "lobby") 5 ∷ leaves (codes "lobby") 1 ∷ drops 9 ∷ []

rooms-refine_example :
    is_in 5 (codes "lobby") (run_ops evening busy.rooms)
    ≡ spec_ops evening (λ x r. is_in x r busy.rooms) 5 (codes "lobby")
rooms-refine_example =
    rooms-refine evening busy.rooms (λ x r. is_in x r busy.rooms) (tt, tt) (λ x r. refl) 5
      (codes "lobby")
