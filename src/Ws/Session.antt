-- ===== src/Ws/Session.antt =====
-- One connection in src/ws_session.cpp: eraseWsSession, sendToConn, the three callbacks of the C++
-- ABI, and the .Call entry points that send, close and work on rooms.
pub mod Laws
use drogon_r.Prelude.{
  ℕ, suc, ◌+◌, ◌-◌, Bool, true, false, List, [], ◌∷◌, ◌++◌, Option, none, some, ◌==◌, if◌then◌else◌,
  length, update_at,
}
use drogon_r.Prelude.Bytes.{Bytes}
use drogon_r.Prelude.Table.{find, erase, modify}
use drogon_r.Ws.{WsRoute, WsSession, World, LoopTask, send_frame, shutdown_conn, find_ws_session}
use drogon_r.Ws.Rooms.{room_join, room_leave, drop_from_all_rooms, members}

abbrev pub add_live : WsRoute → WsRoute
add_live r = record r { live = r.live + 1 }

abbrev pub sub_live : WsRoute → WsRoute
sub_live r = record r { live = r.live - 1 }

-- `sess->live_counter && sess->counted.exchange(false)`, then the counter is given back.
unfoldable pub release_slot : WsSession → List WsRoute → List WsRoute
release_slot s routes = elim s.live_counter [
  | none ↦ routes
  | some i ↦ if s.counted then update_at i sub_live routes else routes
]

unfoldable pub erase_ws_session : ℕ → World → World
unfolding release_slot
erase_ws_session id w =
    let rooms = drop_from_all_rooms id w.rooms in
    elim (find_ws_session id w) [
      | none ↦ record w { rooms = rooms }
      | some s ↦ record w {
        routes = release_slot s w.routes;
        sessions = erase id w.sessions;
        rooms = rooms;
      }
    ]

-- The session of an id, if it is there, is not closing and has a loop.
unfoldable pub open_session : ℕ → World → Option WsSession
open_session id w = elim (find_ws_session id w) [
  | none ↦ none
  | some s ↦ if s.closing then none else elim s.loop [ none ↦ none | some l ↦ some s ]
]

-- The second step of sendToConn behind its tests.
abbrev pub push_frame : WsSession → Bytes → Bool → World → World
push_frame s bytes binary w = record w { tasks = w.tasks ++ send_frame s.conn bytes binary ∷ [] }

-- The tests and the frame with no other thread between them.
unfoldable pub send_to_conn : ℕ → Bytes → Bool → World → World
unfolding open_session
send_to_conn id bytes binary w = elim (open_session id w) [
  | none ↦ w
  | some s ↦ push_frame s bytes binary w
]

abbrev pub touch : ℕ → WsSession → WsSession
touch now s = record s { last_send_ms = now }

abbrev pub set_closing : WsSession → WsSession
set_closing s = record s { closing = true }

-- wsCppSend in its two steps, between which other threads run: the tests, and the frame with the
-- time of the send. Whether Drogon has the connection open is the argument `connected`.
unfoldable pub test_send : (ℕ → Bool) → ℕ → World → Option WsSession
unfolding open_session
test_send connected id w = elim (open_session id w) [
  | none ↦ none
  | some s ↦ if connected s.conn then some s else none
]

unfoldable pub queue_frame : ℕ → ℕ → WsSession → Bytes → Bool → World → World
queue_frame now id s bytes binary w = record w {
  tasks = w.tasks ++ send_frame s.conn bytes binary ∷ [];
  sessions = modify id (touch now) w.sessions;
}

-- The two steps with no other thread between them; `false` is -1.
unfoldable pub ws_cpp_send : (ℕ → Bool) → ℕ → ℕ → Bytes → Bool → World → World × Bool
unfolding test_send queue_frame
ws_cpp_send connected now id bytes binary w = elim (test_send connected id w) [
  | none ↦ (w, false)
  | some s ↦ (queue_frame now id s bytes binary w, true)
]

-- wsCppClose, and drogonR_ws_close behind its type checks.
unfoldable pub ws_close : ℕ → World → World
ws_close id w = elim (find_ws_session id w) [
  | none ↦ w
  | some s ↦ elim s.loop [
    | none ↦ w
    | some l ↦ record w {
      sessions = modify id set_closing w.sessions;
      tasks = w.tasks ++ shutdown_conn s.conn ∷ [];
    }
  ]
]

unfoldable pub ws_cpp_is_connected : (ℕ → Bool) → ℕ → World → Bool
ws_cpp_is_connected connected id w = elim (find_ws_session id w) [
  | none ↦ false
  | some s ↦ if s.closing then false else connected s.conn
]

-- The loop of roomBroadcast over the ids, which counts the members.
unfoldable pub send_all : List ℕ → Bytes → Bool → World → World
unfolding send_to_conn
send_all [] bytes binary w = w
send_all (id ∷ ids) bytes binary w = send_all ids bytes binary (send_to_conn id bytes binary w)

unfoldable pub room_broadcast : Bytes → Bytes → Bool → World → World × ℕ
unfolding send_all
room_broadcast room bytes binary w =
    let ids = members room w.rooms in (send_all ids bytes binary w, length ids)

unfoldable pub ws_join : Bytes → ℕ → World → World
ws_join room id w = record w { rooms = room_join room id w.rooms }

unfoldable pub ws_leave : Bytes → ℕ → World → World
ws_leave room id w = record w { rooms = room_leave room id w.rooms }

-- What a C++ handler calls while it runs, on any handles that it has kept.
pub data Callback : Type 0 where
  sends : ℕ → Bytes → Bool → Callback
  closes : ℕ → Callback
  asks : ℕ → Callback

unfoldable pub run_callback : (ℕ → Bool) → ℕ → Callback → World → World
unfolding ws_cpp_send ws_close
run_callback connected now (sends id bytes binary) w =
    (ws_cpp_send connected now id bytes binary w).0
run_callback connected now (closes id) w = ws_close id w
run_callback connected now (asks id) w = w

unfoldable pub run_callbacks : (ℕ → Bool) → ℕ → List Callback → World → World
unfolding run_callback
run_callbacks connected now [] w = w
run_callbacks connected now (c ∷ cs) w =
    run_callbacks connected now cs (run_callback connected now c w)
