-- ===== src/Ws.antt =====
-- src/ws_session.cpp: the WebSocket bridge. This file holds the state that the I/O threads and the
-- main R thread share, and the lookups in it; each child holds one part of the operations. A closure
-- or a C function is known by a number, a connection of Drogon too.
pub mod Session
pub mod Rooms
pub mod Controller
pub mod Pump
pub mod Reaper
pub mod Routes
pub mod Entry
pub mod Counters
pub mod Slots
pub mod Traffic
pub mod Capacity
pub mod Race
use drogon_r.Prelude.{
  ℕ, suc, ◌+◌, Bool, true, false, List, [], ◌∷◌, ◌++◌, Option, none, some, ◌==◌, if◌then◌else◌,
  get_elem?, ◌>>=◌,
}
use drogon_r.Prelude.Bytes.{Bytes, bytes_eq}
use drogon_r.Prelude.Table.{find}

-- A hook is `none` where the source holds `R_NilValue`. Each route owns one `live` counter, to which
-- the sessions of the route keep a shared pointer: here they keep the route's index.
pub record WsRoute : Type 0 where
  pub path : Bytes
  pub on_connect : Option ℕ
  pub on_message : Option ℕ
  pub on_close : Option ℕ
  pub cpp_fn : Option ℕ
  pub max_conns : ℕ
  pub idle_ms : ℕ
  pub lifetime_ms : ℕ
  pub live : ℕ

pub record WsSession : Type 0 where
  pub route_id : Option ℕ
  pub conn : ℕ
  pub loop : Option ℕ
  pub closing : Bool
  pub cpp_fn : Option ℕ
  pub idle_ms : ℕ
  pub lifetime_ms : ℕ
  pub connect_ms : ℕ
  pub last_send_ms : ℕ
  pub live_counter : Option ℕ
  pub counted : Bool

pub data WsEventType : Type 0 where
  connect message close : WsEventType

pub record WsEvent : Type 0 where
  pub type : WsEventType
  pub conn_id : ℕ
  pub route_id : Option ℕ
  pub text : Bytes
  pub binary : Bool

-- What `queueInLoop` leaves for a connection's loop. Both are done only if the connection still is.
pub data LoopTask : Type 0 where
  send_frame : ℕ → Bytes → Bool → LoopTask
  shutdown_conn : ℕ → LoopTask

-- A call of a route's C++ handler: the function, the connection's id and the event.
pub record BackendCall : Type 0 where
  pub fn : ℕ
  pub handle : ℕ
  pub event : WsEventType
  pub msg : Bytes
  pub binary : Bool

-- A call of an R hook on the main thread.
pub record HookCall : Type 0 where
  pub hook : ℕ
  pub type : WsEventType
  pub conn_id : ℕ
  pub text : Bytes
  pub binary : Bool

pub record World : Type 0 where
  pub routes : List WsRoute
  pub sessions : List (ℕ × WsSession)
  pub events : List WsEvent
  pub next_id : ℕ
  pub rooms : List (Bytes × List ℕ)
  -- The id that a connection carries as its context.
  pub contexts : List (ℕ × ℕ)
  pub tasks : List LoopTask
  pub backend_calls : List BackendCall
  -- Connections that were refused with close code 1013.
  pub refused : List ℕ
  -- Calls of `notifyDispatcher`.
  pub wakes : ℕ
  -- The hooks that ran, and the closures that are kept from R's garbage collector.
  pub hook_calls : List HookCall
  pub preserved : List ℕ
  pub reaper_stop : Bool
  pub reaper_armed : Bool

unfoldable pub find_ws_session : ℕ → World → Option WsSession
find_ws_session id w = find id w.sessions

unfoldable pub route_index : ℕ → List WsRoute → Bytes → Option ℕ
route_index i [] path = none
route_index i (r ∷ rs) path = if bytes_eq r.path path then some i else route_index (suc i) rs path

-- `none` is the source's -1.
unfoldable pub route_id_for_path : List WsRoute → Bytes → Option ℕ
unfolding route_index bytes_eq
route_id_for_path routes path = route_index 0 routes path

abbrev pub route_at : List WsRoute → Option ℕ → Option WsRoute
route_at routes none = none
route_at routes (some i) = get_elem? routes i

unfoldable pub cpp_fn_for_route : List WsRoute → Option ℕ → Option ℕ
cpp_fn_for_route routes id = elim (route_at routes id) [ none ↦ none | some r ↦ r.cpp_fn ]

-- `live` is the counter's index, `none` for a null pointer.
pub record WsGuards : Type 0 where
  pub max_conns : ℕ
  pub idle_ms : ℕ
  pub lifetime_ms : ℕ
  pub live : Option ℕ

abbrev pub no_guards : WsGuards
no_guards = record { max_conns = 0; idle_ms = 0; lifetime_ms = 0; live = none }

unfoldable pub guards_for_route : List WsRoute → Option ℕ → WsGuards
guards_for_route routes id = elim (route_at routes id) [
  | none ↦ no_guards
  | some r ↦ record {
    max_conns = r.max_conns;
    idle_ms = r.idle_ms;
    lifetime_ms = r.lifetime_ms;
    live = id;
  }
]
