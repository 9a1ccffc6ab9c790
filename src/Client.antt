-- ===== src/Client.antt =====
-- src/ws_client.cpp: the outbound WebSocket clients. A closure is known by a number, so is a client
-- of Drogon and a loop thread. This file holds the state and what the operations share.
pub mod Connect
pub mod Calls
pub mod Pump
pub mod Laws
pub mod Invariant
pub mod Runs
pub mod Closing
use drogon_r.Prelude.{
  ℕ, suc, ◌+◌, Bool, true, false, ◌&&◌, List, [], ◌∷◌, ◌++◌, Option, none, some, ◌==◌,
  if◌then◌else◌, ◌>>=◌, length,
}
use drogon_r.Prelude.Bytes.{Bytes, codes}
use drogon_r.Prelude.Table.{find, modify}
use drogon_r.Prelude.Sexp.{id_of, is_true, Sexp, Real, strings, reals, logicals, ℤ, pos, char}
use drogon_r.Prelude.Preserved.{preserve_hook, release_hook}
use drogon_r.Dispatch.Request.{PendingRequest}
use drogon_r.Dispatch.Watch.{Watch, Process, ensure_dispatcher_running}
use drogon_r.Queue.{notify_dispatcher}
use drogon_r.Ws.Routes.{single_string, as_closure}

-- A hook is `none` where the source holds `R_NilValue` or a null pointer.
pub record WsClient : Type 0 where
  pub client : Option ℕ
  pub loop : Option ℕ
  pub closing : Bool
  pub on_message : Option ℕ
  pub on_open : Option ℕ
  pub on_close : Option ℕ

pub data ClientEventType : Type 0 where
  open_event message_event close_event : ClientEventType

pub record ClientEvent : Type 0 where
  pub type : ClientEventType
  pub client_id : ℕ
  pub message : Bytes
  pub binary : Bool
  pub reason : Bytes
  pub code : ℕ

-- A frame that `queueInLoop` leaves for a client's loop: the loop, the client, the text, its kind.
pub record ClientTask : Type 0 where
  pub loop : ℕ
  pub client : Option ℕ
  pub buf : Bytes
  pub binary : Bool

-- What the main thread asks of a client of Drogon, in order.
pub data Order : Type 0 where
  connect_to_server : ℕ → Bytes → Order
  stop : ℕ → Order
  quit_loop : ℕ → Order

-- A call of an R hook, with what it is given.
pub record ClientCall : Type 0 where
  pub hook : ℕ
  pub type : ClientEventType
  pub client_id : ℕ
  pub text : Bytes
  pub binary : Bool
  pub code : ℕ

pub record ClientWorld : Type 0 where
  pub clients : List (ℕ × WsClient)
  pub events : List ClientEvent
  pub next_id : ℕ
  -- The loop thread, and how many were made.
  pub loop : Option ℕ
  pub loops_made : ℕ
  pub tasks : List ClientTask
  pub orders : List Order
  pub hook_calls : List ClientCall
  -- The closures that are kept from R's garbage collector.
  pub preserved : List ℕ
  -- The wake pipe, that the HTTP server shares.
  pub watch : Watch PendingRequest

unfoldable pub find_client : ℕ → ClientWorld → Option WsClient
find_client id w = find id w.clients

unfoldable pub enqueue_client_event : ClientEvent → ClientWorld → ClientWorld
unfolding notify_dispatcher
enqueue_client_event ev w = record w {
  events = w.events ++ ev ∷ [];
  watch = record w.watch { queue = notify_dispatcher w.watch.queue };
}

-- The loop of `g_wsClientLoop`, behind ensureClientLoop.
abbrev pub loop_of : ClientWorld → ℕ
loop_of w = elim w.loop [ none ↦ w.loops_made | some l ↦ l ]

unfoldable pub ensure_client_loop : ClientWorld → ClientWorld
ensure_client_loop w = elim w.loop [
  | none ↦ record w { loop = some w.loops_made; loops_made = suc w.loops_made }
  | some l ↦ w
]

unfoldable pub ws_client_count : ClientWorld → ℕ
ws_client_count w = length w.clients

unfoldable pub preserve_client_hooks : WsClient → List ℕ → List ℕ
preserve_client_hooks c kept =
    preserve_hook c.on_close (preserve_hook c.on_open (preserve_hook c.on_message kept))

unfoldable pub release_client_hooks : WsClient → List ℕ → List ℕ
release_client_hooks c kept =
    release_hook c.on_close (release_hook c.on_open (release_hook c.on_message kept))

-- `emplace` leaves an entry of the same key.
unfoldable pub emplace : ℕ → WsClient → List (ℕ × WsClient) → List (ℕ × WsClient)
emplace id c m = elim (find id m) [ none ↦ (id, c) ∷ m | some old ↦ m ]
