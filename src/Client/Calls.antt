-- ===== src/Client/Calls.antt =====
-- drogonR_ws_client_send, drogonR_ws_client_close and drogonR_ws_shutdown of src/ws_client.cpp.
use drogon_r.Prelude.{ℕ, Bool, true, false, List, [], ◌∷◌, ◌++◌, Option, none, some, if◌then◌else◌}
use drogon_r.Prelude.Bytes.{Bytes}
use drogon_r.Prelude.Table.{modify}
use drogon_r.Prelude.Sexp.{id_of, is_true, Sexp, Real}
use drogon_r.Ws.Routes.{single_string}
use drogon_r.Client.{
  ClientWorld, Order, WsClient, find_client, quit_loop, release_client_hooks, stop,
}

-- The client of an id, if it is there, is not closing and has a loop.
unfoldable pub sendable : ℕ → ClientWorld → Option (WsClient × ℕ)
unfolding find_client
sendable id w = elim (find_client id w) [
  | none ↦ none
  | some c ↦ if c.closing then none else elim c.loop [ none ↦ none | some l ↦ some (c, l) ]
]

unfoldable pub send_to_client : ℕ → Bytes → Bool → ClientWorld → ClientWorld × Bool
unfolding sendable
send_to_client id buf binary w = elim (sendable id w) [
  | none ↦ (w, false)
  | some (c, l) ↦ (
    record w {
      tasks = w.tasks ++ record { loop = l; client = c.client; buf = buf; binary = binary } ∷ [];
    },
    true,
  )
]

-- The result of an entry point: `none` is an R error.
unfoldable pub ws_client_send :
    (Real → ℕ) → Sexp → Sexp → Sexp → ClientWorld → ClientWorld × Option Bool
unfolding send_to_client
ws_client_send to_uint64 client_id msg binary w = elim (id_of to_uint64 client_id) [
  | none ↦ (w, none)
  | some id ↦ elim (single_string msg) [
    | none ↦ (w, none)
    | some buf ↦ let (v, sent) = send_to_client id buf (is_true binary) w in (v, some sent)
  ]
]

abbrev pub set_closing : WsClient → WsClient
set_closing c = record c { closing = true }

abbrev pub stop_order : WsClient → List Order
stop_order c = elim c.client [ none ↦ [] | some handle ↦ stop handle ∷ [] ]

unfoldable pub close_client : ℕ → ClientWorld → ClientWorld
unfolding find_client
close_client id w = elim (find_client id w) [
  | none ↦ w
  | some c ↦ record w {
    clients = modify id set_closing w.clients;
    orders = w.orders ++ stop_order c;
  }
]

unfoldable pub ws_client_close : (Real → ℕ) → Sexp → ClientWorld → ClientWorld × Bool
unfolding close_client
ws_client_close to_uint64 client_id w = elim (id_of to_uint64 client_id) [
  | none ↦ (w, false)
  | some id ↦ (close_client id w, true)
]

-- The loops of shutdownWsClients over the clients.
unfoldable pub stop_all : List (ℕ × WsClient) → List Order
stop_all [] = []
stop_all ((id, c) ∷ m) = stop_order c ++ stop_all m

unfoldable pub release_all : List (ℕ × WsClient) → List ℕ → List ℕ
unfolding release_client_hooks
release_all [] kept = kept
release_all ((id, c) ∷ m) kept = release_all m (release_client_hooks c kept)

abbrev pub quit_order : Option ℕ → List Order
quit_order none = []
quit_order (some l) = quit_loop l ∷ []

-- The clients that a running closure still shares are not kept track of: they are out of the table.
unfoldable pub shutdown_ws_clients : ClientWorld → ClientWorld
unfolding stop_all release_all
shutdown_ws_clients w = record w {
  orders = w.orders ++ stop_all w.clients ++ quit_order w.loop;
  loop = none;
  preserved = release_all w.clients w.preserved;
  clients = [];
  events = [];
}
