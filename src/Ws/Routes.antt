-- ===== src/Ws/Routes.antt =====
-- The route table of src/ws_session.cpp: addWsRoute, wsRouteCount, installWsRoutes, drogonR_register_ws
-- and clearAllWsSessions. `Rf_error` is `none`.
pub mod Laws
use drogon_r.Prelude.{
  ℕ, suc, ◌+◌, Bool, true, false, List, [], ◌∷◌, ◌++◌, Option, none, some, ◌==◌, ltb, if◌then◌else◌,
  length,
}
use drogon_r.Prelude.Bytes.{Bytes}
use drogon_r.Prelude.Sexp.{Sexp, strings, closure, RString, char}
use drogon_r.Prelude.Preserved.{preserve_hook, release_hook}
use drogon_r.Ws.{WsRoute, World}
use drogon_r.Ws.Reaper.{arm_ws_reaper}

unfoldable pub add_ws_route : WsRoute → World → World × ℕ
add_ws_route r w = (
  record w {
    routes = w.routes ++ r ∷ [];
    preserved =
        preserve_hook r.on_close
          (preserve_hook r.on_message (preserve_hook r.on_connect w.preserved));
  },
  length w.routes,
)

unfoldable pub ws_route_count : World → ℕ
ws_route_count w = length w.routes

-- A single string, as the .Call entry points want it.
unfoldable pub single_string : Sexp → Option Bytes
single_string (strings a (s ∷ [])) = some (char s)
single_string x = none

-- A closure, or nothing.
unfoldable pub as_closure : Sexp → Option ℕ
as_closure (closure c) = some c
as_closure x = none

unfoldable pub register_ws : Bool → Sexp → Sexp → Sexp → Sexp → World → Option (World × ℕ)
unfolding single_string as_closure add_ws_route
register_ws running path on_connect on_message on_close w =
    if running then none else elim (single_string path) [
      | none ↦ none
      | some p ↦ some (
          add_ws_route
            (record {
              path = p;
              on_connect = as_closure on_connect;
              on_message = as_closure on_message;
              on_close = as_closure on_close;
              cpp_fn = none;
              max_conns = 0;
              idle_ms = 0;
              lifetime_ms = 0;
              live = 0;
            })
            w)
    ]

-- The paths that Drogon is given, and the reaper.
unfoldable pub install_ws_routes : World → World
unfolding arm_ws_reaper
install_ws_routes w = elim w.routes [ [] ↦ w | r ∷ rs ↦ arm_ws_reaper w ]

unfoldable pub release_routes : List WsRoute → List ℕ → List ℕ
release_routes [] kept = kept
release_routes (r ∷ rs) kept =
    release_routes rs
      (release_hook r.on_close (release_hook r.on_message (release_hook r.on_connect kept)))

unfoldable pub clear_all_ws_sessions : World → World
unfolding release_routes
clear_all_ws_sessions w = record w {
  sessions = [];
  events = [];
  rooms = [];
  routes = [];
  preserved = release_routes w.routes w.preserved;
  reaper_stop = true;
  reaper_armed = false;
}
