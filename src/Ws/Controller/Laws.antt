-- ===== src/Ws/Controller/Laws.antt =====
-- What a connect, a message and a close lead to in src/ws_session.cpp.
use drogon_r.Prelude.{
  ℕ, zero, suc, ◌≤◌, ◌<◌, ◌≡◌, ◌≢◌, refl, sym, ap, ◌∙◌, Bool, true, false, List, [], ◌∷◌, ◌++◌,
  Option, none, some, arith, ltb, update_at, get_elem?, get_elem?-update_self,
}
use drogon_r.Prelude.Bytes.{Bytes}
use drogon_r.Prelude.Table.{find, modify}
use drogon_r.Ws.{
  WsRoute, WsSession, close, World, WsGuards, guards_for_route, cpp_fn_for_route, route_id_for_path,
  find_ws_session,
}
use drogon_r.Ws.Rooms.{drop_from_all_rooms}
use drogon_r.Ws.Rooms.Laws.{is_in, is_in-drop}
use drogon_r.Ws.Session.{
  Callback, sends, closes, asks, run_callback, run_callbacks, ws_cpp_send, ws_close, add_live,
  sub_live, set_closing, erase_ws_session,
}
use drogon_r.Ws.Session.Laws.{find-erase_session}
use drogon_r.Ws.Controller.{
  Outside, dispatch_cpp, guards_of, limited_by, live_at, fetch_add_live, fetch_sub_live, refuse,
  open_connection, handle_new_connection, handle_connection_closed,
}

-- What the callbacks of a C++ handler leave alone.
record Quiet (w v : World) : Type 0 where
  calls : v.backend_calls ≡ w.backend_calls
  events : v.events ≡ w.events
  ids : v.next_id ≡ w.next_id
  refused : v.refused ≡ w.refused

send-Quiet :
    (connected : ℕ → Bool) (now id : ℕ) (bytes : Bytes) (binary : Bool) (w : World)
    → Quiet w (ws_cpp_send connected now id bytes binary w).0
unfolding ws_cpp_send
send-Quiet connected now id bytes binary w = ground arith

close-Quiet : (id : ℕ) (w : World) → Quiet w (ws_close id w)
unfolding ws_close
close-Quiet id w = ground arith

then-Quiet : {u v w : World} → Quiet u v → Quiet v w → Quiet u w
then-Quiet a b = record {
  calls = b.calls ∙ a.calls;
  events = b.events ∙ a.events;
  ids = b.ids ∙ a.ids;
  refused = b.refused ∙ a.refused;
}

run_callbacks-Quiet :
    (connected : ℕ → Bool) (now : ℕ) (cs : List Callback) (w : World)
    → Quiet w (run_callbacks connected now cs w)
unfolding run_callbacks run_callback
run_callbacks-Quiet connected now [] w = record {
  calls = refl;
  events = refl;
  ids = refl;
  refused = refl;
}
run_callbacks-Quiet connected now (sends id bytes binary ∷ cs) w =
    then-Quiet (send-Quiet connected now id bytes binary w) (run_callbacks-Quiet connected now cs _)
run_callbacks-Quiet connected now (closes id ∷ cs) w =
    then-Quiet (close-Quiet id w) (run_callbacks-Quiet connected now cs _)
run_callbacks-Quiet connected now (asks id ∷ cs) w = run_callbacks-Quiet connected now cs w

sub-add : (i : ℕ) (rs : List WsRoute) → update_at i sub_live (update_at i add_live rs) ≡ rs
sub-add i [] = refl
sub-add zero (r ∷ rs) = ap (λ n. record r { live = n } ∷ rs) (omega arith)
sub-add (suc i) (r ∷ rs) = ap (λ t. r ∷ t) (sub-add i rs)

over_cap :
    (i : ℕ) (rs : List WsRoute) (m : ℕ) (r : WsRoute)
    → get_elem? rs i ≡ some r
    → m ≤ r.live
    → ltb m (live_at i (update_at i add_live rs)) ≡ true
over_cap i rs m r e h = rw (get_elem?-update_self i add_live rs e, live_at) (ground arith)

under_cap :
    (i : ℕ) (rs : List WsRoute) (m : ℕ) (r : WsRoute)
    → get_elem? rs i ≡ some r
    → r.live < m
    → ltb m (live_at i (update_at i add_live rs)) ≡ false
under_cap i rs m r e h = rw (get_elem?-update_self i add_live rs e, live_at) (ground arith)

open_connection-refused :
    (o : Outside) (route_id fn : Option ℕ) (g : WsGuards) (conn i : ℕ) (loop : Option ℕ) (w : World)
    (r : WsRoute)
    → limited_by fn g ≡ some i
    → get_elem? w.routes i ≡ some r
    → g.max_conns ≤ r.live
    → open_connection o route_id fn g conn loop w ≡ refuse conn w
unfolding open_connection fetch_add_live fetch_sub_live
open_connection-refused o route_id fn g conn i loop w r limited found full =
    rw (limited, open_connection)
      (rw (over_cap i w.routes g.max_conns r found full)
        (ap (λ rs. refuse conn (record w { routes = rs })) (sub-add i w.routes)))

limited :
    (fn : Option ℕ) (g : WsGuards) (i : ℕ)
    → fn ≢ none
    → 0 < g.max_conns
    → g.live ≡ some i
    → limited_by fn g ≡ some i
unfolding limited_by
limited none g i h p e = absurd (h refl)
limited (some f) g i h p e = ground arith

guards_found :
    (rs : List WsRoute) (fn : Option ℕ) (i : ℕ) (r : WsRoute)
    → fn ≢ none
    → get_elem? rs i ≡ some r
    → ((guards_of rs fn (some i)).max_conns ≡ r.max_conns)
      × ((guards_of rs fn (some i)).live ≡ some i)
unfolding guards_for_route
guards_found rs none i r h e = absurd (h refl)
guards_found rs (some f) i r h e = ground arith

-- A connect to a route with a C++ handler and a cap, whose sessions have reached the cap, is refused:
-- the connection is told so, and nothing else has changed, the counter included.
pub connect_refused :
    (o : Outside) (path : Bytes) (conn i : ℕ) (loop : Option ℕ) (w : World) (r : WsRoute)
    → route_id_for_path w.routes path ≡ some i
    → get_elem? w.routes i ≡ some r
    → r.cpp_fn ≢ none
    → 0 < r.max_conns
    → r.max_conns ≤ r.live
    → handle_new_connection o path conn loop w ≡ record w { refused = w.refused ++ conn ∷ [] }
unfolding handle_new_connection cpp_fn_for_route refuse
connect_refused o path conn i loop w r at_path found native capped full =
    let fn_is : cpp_fn_for_route w.routes (some i) ≡ r.cpp_fn = rw (found, cpp_fn_for_route) in
    let real : cpp_fn_for_route w.routes (some i) ≢ none = λ e. native (sym fn_is ∙ e) in
    let (cap, slot) = guards_found w.routes (cpp_fn_for_route w.routes (some i)) i r real found in
    rw (at_path, handle_new_connection)
      (open_connection-refused o (some i) (cpp_fn_for_route w.routes (some i))
        (guards_of w.routes (cpp_fn_for_route w.routes (some i)) (some i)) conn i loop w r
        (limited _ _ i real (rw cap capped) slot) found (rw cap full))

erase-parts :
    (id : ℕ) (w : World)
    → ((erase_ws_session id w).backend_calls ≡ w.backend_calls)
      × ((erase_ws_session id w).rooms ≡ drop_from_all_rooms id w.rooms)
unfolding erase_ws_session
erase-parts id w = ground arith

-- What a connection's last call of its C++ handler starts from.
abbrev told_close : ℕ → ℕ → World → World
told_close id fn w = record w {
  sessions = modify id set_closing w.sessions;
  backend_calls =
      w.backend_calls
      ++ record { fn = fn; handle = id; event = close; msg = []; binary = false } ∷ [];
}

close_unfolds :
    (o : Outside) (conn id fn : ℕ) (w : World) (s : WsSession)
    → find conn w.contexts ≡ some id
    → find id w.sessions ≡ some s
    → s.cpp_fn ≡ some fn
    → handle_connection_closed o conn w
      ≡ erase_ws_session id (run_callbacks o.connected o.now o.script (told_close id fn w))
unfolding handle_connection_closed dispatch_cpp find_ws_session
close_unfolds o conn id fn w s at_conn at_id native =
    rw (at_conn, handle_connection_closed) (rw (at_id, handle_connection_closed) (simp native))

-- The close of a connection that a C++ handler serves. The handler is told once, whatever it calls
-- while it runs; then the session is gone from the table and from every room.
pub closed_cpp :
    (o : Outside) (conn id fn : ℕ) (w : World) (s : WsSession) (room : Bytes)
    → find conn w.contexts ≡ some id
    → find id w.sessions ≡ some s
    → s.cpp_fn ≡ some fn
    → ((handle_connection_closed o conn w).backend_calls
        ≡ w.backend_calls
          ++ record { fn = fn; handle = id; event = close; msg = []; binary = false } ∷ [])
      × (find id (handle_connection_closed o conn w).sessions ≡ none)
      × (is_in id room (handle_connection_closed o conn w).rooms ≡ false)
closed_cpp o conn id fn w s room at_conn at_id native =
    let after = run_callbacks o.connected o.now o.script (told_close id fn w) in
    let e = close_unfolds o conn id fn w s at_conn at_id native in
    let (calls, rooms) = erase-parts id after in
    (
      ap (λ v. v.backend_calls) e
          ∙ calls
          ∙ (run_callbacks-Quiet o.connected o.now o.script (told_close id fn w)).calls,
      ap (λ v. find id v.sessions) e ∙ find-erase_session id after,
      ap (λ v. is_in id room v.rooms) e
          ∙ ap (is_in id room) rooms
          ∙ is_in-drop id id room after.rooms
          ∙ ground arith,
    )
