-- ===== src/Ws/Capacity.antt =====
-- The concurrency cap of src/ws_session.cpp under any interleaving of its threads.
use drogon_r.Prelude.{
  ◌⊎◌, ℕ, ◌+◌, ◌≤◌, ◌<◌, ◌++◌, ◌∷◌, ◌≡◌, refl, subst, false, [], Option, none, some, arith, ◌==◌,
  ltb, if◌then◌else◌, get_elem?, Bool-cases, inl, inr, Option-cases,
}
use drogon_r.Prelude.Bytes.{Bytes}
use drogon_r.Prelude.Table.{find}
use drogon_r.Ws.{
  find_ws_session, route_id_for_path, connect, BackendCall, WsRoute, World, WsGuards,
  cpp_fn_for_route,
}
use drogon_r.Ws.Session.{add_live, sub_live}
use drogon_r.Ws.Controller.{
  Outside, handle_new_connection, handle_connection_closed, announce, open_connection,
  enqueue_ws_event, dispatch_cpp, live_at, fetch_add_live, fetch_sub_live, refuse, enter_session,
}
use drogon_r.Ws.Counters.{
  holders, occupants, occupants_bound, cap_at, cap_at-update, cap_at-max_at, max_at, live_at-add,
  live_at-sub, live_at-other, max_at-add, max_at-sub,
}
use drogon_r.Ws.Slots.{
  IsBalanced, IsBalanced-of_same, closing-IsBalanced, erase-IsBalanced, ws_close-IsBalanced,
  run_callbacks-IsBalanced, reap-IsBalanced, enter-IsBalanced, queue_frame-IsBalanced,
}
use drogon_r.Ws.Traffic.{
  Traffic, more, fewer, reserve, guards_at, limit_at, session_at, Step, reserves, rolls_back,
  enters, enters_unlimited, erases, closes, queues, opens, ends, calls_back, reaps, Reach, here,
  next, limited_route, entered, entered_unlimited, counts,
}

abbrev Balanced : ℕ → Traffic → Type 0
Balanced i t = IsBalanced i (t.taken i) (t.doomed i) t.world

-- The counter of a route with the given cap goes up by one.
counted_up :
    (i j : ℕ) (w : World) (r : WsRoute)
    → get_elem? w.routes j ≡ some r
    → live_at i (fetch_add_live j w).routes
      ≡ (if j == i then live_at i w.routes + 1 else live_at i w.routes)
unfolding fetch_add_live
counted_up i j w r e = ground (arith, live_at-add j w.routes e, live_at-other j i add_live w.routes)

reserve-Balanced :
    (i j : ℕ) (g : WsGuards) (t : Traffic) (r : WsRoute)
    → get_elem? t.world.routes j ≡ some r
    → g.max_conns ≡ r.max_conns
    → Balanced i t
    → Balanced i (reserve j g t)
unfolding reserve fetch_add_live
reserve-Balanced i j g t r found same h =
    let up = counted_up i j t.world r found in
    let upj = counted_up j j t.world r found in
    let cap = max_at-add j i t.world.routes in
    let cap' = cap_at-update j i add_live t.world.routes (λ r. refl) in
    let at_r : max_at j t.world.routes ≡ r.max_conns = rw (found, max_at) in
    elim (Bool-cases (ltb g.max_conns (live_at j (fetch_add_live j t.world).routes))) [
      | inl over ↦
          rw (over, reserve)
            (record {
              live = ground (arith, up, h.live);
              limit = λ p. ground (arith, cap, h.limit);
              held = λ p. ground (arith, cap', h.held);
              keys = h.keys;
              ids = h.ids;
            })
      | inr under ↦
          rw (under, reserve)
            (record {
              live = ground (arith, up, h.live);
              limit = λ p. ground (arith, cap, h.limit, h.live, upj, at_r, same);
              held = λ p. ground (arith, cap', h.held);
              keys = h.keys;
              ids = h.ids;
            })
    ]

roll_back-Balanced :
    (i j conn : ℕ) (t : Traffic)
    → 0 < t.doomed j
    → Balanced i t
    → IsBalanced i (t.taken i) (fewer j t.doomed i) (refuse conn (fetch_sub_live j t.world))
unfolding refuse fetch_sub_live
roll_back-Balanced i j conn t p h = record {
  live =
      ground
        (arith, live_at-sub j t.world.routes, live_at-other j i sub_live t.world.routes, h.live);
  limit = λ q. ground (arith, max_at-sub j i t.world.routes, h.limit);
  held = λ q. ground (arith, cap_at-update j i sub_live t.world.routes (λ r. refl), h.held);
  keys = h.keys;
  ids = h.ids;
}

fewer-more : (i j : ℕ) (f : ℕ → ℕ) → fewer i (more i f) j ≡ f j
fewer-more i j f = ground arith

abbrev called : BackendCall → World → World
called c w = record w { backend_calls = w.backend_calls ++ c ∷ [] }

announce-Balanced :
    (i taken doomed : ℕ) (o : Outside) (fn route_id : Option ℕ) (id : ℕ) (w : World)
    → IsBalanced i taken doomed w
    → IsBalanced i taken doomed (announce o fn route_id id w)
unfolding enqueue_ws_event dispatch_cpp
announce-Balanced i taken doomed o none route_id id w h =
    IsBalanced-of_same w (announce o none route_id id w) h refl refl refl refl h.keys h.ids
announce-Balanced i taken doomed o (some fn) route_id id w h =
    run_callbacks-IsBalanced o.connected o.now o.script _ (
      IsBalanced-of_same w
        (called (record { fn = fn; handle = id; event = connect; msg = []; binary = false }) w) h
        refl refl refl refl h.keys h.ids)

-- The roll-back of a connect that was just counted.
bounce-Balanced :
    (i j conn : ℕ) (t : Traffic)
    → Balanced i (record t { world = fetch_add_live j t.world; doomed = more j t.doomed })
    → IsBalanced i
        (t.taken i)
        (t.doomed i)
        (refuse conn (fetch_sub_live j (fetch_add_live j t.world)))
bounce-Balanced i j conn t h =
    let t' : Traffic = record t { world = fetch_add_live j t.world; doomed = more j t.doomed } in
    subst (λ d. IsBalanced i (t.taken i) d (refuse conn (fetch_sub_live j t'.world)))
      (fewer-more j i t.doomed) (roll_back-Balanced i j conn t' (ground arith) h)

-- The table entry of a connect that was just counted.
admit-Balanced :
    (i j now conn : ℕ) (route_id loop : Option ℕ) (t : Traffic)
    → limit_at t.world.routes route_id ≡ some j
    → Balanced i (record t { world = fetch_add_live j t.world; taken = more j t.taken })
    → IsBalanced i (t.taken i) (t.doomed i) (
        enter_session (session_at now route_id conn loop t.world.routes) (fetch_add_live j t.world))
unfolding fetch_add_live
admit-Balanced i j now conn route_id loop t e h =
    enter-IsBalanced (session_at now route_id conn loop t.world.routes) (t.taken i)
      (fetch_add_live j t.world)
      (ground (arith, entered now conn i j route_id loop t.world.routes e))
      (λ p.
        counts now conn i route_id loop t.world.routes
          (ground (arith, cap_at-update j i add_live t.world.routes (λ r. refl), p)))
      h

-- A connect that no other thread interrupts.
open-at :
    (i : ℕ) (o : Outside) (route_id : Option ℕ) (conn : ℕ) (loop : Option ℕ) (t : Traffic)
    → Balanced i t
    → IsBalanced i (t.taken i) (t.doomed i) (
        open_connection o route_id
          (cpp_fn_for_route t.world.routes route_id)
          (guards_at t.world.routes route_id)
          conn
          loop
          t.world)
unfolding open_connection reserve
open-at i o route_id conn loop t h =
    let rs = t.world.routes in
    let g = guards_at rs route_id in
    elim (Option-cases (limit_at rs route_id)) [
      | inl e ↦
          rw (e, open_connection)
            (announce-Balanced i (t.taken i) (t.doomed i) o (cpp_fn_for_route rs route_id) route_id
              t.world.next_id _
              (enter-IsBalanced (session_at o.now route_id conn loop rs) (t.taken i) t.world
                (ground (arith, entered_unlimited o.now conn i route_id loop rs e))
                (counts o.now conn i route_id loop rs) h))
      | inr (j, e) ↦
          let (r, found, same) = limited_route rs route_id j e in
          let up = reserve-Balanced i j g t r found same h in
          elim (Bool-cases (ltb g.max_conns (live_at j (fetch_add_live j t.world).routes))) [
            | inl over ↦
                rw (e, open_connection)
                  (rw (over, open_connection)
                    (bounce-Balanced i j conn t (rw (over, reserve) at up)))
            | inr under ↦
                rw (e, open_connection)
                  (rw (under, open_connection)
                    (announce-Balanced i (t.taken i) (t.doomed i) o (cpp_fn_for_route rs route_id)
                      route_id t.world.next_id _
                      (admit-Balanced i j o.now conn route_id loop t e
                        (rw (under, reserve) at up))))
          ]
    ]

open-Balanced :
    (i : ℕ) (o : Outside) (path : Bytes) (conn : ℕ) (loop : Option ℕ) (t : Traffic)
    → Balanced i t
    → IsBalanced i (t.taken i) (t.doomed i) (handle_new_connection o path conn loop t.world)
unfolding handle_new_connection
open-Balanced i o path conn loop t h =
    open-at i o (route_id_for_path t.world.routes path) conn loop t h

close-Balanced :
    (i : ℕ) (o : Outside) (conn : ℕ) (t : Traffic)
    → Balanced i t
    → IsBalanced i (t.taken i) (t.doomed i) (handle_connection_closed o conn t.world)
unfolding handle_connection_closed enqueue_ws_event dispatch_cpp
close-Balanced i o conn t h = elim (Option-cases (find conn t.world.contexts)) [
  | inl e ↦ rw (e, handle_connection_closed) h
  | inr (id, e) ↦ elim (Option-cases (find_ws_session id t.world)) [
    | inl f ↦ rw (e, handle_connection_closed) (rw (f, handle_connection_closed) h)
    | inr (s, f) ↦
        rw (e, handle_connection_closed)
          (rw (f, handle_connection_closed)
            (elim (Option-cases s.cpp_fn) [
              | inl g ↦
                  rw (g, handle_connection_closed)
                    (closing-IsBalanced id t.world _ refl refl refl h)
              | inr (fn, g) ↦
                  rw (g, handle_connection_closed)
                    (erase-IsBalanced id _ (
                      run_callbacks-IsBalanced o.connected o.now o.script _
                        (closing-IsBalanced id t.world _ refl refl refl h)))
            ]))
  ]
]

Step-Balanced : (i : ℕ) {t u : Traffic} → Step t u → Balanced i t → Balanced i u
Step-Balanced i {t} (reserves route_id j e) h =
    let (r, found, same) = limited_route t.world.routes route_id j e in
    reserve-Balanced i j (guards_at t.world.routes route_id) t r found same h
Step-Balanced i {t} (rolls_back j conn p) h = roll_back-Balanced i j conn t p h
Step-Balanced i {t} (enters now conn j route_id loop e p) h =
    enter-IsBalanced (session_at now route_id conn loop t.world.routes) _ t.world
      (ground (arith, entered now conn i j route_id loop t.world.routes e))
      (counts now conn i route_id loop t.world.routes) h
Step-Balanced i {t} (enters_unlimited now conn route_id loop e) h =
    enter-IsBalanced (session_at now route_id conn loop t.world.routes) (t.taken i) t.world
      (ground (arith, entered_unlimited now conn i route_id loop t.world.routes e))
      (counts now conn i route_id loop t.world.routes) h
Step-Balanced i {t} (erases id) h = erase-IsBalanced id t.world h
Step-Balanced i {t} (closes id) h = ws_close-IsBalanced id t.world h
Step-Balanced i {t} (queues now id s bytes binary) h =
    queue_frame-IsBalanced now id s bytes binary t.world h
Step-Balanced i {t} (opens o path conn loop) h = open-Balanced i o path conn loop t h
Step-Balanced i {t} (ends o conn) h = close-Balanced i o conn t h
Step-Balanced i {t} (calls_back connected now cs) h =
    run_callbacks-IsBalanced connected now cs t.world h
Step-Balanced i {t} (reaps now) h = reap-IsBalanced now t.world h

Reach-Balanced : (i : ℕ) {t u : Traffic} → Reach t u → Balanced i t → Balanced i u
Reach-Balanced i here h = h
Reach-Balanced i (next r s) h = Step-Balanced i s (Reach-Balanced i r h)

-- Start with no session and no connect in flight, and every counter at zero. However the I/O threads
-- interleave, each counter is the number of sessions that hold a slot of it and of connects in
-- flight; and a route that has a C++ handler and a cap never has more sessions in the table and
-- connects let in than the cap, sessions that hold no slot included.
pub capacity_kept :
    (i : ℕ) (t u : Traffic)
    → t.world.sessions ≡ []
    → live_at i t.world.routes ≡ 0
    → t.taken i ≡ 0
    → t.doomed i ≡ 0
    → Reach t u
    → (live_at i u.world.routes ≡ holders i u.world.sessions + u.taken i + u.doomed i)
      × ((cap_at i u.world.routes ≡ 0)
          ⊎ (occupants i u.world.sessions + u.taken i ≤ cap_at i u.world.routes))
capacity_kept i t u none_yet zero_live zero_taken zero_doomed path =
    let start : Balanced i t = record {
      live = rw (none_yet, zero_live, zero_taken, zero_doomed) (omega arith);
      limit = λ p. rw (none_yet, zero_taken) (omega arith);
      held = λ p. rw none_yet refl;
      keys = rw none_yet tt;
      ids = rw none_yet tt;
    } in
    let h = Reach-Balanced i path start in
    (
      h.live,
      ground (
        arith,
        h.limit,
        h.held,
        occupants_bound i u.world.sessions,
        cap_at-max_at i u.world.routes,
      ),
    )
