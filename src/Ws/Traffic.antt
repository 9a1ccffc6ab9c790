-- ===== src/Ws/Traffic.antt =====
-- The steps of src/ws_session.cpp that move sessions and the `live` counters, under any interleaving. A
-- connect on an I/O thread is three steps apart: the increment and its test, then the table entry or
-- the roll-back. Every other operation is one step, at which a lock is held or an atomic is written.
use drogon_r.Prelude.{
  ℕ, suc, ◌-◌, ◌<◌, ◌≡◌, refl, sym, subst, Bool, false, List, Option, none, some, arith, ◌==◌, ltb,
  if◌then◌else◌, get_elem?, Bool-cases, inl, inr, Option-cases,
}
use drogon_r.Prelude.Bytes.{Bytes}
use drogon_r.Ws.{WsRoute, WsSession, World, WsGuards, guards_for_route, cpp_fn_for_route}
use drogon_r.Ws.Session.{Callback, erase_ws_session, run_callbacks, ws_close, queue_frame}
use drogon_r.Ws.Controller.{
  Outside, handle_new_connection, handle_connection_closed, new_session, live_at, fetch_add_live,
  fetch_sub_live, refuse, enter_session, limited_by, guards_of,
}
use drogon_r.Ws.Reaper.{reap_expired_sessions}
use drogon_r.Ws.Counters.{holds_slot, is_on, cap_at}

-- The connects in flight: by counter, those let in but not yet in the table, and those turned away
-- but not yet rolled back.
pub record Traffic : Type 0 where
  pub world : World
  pub taken : ℕ → ℕ
  pub doomed : ℕ → ℕ

abbrev pub more : ℕ → (ℕ → ℕ) → ℕ → ℕ
more i f j = if i == j then suc (f j) else f j

abbrev pub fewer : ℕ → (ℕ → ℕ) → ℕ → ℕ
fewer i f j = if i == j then f j - 1 else f j

-- Increment, then check: `after > guards.max_conns`.
unfoldable pub reserve : ℕ → WsGuards → Traffic → Traffic
unfolding fetch_add_live
reserve i g t =
    let after = fetch_add_live i t.world in
    if ltb g.max_conns (live_at i after.routes)
    then record t { world = after; doomed = more i t.doomed }
    else record t { world = after; taken = more i t.taken }

-- What handleNewConnection looks up for a connection.
abbrev pub guards_at : List WsRoute → Option ℕ → WsGuards
guards_at routes route_id = guards_of routes (cpp_fn_for_route routes route_id) route_id

abbrev pub limit_at : List WsRoute → Option ℕ → Option ℕ
limit_at routes route_id = limited_by (cpp_fn_for_route routes route_id) (guards_at routes route_id)

abbrev pub session_at : ℕ → Option ℕ → ℕ → Option ℕ → List WsRoute → WsSession
session_at now route_id conn loop routes =
    new_session now route_id conn loop (cpp_fn_for_route routes route_id)
      (guards_at routes route_id)

pub data Step (t : Traffic) : Traffic → Type 0 where
  reserves :
      (route_id : Option ℕ) (i : ℕ)
      → limit_at t.world.routes route_id ≡ some i
      → Step t (reserve i (guards_at t.world.routes route_id) t)
  rolls_back :
      (i conn : ℕ)
      → 0 < t.doomed i
      → Step t
          (record t { world = refuse conn (fetch_sub_live i t.world); doomed = fewer i t.doomed })
  enters :
      (now conn i : ℕ) (route_id loop : Option ℕ)
      → limit_at t.world.routes route_id ≡ some i
      → 0 < t.taken i
      → Step t (record t {
        world = enter_session (session_at now route_id conn loop t.world.routes) t.world;
        taken = fewer i t.taken;
      })
  enters_unlimited :
      (now conn : ℕ) (route_id loop : Option ℕ)
      → limit_at t.world.routes route_id ≡ none
      → Step t (record t {
        world = enter_session (session_at now route_id conn loop t.world.routes) t.world;
      })
  erases : (id : ℕ) → Step t (record t { world = erase_ws_session id t.world })
  closes : (id : ℕ) → Step t (record t { world = ws_close id t.world })
  -- The second half of a backend's send, on a session that it found at any time before.
  queues :
      (now id : ℕ) (s : WsSession) (bytes : Bytes) (binary : Bool)
      → Step t (record t { world = queue_frame now id s bytes binary t.world })
  -- A whole hook of the controller with no other thread in between.
  opens :
      (o : Outside) (path : Bytes) (conn : ℕ) (loop : Option ℕ)
      → Step t (record t { world = handle_new_connection o path conn loop t.world })
  ends :
      (o : Outside) (conn : ℕ)
      → Step t (record t { world = handle_connection_closed o conn t.world })
  calls_back :
      (connected : ℕ → Bool) (now : ℕ) (cs : List Callback)
      → Step t (record t { world = run_callbacks connected now cs t.world })
  reaps : (now : ℕ) → Step t (record t { world = reap_expired_sessions now t.world })

pub data Reach (t : Traffic) : Traffic → Type 0 where
  here : Reach t t
  next : {u v : Traffic} → Reach t u → Step u v → Reach t v

pub limited_route :
    (rs : List WsRoute) (route_id : Option ℕ) (i : ℕ)
    → limit_at rs route_id ≡ some i
    → (r : WsRoute) × (get_elem? rs i ≡ some r) × ((guards_at rs route_id).max_conns ≡ r.max_conns)
unfolding limited_by guards_for_route cpp_fn_for_route
limited_route rs none i e = cc
limited_route rs (some j) i e = elim (Option-cases (get_elem? rs j)) [
  | inl missing ↦ absurd (ground (arith, missing, e))
  | inr (r, found) ↦ elim (Option-cases r.cpp_fn) [
    | inl slow ↦ absurd (ground (arith, found, slow, e))
    | inr (f, fast) ↦ (r, ground (arith, found, fast, e), ground (arith, found, fast))
  ]
]

-- The session of a connect that was counted holds the slot.
pub entered :
    (now conn i j : ℕ) (route_id loop : Option ℕ) (rs : List WsRoute)
    → limit_at rs route_id ≡ some j
    → holds_slot i (session_at now route_id conn loop rs) ≡ (j == i)
unfolding new_session
entered now conn i j route_id loop rs e = rw e (ground arith)

pub entered_unlimited :
    (now conn i : ℕ) (route_id loop : Option ℕ) (rs : List WsRoute)
    → limit_at rs route_id ≡ none
    → holds_slot i (session_at now route_id conn loop rs) ≡ false
unfolding new_session
entered_unlimited now conn i route_id loop rs e = rw e refl

-- A connection of a route with a cap is counted.
capped_route : (i : ℕ) (rs : List WsRoute) → 0 < cap_at i rs → limit_at rs (some i) ≡ some i
unfolding limited_by guards_for_route cpp_fn_for_route
capped_route i rs p = elim (Option-cases (get_elem? rs i)) [
  | inl missing ↦ absurd (ground (arith, missing, p))
  | inr (r, found) ↦ elim (Option-cases r.cpp_fn) [
    | inl slow ↦ absurd (ground (arith, found, slow, p))
    | inr (f, fast) ↦ ground (arith, found, fast, p)
  ]
]

-- On a route with a cap a new session never goes without a slot.
pub counts :
    (now conn i : ℕ) (route_id loop : Option ℕ) (rs : List WsRoute)
    → 0 < cap_at i rs
    → (if holds_slot i (session_at now route_id conn loop rs)
        then false
        else is_on i (session_at now route_id conn loop rs))
      ≡ false
unfolding new_session
counts now conn i none loop rs p = ground arith
counts now conn i (some j) loop rs p = elim (Bool-cases (j == i)) [
  | inl same ↦
      let at_i : j ≡ i = ground arith in
      subst
        (λ k.
          (if holds_slot i (session_at now (some k) conn loop rs)
            then false
            else is_on i (session_at now (some k) conn loop rs))
          ≡ false)
        (sym at_i) (rw (entered now conn i i (some i) loop rs (capped_route i rs p)) (ground arith))
  | inr other ↦ ground (arith, other)
]
