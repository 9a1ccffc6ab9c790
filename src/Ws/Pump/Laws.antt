-- ===== src/Ws/Pump/Laws.antt =====
-- The hooks of src/ws_session.cpp that a drain of the events runs.
use drogon_r.Prelude.{
  ℕ, zero, suc, ◌≡◌, refl, sym, ap, ◌∙◌, Bool, List, [], ◌∷◌, ◌++◌, Option, none, some, arith,
  append-nil, append_assoc, Option-cases, inl, inr, update_at, get_elem?,
}
use drogon_r.Prelude.Bytes.{Bytes}
use drogon_r.Ws.{
  WsRoute, WsSession, WsEvent, WsEventType, connect, message, close, World, HookCall, route_at,
  find_ws_session,
}
use drogon_r.Ws.Session.{
  sub_live, release_slot, erase_ws_session, send_to_conn, ws_close, ws_join, ws_leave,
  room_broadcast,
}
use drogon_r.Ws.Rooms.{members}
use drogon_r.Ws.Session.Laws.{send_all-frames}
use drogon_r.Ws.Pump.{
  RCall, r_send, r_close, r_join, r_leave, r_broadcast, run_r_call, run_r_calls, hook_of, hook_for,
  hook_call, call_hook, handle_event, handle_events, drain_ws_events,
}

-- What the hooks leave alone.
record SameLog (w v : World) : Type 0 where
  routes : v.routes ≡ w.routes
  calls : v.hook_calls ≡ w.hook_calls
  events : v.events ≡ w.events

send-SameLog :
    (id : ℕ) (bytes : Bytes) (binary : Bool) (w : World)
    → SameLog w (send_to_conn id bytes binary w)
unfolding send_to_conn
send-SameLog id bytes binary w = ground arith

close-SameLog : (id : ℕ) (w : World) → SameLog w (ws_close id w)
unfolding ws_close
close-SameLog id w = ground arith

run_r_call-SameLog : (c : RCall) (w : World) → SameLog w (run_r_call c w)
unfolding run_r_call ws_join ws_leave room_broadcast
run_r_call-SameLog (r_send id bytes binary) w = send-SameLog id bytes binary w
run_r_call-SameLog (r_close id) w = close-SameLog id w
run_r_call-SameLog (r_join room id) w = record { routes = refl; calls = refl; events = refl }
run_r_call-SameLog (r_leave room id) w = record { routes = refl; calls = refl; events = refl }
run_r_call-SameLog (r_broadcast room bytes binary) w =
    rw (send_all-frames (members room w.rooms) bytes binary w)
      (record { routes = refl; calls = refl; events = refl })

run_r_calls-SameLog : (cs : List RCall) (w : World) → SameLog w (run_r_calls cs w)
unfolding run_r_calls
run_r_calls-SameLog [] w = record { routes = refl; calls = refl; events = refl }
run_r_calls-SameLog (c ∷ cs) w =
    let here = run_r_call-SameLog c w in
    let there = run_r_calls-SameLog cs (run_r_call c w) in
    record {
      routes = there.routes ∙ here.routes;
      calls = there.calls ∙ here.calls;
      events = there.events ∙ here.events;
    }

hook_at-sub :
    (i j : ℕ) (ty : WsEventType) (rs : List WsRoute)
    → (elim (get_elem? (update_at i sub_live rs) j) [ none ↦ none | some r ↦ hook_of ty r ])
      ≡ (elim (get_elem? rs j) [ none ↦ none | some r ↦ hook_of ty r ])
hook_at-sub i j ty [] = refl
hook_at-sub zero zero connect (r ∷ rs) = refl
hook_at-sub zero zero message (r ∷ rs) = refl
hook_at-sub zero zero close (r ∷ rs) = refl
hook_at-sub zero (suc j) ty (r ∷ rs) = refl
hook_at-sub (suc i) zero ty (r ∷ rs) = refl
hook_at-sub (suc i) (suc j) ty (r ∷ rs) = hook_at-sub i j ty rs

hook_of_slot :
    (id : Option ℕ) (ty : WsEventType) (s : WsSession) (rs : List WsRoute)
    → (elim (route_at (release_slot s rs) id) [ none ↦ none | some r ↦ hook_of ty r ])
      ≡ (elim (route_at rs id) [ none ↦ none | some r ↦ hook_of ty r ])
unfolding release_slot
hook_of_slot none ty s rs = refl
hook_of_slot (some j) ty s rs = elim (Option-cases s.live_counter) [
  | inl e ↦ rw (e, release_slot)
  | inr (i, e) ↦ ground (arith, hook_at-sub i j ty rs)
]

-- Erasing a session changes no hook of any route.
erase-hook_for :
    (ev : WsEvent) (id : ℕ) (w : World)
    → hook_for ev (erase_ws_session id w).routes ≡ hook_for ev w.routes
unfolding hook_for erase_ws_session
erase-hook_for ev id w = elim (Option-cases (find_ws_session id w)) [
  | inl e ↦ rw (e, erase_ws_session)
  | inr (s, e) ↦ rw (e, erase_ws_session) (hook_of_slot ev.route_id ev.type s w.routes)
]

erase-log :
    (id : ℕ) (w : World)
    → ((erase_ws_session id w).hook_calls ≡ w.hook_calls)
      × ((erase_ws_session id w).events ≡ w.events)
unfolding erase_ws_session
erase-log id w = ground arith

abbrev call_of : Option ℕ → WsEvent → List HookCall
call_of none ev = []
call_of (some hook) ev = hook_call hook ev ∷ []

-- The calls of a batch: each event in turn calls the hook that its route has for it, if any.
abbrev pub calls_of : List WsEvent → List WsRoute → List HookCall
calls_of [] routes = []
calls_of (ev ∷ evs) routes = call_of (hook_for ev routes) ev ++ calls_of evs routes

module _ (react : World → HookCall → List RCall) where
  record Handled (ev : WsEvent) (w v : World) : Type 0 where
    hooks : (e : WsEvent) → hook_for e v.routes ≡ hook_for e w.routes
    calls : v.hook_calls ≡ w.hook_calls ++ call_of (hook_for ev w.routes) ev
    events : v.events ≡ w.events

  call_hook-Handled :
      (ev : WsEvent) (hook : Option ℕ) (w : World)
      → hook_for ev w.routes ≡ hook
      → Handled ev w (call_hook react hook ev w)
  unfolding call_hook
  call_hook-Handled ev none w e = record {
    hooks = λ e'. refl;
    calls = rw e (sym (append-nil w.hook_calls));
    events = refl;
  }
  call_hook-Handled ev (some hook) w e =
      let call = hook_call hook ev in
      let w' : World = record w { hook_calls = w.hook_calls ++ call ∷ [] } in
      let same = run_r_calls-SameLog (react w call) w' in
      record {
        hooks = λ e'. ap (hook_for e') same.routes;
        calls = rw e same.calls;
        events = same.events;
      }

  erase-Handled :
      (ev : WsEvent) (id : ℕ) (w v : World) → Handled ev w v → Handled ev w (erase_ws_session id v)
  erase-Handled ev id w v h = record {
    hooks = λ e. erase-hook_for e id v ∙ h.hooks e;
    calls = (erase-log id v).0 ∙ h.calls;
    events = (erase-log id v).1 ∙ h.events;
  }

  handle_event-Handled : (ev : WsEvent) (w : World) → Handled ev w (handle_event react ev w)
  unfolding handle_event
  handle_event-Handled ev w =
      let h = call_hook-Handled ev (hook_for ev w.routes) w refl in by_type ev.type h
    where
      by_type :
          (ty : WsEventType) {v : World}
          → Handled ev w v
          → Handled ev w (elim ty [ close ↦ erase_ws_session ev.conn_id v | _ ↦ v ])
      by_type connect h = h
      by_type message h = h
      by_type close {v} h = erase-Handled ev ev.conn_id w v h

  calls_of-hooks :
      (evs : List WsEvent) (rs rs' : List WsRoute)
      → ((e : WsEvent) → hook_for e rs ≡ hook_for e rs')
      → calls_of evs rs ≡ calls_of evs rs'
  calls_of-hooks [] rs rs' h = refl
  calls_of-hooks (ev ∷ evs) rs rs' h = rw (h ev, calls_of-hooks evs rs rs' h)

  handle_events-calls :
      (evs : List WsEvent) (w : World)
      → ((handle_events react evs w).hook_calls ≡ w.hook_calls ++ calls_of evs w.routes)
        × ((handle_events react evs w).events ≡ w.events)
  unfolding handle_events
  handle_events-calls [] w = (sym (append-nil w.hook_calls), refl)
  handle_events-calls (ev ∷ evs) w =
      let h = handle_event-Handled ev w in
      let (cs, es) = handle_events-calls evs (handle_event react ev w) in
      (
        cs
            ∙ rw (h.calls, calls_of-hooks evs _ w.routes h.hooks)
                (append_assoc w.hook_calls (call_of (hook_for ev w.routes) ev)
                  (calls_of evs w.routes)),
        es ∙ h.events,
      )

  -- A drain takes every queued event, in order, and runs for each the hook that its route had when
  -- the drain began, once; no other hook runs, whatever the hooks themselves call.
  pub drain_ws_events_calls :
      (w : World)
      → ((drain_ws_events react w).hook_calls ≡ w.hook_calls ++ calls_of w.events w.routes)
        × ((drain_ws_events react w).events ≡ [])
  unfolding drain_ws_events
  drain_ws_events_calls w = handle_events-calls w.events (record w { events = [] })
