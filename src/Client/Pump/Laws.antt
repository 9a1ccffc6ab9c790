-- ===== src/Client/Pump/Laws.antt =====
-- The order in which a drain of src/ws_client.cpp runs the hooks.
use drogon_r.Prelude.{
  ℕ, ◌≡◌, refl, sym, ◌∙◌, inl, inr, List, [], ◌∷◌, ◌++◌, Option, none, some, arith, append-nil,
  append_assoc, Option-cases, All, ◌==◌, if◌then◌else◌,
}
use drogon_r.Prelude.Table.{erase, find-erase}
use drogon_r.Client.{
  WsClient, ClientEvent, ClientEventType, open_event, message_event, close_event, ClientCall,
  ClientWorld, find_client,
}
use drogon_r.Client.Pump.{
  RCall, hook_for, hook_call, erase_client, call_client_hook, handle_client_event,
  handle_client_events, drain_ws_client_events,
}
use drogon_r.Client.Pump.Quiet.{IsQuiet, run_r_calls-SameHooks}

abbrev call_of : Option ℕ → ClientEvent → List ClientCall
call_of none ev = []
call_of (some hook) ev = hook_call hook ev ∷ []

-- The table behind an event: a Close event takes its client away.
abbrev left_by : ClientEventType → ℕ → List (ℕ × WsClient) → List (ℕ × WsClient)
left_by open_event id m = m
left_by message_event id m = m
left_by close_event id m = erase id m

-- The calls of a batch: each event calls the hook that its client has for it, in order, up to the
-- client's Close event.
abbrev pub calls_of : List ClientEvent → List (ℕ × WsClient) → List ClientCall
calls_of [] m = []
calls_of (ev ∷ evs) m = call_of (hook_for ev m) ev ++ calls_of evs (left_by ev.type ev.client_id m)

-- Two tables with the same hooks.
abbrev Alike : List (ℕ × WsClient) → List (ℕ × WsClient) → Type 0
Alike m m' = (ev : ClientEvent) → hook_for ev m ≡ hook_for ev m'

hook_for-erase :
    (ev : ClientEvent) (id : ℕ) (m : List (ℕ × WsClient))
    → hook_for ev (erase id m) ≡ (if id == ev.client_id then none else hook_for ev m)
unfolding hook_for
hook_for-erase ev id m = ground (arith, find-erase id ev.client_id m)

erase-Alike : (id : ℕ) (m m' : List (ℕ × WsClient)) → Alike m m' → Alike (erase id m) (erase id m')
erase-Alike id m m' h ev = rw (hook_for-erase ev id m, hook_for-erase ev id m', h ev) refl

left-Alike :
    (ty : ClientEventType) (id : ℕ) (m m' : List (ℕ × WsClient))
    → Alike m m'
    → Alike (left_by ty id m) (left_by ty id m')
left-Alike open_event id m m' h = h
left-Alike message_event id m m' h = h
left-Alike close_event id m m' h = erase-Alike id m m' h

calls_of-Alike :
    (evs : List ClientEvent) (m m' : List (ℕ × WsClient))
    → Alike m m'
    → calls_of evs m ≡ calls_of evs m'
calls_of-Alike [] m m' h = refl
calls_of-Alike (ev ∷ evs) m m' h =
    rw
      (
        h ev,
        calls_of-Alike evs _ (left_by ev.type ev.client_id m')
            (left-Alike ev.type ev.client_id m m' h),
      )
      refl

erase_client-Alike :
    (id : ℕ) (w : ClientWorld) → Alike (erase_client id w).clients (erase id w.clients)
unfolding erase_client hook_for
erase_client-Alike id w ev = elim (Option-cases (find_client id w)) [
  | inl e ↦ rw (e, erase_client) (ground (arith, find-erase id ev.client_id w.clients, e))
  | inr (c, e) ↦ rw (e, erase_client) refl
]

erase_client-log :
    (id : ℕ) (w : ClientWorld)
    → ((erase_client id w).hook_calls ≡ w.hook_calls)
      × ((erase_client id w).events ≡ w.events)
      × ((erase_client id w).watch ≡ w.watch)
unfolding erase_client
erase_client-log id w = ground arith

module _ (react : ClientWorld → ClientCall → List RCall)
    (quiet : (w : ClientWorld) (c : ClientCall) → All IsQuiet (react w c)) where
  record HandledAs (ty : ClientEventType) (ev : ClientEvent) (w v : ClientWorld) : Type 0 where
    hooks : Alike v.clients (left_by ty ev.client_id w.clients)
    calls : v.hook_calls ≡ w.hook_calls ++ call_of (hook_for ev w.clients) ev
    events : v.events ≡ w.events
    watch : v.watch ≡ w.watch

  call-SameHooks :
      (ev : ClientEvent) (hook : Option ℕ) (w : ClientWorld)
      → Alike (call_client_hook react hook ev w).clients w.clients
        × ((call_client_hook react hook ev w).hook_calls ≡ w.hook_calls ++ call_of hook ev)
        × ((call_client_hook react hook ev w).events ≡ w.events)
        × ((call_client_hook react hook ev w).watch ≡ w.watch)
  unfolding call_client_hook
  call-SameHooks ev none w = ((λ ev. refl), sym (append-nil w.hook_calls), refl, refl)
  call-SameHooks ev (some hook) w =
      let call = hook_call hook ev in
      let w' : ClientWorld = record w { hook_calls = w.hook_calls ++ call ∷ [] } in
      let same = run_r_calls-SameHooks (react w call) w' (quiet w call) in
      (same.hooks, same.calls, same.events, same.watch)

  handle-Handled :
      (ev : ClientEvent) (w : ClientWorld) → HandledAs ev.type ev w (handle_client_event react ev w)
  unfolding handle_client_event
  handle-Handled ev w = by_type ev.type _ (call-SameHooks ev (hook_for ev w.clients) w)
    where
      -- The type is a variable here, and so is the world behind the hook.
      by_type :
          (ty : ClientEventType) (v : ClientWorld)
          → Alike v.clients w.clients
            × (v.hook_calls ≡ w.hook_calls ++ call_of (hook_for ev w.clients) ev)
            × (v.events ≡ w.events)
            × (v.watch ≡ w.watch)
          → HandledAs ty ev w (elim ty [ close_event ↦ erase_client ev.client_id v | _ ↦ v ])
      by_type open_event v (h, c, e, q) = record { hooks = h; calls = c; events = e; watch = q }
      by_type message_event v (h, c, e, q) = record { hooks = h; calls = c; events = e; watch = q }
      by_type close_event v (h, c, e, q) =
          let id = ev.client_id in
          let (logs, events, watch) = erase_client-log id v in
          record {
            hooks = λ e'. erase_client-Alike id v e' ∙ erase-Alike id v.clients w.clients h e';
            calls = logs ∙ c;
            events = events ∙ e;
            watch = watch ∙ q;
          }

  handle_client_events-calls :
      (evs : List ClientEvent) (w : ClientWorld)
      → ((handle_client_events react evs w).hook_calls ≡ w.hook_calls ++ calls_of evs w.clients)
        × ((handle_client_events react evs w).events ≡ w.events)
        × ((handle_client_events react evs w).watch ≡ w.watch)
  unfolding handle_client_events
  handle_client_events-calls [] w = (sym (append-nil w.hook_calls), refl, refl)
  handle_client_events-calls (ev ∷ evs) w =
      let h = handle-Handled ev w in
      let (cs, es, ws) = handle_client_events-calls evs (handle_client_event react ev w) in
      (
        cs
            ∙ rw (h.calls, calls_of-Alike evs _ (left_by ev.type ev.client_id w.clients) h.hooks)
                (append_assoc w.hook_calls (call_of (hook_for ev w.clients) ev)
                  (calls_of evs (left_by ev.type ev.client_id w.clients))),
        es ∙ h.events,
        ws ∙ h.watch,
      )

  pub drain_client_events-watch :
      (w : ClientWorld) → (drain_ws_client_events react w).watch ≡ w.watch
  unfolding drain_ws_client_events
  drain_client_events-watch w = (handle_client_events-calls w.events (record w { events = [] })).2

  -- Where the hooks send and close only: a drain takes every queued event and runs, in order, the
  -- hook that the event's client has for it, and none behind the client's Close event.
  pub drain_client_events_calls :
      (w : ClientWorld)
      → ((drain_ws_client_events react w).hook_calls ≡ w.hook_calls ++ calls_of w.events w.clients)
        × ((drain_ws_client_events react w).events ≡ [])
  unfolding drain_ws_client_events
  drain_client_events_calls w =
      let (calls, events, watch) = handle_client_events-calls w.events (record w { events = [] }) in
      (calls, events)
