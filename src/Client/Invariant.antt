-- ===== src/Client/Invariant.antt =====
-- The steps of src/ws_client.cpp: the entry points, the callbacks of Drogon and the drains, in any order,
-- and what holds behind every one.
use drogon_r.Prelude.{
  ℕ, ◌≡◌, refl, sym, ap, subst, ◌⊎◌, inl, inr, Bool, List, [], ◌∷◌, ◌++◌, Option, none, some, arith,
  Option-cases, Bool-cases, ◌==◌, if◌then◌else◌,
}
use drogon_r.Prelude.Bytes.{Bytes, codes}
use drogon_r.Prelude.Sexp.{Sexp}
use drogon_r.Client.{
  WsClient, ClientEvent, ClientEventType, open_event, message_event, close_event, ClientCall,
  ClientWorld, ensure_client_loop, enqueue_client_event, loop_of,
}
use drogon_r.Client.Calls.{send_to_client, close_client, shutdown_ws_clients}
use drogon_r.Client.Connect.{
  Outside, open_client, with_dispatcher, ws_connect, message_handler, connection_closed_handler,
  connect_callback, message_of, close_of, open_of, fresh_client,
}
use drogon_r.Client.Pump.{
  RCall, r_connect, r_send, r_close, r_shutdown, run_r_call, run_r_calls, hook_for, hook_call,
  erase_client, call_client_hook, handle_client_event, handle_client_events, drain_ws_client_events,
}
use drogon_r.Ws.Routes.{single_string}

pub data Step (w : ClientWorld) : ClientWorld → Type 0 where
  connects :
      (o : Outside) (host path on_message on_open on_close : Sexp)
      → Step w (ws_connect o host path on_message on_open on_close w).0
  sends : (id : ℕ) (buf : Bytes) (binary : Bool) → Step w (send_to_client id buf binary w).0
  closes : (id : ℕ) → Step w (close_client id w)
  shuts : Step w (shutdown_ws_clients w)
  receives : (id : ℕ) (text : Bytes) (binary : Bool) → Step w (message_handler id text binary w)
  ends : (id : ℕ) → Step w (connection_closed_handler id w)
  answers : (id r : ℕ) → Step w (connect_callback id r w)
  drains : (react : ClientWorld → ClientCall → List RCall) → Step w (drain_ws_client_events react w)
  -- The rest of a batch that a drain has taken, an event at a time.
  handles :
      (react : ClientWorld → ClientCall → List RCall) (ev : ClientEvent)
      → Step w (handle_client_event react ev w)

pub data Reach (w : ClientWorld) : ClientWorld → Type 0 where
  here : Reach w w
  next : {u v : ClientWorld} → Reach w u → Step u v → Reach w v

-- What a step leaves alone that touches neither the table nor R.
pub record SameTable (w v : ClientWorld) : Type 0 where
  pub clients : v.clients ≡ w.clients
  pub ids : v.next_id ≡ w.next_id
  pub preserved : v.preserved ≡ w.preserved
  pub calls : v.hook_calls ≡ w.hook_calls

-- What the checks and the two starts of a connect leave alone.
pub record Prepared (w v : ClientWorld) : Type 0 where
  pub table : SameTable w v
  pub events : v.events ≡ w.events

prepare-Prepared :
    (o : Outside) (w : ClientWorld)
    → Prepared w (with_dispatcher o.process (ensure_client_loop w)).0
unfolding with_dispatcher ensure_client_loop
prepare-Prepared o w = ground arith

unprepared : (w : ClientWorld) → Prepared w w
unprepared w = record {
  table = record { clients = refl; ids = refl; preserved = refl; calls = refl };
  events = refl;
}

send-SameTable :
    (id : ℕ) (buf : Bytes) (binary : Bool) (w : ClientWorld)
    → SameTable w (send_to_client id buf binary w).0
unfolding send_to_client
send-SameTable id buf binary w = ground arith

enqueue-SameTable : (ev : ClientEvent) (w : ClientWorld) → SameTable w (enqueue_client_event ev w)
unfolding enqueue_client_event
enqueue-SameTable ev w = record { clients = refl; ids = refl; preserved = refl; calls = refl }

-- A connect opens a client, or ends in an error before that.
pub connect_cases :
    (o : Outside) (host path a b c : Sexp) (w : ClientWorld)
    → Prepared w (ws_connect o host path a b c w).0
      ⊎ ((new : Option ℕ) × (p : Bytes) × (client : WsClient) × (v : ClientWorld) × Prepared w v
          × (ws_connect o host path a b c w ≡ open_client new p client v))
unfolding ws_connect
connect_cases o host path a b c w = elim (Option-cases (single_string host)) [
  | inl e ↦ inl (rw (e, ws_connect) (unprepared w))
  | inr (h, e) ↦ elim (Option-cases (single_string path)) [
    | inl e' ↦ inl (rw (e, e', ws_connect) (unprepared w))
    | inr (p, e') ↦
        let ready = prepare-Prepared o w in
        elim (Bool-cases (with_dispatcher o.process (ensure_client_loop w)).1) [
          | inl ok ↦ inr (
            o.new_client h (loop_of w),
            p,
            fresh_client (loop_of w) a b c,
            (with_dispatcher o.process (ensure_client_loop w)).0,
            ready,
            rw (e, e', ok, ws_connect) refl,
          )
          | inr failed ↦ inl (rw (e, e', failed, ws_connect) ready)
        ]
  ]
]

-- A property that the parts of the operations keep, one by one.
pub record IsInvariant (P : ClientWorld → Type 0) : Type 0 where
  pub same : {w v : ClientWorld} → SameTable w v → P w → P v
  pub opens :
      (new : Option ℕ) (path : Bytes) (c : WsClient) (w : ClientWorld)
      → P w
      → P (open_client new path c w).0
  pub shuts : (w : ClientWorld) → P w → P (shutdown_ws_clients w)
  pub closes : (id : ℕ) (w : ClientWorld) → P w → P (close_client id w)
  pub erases : (id : ℕ) (w : ClientWorld) → P w → P (erase_client id w)
  pub logs :
      (ev : ClientEvent) (hook : ℕ) (w : ClientWorld)
      → hook_for ev w.clients ≡ some hook
      → P w
      → P (record w { hook_calls = w.hook_calls ++ hook_call hook ev ∷ [] })

module _ (P : ClientWorld → Type 0) (inv : IsInvariant P) where
  connect-keeps :
      (o : Outside) (host path a b c : Sexp) (w : ClientWorld)
      → P w
      → P (ws_connect o host path a b c w).0
  connect-keeps o host path a b c w h = elim (connect_cases o host path a b c w) [
    | inl s ↦ inv.same s.table h
    | inr (new, p, client, v, s, e) ↦
        subst P (sym (ap (λ r. r.0) e)) (inv.opens new p client v (inv.same s.table h))
  ]

  run_r_call-keeps : (c : RCall) (w : ClientWorld) → P w → P (run_r_call c w)
  unfolding run_r_call
  run_r_call-keeps (r_connect o host path a b c) w h = connect-keeps o host path a b c w h
  run_r_call-keeps (r_send id buf binary) w h = inv.same (send-SameTable id buf binary w) h
  run_r_call-keeps (r_close id) w h = inv.closes id w h
  run_r_call-keeps r_shutdown w h = inv.shuts w h

  run_r_calls-keeps : (cs : List RCall) (w : ClientWorld) → P w → P (run_r_calls cs w)
  unfolding run_r_calls
  run_r_calls-keeps [] w h = h
  run_r_calls-keeps (c ∷ cs) w h = run_r_calls-keeps cs (run_r_call c w) (run_r_call-keeps c w h)

  module _ (react : ClientWorld → ClientCall → List RCall) where
    pub call_client_hook-keeps :
        (hook : Option ℕ) (ev : ClientEvent) (w : ClientWorld)
        → hook_for ev w.clients ≡ hook
        → P w
        → P (call_client_hook react hook ev w)
    unfolding call_client_hook
    call_client_hook-keeps none ev w e h = h
    call_client_hook-keeps (some hook) ev w e h =
        run_r_calls-keeps (react w (hook_call hook ev)) _ (inv.logs ev hook w e h)

    handle_client_event-keeps :
        (ev : ClientEvent) (w : ClientWorld) → P w → P (handle_client_event react ev w)
    unfolding handle_client_event
    handle_client_event-keeps ev w h =
        by_type ev.type _ (call_client_hook-keeps (hook_for ev w.clients) ev w refl h)
      where
        by_type :
            (ty : ClientEventType) (v : ClientWorld)
            → P v
            → P (elim ty [ close_event ↦ erase_client ev.client_id v | _ ↦ v ])
        by_type open_event v k = k
        by_type message_event v k = k
        by_type close_event v k = inv.erases ev.client_id v k

    handle_client_events-keeps :
        (evs : List ClientEvent) (w : ClientWorld) → P w → P (handle_client_events react evs w)
    unfolding handle_client_events
    handle_client_events-keeps [] w h = h
    handle_client_events-keeps (ev ∷ evs) w h =
        handle_client_events-keeps evs (handle_client_event react ev w)
          (handle_client_event-keeps ev w h)

    pub drain-keeps : (w : ClientWorld) → P w → P (drain_ws_client_events react w)
    unfolding drain_ws_client_events
    drain-keeps w h =
        let s : SameTable w (record w { events = [] }) = record {
          clients = refl;
          ids = refl;
          preserved = refl;
          calls = refl;
        } in
        handle_client_events-keeps w.events _ (inv.same s h)

  Step-keeps : {w v : ClientWorld} → Step w v → P w → P v
  unfolding message_handler connection_closed_handler connect_callback
  Step-keeps {w} (connects o host path a b c) h = connect-keeps o host path a b c w h
  Step-keeps {w} (sends id buf binary) h = inv.same (send-SameTable id buf binary w) h
  Step-keeps {w} (closes id) h = inv.closes id w h
  Step-keeps {w} shuts h = inv.shuts w h
  Step-keeps {w} (receives id text binary) h =
      inv.same (enqueue-SameTable (message_of id text binary) w) h
  Step-keeps {w} (ends id) h = inv.same (enqueue-SameTable (close_of id (codes "closed") 0) w) h
  Step-keeps {w} (answers id r) h =
      inv.same
        (enqueue-SameTable (if r == 0 then open_of id else close_of id (codes "connect_failed") r)
          w)
        h
  Step-keeps {w} (drains react) h = drain-keeps react w h
  Step-keeps {w} (handles react ev) h = handle_client_event-keeps react ev w h

  pub Reach-keeps : {w v : ClientWorld} → Reach w v → P w → P v
  Reach-keeps here h = h
  Reach-keeps (next r s) h = Step-keeps s (Reach-keeps r h)
