-- ===== src/Ws/Slots.antt =====
-- How the operations of src/ws_session.cpp move the `live` counters and the sessions that count.
use drogon_r.Prelude.{
  ℕ, suc, ◌+◌, ◌≤◌, ◌<◌, ◌≡◌, refl, Bool, false, List, [], ◌∷◌, arith, if◌then◌else◌, Option-cases,
  Bool-cases, inl, inr,
}
use drogon_r.Prelude.Bytes.{Bytes}
use drogon_r.Prelude.Table.{
  find, modify, HasDistinctKeys, IsBelow, count_p-erase, erase-HasDistinctKeys, erase-IsBelow,
  modify-HasDistinctKeys, modify-IsBelow, IsFresh-of_IsBelow, IsBelow-mono,
}
use drogon_r.Ws.{WsSession, World, find_ws_session}
use drogon_r.Ws.Session.{
  erase_ws_session, touch, set_closing, ws_cpp_send, ws_close, test_send, queue_frame, run_callback,
  run_callbacks, Callback, sends, closes, asks,
}
use drogon_r.Ws.Controller.{live_at, enter_session}
use drogon_r.Ws.Reaper.{reap_expired_sessions}
use drogon_r.Ws.Counters.{
  cap_at, is_on, stray, strays, strays-closing, strays-touch, strays-mark_reaped,
  release_slot-cap_at, max_at, holds_slot, holder, holders, holders-closing, holders-touch,
  holders-mark_reaped, mark_reaped-HasDistinctKeys, mark_reaped-IsBelow, release_slot-live_at,
  release_slot-max_at,
}

-- What the counters and the table of sessions agree on, for one counter: `taken` slots are held by
-- connections that are not in the table yet, and `doomed` ones are about to be given back.
pub record IsBalanced (i taken doomed : ℕ) (w : World) : Type 0 where
  pub live : live_at i w.routes ≡ holders i w.sessions + taken + doomed
  pub limit : (0 < max_at i w.routes) → holders i w.sessions + taken ≤ max_at i w.routes
  -- On a route with a cap every session holds a slot.
  pub held : (0 < cap_at i w.routes) → strays i w.sessions ≡ 0
  pub keys : HasDistinctKeys w.sessions
  pub ids : IsBelow w.next_id w.sessions

module _ {i taken doomed : ℕ} where
  -- It is enough that a change leaves the counters, the holders and the keys alone.
  pub IsBalanced-of_same :
      (w v : World)
      → IsBalanced i taken doomed w
      → v.routes ≡ w.routes
      → v.next_id ≡ w.next_id
      → holders i v.sessions ≡ holders i w.sessions
      → strays i v.sessions ≡ strays i w.sessions
      → HasDistinctKeys v.sessions
      → IsBelow w.next_id v.sessions
      → IsBalanced i taken doomed v
  IsBalanced-of_same w v h er en eh es keys ids = record {
    live = rw (er, eh) h.live;
    limit = rw (er, eh) h.limit;
    held = rw (er, es) h.held;
    keys = keys;
    ids = rw en ids;
  }

  pub erase-IsBalanced :
      (id : ℕ) (w : World)
      → IsBalanced i taken doomed w
      → IsBalanced i taken doomed (erase_ws_session id w)
  unfolding erase_ws_session find_ws_session
  erase-IsBalanced id w h = elim (Option-cases (find id w.sessions)) [
    | inl e ↦ rw (e, erase_ws_session) (IsBalanced-of_same w _ h refl refl refl refl h.keys h.ids)
    | inr (s, e) ↦
        let gone = count_p-erase (holder i) id w.sessions s h.keys e in
        let astray = count_p-erase (stray i) id w.sessions s h.keys e in
        let max_same = release_slot-max_at i s w.routes in
        let cap_same = release_slot-cap_at i s w.routes in
        rw (e, erase_ws_session)
          (record {
            live = omega (arith, h.live, gone, release_slot-live_at i s w.routes);
            limit = rw max_same (λ p. omega (arith, h.limit p, gone));
            held = rw cap_same (λ p. omega (arith, h.held p, astray));
            keys = erase-HasDistinctKeys id w.sessions h.keys;
            ids = erase-IsBelow id w.next_id w.sessions h.ids;
          })
  ]

  pub closing-IsBalanced :
      (id : ℕ) (w v : World)
      → v.routes ≡ w.routes
      → v.next_id ≡ w.next_id
      → v.sessions ≡ modify id set_closing w.sessions
      → IsBalanced i taken doomed w
      → IsBalanced i taken doomed v
  closing-IsBalanced id w v er en es h =
      IsBalanced-of_same w v h er en (rw es (holders-closing i id w.sessions))
        (rw es (strays-closing i id w.sessions))
        (rw es (modify-HasDistinctKeys id set_closing w.sessions h.keys))
        (rw es (modify-IsBelow id w.next_id set_closing w.sessions h.ids))

  pub ws_close-IsBalanced :
      (id : ℕ) (w : World) → IsBalanced i taken doomed w → IsBalanced i taken doomed (ws_close id w)
  unfolding ws_close
  ws_close-IsBalanced id w h = elim (Option-cases (find_ws_session id w)) [
    | inl e ↦ rw (e, ws_close) h
    | inr (s, e) ↦ elim (Option-cases s.loop) [
      | inl l ↦ rw (e, ws_close) (rw (l, ws_close) h)
      | inr (l, el) ↦
          rw (e, ws_close) (rw (el, ws_close) (closing-IsBalanced id w _ refl refl refl h))
    ]
  ]

  touch-IsBalanced :
      (id now : ℕ) (w v : World)
      → v.routes ≡ w.routes
      → v.next_id ≡ w.next_id
      → v.sessions ≡ modify id (touch now) w.sessions
      → IsBalanced i taken doomed w
      → IsBalanced i taken doomed v
  touch-IsBalanced id now w v er en es h =
      IsBalanced-of_same w v h er en (rw es (holders-touch i id now w.sessions))
        (rw es (strays-touch i id now w.sessions))
        (rw es (modify-HasDistinctKeys id (touch now) w.sessions h.keys))
        (rw es (modify-IsBelow id w.next_id (touch now) w.sessions h.ids))

  pub queue_frame-IsBalanced :
      (now id : ℕ) (s : WsSession) (bytes : Bytes) (binary : Bool) (w : World)
      → IsBalanced i taken doomed w
      → IsBalanced i taken doomed (queue_frame now id s bytes binary w)
  unfolding queue_frame
  queue_frame-IsBalanced now id s bytes binary w h =
      touch-IsBalanced id now w (queue_frame now id s bytes binary w) refl refl refl h

  pub ws_cpp_send-IsBalanced :
      (connected : ℕ → Bool) (now id : ℕ) (bytes : Bytes) (binary : Bool) (w : World)
      → IsBalanced i taken doomed w
      → IsBalanced i taken doomed (ws_cpp_send connected now id bytes binary w).0
  unfolding ws_cpp_send
  ws_cpp_send-IsBalanced connected now id bytes binary w h =
      elim (Option-cases (test_send connected id w)) [
        | inl e ↦ rw (e, ws_cpp_send) h
        | inr (s, e) ↦ rw (e, ws_cpp_send) (queue_frame-IsBalanced now id s bytes binary w h)
      ]

  pub run_callbacks-IsBalanced :
      (connected : ℕ → Bool) (now : ℕ) (cs : List Callback) (w : World)
      → IsBalanced i taken doomed w
      → IsBalanced i taken doomed (run_callbacks connected now cs w)
  unfolding run_callbacks run_callback
  run_callbacks-IsBalanced connected now [] w h = h
  run_callbacks-IsBalanced connected now (sends id bytes binary ∷ cs) w h =
      run_callbacks-IsBalanced connected now cs _
        (ws_cpp_send-IsBalanced connected now id bytes binary w h)
  run_callbacks-IsBalanced connected now (closes id ∷ cs) w h =
      run_callbacks-IsBalanced connected now cs _ (ws_close-IsBalanced id w h)
  run_callbacks-IsBalanced connected now (asks id ∷ cs) w h =
      run_callbacks-IsBalanced connected now cs w h

  pub reap-IsBalanced :
      (now : ℕ) (w : World)
      → IsBalanced i taken doomed w
      → IsBalanced i taken doomed (reap_expired_sessions now w)
  unfolding reap_expired_sessions
  reap-IsBalanced now w h = elim (Bool-cases w.reaper_stop) [
    | inl e ↦ simp e h
    | inr e ↦ simp e (
        IsBalanced-of_same w _ h refl refl (holders-mark_reaped i now w.sessions)
          (strays-mark_reaped i now w.sessions) (mark_reaped-HasDistinctKeys now w.sessions h.keys)
          (mark_reaped-IsBelow now w.next_id w.sessions h.ids))
  ]

  -- A session enters the table under a fresh id.
  pub enter-IsBalanced :
      (s : WsSession) (taken' : ℕ) (w : World)
      → taken ≡ taken' + (if holds_slot i s then 1 else 0)
      → ((0 < cap_at i w.routes) → (if holds_slot i s then false else is_on i s) ≡ false)
      → IsBalanced i taken doomed w
      → IsBalanced i taken' doomed (enter_session s w)
  unfolding enter_session
  enter-IsBalanced s taken' w e counts h = record {
    live = omega (arith, h.live);
    limit = λ p. omega (arith, h.limit p);
    held = λ p. ground (arith, h.held p, counts p);
    keys = (IsFresh-of_IsBelow w.next_id w.sessions h.ids, h.keys);
    ids = (omega arith, IsBelow-mono w.next_id (suc w.next_id) w.sessions (omega arith) h.ids);
  }
