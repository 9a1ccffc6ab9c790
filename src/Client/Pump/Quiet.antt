-- ===== src/Client/Pump/Quiet.antt =====
-- The calls of a hook of src/ws_client.cpp that leave every hook in its place.
use drogon_r.Prelude.{ℕ, ◌≡◌, refl, ◌∙◌, inl, inr, Bool, List, [], ◌∷◌, arith, Option-cases, All}
use drogon_r.Prelude.Bytes.{Bytes}
use drogon_r.Prelude.Table.{find, modify}
use drogon_r.Client.{
  WsClient, ClientEvent, ClientEventType, open_event, message_event, close_event, ClientWorld,
  find_client,
}
use drogon_r.Client.Calls.{set_closing, send_to_client, close_client}
use drogon_r.Client.Pump.{
  RCall, r_connect, r_send, r_close, r_shutdown, run_r_call, run_r_calls, hook_of, hook_for,
}

-- A call that takes no client out of the table and puts none in.
abbrev pub IsQuiet : RCall → Type 0
IsQuiet (r_connect o host path a b c) = ⊥
IsQuiet (r_send id buf binary) = Unit {0}
IsQuiet (r_close id) = Unit {0}
IsQuiet r_shutdown = ⊥

pub record SameHooks (w v : ClientWorld) : Type 0 where
  pub hooks : (ev : ClientEvent) → hook_for ev v.clients ≡ hook_for ev w.clients
  pub calls : v.hook_calls ≡ w.hook_calls
  pub events : v.events ≡ w.events
  pub watch : v.watch ≡ w.watch

pub send-SameHooks :
    (id : ℕ) (buf : Bytes) (binary : Bool) (w : ClientWorld)
    → SameHooks w (send_to_client id buf binary w).0
unfolding send_to_client
send-SameHooks id buf binary w = ground arith

pub hook_of-closing :
    (ty : ClientEventType) (c : WsClient) → hook_of ty (set_closing c) ≡ hook_of ty c
hook_of-closing open_event c = refl
hook_of-closing message_event c = refl
hook_of-closing close_event c = refl

pub hook_for-closing :
    (ev : ClientEvent) (k : ℕ) (m : List (ℕ × WsClient))
    → hook_for ev (modify k set_closing m) ≡ hook_for ev m
unfolding hook_for modify find
hook_for-closing ev k [] = refl
hook_for-closing ev k ((j, c) ∷ m) =
    ground (arith, hook_for-closing ev k m, hook_of-closing ev.type c)

pub close-SameHooks : (id : ℕ) (w : ClientWorld) → SameHooks w (close_client id w)
unfolding close_client
close-SameHooks id w = elim (Option-cases (find_client id w)) [
  | inl e ↦
      rw (e, close_client)
        (record { hooks = λ ev. refl; calls = refl; events = refl; watch = refl })
  | inr (c, e) ↦
      rw (e, close_client)
        (record {
          hooks = λ ev. hook_for-closing ev id w.clients;
          calls = refl;
          events = refl;
          watch = refl;
        })
]

pub run_r_call-SameHooks : (c : RCall) (w : ClientWorld) → IsQuiet c → SameHooks w (run_r_call c w)
unfolding run_r_call
run_r_call-SameHooks (r_connect o host path a b c) w q = absurd q
run_r_call-SameHooks (r_send id buf binary) w q = send-SameHooks id buf binary w
run_r_call-SameHooks (r_close id) w q = close-SameHooks id w
run_r_call-SameHooks r_shutdown w q = absurd q

pub run_r_calls-SameHooks :
    (cs : List RCall) (w : ClientWorld) → All IsQuiet cs → SameHooks w (run_r_calls cs w)
unfolding run_r_calls
run_r_calls-SameHooks [] w q = record {
  hooks = λ ev. refl;
  calls = refl;
  events = refl;
  watch = refl;
}
run_r_calls-SameHooks (c ∷ cs) w q =
    let here = run_r_call-SameHooks c w q.0 in
    let there = run_r_calls-SameHooks cs (run_r_call c w) q.1 in
    record {
      hooks = λ ev. there.hooks ev ∙ here.hooks ev;
      calls = there.calls ∙ here.calls;
      events = there.events ∙ here.events;
      watch = there.watch ∙ here.watch;
    }
