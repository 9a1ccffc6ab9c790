-- ===== src/Client/Closing.antt =====
-- Closing a client of src/ws_client.cpp, and connects that fail.
use drogon_r.Prelude.{
  ℕ, ◌<◌, ◌≡◌, refl, sym, ap, ◌∙◌, subst, inl, inr, Bool, true, false, List, [], ◌∷◌, Option, none,
  some, arith, Option-cases,
}
use drogon_r.Prelude.Bytes.{Bytes}
use drogon_r.Prelude.Sexp.{Sexp}
use drogon_r.Prelude.Preserved.{times, times-preserve_hooks, times-release_hooks}
use drogon_r.Prelude.Table.{find, erase, modify, find-erase}
use drogon_r.Client.{
  WsClient, ClientWorld, find_client, preserve_client_hooks, release_client_hooks,
}
use drogon_r.Client.Calls.{set_closing, close_client, shutdown_ws_clients, sendable, send_to_client}
use drogon_r.Client.Connect.{Outside, open_client, ws_connect}
use drogon_r.Client.Pump.{erase_client}
use drogon_r.Client.Invariant.{Reach, IsInvariant, Reach-keeps, connect_cases}
use drogon_r.Client.Runs.{find-emplace}

-- A missing client, or one that is closing.
abbrev Shut : Option WsClient → Type 0
Shut none = Unit {0}
Shut (some c) = c.closing ≡ true

record IsShut (id : ℕ) (w : ClientWorld) : Type 0 where
  shut : Shut (find id w.clients)
  given : id < w.next_id

find-set_closing :
    (id k : ℕ) (m : List (ℕ × WsClient))
    → Shut (find id m)
    → Shut (find id (modify k set_closing m))
unfolding find modify
find-set_closing id k [] h = tt
find-set_closing id k ((j, c) ∷ m) h = ground (arith, find-set_closing id k m)

set_closing-Shut : (id : ℕ) (m : List (ℕ × WsClient)) → Shut (find id (modify id set_closing m))
unfolding find modify
set_closing-Shut id [] = tt
set_closing-Shut id ((j, c) ∷ m) = ground (arith, set_closing-Shut id m)

erase-Shut : (id k : ℕ) (m : List (ℕ × WsClient)) → Shut (find id m) → Shut (find id (erase k m))
erase-Shut id k m h = ground (arith, find-erase k id m)

open-IsShut :
    (id : ℕ) (new : Option ℕ) (path : Bytes) (c : WsClient) (w : ClientWorld)
    → IsShut id w
    → IsShut id (open_client new path c w).0
unfolding open_client
open-IsShut id none path c w h = record { shut = h.shut; given = omega (arith, h.given) }
open-IsShut id (some handle) path c w h = record {
  shut =
      subst Shut
        (sym (find-emplace id w.next_id (record c { client = some handle }) w.clients h.given))
        h.shut;
  given = omega (arith, h.given);
}

close-IsShut : (id k : ℕ) (w : ClientWorld) → IsShut id w → IsShut id (close_client k w)
unfolding close_client
close-IsShut id k w h = elim (Option-cases (find_client k w)) [
  | inl e ↦ rw (e, close_client) h
  | inr (c, e) ↦
      rw (e, close_client)
        (record { shut = find-set_closing id k w.clients h.shut; given = h.given })
]

erase-IsShut : (id k : ℕ) (w : ClientWorld) → IsShut id w → IsShut id (erase_client k w)
unfolding erase_client
erase-IsShut id k w h = elim (Option-cases (find_client k w)) [
  | inl e ↦ rw (e, erase_client) h
  | inr (c, e) ↦
      rw (e, erase_client) (record { shut = erase-Shut id k w.clients h.shut; given = h.given })
]

IsShut-IsInvariant : (id : ℕ) → IsInvariant (IsShut id)
unfolding shutdown_ws_clients find
IsShut-IsInvariant id = record {
  same = λ s h. record { shut = rw (s.clients) h.shut; given = rw (s.ids) h.given };
  opens = open-IsShut id;
  shuts = λ w h. record { shut = tt; given = h.given };
  closes = close-IsShut id;
  erases = erase-IsShut id;
  logs = λ ev hook w e h. record { shut = h.shut; given = h.given };
}

start-IsShut : (id : ℕ) (w : ClientWorld) → id < w.next_id → IsShut id (close_client id w)
unfolding close_client find_client
start-IsShut id w lt = elim (Option-cases (find_client id w)) [
  | inl e ↦ rw (e, close_client) (record { shut = rw e tt; given = lt })
  | inr (c, e) ↦ rw (e, close_client) (record { shut = set_closing-Shut id w.clients; given = lt })
]

send-Shut :
    (id : ℕ) (buf : Bytes) (binary : Bool) (w : ClientWorld)
    → Shut (find id w.clients)
    → send_to_client id buf binary w ≡ (w, false)
unfolding send_to_client sendable find_client
send-Shut id buf binary w h = ground (arith, h)

-- From dr_ws_client_close on, a message to the client is refused with FALSE and leaves no frame for
-- its loop, in every run: no callback, connect or hook opens the client again.
pub closed_sends_nothing :
    (id : ℕ) (buf : Bytes) (binary : Bool) (w v : ClientWorld)
    → id < w.next_id
    → Reach (close_client id w) v
    → send_to_client id buf binary v ≡ (v, false)
closed_sends_nothing id buf binary w v given r =
    let end = Reach-keeps (IsShut id) (IsShut-IsInvariant id) r (start-IsShut id w given) in
    send-Shut id buf binary v end.shut

open_none :
    (new : Option ℕ) (path : Bytes) (c : WsClient) (v : ClientWorld)
    → (open_client new path c v).1 ≡ none
    → (x : ℕ)
    → ((open_client new path c v).0.clients ≡ v.clients)
      × ((open_client new path c v).0.events ≡ v.events)
      × (times x (open_client new path c v).0.preserved ≡ times x v.preserved)
unfolding open_client preserve_client_hooks release_client_hooks
open_none none path c v e x =
    let kept = preserve_client_hooks c v.preserved in
    let more = λ (y : ℕ). times-preserve_hooks y c.on_message c.on_open c.on_close v.preserved in
    let less =
      times-release_hooks c.on_message c.on_open c.on_close kept (λ (y : ℕ). omega (arith, more y))
        x in
    (refl, refl, omega (arith, more x, less))
open_none (some handle) path c v e x = ground arith

-- A connect that ends in an R error, at its checks, for want of a wake pipe or for want of a client,
-- leaves the table and the queued events as they were and each closure preserved as often.
pub connect_failed :
    (o : Outside) (host path a b c : Sexp) (w : ClientWorld) (x : ℕ)
    → (ws_connect o host path a b c w).1 ≡ none
    → ((ws_connect o host path a b c w).0.clients ≡ w.clients)
      × ((ws_connect o host path a b c w).0.events ≡ w.events)
      × (times x (ws_connect o host path a b c w).0.preserved ≡ times x w.preserved)
connect_failed o host path a b c w x e = elim (connect_cases o host path a b c w) [
  | inl s ↦ (s.table.clients, s.events, ap (times x) s.table.preserved)
  | inr (new, p, client, v, s, q) ↦
      let (clients, events, kept) = open_none new p client v (sym (ap (λ r. r.1) q) ∙ e) x in
      rw q (clients ∙ s.table.clients, events ∙ s.events, kept ∙ ap (times x) s.table.preserved)
]
