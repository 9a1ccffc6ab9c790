-- ===== src/Client/Runs.antt =====
-- Runs of src/ws_client.cpp: the entry points, the callbacks of Drogon and the drains, in any order.
use drogon_r.Prelude.{
  ℕ, suc, ◌≤◌, ◌<◌, ◌≡◌, refl, ap, ◌∙◌, inl, inr, Bool, List, [], ◌∷◌, ◌++◌, Option, none, some,
  arith, Option-cases, ◌==◌, count_p, count_p-append,
}
use drogon_r.Prelude.Bytes.{Bytes}
use drogon_r.Prelude.Table.{find, find-erase, find-modify-none}
use drogon_r.Prelude.Preserved.{times}
use drogon_r.Client.{
  WsClient, ClientEvent, close_event, ClientCall, ClientWorld, emplace, find_client,
}
use drogon_r.Client.Calls.{set_closing, close_client, shutdown_ws_clients}
use drogon_r.Client.Connect.{open_client}
use drogon_r.Client.Pump.{
  RCall, hook_for, hook_call, erase_client, call_client_hook, handle_client_event,
}
use drogon_r.Client.Invariant.{Reach, IsInvariant, Reach-keeps, call_client_hook-keeps}
use drogon_r.Client.Laws.{IsKept, open_client-Kept, shutdown-Kept, close-Kept, erase-Kept}

IsKept-IsInvariant : (base : ℕ → ℕ) → IsInvariant (IsKept base)
IsKept-IsInvariant base = record {
  same = λ s h. simp (s.clients, s.ids, s.preserved) h;
  opens = open_client-Kept base;
  shuts = shutdown-Kept base;
  closes = close-Kept base;
  erases = erase-Kept base;
  logs = λ ev hook w e h. h;
}

-- After any run from a session without clients, whatever connects fail and whatever the hooks call,
-- shutdownWsClients leaves each closure preserved as often as before the run.
pub clients-balance :
    {w v : ClientWorld}
    → Reach w v
    → w.clients ≡ []
    → (x : ℕ) → times x (shutdown_ws_clients v).preserved ≡ times x w.preserved
unfolding shutdown_ws_clients
clients-balance {w} {v} r empty x =
    let base = λ (y : ℕ). times y w.preserved in
    let start : IsKept base w =
      simp empty (record { distinct = tt; below = tt; balance = λ y. omega arith }) in
    let end = Reach-keeps (IsKept base) (IsKept-IsInvariant base) r start in
    omega (arith, (shutdown-Kept base v end).balance x)

-- The calls of a client's hooks.
abbrev pub is_call_of : ℕ → ClientCall → Bool
is_call_of id c = c.client_id == id

abbrev pub calls_to : ℕ → ClientWorld → ℕ
calls_to id w = count_p (is_call_of id) w.hook_calls

pub find-emplace :
    (id k : ℕ) (c : WsClient) (m : List (ℕ × WsClient))
    → id < k
    → find id (emplace k c m) ≡ find id m
unfolding emplace find
find-emplace id k c m lt = ground arith

hook_call-client_id : (hook : ℕ) (ev : ClientEvent) → (hook_call hook ev).client_id ≡ ev.client_id
unfolding hook_call
hook_call-client_id hook ev = ground arith

-- The client has left the table for good, and its hooks were called `n` times.
record IsGone (id n : ℕ) (w : ClientWorld) : Type 0 where
  absent : find id w.clients ≡ none
  given : id < w.next_id
  calls : calls_to id w ≡ n

open-IsGone :
    (id n : ℕ) (new : Option ℕ) (path : Bytes) (c : WsClient) (w : ClientWorld)
    → IsGone id n w
    → IsGone id n (open_client new path c w).0
unfolding open_client
open-IsGone id n none path c w h = record {
  absent = h.absent;
  given = omega (arith, h.given);
  calls = h.calls;
}
open-IsGone id n (some handle) path c w h = record {
  absent =
      find-emplace id w.next_id (record c { client = some handle }) w.clients h.given ∙ h.absent;
  given = omega (arith, h.given);
  calls = h.calls;
}

close-IsGone : (id n k : ℕ) (w : ClientWorld) → IsGone id n w → IsGone id n (close_client k w)
unfolding close_client find_client
close-IsGone id n k w h = elim (Option-cases (find_client k w)) [
  | inl e ↦ rw (e, close_client) h
  | inr (c, e) ↦
      rw (e, close_client)
        (record {
          absent = find-modify-none k id set_closing w.clients h.absent;
          given = h.given;
          calls = h.calls;
        })
]

erase-IsGone : (id n k : ℕ) (w : ClientWorld) → IsGone id n w → IsGone id n (erase_client k w)
unfolding erase_client find_client
erase-IsGone id n k w h = elim (Option-cases (find_client k w)) [
  | inl e ↦ rw (e, erase_client) h
  | inr (c, e) ↦
      rw (e, erase_client)
        (record {
          absent = ground (arith, find-erase k id w.clients, h.absent);
          given = h.given;
          calls = h.calls;
        })
]

log-IsGone :
    (id n : ℕ) (ev : ClientEvent) (hook : ℕ) (w : ClientWorld)
    → hook_for ev w.clients ≡ some hook
    → IsGone id n w
    → IsGone id n (record w { hook_calls = w.hook_calls ++ hook_call hook ev ∷ [] })
unfolding hook_for
log-IsGone id n ev hook w e h = record {
  absent = h.absent;
  given = h.given;
  calls = ground (
    arith,
    count_p-append (is_call_of id) w.hook_calls (hook_call hook ev ∷ []),
    hook_call-client_id hook ev,
    h.absent,
    h.calls,
  );
}

IsGone-IsInvariant : (id n : ℕ) → IsInvariant (IsGone id n)
unfolding shutdown_ws_clients find
IsGone-IsInvariant id n = record {
  same = λ s h. record {
    absent = ap (find id) s.clients ∙ h.absent;
    given = rw (s.ids) h.given;
    calls = ap (count_p (is_call_of id)) s.calls ∙ h.calls;
  };
  opens = open-IsGone id n;
  shuts = λ w h. record { absent = refl; given = h.given; calls = h.calls };
  closes = close-IsGone id n;
  erases = erase-IsGone id n;
  logs = log-IsGone id n;
}

-- Ids are given out upwards.
open-ids :
    (n : ℕ) (new : Option ℕ) (path : Bytes) (c : WsClient) (w : ClientWorld)
    → n ≤ w.next_id
    → n ≤ (open_client new path c w).0.next_id
unfolding open_client
open-ids n none path c w h = omega (arith, h)
open-ids n (some handle) path c w h = omega (arith, h)

close-ids : (k : ℕ) (w : ClientWorld) → (close_client k w).next_id ≡ w.next_id
unfolding close_client
close-ids k w = ground arith

erase-ids : (k : ℕ) (w : ClientWorld) → (erase_client k w).next_id ≡ w.next_id
unfolding erase_client
erase-ids k w = ground arith

ids-IsInvariant : (n : ℕ) → IsInvariant (λ w. n ≤ w.next_id)
unfolding shutdown_ws_clients
ids-IsInvariant n = record {
  same = λ s h. rw (s.ids) h;
  opens = open-ids n;
  shuts = λ w h. h;
  closes = λ k w h. rw (close-ids k w) h;
  erases = λ k w h. rw (erase-ids k w) h;
  logs = λ ev hook w e h. h;
}

erase_client-absent : (id : ℕ) (w : ClientWorld) → find id (erase_client id w).clients ≡ none
unfolding erase_client find_client
erase_client-absent id w = elim (Option-cases (find_client id w)) [
  | inl e ↦ rw (e, erase_client) e
  | inr (c, e) ↦ rw (e, erase_client) (ground (arith, find-erase id id w.clients))
]

-- Once a Close event of a client has been handled, the client is out of the table for good, and none
-- of its hooks runs in any later run, whatever events of it still arrive and whatever hooks call.
pub close_is_last :
    (react : ClientWorld → ClientCall → List RCall) (ev : ClientEvent) (w v : ClientWorld)
    → ev.type ≡ close_event
    → ev.client_id < w.next_id
    → Reach (handle_client_event react ev w) v
    → (find ev.client_id v.clients ≡ none)
      × (calls_to ev.client_id v ≡ calls_to ev.client_id (handle_client_event react ev w))
unfolding handle_client_event
close_is_last react ev w v closed given r =
    let id = ev.client_id in
    let after = call_client_hook react (hook_for ev w.clients) ev w in
    let grown =
      call_client_hook-keeps (λ w. suc id ≤ w.next_id) (ids-IsInvariant (suc id)) react
        (hook_for ev w.clients) ev w refl (omega (arith, given)) in
    let start : IsGone id (calls_to id (handle_client_event react ev w))
        (handle_client_event react ev w) =
      record {
        absent = simp (closed, handle_client_event) (erase_client-absent id after);
        given = simp (closed, handle_client_event) (rw (erase-ids id after) (omega (arith, grown)));
        calls = refl;
      } in
    let end = Reach-keeps _ (IsGone-IsInvariant id _) r start in (end.absent, end.calls)
