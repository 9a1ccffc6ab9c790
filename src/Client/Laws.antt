-- ===== src/Client/Laws.antt =====
-- The table of the clients of src/ws_client.cpp and the closures that it keeps, under every operation.
use drogon_r.Prelude.{
  ℕ, suc, ◌+◌, ◌≤◌, ◌≡◌, refl, sym, inl, inr, List, [], ◌∷◌, ◌++◌, Option, none, some, arith,
  Option-cases,
}
use drogon_r.Prelude.Bytes.{Bytes}
use drogon_r.Prelude.Table.{
  find, erase, modify, HasDistinctKeys, IsBelow, IsFresh-of_IsBelow, find_of_IsFresh,
  erase_of_IsFresh, erase-HasDistinctKeys, erase-IsBelow, modify-HasDistinctKeys, modify-IsBelow,
  IsBelow-mono,
}
use drogon_r.Prelude.Preserved.{times, once, times-preserve_hooks, times-release_hooks}
use drogon_r.Client.{
  WsClient, ClientWorld, emplace, preserve_client_hooks, release_client_hooks, find_client,
}
use drogon_r.Client.Calls.{release_all, set_closing, close_client, shutdown_ws_clients, stop_order}
use drogon_r.Client.Connect.{open_client}
use drogon_r.Client.Pump.{erase_client}

-- How often a closure stands in a client, and in the table.
abbrev pub held_by : ℕ → WsClient → ℕ
held_by x c = once x c.on_message + once x c.on_open + once x c.on_close

abbrev pub held : ℕ → List (ℕ × WsClient) → ℕ
held x [] = 0
held x ((id, c) ∷ m) = held_by x c + held x m

pub held-erase :
    (x k : ℕ) (m : List (ℕ × WsClient)) (c : WsClient)
    → HasDistinctKeys m
    → find k m ≡ some c
    → held x m ≡ held_by x c + held x (erase k m)
unfolding find erase
held-erase x k [] c d e = cc
held-erase x k ((j, v) ∷ m) c d e = ground (arith, held-erase x k m c d.1, erase_of_IsFresh k m)

held-closing : (x k : ℕ) (m : List (ℕ × WsClient)) → held x (modify k set_closing m) ≡ held x m
unfolding modify
held-closing x k [] = refl
held-closing x k ((j, v) ∷ m) = ground (arith, held-closing x k m)

release_client-times :
    (c : WsClient) (kept : List ℕ)
    → ((y : ℕ) → held_by y c ≤ times y kept)
    → (x : ℕ) → times x (release_client_hooks c kept) + held_by x c ≡ times x kept
unfolding release_client_hooks
release_client-times c kept h x = times-release_hooks c.on_message c.on_open c.on_close kept h x

release_all-times :
    (m : List (ℕ × WsClient)) (kept : List ℕ)
    → ((y : ℕ) → held y m ≤ times y kept)
    → (x : ℕ) → times x (release_all m kept) + held x m ≡ times x kept
unfolding release_all
release_all-times [] kept h x = omega arith
release_all-times ((id, c) ∷ m) kept h x =
    let one = release_client-times c kept (λ (y : ℕ). omega (arith, h y)) in
    let rest =
      release_all-times m (release_client_hooks c kept) (λ (y : ℕ). omega (arith, h y, one y)) x in
    omega (arith, one x, rest)

-- The table is one of distinct ids below the next, and its hooks are what is preserved beyond `base`.
pub record Kept (base : ℕ → ℕ) (next : ℕ) (m : List (ℕ × WsClient)) (kept : List ℕ) : Type 0 where
  pub distinct : HasDistinctKeys m
  pub below : IsBelow next m
  pub balance : (x : ℕ) → times x kept ≡ base x + held x m

abbrev pub IsKept : (ℕ → ℕ) → ClientWorld → Type 0
IsKept base w = Kept base w.next_id w.clients w.preserved

emplace_fresh :
    (id : ℕ) (c : WsClient) (m : List (ℕ × WsClient)) → IsBelow id m → emplace id c m ≡ (id, c) ∷ m
unfolding emplace
emplace_fresh id c m h = rw (find_of_IsFresh id m (IsFresh-of_IsBelow id m h), emplace)

preserve_client-times :
    (x : ℕ) (c : WsClient) (kept : List ℕ)
    → times x (preserve_client_hooks c kept) ≡ held_by x c + times x kept
unfolding preserve_client_hooks
preserve_client-times x c kept = times-preserve_hooks x c.on_message c.on_open c.on_close kept

pub open_client-Kept :
    (base : ℕ → ℕ) (new : Option ℕ) (path : Bytes) (c : WsClient) (w : ClientWorld)
    → IsKept base w
    → IsKept base (open_client new path c w).0
unfolding open_client
open_client-Kept base none path c w h =
    let kept = preserve_client_hooks c w.preserved in
    let more = λ (y : ℕ). preserve_client-times y c w.preserved in
    record {
      distinct = h.distinct;
      below = IsBelow-mono w.next_id (suc w.next_id) w.clients (omega arith) h.below;
      balance = λ x.
          let less = release_client-times c kept (λ (y : ℕ). omega (arith, more y)) x in
          omega (arith, more x, less, h.balance x);
    }
open_client-Kept base (some handle) path c w h =
    rw⁻¹ (sym (emplace_fresh w.next_id (record c { client = some handle }) w.clients h.below))
      (record {
        distinct = (IsFresh-of_IsBelow w.next_id w.clients h.below, h.distinct);
        below =
            (omega arith, IsBelow-mono w.next_id (suc w.next_id) w.clients (omega arith) h.below);
        balance = λ x. omega (arith, preserve_client-times x c w.preserved, h.balance x);
      })

pub shutdown-Kept :
    (base : ℕ → ℕ) (w : ClientWorld) → IsKept base w → IsKept base (shutdown_ws_clients w)
unfolding shutdown_ws_clients
shutdown-Kept base w h = record {
  distinct = tt;
  below = tt;
  balance = λ x.
      let gone =
        release_all-times w.clients w.preserved (λ (y : ℕ). omega (arith, h.balance y)) x in
      omega (arith, gone, h.balance x);
}

pub close-Kept :
    (base : ℕ → ℕ) (id : ℕ) (w : ClientWorld) → IsKept base w → IsKept base (close_client id w)
unfolding close_client
close-Kept base id w h = by_find (find_client id w)
  where
    by_find :
        (c : Option WsClient)
        → IsKept base (elim c as (λ x. ClientWorld) [
          | none ↦ w
          | some c ↦ record w {
            clients = modify id set_closing w.clients;
            orders = w.orders ++ stop_order c;
          }
        ])
    by_find none = h
    by_find (some c) = record {
      distinct = modify-HasDistinctKeys id set_closing w.clients h.distinct;
      below = modify-IsBelow id w.next_id set_closing w.clients h.below;
      balance = λ x. omega (arith, held-closing x id w.clients, h.balance x);
    }

pub erase-Kept :
    (base : ℕ → ℕ) (id : ℕ) (w : ClientWorld) → IsKept base w → IsKept base (erase_client id w)
unfolding erase_client
erase-Kept base id w h = elim (Option-cases (find_client id w)) [
  | inl e ↦ rw (e, erase_client) h
  | inr (c, e) ↦
      rw (e, erase_client)
        (record {
          distinct = erase-HasDistinctKeys id w.clients h.distinct;
          below = erase-IsBelow id w.next_id w.clients h.below;
          balance = λ x.
              let apart = λ (y : ℕ). held-erase y id w.clients c h.distinct e in
              let gone =
                release_client-times c w.preserved (λ (y : ℕ). omega (arith, apart y, h.balance y))
                  x in
              omega (arith, apart x, gone, h.balance x);
        })
]
