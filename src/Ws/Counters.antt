-- ===== src/Ws/Counters.antt =====
-- The `live` counters of src/ws_session.cpp and the sessions that hold a slot of one.
use drogon_r.Prelude.{
  ℕ, zero, suc, ◌+◌, ◌-◌, ◌≡◌, ◌≤◌, ◌⊎◌, ◌≢◌, refl, Bool, false, List, [], ◌∷◌, none, some, arith,
  ◌==◌, if◌then◌else◌, update_at, get_elem?, count_p, get_elem?-update_ne, Option-cases, inl, inr,
}
use drogon_r.Prelude.Table.{modify, HasDistinctKeys, IsBelow, count_p-modify, IsFresh}
use drogon_r.Ws.{WsRoute, WsSession}
use drogon_r.Ws.Session.{add_live, sub_live, release_slot, touch, set_closing}
use drogon_r.Ws.Controller.{live_at}
use drogon_r.Ws.Reaper.{mark_reaped}

abbrev pub max_at : ℕ → List WsRoute → ℕ
max_at i routes = elim (get_elem? routes i) [ none ↦ 0 | some r ↦ r.max_conns ]

-- The cap of a route with a C++ handler; zero is none.
abbrev pub cap_of : WsRoute → ℕ
cap_of r = elim r.cpp_fn [ none ↦ 0 | some fn ↦ r.max_conns ]

abbrev pub cap_at : ℕ → List WsRoute → ℕ
cap_at i routes = elim (get_elem? routes i) [ none ↦ 0 | some r ↦ cap_of r ]

-- The session holds a slot of the route's counter.
abbrev pub holds_slot : ℕ → WsSession → Bool
holds_slot i s = elim s.live_counter [ none ↦ false | some j ↦ if j == i then s.counted else false ]

abbrev pub holder : ℕ → ℕ × WsSession → Bool
holder i (id, s) = holds_slot i s

-- The sessions that hold a slot of the counter.
abbrev pub holders : ℕ → List (ℕ × WsSession) → ℕ
holders i m = count_p (holder i) m

-- The session is one of the route, whether it holds a slot or not.
abbrev pub is_on : ℕ → WsSession → Bool
is_on i s = elim s.route_id [ none ↦ false | some j ↦ j == i ]

abbrev pub occupant : ℕ → ℕ × WsSession → Bool
occupant i (id, s) = is_on i s

-- The sessions of the route, and those of them that hold no slot.
abbrev pub occupants : ℕ → List (ℕ × WsSession) → ℕ
occupants i m = count_p (occupant i) m

abbrev pub stray : ℕ → ℕ × WsSession → Bool
stray i (id, s) = if holds_slot i s then false else is_on i s

abbrev pub strays : ℕ → List (ℕ × WsSession) → ℕ
strays i m = count_p (stray i) m

pub occupants_bound : (i : ℕ) (m : List (ℕ × WsSession)) → occupants i m ≤ holders i m + strays i m
occupants_bound i [] = omega arith
occupants_bound i ((id, s) ∷ m) = ground (arith, occupants_bound i m)

pub strays-closing :
    (i id : ℕ) (m : List (ℕ × WsSession)) → strays i (modify id set_closing m) ≡ strays i m
strays-closing i id m = count_p-modify (stray i) id set_closing m (λ s. refl)

pub strays-touch :
    (i id now : ℕ) (m : List (ℕ × WsSession)) → strays i (modify id (touch now) m) ≡ strays i m
strays-touch i id now m = count_p-modify (stray i) id (touch now) m (λ s. refl)

pub strays-mark_reaped :
    (i now : ℕ) (m : List (ℕ × WsSession)) → strays i (mark_reaped now m) ≡ strays i m
unfolding mark_reaped
strays-mark_reaped i now [] = refl
strays-mark_reaped i now ((id, s) ∷ m) = ground (arith, strays-mark_reaped i now m)

pub cap_at-update :
    (i j : ℕ) (f : WsRoute → WsRoute) (rs : List WsRoute)
    → ((r : WsRoute) → cap_of (f r) ≡ cap_of r)
    → cap_at j (update_at i f rs) ≡ cap_at j rs
cap_at-update i j f [] h = refl
cap_at-update zero zero f (r ∷ rs) h = h r
cap_at-update zero (suc j) f (r ∷ rs) h = refl
cap_at-update (suc i) zero f (r ∷ rs) h = refl
cap_at-update (suc i) (suc j) f (r ∷ rs) h = cap_at-update i j f rs h

pub cap_at-max_at : (i : ℕ) (rs : List WsRoute) → (cap_at i rs ≡ 0) ⊎ (cap_at i rs ≡ max_at i rs)
cap_at-max_at i rs = ground arith

pub live_at-add :
    (i : ℕ) (rs : List WsRoute) {r : WsRoute}
    → get_elem? rs i ≡ some r
    → live_at i (update_at i add_live rs) ≡ live_at i rs + 1
live_at-add i [] e = cc
live_at-add zero (r ∷ rs) e = refl
live_at-add (suc i) (r ∷ rs) e = live_at-add i rs e

pub live_at-sub :
    (i : ℕ) (rs : List WsRoute) → live_at i (update_at i sub_live rs) ≡ live_at i rs - 1
live_at-sub i [] = omega arith
live_at-sub zero (r ∷ rs) = refl
live_at-sub (suc i) (r ∷ rs) = live_at-sub i rs

pub live_at-other :
    (i j : ℕ) (f : WsRoute → WsRoute) (rs : List WsRoute)
    → i ≢ j
    → live_at j (update_at i f rs) ≡ live_at j rs
live_at-other i j f rs h = rw (get_elem?-update_ne i j f rs h, live_at)

max_at-update :
    (i j : ℕ) (f : WsRoute → WsRoute) (rs : List WsRoute)
    → ((r : WsRoute) → (f r).max_conns ≡ r.max_conns)
    → max_at j (update_at i f rs) ≡ max_at j rs
max_at-update i j f [] h = refl
max_at-update zero zero f (r ∷ rs) h = h r
max_at-update zero (suc j) f (r ∷ rs) h = refl
max_at-update (suc i) zero f (r ∷ rs) h = refl
max_at-update (suc i) (suc j) f (r ∷ rs) h = max_at-update i j f rs h

pub max_at-add : (i j : ℕ) (rs : List WsRoute) → max_at j (update_at i add_live rs) ≡ max_at j rs
max_at-add i j rs = max_at-update i j add_live rs (λ r. refl)

pub max_at-sub : (i j : ℕ) (rs : List WsRoute) → max_at j (update_at i sub_live rs) ≡ max_at j rs
max_at-sub i j rs = max_at-update i j sub_live rs (λ r. refl)

pub holders-closing :
    (i id : ℕ) (m : List (ℕ × WsSession)) → holders i (modify id set_closing m) ≡ holders i m
holders-closing i id m = count_p-modify (holder i) id set_closing m (λ s. refl)

pub holders-touch :
    (i id now : ℕ) (m : List (ℕ × WsSession)) → holders i (modify id (touch now) m) ≡ holders i m
holders-touch i id now m = count_p-modify (holder i) id (touch now) m (λ s. refl)

pub holders-mark_reaped :
    (i now : ℕ) (m : List (ℕ × WsSession)) → holders i (mark_reaped now m) ≡ holders i m
unfolding mark_reaped
holders-mark_reaped i now [] = refl
holders-mark_reaped i now ((id, s) ∷ m) = ground (arith, holders-mark_reaped i now m)

pub sub-live_at :
    (i j : ℕ) (b : Bool) (rs : List WsRoute)
    → live_at i (if b then update_at j sub_live rs else rs)
      ≡ live_at i rs - (if (if j == i then b else false) then 1 else 0)
sub-live_at i j b rs = ground (arith, live_at-other j i sub_live rs, live_at-sub i rs)

pub mark_reaped-IsFresh :
    (j now : ℕ) (m : List (ℕ × WsSession)) → IsFresh j m → IsFresh j (mark_reaped now m)
unfolding mark_reaped
mark_reaped-IsFresh j now [] h = tt
mark_reaped-IsFresh j now ((id, s) ∷ m) h = (h.0, mark_reaped-IsFresh j now m h.1)

pub mark_reaped-HasDistinctKeys :
    (now : ℕ) (m : List (ℕ × WsSession)) → HasDistinctKeys m → HasDistinctKeys (mark_reaped now m)
unfolding mark_reaped
mark_reaped-HasDistinctKeys now [] h = tt
mark_reaped-HasDistinctKeys now ((id, s) ∷ m) h =
    (mark_reaped-IsFresh id now m h.0, mark_reaped-HasDistinctKeys now m h.1)

pub mark_reaped-IsBelow :
    (now n : ℕ) (m : List (ℕ × WsSession)) → IsBelow n m → IsBelow n (mark_reaped now m)
unfolding mark_reaped
mark_reaped-IsBelow now n [] h = tt
mark_reaped-IsBelow now n ((id, s) ∷ m) h = (h.0, mark_reaped-IsBelow now n m h.1)

-- Releasing a session's slot takes one off the counter that it holds, and off no other.
pub release_slot-live_at :
    (i : ℕ) (s : WsSession) (rs : List WsRoute)
    → live_at i (release_slot s rs) ≡ live_at i rs - (if holds_slot i s then 1 else 0)
unfolding release_slot
release_slot-live_at i s rs = elim (Option-cases s.live_counter) [
  | inl e ↦ rw (e, release_slot, holds_slot) (omega arith)
  | inr (j, e) ↦ rw (e, release_slot, holds_slot) (sub-live_at i j s.counted rs)
]

pub release_slot-max_at :
    (i : ℕ) (s : WsSession) (rs : List WsRoute) → max_at i (release_slot s rs) ≡ max_at i rs
unfolding release_slot
release_slot-max_at i s rs = elim (Option-cases s.live_counter) [
  | inl e ↦ rw (e, release_slot)
  | inr (j, e) ↦ rw (e, release_slot) (ground (arith, max_at-sub j i rs))
]

pub release_slot-cap_at :
    (i : ℕ) (s : WsSession) (rs : List WsRoute) → cap_at i (release_slot s rs) ≡ cap_at i rs
unfolding release_slot
release_slot-cap_at i s rs = elim (Option-cases s.live_counter) [
  | inl e ↦ rw (e, release_slot)
  | inr (j, e) ↦ rw (e, release_slot) (ground (arith, cap_at-update j i sub_live rs (λ r. refl)))
]
