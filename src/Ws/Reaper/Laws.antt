-- ===== src/Ws/Reaper/Laws.antt =====
-- How often the timer of the reaper of src/ws_session.cpp runs.
use drogon_r.Prelude.{
  ℕ, ◌*◌, ◌≤◌, ◌<◌, ◌≡◌, refl, sym, subst, List, [], ◌∷◌, none, some, arith, inl, inr, ◌⊎◌, All,
  All-mono,
}
use drogon_r.Ws.{WsRoute}
use drogon_r.Ws.Reaper.{tighten, min_threshold, scan_interval, arm_interval}

-- Each limit of a route with a C++ handler is no tighter than the threshold.
abbrev pub IsWithin : ℕ → WsRoute → Type 0
IsWithin t r =
    (r.cpp_fn ≡ none)
    ⊎ (((r.idle_ms ≡ 0) ⊎ (t ≤ r.idle_ms)) × ((r.lifetime_ms ≡ 0) ⊎ (t ≤ r.lifetime_ms)))

abbrev pub HasNoLimit : WsRoute → Type 0
HasNoLimit r = (r.cpp_fn ≡ none) ⊎ ((r.idle_ms ≡ 0) × (r.lifetime_ms ≡ 0))

tighten-free : (r : WsRoute) → HasNoLimit r → tighten 0 r ≡ 0
unfolding tighten
tighten-free r h = ground arith

min_threshold-free : (rs : List WsRoute) → All HasNoLimit rs → min_threshold 0 rs ≡ 0
unfolding min_threshold
min_threshold-free [] h = refl
min_threshold-free (r ∷ rs) h = rw (tighten-free r h.0, min_threshold) (min_threshold-free rs h.1)

tighten-pos :
    (best : ℕ) (r : WsRoute)
    → 0 < best
    → (0 < tighten best r) × (tighten best r ≤ best) × IsWithin (tighten best r) r
unfolding tighten
tighten-pos best r h = ground arith

tighten-zero :
    (r : WsRoute)
    → ((tighten 0 r ≡ 0) × HasNoLimit r) ⊎ ((0 < tighten 0 r) × IsWithin (tighten 0 r) r)
unfolding tighten
tighten-zero r = ground arith

IsWithin-mono : (t u : ℕ) (r : WsRoute) → u ≤ t → IsWithin t r → IsWithin u r
IsWithin-mono t u r le h = ground arith

min_threshold-pos :
    (best : ℕ) (rs : List WsRoute)
    → 0 < best
    → (0 < min_threshold best rs)
      × (min_threshold best rs ≤ best)
      × All (IsWithin (min_threshold best rs)) rs
unfolding min_threshold
min_threshold-pos best [] h = (h, omega arith, tt)
min_threshold-pos best (r ∷ rs) h =
    let (pos, le, within) = tighten-pos best r h in
    let (pos', le', all) = min_threshold-pos (tighten best r) rs pos in
    (pos', omega arith, (IsWithin-mono _ _ r le' within, all))

-- What a threshold says of the routes: none has a limit, or it is within each.
abbrev Threshold : ℕ → List WsRoute → Type 0
Threshold t rs = ((t ≡ 0) × All HasNoLimit rs) ⊎ ((0 < t) × All (IsWithin t) rs)

Threshold-cons :
    (t : ℕ) (r : WsRoute) (rs : List WsRoute) → HasNoLimit r → Threshold t rs → Threshold t (r ∷ rs)
Threshold-cons t r rs free (inl (z, all)) = inl (z, (free, all))
Threshold-cons t r rs free (inr (p, all)) = inr (p, (ground arith, all))

min_threshold-zero : (rs : List WsRoute) → Threshold (min_threshold 0 rs) rs
unfolding min_threshold
min_threshold-zero [] = inl (refl, tt)
min_threshold-zero (r ∷ rs) = elim (tighten-zero r) [
  | inr (pos, within) ↦
      let (pos', le', all) = min_threshold-pos (tighten 0 r) rs pos in
      inr (pos', (IsWithin-mono _ _ r le' within, all))
  | inl (zero_here, free) ↦
      subst (λ t. Threshold (min_threshold t rs) (r ∷ rs)) (sym zero_here)
        (Threshold-cons (min_threshold 0 rs) r rs free (min_threshold-zero rs))
]

-- The timer's interval, in microseconds, against a limit in milliseconds.
abbrev pub IsTimely : ℕ → WsRoute → Type 0
IsTimely t r =
    (r.cpp_fn ≡ none)
    ⊎ (((r.idle_ms ≡ 0) ⊎ ((t ≡ 50000) ⊎ (2 * t ≤ r.idle_ms * 1000)))
        × ((r.lifetime_ms ≡ 0) ⊎ ((t ≡ 50000) ⊎ (2 * t ≤ r.lifetime_ms * 1000))))

scan_interval-IsTimely : (t : ℕ) (r : WsRoute) → IsWithin t r → IsTimely (scan_interval t) r
unfolding scan_interval
scan_interval-IsTimely t r h = ground arith

scan_interval_bounds : (t : ℕ) → (50000 ≤ scan_interval t) × (scan_interval t ≤ 1000000)
unfolding scan_interval
scan_interval_bounds t = ground arith

-- Either no route with a C++ handler has a limit, and no timer is armed; or one has, and the timer
-- runs every 50 ms to 1 s, and at least twice within each such limit unless that would be more often
-- than every 50 ms.
pub arm_interval_cases :
    (rs : List WsRoute)
    → ((arm_interval rs ≡ none) × All HasNoLimit rs)
      ⊎ ((t : ℕ) × (arm_interval rs ≡ some t)
          × (¬ All HasNoLimit rs)
          × (50000 ≤ t)
          × (t ≤ 1000000)
          × All (IsTimely t) rs)
unfolding arm_interval
arm_interval_cases rs = elim (min_threshold-zero rs) [
  | inl (z, all) ↦ inl (rw (z, arm_interval), all)
  | inr (p, all) ↦ inr (
    scan_interval (min_threshold 0 rs),
    ground arith,
    (λ all. ground (arith, min_threshold-free rs all, p)),
    (scan_interval_bounds (min_threshold 0 rs)).0,
    (scan_interval_bounds (min_threshold 0 rs)).1,
    All-mono (λ r h. scan_interval-IsTimely (min_threshold 0 rs) r h) rs all,
  )
]
