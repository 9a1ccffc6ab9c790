-- ===== src/Ws/Reaper.antt =====
-- The reaper of src/ws_session.cpp: one timer closes C++ sessions that are idle or too old.
pub mod Laws
pub mod Scan
use drogon_r.Prelude.{
  ℕ, suc, ◌+◌, ◌-◌, ◌*◌, Bool, true, false, ◌&&◌, ◌||◌, List, [], ◌∷◌, ◌++◌, Option, none, some,
  ◌==◌, ltb, if◌then◌else◌,
}
use drogon_r.Ws.{WsRoute, WsSession, World, LoopTask, shutdown_conn}
use drogon_r.Ws.Session.{set_closing}

-- The two thresholds; the clock is monotonic, and `-` stops at 0 where a send came after `now`.
unfoldable pub is_expired : ℕ → WsSession → Bool
is_expired now s =
    (ltb 0 s.idle_ms && ltb s.idle_ms (now - s.last_send_ms))
    || (ltb 0 s.lifetime_ms && ltb s.lifetime_ms (now - s.connect_ms))

-- `!s->cpp_fn || s->closing` passes a session over.
unfoldable pub is_reaped : ℕ → WsSession → Bool
unfolding is_expired
is_reaped now s = elim s.cpp_fn [
  | none ↦ false
  | some fn ↦ if s.closing then false else is_expired now s
]

unfoldable pub mark_reaped : ℕ → List (ℕ × WsSession) → List (ℕ × WsSession)
unfolding is_reaped
mark_reaped now [] = []
mark_reaped now ((id, s) ∷ m) =
    (id, if is_reaped now s then set_closing s else s) ∷ mark_reaped now m

-- One task for each expired session that has a loop.
unfoldable pub reap_tasks : ℕ → List (ℕ × WsSession) → List LoopTask
unfolding is_reaped
reap_tasks now [] = []
reap_tasks now ((id, s) ∷ m) =
    let rest = reap_tasks now m in
    if is_reaped now s
    then elim s.loop [ none ↦ rest | some l ↦ shutdown_conn s.conn ∷ rest ]
    else rest

unfoldable pub reap_expired_sessions : ℕ → World → World
unfolding mark_reaped reap_tasks
reap_expired_sessions now w = if w.reaper_stop then w else record w {
  sessions = mark_reaped now w.sessions;
  tasks = w.tasks ++ reap_tasks now w.sessions;
}

-- `v > 0 && (minThresh == 0 || v < minThresh)`.
unfoldable pub tighter : ℕ → ℕ → ℕ
tighter best v = if ltb 0 v && ((best == 0) || ltb v best) then v else best

-- The body of the loop: a route without a C++ handler is passed over.
unfoldable pub tighten : ℕ → WsRoute → ℕ
unfolding tighter
tighten best r = elim r.cpp_fn [
  | none ↦ best
  | some fn ↦ tighter (tighter best r.idle_ms) r.lifetime_ms
]

unfoldable pub min_threshold : ℕ → List WsRoute → ℕ
unfolding tighten
min_threshold best [] = best
min_threshold best (r ∷ rs) = min_threshold (tighten best r) rs

-- Half the threshold, between 50 ms and 1 s; in microseconds, in which it is exact.
unfoldable pub scan_interval : ℕ → ℕ
scan_interval threshold =
    let half = threshold * 500 in
    if ltb half 50000 then 50000 else if ltb 1000000 half then 1000000 else half

-- armWsReaperLocked: `none` if no route wants reaping, else the interval of the timer.
unfoldable pub arm_interval : List WsRoute → Option ℕ
unfolding min_threshold scan_interval
arm_interval routes =
    let threshold = min_threshold 0 routes in
    if threshold == 0 then none else some (scan_interval threshold)

unfoldable pub arm_ws_reaper : World → World
unfolding arm_interval
arm_ws_reaper w = elim (arm_interval w.routes) [
  | none ↦ w
  | some interval ↦ record w { reaper_stop = false; reaper_armed = true }
]
