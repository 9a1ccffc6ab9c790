-- ===== src/Ws/Reaper/Scan.antt =====
-- What one scan of reapExpiredSessions in src/ws_session.cpp does.
use drogon_r.Prelude.{
  ℕ, ◌+◌, ◌<◌, ◌≡◌, ◌≢◌, ◌==◌, refl, sym, true, false, List, [], ◌∷◌, ◌++◌, none, some, arith,
  if◌then◌else◌, inl, inr, ◌⊎◌, ◌↔◌, All, All-mono, append-nil, Bool-cases, Option-cases, ap,
}
use drogon_r.Prelude.Table.{find}
use drogon_r.Ws.{WsSession, World, LoopTask, shutdown_conn}
use drogon_r.Ws.Session.{set_closing}
use drogon_r.Ws.Reaper.{is_expired, is_reaped, mark_reaped, reap_tasks, reap_expired_sessions}

-- A C++ session that is open and whose last send through the callback, or its start if there was none,
-- lies further back than its idle limit, or that is older than its lifetime; a limit of zero is none.
abbrev pub IsOverdue : ℕ → WsSession → Type 0
IsOverdue now s =
    (s.cpp_fn ≢ none)
    × (s.closing ≡ false)
    × ((0 < s.idle_ms) × (s.last_send_ms + s.idle_ms < now)
        ⊎ (0 < s.lifetime_ms) × (s.connect_ms + s.lifetime_ms < now))

is_reaped_iff : (now : ℕ) (s : WsSession) → (is_reaped now s ≡ true) ↔ IsOverdue now s
unfolding is_reaped is_expired
is_reaped_iff now s = ground arith

find-mark_reaped :
    (now id : ℕ) (m : List (ℕ × WsSession)) (s : WsSession)
    → find id m ≡ some s
    → find id (mark_reaped now m) ≡ some (if is_reaped now s then set_closing s else s)
unfolding find mark_reaped
find-mark_reaped now id [] s e = cc
find-mark_reaped now id ((j, t) ∷ m) s e = ground (arith, find-mark_reaped now id m s)

closing-is_reaped :
    (now now' : ℕ) (s : WsSession) → is_reaped now s ≡ true → is_reaped now' (set_closing s) ≡ false
unfolding is_reaped
closing-is_reaped now now' s h = ground arith

reap_tasks-mark_reaped :
    (now : ℕ) (m : List (ℕ × WsSession)) → reap_tasks now (mark_reaped now m) ≡ []
unfolding reap_tasks mark_reaped
reap_tasks-mark_reaped now [] = refl
reap_tasks-mark_reaped now ((id, s) ∷ m) =
    ground (arith, reap_tasks-mark_reaped now m, closing-is_reaped now now s)

mark_reaped_idem :
    (now : ℕ) (m : List (ℕ × WsSession)) → mark_reaped now (mark_reaped now m) ≡ mark_reaped now m
unfolding mark_reaped
mark_reaped_idem now [] = refl
mark_reaped_idem now ((id, s) ∷ m) =
    ground (arith, mark_reaped_idem now m, closing-is_reaped now now s)

-- A second scan at the same time does nothing: a connection is told to shut down once.
pub reap_once :
    (now : ℕ) (w : World)
    → reap_expired_sessions now (reap_expired_sessions now w) ≡ reap_expired_sessions now w
unfolding reap_expired_sessions
reap_once now w = ground (
  arith,
  reap_tasks-mark_reaped now w.sessions,
  mark_reaped_idem now w.sessions,
  append-nil (w.tasks ++ reap_tasks now w.sessions),
)

abbrev pub Occurs : {A : Type 0} → A → List A → Type 0
Occurs x [] = ⊥
Occurs x (y ∷ ys) = (x ≡ y) ⊎ Occurs x ys

Occurs-append : {A : Type 0} (x : A) (xs ys : List A) → Occurs x ys → Occurs x (xs ++ ys)
Occurs-append x [] ys h = h
Occurs-append x (y ∷ xs) ys h = inr (Occurs-append x xs ys h)

Occurs-reap_tasks :
    (now j : ℕ) (t : WsSession) (m : List (ℕ × WsSession)) (task : LoopTask)
    → Occurs task (reap_tasks now m)
    → Occurs task (reap_tasks now ((j, t) ∷ m))
unfolding reap_tasks
Occurs-reap_tasks now j t m task h = ground arith

reap_tasks-Occurs :
    (now id : ℕ) (m : List (ℕ × WsSession)) (s : WsSession)
    → find id m ≡ some s
    → is_reaped now s ≡ true
    → (s.loop ≡ none) ⊎ Occurs (shutdown_conn s.conn) (reap_tasks now m)
unfolding find reap_tasks
reap_tasks-Occurs now id [] s e h = cc
reap_tasks-Occurs now id ((j, t) ∷ m) s e h = elim (Bool-cases (j == id)) [
  | inl k ↦
      let same : t ≡ s = ground arith in
      elim (Option-cases s.loop) [
        | inl l ↦ inl l
        | inr (l, el) ↦ inr (rw (same, h) (rw el (inl (ap (λ u. shutdown_conn u.conn) (sym same)))))
      ]
  | inr k ↦ elim (reap_tasks-Occurs now id m s (ground arith) h) [
    | inl l ↦ inl l
    | inr q ↦ inr (Occurs-reap_tasks now j t m (shutdown_conn s.conn) q)
  ]
]

-- What a scan queues is the shutdown of a connection whose session is overdue.
abbrev pub IsDue : ℕ → List (ℕ × WsSession) → LoopTask → Type 0
IsDue now m task =
    (s : WsSession) × (id : ℕ) × Occurs (id, s) m × IsOverdue now s × (task ≡ shutdown_conn s.conn)

All-reap_tasks :
    (P : LoopTask → Type 0) (now j : ℕ) (t : WsSession) (m : List (ℕ × WsSession))
    → All P (reap_tasks now m)
    → (is_reaped now t ≡ true → P (shutdown_conn t.conn))
    → All P (reap_tasks now ((j, t) ∷ m))
unfolding reap_tasks
All-reap_tasks P now j t m older here = elim (Bool-cases (is_reaped now t)) [
  | inr k ↦ rw k older
  | inl k ↦
      rw k (elim (Option-cases t.loop) [ inl e ↦ rw e older | inr (l, e) ↦ rw e (here k, older) ])
]

reap_tasks-IsDue : (now : ℕ) (m : List (ℕ × WsSession)) → All (IsDue now m) (reap_tasks now m)
unfolding reap_tasks
reap_tasks-IsDue now [] = tt
reap_tasks-IsDue now ((j, t) ∷ m) =
    All-reap_tasks (IsDue now ((j, t) ∷ m)) now j t m
      (All-mono (λ x h. (h.0, h.1, inr h.2, h.3, h.4)) (reap_tasks now m) (reap_tasks-IsDue now m))
      (λ h. (t, j, inl refl, (is_reaped_iff now t).0 h, refl))

scan_shape :
    (now : ℕ) (w : World)
    → w.reaper_stop ≡ false
    → ((reap_expired_sessions now w).sessions ≡ mark_reaped now w.sessions)
      × ((reap_expired_sessions now w).tasks ≡ w.tasks ++ reap_tasks now w.sessions)
unfolding reap_expired_sessions
scan_shape now w go = ground arith

-- One scan of a reaper that is not stopped, at any time. An overdue session is marked as closing and
-- its connection told to shut down, if it has a loop; any other session stays as it is. What the
-- scan queues stands behind the tasks there were, and is for overdue sessions only.
pub reap-closes :
    (now id : ℕ) (w : World) (s : WsSession)
    → w.reaper_stop ≡ false
    → find id w.sessions ≡ some s
    → (IsOverdue now s
          × (find id (reap_expired_sessions now w).sessions ≡ some (record s { closing = true }))
          × ((s.loop ≡ none) ⊎ Occurs (shutdown_conn s.conn) (reap_expired_sessions now w).tasks)
        ⊎ (¬ IsOverdue now s) × (find id (reap_expired_sessions now w).sessions ≡ some s))
      × ((queued : List LoopTask) × ((reap_expired_sessions now w).tasks ≡ w.tasks ++ queued)
          × All (IsDue now w.sessions) queued)
reap-closes now id w s go e =
    let marked = find-mark_reaped now id w.sessions s e in
    let (sessions, tasks) = scan_shape now w go in
    rw (sessions, tasks)
      (
        elim (Bool-cases (is_reaped now s)) [
          | inl due ↦ inl (
            (is_reaped_iff now s).0 due,
            ground (arith, marked, due),
            elim (reap_tasks-Occurs now id w.sessions s e due) [
              | inl l ↦ inl l
              | inr q ↦
                  inr (Occurs-append (shutdown_conn s.conn) w.tasks (reap_tasks now w.sessions) q)
            ],
          )
          | inr kept ↦
              inr ((λ h. cc (kept, (is_reaped_iff now s).1 h)), ground (arith, marked, kept))
        ],
        (reap_tasks now w.sessions, refl, reap_tasks-IsDue now w.sessions),
      )
