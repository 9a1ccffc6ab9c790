-- ===== src/Ws/Race.antt =====
-- The race of sends and closes on one connection of src/ws_session.cpp. A thread of a C++ backend
-- tests `closing` and queues its frame in two steps, between which another thread may close.
use drogon_r.Prelude.{
  ℕ, ◌+◌, ◌≡◌, refl, ◌∙◌, Bool, true, false, List, [], ◌∷◌, ◌++◌, Option, none, some, arith, length,
  length-append, count_p, count_p-append, Option-cases, inl, inr,
}
use drogon_r.Prelude.Bytes.{Bytes}
use drogon_r.Prelude.Table.{find, find-modify_self, find-modify-none}
use drogon_r.Ws.{WsSession, World, LoopTask, send_frame, shutdown_conn, find_ws_session}
use drogon_r.Ws.Session.{
  open_session, test_send, queue_frame, push_frame, ws_close, erase_ws_session, touch,
}
use drogon_r.Ws.Session.Laws.{open_session-close, find-erase_session}

-- The sends that have passed their tests and have not queued their frame, by the session they found.
pub record Race : Type 0 where
  pub world : World
  pub pending : List WsSession

abbrev pub tested : Option WsSession → Race → Race
tested none r = r
tested (some s) r = record r { pending = s ∷ r.pending }

-- The steps of all threads for the connection `id`: the two halves of a backend's sends and of R's
-- sends on the main thread, the closes of both, and the erasure behind the connection's end.
pub data Step (id : ℕ) (r : Race) : Race → Type 0 where
  tests : (connected : ℕ → Bool) → Step id r (tested (test_send connected id r.world) r)
  queues :
      (now : ℕ) (before : List WsSession) (s : WsSession) (after : List WsSession) (bytes : Bytes)
      (binary : Bool)
      → r.pending ≡ before ++ s ∷ after
      → Step id r
          (record { world = queue_frame now id s bytes binary r.world; pending = before ++ after })
  r_tests : Step id r (tested (open_session id r.world) r)
  r_queues :
      (before : List WsSession) (s : WsSession) (after : List WsSession) (bytes : Bytes)
      (binary : Bool)
      → r.pending ≡ before ++ s ∷ after
      → Step id r (record { world = push_frame s bytes binary r.world; pending = before ++ after })
  closes : Step id r (record r { world = ws_close id r.world })
  erases : Step id r (record r { world = erase_ws_session id r.world })

pub data Reach (id : ℕ) (r : Race) : Race → Type 0 where
  here : Reach id r r
  next : {u v : Race} → Reach id r u → Step id u v → Reach id r v

abbrev is_frame : LoopTask → Bool
is_frame (send_frame conn bytes binary) = true
is_frame (shutdown_conn conn) = false

-- The frames that were queued.
abbrev pub frames_of : World → ℕ
frames_of w = count_p is_frame w.tasks

-- The frames that were queued or still may be.
abbrev budget : Race → ℕ
budget r = frames_of r.world + length r.pending

IsShut : ℕ → Race → Type 0
IsShut id r = open_session id r.world ≡ none

test-shut :
    (connected : ℕ → Bool) (id : ℕ) (w : World)
    → open_session id w ≡ none
    → test_send connected id w ≡ none
unfolding test_send
test-shut connected id w h = rw (h, test_send) refl

touch-shut :
    (now id : ℕ) (s : WsSession) (bytes : Bytes) (binary : Bool) (w : World)
    → open_session id w ≡ none
    → open_session id (queue_frame now id s bytes binary w) ≡ none
unfolding open_session queue_frame find_ws_session
touch-shut now id s bytes binary w h = elim (Option-cases (find id w.sessions)) [
  | inl e ↦ ground (arith, find-modify-none id id (touch now) w.sessions e)
  | inr (t, e) ↦ ground (arith, e, h, find-modify_self id (touch now) w.sessions t e)
]

erase-shut : (id : ℕ) (w : World) → open_session id (erase_ws_session id w) ≡ none
unfolding open_session find_ws_session
erase-shut id w = ground (arith, find-erase_session id w)

erase-tasks : (id : ℕ) (w : World) → (erase_ws_session id w).tasks ≡ w.tasks
unfolding erase_ws_session
erase-tasks id w = ground arith

close-frames : (id : ℕ) (w : World) → frames_of (ws_close id w) ≡ frames_of w
unfolding ws_close
close-frames id w = elim (Option-cases (find_ws_session id w)) [
  | inl e ↦ rw (e, ws_close) refl
  | inr (s, e) ↦ elim (Option-cases s.loop) [
    | inl l ↦ rw (e, ws_close) (rw (l, ws_close) refl)
    | inr (l, el) ↦
        rw (e, ws_close)
          (rw (el, ws_close)
            (omega (arith, count_p-append is_frame w.tasks (shutdown_conn s.conn ∷ []))))
  ]
]

push-shut :
    (id : ℕ) (s : WsSession) (bytes : Bytes) (binary : Bool) (w : World)
    → open_session id w ≡ none
    → open_session id (push_frame s bytes binary w) ≡ none
unfolding open_session find_ws_session
push-shut id s bytes binary w h = h

-- A frame takes the place of the send that was pending for it.
spent :
    (w : World) (before : List WsSession) (s : WsSession) (after : List WsSession) (bytes : Bytes)
    (binary : Bool)
    → frames_of (push_frame s bytes binary w) + length (before ++ after)
      ≡ frames_of w + length (before ++ s ∷ after)
spent w before s after bytes binary = omega (
  arith,
  count_p-append is_frame w.tasks (send_frame s.conn bytes binary ∷ []),
  length-append before (s ∷ after),
  length-append before after,
)

step-IsShut :
    {id : ℕ} {r v : Race} → Step id r v → IsShut id r → IsShut id v × (budget v ≡ budget r)
unfolding IsShut queue_frame
step-IsShut {id} {r} (tests connected) h =
    (let same = test-shut connected id r.world h in rw (same, tested) (h, refl))
step-IsShut {id} {r} (queues now before s after bytes binary e) h =
    (touch-shut now id s bytes binary r.world h, rw e (spent r.world before s after bytes binary))
step-IsShut {id} {r} r_tests h = rw (h, tested) (h, refl)
step-IsShut {id} {r} (r_queues before s after bytes binary e) h =
    (push-shut id s bytes binary r.world h, rw e (spent r.world before s after bytes binary))
step-IsShut {id} {r} closes h =
    (open_session-close id r.world, omega (arith, close-frames id r.world))
step-IsShut {id} {r} erases h = (erase-shut id r.world, rw (erase-tasks id r.world) refl)

run-IsShut :
    {id : ℕ} {r v : Race} → Reach id r v → IsShut id r → IsShut id v × (budget v ≡ budget r)
run-IsShut here h = (h, refl)
run-IsShut (next p s) h =
    (let (a, b) = run-IsShut p h in let (c, d) = step-IsShut s a in (c, d ∙ b))

-- Once a connection is closed from the server's side, whatever the threads do then and however they
-- interleave, no send passes its tests; and the frames that are queued behind the close, with the
-- sends that still may queue one, are as many as the sends that had passed their tests before it.
pub late_frames :
    (id : ℕ) (r v : Race)
    → Reach id (record r { world = ws_close id r.world }) v
    → (open_session id v.world ≡ none)
      × (frames_of v.world + length v.pending ≡ frames_of r.world + length r.pending)
unfolding IsShut
late_frames id r v p =
    (let (shut, same) = run-IsShut p (open_session-close id r.world) in
      (shut, omega (arith, same, close-frames id r.world)))
