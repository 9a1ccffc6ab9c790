-- ===== src/Server/NativeStream/Laws.antt =====
-- The runs of a native stream of src/drogon_server.cpp: calls of the backend, tasks of Drogon's loop and
-- events of the connection, in any order.
use drogon_r.Prelude.{
  ◌≡◌, ◌≢◌, refl, ◌∙◌, ◌⊎◌, ◌↔◌, inl, inr, Bool, true, false, not, ◌&&◌, List, [], ◌∷◌, ◌++◌, none,
  some, arith, append-nil, append_assoc, if◌then◌else◌,
}
use drogon_r.Prelude.Bytes.{Bytes}
use drogon_r.Server.NativeStream.{
  Job, send_chunk, close_stream, CppStreamSession, new_session, deliver, user_closed,
  cpp_stream_send, cpp_stream_close, run_job,
}

-- A session, and the chunks that a send accepted while the stream had not been closed.
pub record Run : Type 0 where
  pub session : CppStreamSession
  pub accepted : List Bytes

abbrev pub note : Bytes → Bool → Run → List Bytes
note bytes ok r = if ok && not r.session.closed then r.accepted ++ bytes ∷ [] else r.accepted

pub data Step (r : Run) : Run → Type 0 where
  sends :
      (bytes : Bytes) (s : CppStreamSession) (ok : Bool)
      → cpp_stream_send bytes r.session ≡ some (s, ok)
      → Step r (record { session = s; accepted = note bytes ok r })
  closes :
      (s : CppStreamSession)
      → cpp_stream_close r.session ≡ some s
      → Step r (record r { session = s })
  -- Drogon delivers the stream once.
  delivers : r.session.loop ≡ false → Step r (record r { session = deliver r.session })
  leaves : Step r (record r { session = user_closed r.session })
  runs : (ok : Bool) → Step r (record r { session = run_job ok r.session })

pub data Reach (r : Run) : Run → Type 0 where
  here : Reach r r
  next : {u v : Run} → Reach r u → Step u v → Reach r v

-- The chunks up to the first close of the tasks, and whether there is one.
abbrev pub before_close : List Job → List Bytes
before_close [] = []
before_close (send_chunk b ∷ js) = b ∷ before_close js
before_close (close_stream ∷ js) = []

abbrev pub has_close : List Job → Bool
has_close [] = false
has_close (send_chunk b ∷ js) = has_close js
has_close (close_stream ∷ js) = true

before_close-send :
    (js : List Job) (b : Bytes)
    → (before_close (js ++ send_chunk b ∷ [])
        ≡ (if has_close js then before_close js else before_close js ++ b ∷ []))
      × (has_close (js ++ send_chunk b ∷ []) ≡ has_close js)
before_close-send [] b = (refl, refl)
before_close-send (send_chunk c ∷ js) b = ground (arith, before_close-send js b)
before_close-send (close_stream ∷ js) b = (refl, refl)

before_close-close :
    (js : List Job)
    → (before_close (js ++ close_stream ∷ []) ≡ before_close js)
      × (has_close (js ++ close_stream ∷ []) ≡ true)
before_close-close [] = (refl, refl)
before_close-close (send_chunk c ∷ js) = ground (arith, before_close-close js)
before_close-close (close_stream ∷ js) = (refl, refl)

-- Not delivered yet.
record IsWaiting (r : Run) : Type 0 where
  stream : r.session.stream ≡ false
  loop : r.session.loop ≡ false
  closed : r.session.closed ≡ false
  jobs : r.session.jobs ≡ []
  sent : r.session.sent ≡ []
  accepted : r.accepted ≡ []
  closes : r.session.closes ≡ 0

-- Delivered, and closed by the backend or not.
record IsFlowing (r : Run) : Type 0 where
  stream : r.session.stream ≡ true
  loop : r.session.loop ≡ true
  closed : r.session.closed ≡ has_close r.session.jobs
  order : r.session.sent ++ before_close r.session.jobs ≡ r.accepted
  closes : r.session.closes ≡ 0

-- Closed on the loop.
record IsEnded (r : Run) : Type 0 where
  stream : r.session.stream ≡ false
  loop : r.session.loop ≡ true
  closed : r.session.closed ≡ true
  order : r.session.sent ≡ r.accepted
  closes : r.session.closes ≡ 1

pub IsStage : Run → Type 0
IsStage r = IsWaiting r ⊎ (IsFlowing r ⊎ IsEnded r)

run-Waiting :
    (ok : Bool) (r : Run) → IsWaiting r → IsWaiting (record r { session = run_job ok r.session })
unfolding run_job
run-Waiting ok r h = ground (arith, h.jobs)

run-Flowing :
    (ok : Bool) (r : Run) (js : List Job)
    → r.session.jobs ≡ js
    → IsFlowing r
    → IsStage (record r { session = run_job ok r.session })
unfolding IsStage run_job
run-Flowing ok r [] e h = inr (inl (ground arith))
run-Flowing ok r (send_chunk b ∷ js) e h =
    inr (inl (ground (arith, append_assoc r.session.sent (b ∷ []) (before_close js))))
run-Flowing ok r (close_stream ∷ js) e h = inr (inr (ground (arith, append-nil r.session.sent)))

run-Ended :
    (ok : Bool) (r : Run) → IsEnded r → IsEnded (record r { session = run_job ok r.session })
unfolding run_job
run-Ended ok r h = ground arith

close-Stage :
    (s : CppStreamSession) (r : Run)
    → cpp_stream_close r.session ≡ some s
    → IsStage r
    → IsStage (record r { session = s })
unfolding IsStage cpp_stream_close
close-Stage s r e (inl h) = ground (arith, h.closed, h.loop, e)
close-Stage s r e (inr (inl h)) = inr (inl (ground (arith, before_close-close r.session.jobs)))
close-Stage s r e (inr (inr h)) = inr (inr (ground arith))

send-Stage :
    (bytes : Bytes) (s : CppStreamSession) (ok : Bool) (r : Run)
    → cpp_stream_send bytes r.session ≡ some (s, ok)
    → IsStage r
    → IsStage (record { session = s; accepted = note bytes ok r })
unfolding IsStage cpp_stream_send
send-Stage bytes s ok r e (inl h) = inl ground arith
send-Stage bytes s ok r e (inr (inl h)) = inr (
    inl (
      ground (
        arith,
        before_close-send r.session.jobs bytes,
        append_assoc r.session.sent (before_close r.session.jobs) (bytes ∷ []),
      )))
send-Stage bytes s ok r e (inr (inr h)) = inr (inr (ground arith))

leave-Stage : (r : Run) → IsStage r → IsStage (record r { session = user_closed r.session })
unfolding IsStage user_closed
leave-Stage r (inl h) = inl (ground arith)
leave-Stage r (inr (inl h)) = inr (inl (ground arith))
leave-Stage r (inr (inr h)) = inr (inr (ground arith))

deliver-Stage :
    (r : Run)
    → r.session.loop ≡ false
    → IsStage r
    → IsStage (record r { session = deliver r.session })
unfolding IsStage deliver
deliver-Stage r e (inl h) = inr (inl (ground arith))
deliver-Stage r e (inr (inl h)) = absurd (ground arith)
deliver-Stage r e (inr (inr h)) = absurd (ground arith)

Step-Stage : {r v : Run} → Step r v → IsStage r → IsStage v
unfolding IsStage
Step-Stage {r} (sends bytes s ok e) h = send-Stage bytes s ok r e h
Step-Stage {r} (closes s e) h = close-Stage s r e h
Step-Stage {r} (delivers e) h = deliver-Stage r e h
Step-Stage {r} leaves h = leave-Stage r h
Step-Stage {r} (runs ok) (inl h) = inl (run-Waiting ok r h)
Step-Stage {r} (runs ok) (inr (inl h)) = run-Flowing ok r r.session.jobs refl h
Step-Stage {r} (runs ok) (inr (inr h)) = inr (inr (run-Ended ok r h))

abbrev pub start : Bool → Run
start connected = record { session = new_session connected; accepted = [] }

Reach-Stage : (connected : Bool) {r : Run} → Reach (start connected) r → IsStage r
unfolding IsStage new_session
Reach-Stage connected here = inl (record {
  stream = refl;
  loop = refl;
  closed = refl;
  jobs = refl;
  sent = refl;
  accepted = refl;
  closes = refl;
})
Reach-Stage connected (next p s) = Step-Stage s (Reach-Stage connected p)

-- In every run of one session, Drogon's stream is handed the chunks that sends accepted before the
-- backend's close, in their order, and it is closed at most once, when it has been handed them all.
pub chunks_in_order :
    (connected : Bool) (r : Run)
    → Reach (start connected) r
    → ((rest : List Bytes) × (r.session.sent ++ rest ≡ r.accepted))
      × ((r.session.closes ≡ 0) ⊎ (r.session.closes ≡ 1) × (r.session.sent ≡ r.accepted))
unfolding IsStage
chunks_in_order connected r p = elim (Reach-Stage connected p) [
  | inl h ↦ (([], ground (arith, h.sent, h.accepted)), inl h.closes)
  | inr (inl h) ↦ ((before_close r.session.jobs, h.order), inl h.closes)
  | inr (inr h) ↦ (([], append-nil r.session.sent ∙ h.order), inr (h.closes, h.order))
]

-- In every run of one session, a send goes through no null pointer, and a close does exactly if it is
-- the first and Drogon has not delivered the stream yet.
pub null_loop :
    (connected : Bool) (r : Run) (bytes : Bytes)
    → Reach (start connected) r
    → (cpp_stream_send bytes r.session ≢ none)
      × ((cpp_stream_close r.session ≡ none)
          ↔ ((r.session.closed ≡ false) × (r.session.loop ≡ false)))
unfolding IsStage cpp_stream_send cpp_stream_close
null_loop connected r bytes p = elim (Reach-Stage connected p) [
  | inl h ↦ (ground arith, ((λ e. ground arith), (λ e. ground arith)))
  | inr (inl h) ↦ (ground arith, ((λ e. ground arith), (λ e. ground arith)))
  | inr (inr h) ↦ (ground arith, ((λ e. ground arith), (λ e. ground arith)))
]
