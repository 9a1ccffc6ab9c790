-- ===== src/Server/NativeStream/Backend.antt =====
-- A backend of src/drogon_server.cpp whose stream Drogon has delivered before it calls.
use drogon_r.Prelude.{◌≡◌, refl, inl, inr, true, Bool-cases, List, [], ◌∷◌, ◌++◌, some}
use drogon_r.Server.NativeStream.{
  send_chunk, close_stream, CppStreamSession, cpp_stream_send, cpp_stream_close, StreamCall, pushes,
  ends, asks, call_stream, run_backend,
}

-- A call returns with the pointers still set.
IsAnswered : StreamCall → CppStreamSession → Type 0
IsAnswered c s = (v : CppStreamSession) × (call_stream c s ≡ some v) × (v.loop ≡ true)

close-delivered :
    (s : CppStreamSession)
    → s.loop ≡ true
    → (v : CppStreamSession) × (cpp_stream_close s ≡ some v) × (v.loop ≡ true) × (v.closed ≡ true)
unfolding cpp_stream_close
close-delivered s h = elim (Bool-cases s.closed) [
  | inl e ↦ (s, simp e refl, h, e)
  | inr e ↦
      (record s { closed = true; jobs = s.jobs ++ close_stream ∷ [] }, simp (e, h) refl, h, refl)
]

call_stream-delivered : (c : StreamCall) (s : CppStreamSession) → s.loop ≡ true → IsAnswered c s
unfolding call_stream cpp_stream_send IsAnswered
call_stream-delivered (pushes bytes) s h = elim (Bool-cases s.cancelled) [
  | inl e ↦ (s, simp e refl, h)
  | inr e ↦ elim (Bool-cases s.stream) [
    | inl f ↦ (record s { jobs = s.jobs ++ send_chunk bytes ∷ [] }, simp (e, f, h) refl, h)
    | inr f ↦ (s, simp (e, f) refl, h)
  ]
]
call_stream-delivered ends s h = (let r = close-delivered s h in (r.0, r.1, r.2))
call_stream-delivered asks s h = (s, refl, h)

-- Of a backend that calls once Drogon has delivered its stream, no call goes through a null pointer,
-- and when its task ends the session is closed, whether the backend closed it or not.
pub run_backend-closes :
    (cs : List StreamCall) (s : CppStreamSession)
    → s.loop ≡ true
    → (v : CppStreamSession) × (run_backend cs s ≡ some v) × (v.closed ≡ true)
unfolding run_backend IsAnswered
run_backend-closes [] s h = (let r = close-delivered s h in (r.0, r.1, r.3))
run_backend-closes (c ∷ cs) s h =
    (let r = call_stream-delivered c s h in
      let q = run_backend-closes cs r.0 r.2 in (q.0, rw (r.1) q.1, q.2))
