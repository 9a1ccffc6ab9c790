-- ===== src/Server/NativeStream.antt =====
-- One stream of a native backend in src/drogon_server.cpp: CppStreamSession, the three functions of the
-- C ABI, the two callbacks of Drogon, and the tasks that they leave for Drogon's loop. `none` is a
-- call through a null pointer. A handle is used during the backend's call, where it is not null.
pub mod Backend
pub mod Laws
use drogon_r.Prelude.{
  ℕ, suc, Bool, true, false, not, List, [], ◌∷◌, ◌++◌, Option, none, some, if◌then◌else◌, ◌>>=◌,
}
use drogon_r.Prelude.Bytes.{Bytes}

pub data Job : Type 0 where
  send_chunk : Bytes → Job
  close_stream : Job

pub record CppStreamSession : Type 0 where
  -- Whether the pointers are set.
  pub stream : Bool
  pub loop : Bool
  pub cancelled : Bool
  pub closed : Bool
  -- What queueInLoop holds, the chunks that Drogon's stream was handed, and how often it was closed.
  pub jobs : List Job
  pub sent : List Bytes
  pub closes : ℕ

-- A session of a request whose connection is there, or not.
unfoldable pub new_session : Bool → CppStreamSession
new_session connected = record {
  stream = false;
  loop = false;
  cancelled = not connected;
  closed = false;
  jobs = [];
  sent = [];
  closes = 0;
}

-- The callback of newAsyncStreamResponse, and the one of the connection's end.
unfoldable pub deliver : CppStreamSession → CppStreamSession
deliver s = record s { stream = true; loop = true }

unfoldable pub user_closed : CppStreamSession → CppStreamSession
user_closed s = record s { cancelled = true }

abbrev pub post : Job → CppStreamSession → Option CppStreamSession
post job s = if s.loop then some (record s { jobs = s.jobs ++ job ∷ [] }) else none

abbrev pub accepted_by : Option CppStreamSession → Option (CppStreamSession × Bool)
accepted_by none = none
accepted_by (some s) = some (s, true)

-- drogonR_cpp_stream_send, in the state behind its wait for the stream, which ends once the stream is
-- there or the session is cancelled, or after five seconds. `false` is -1.
unfoldable pub cpp_stream_send : Bytes → CppStreamSession → Option (CppStreamSession × Bool)
cpp_stream_send bytes s =
    if s.cancelled
    then some (s, false)
    else if s.stream
    then accepted_by (post (send_chunk bytes) s)
    else some (s, false)

unfoldable pub cpp_stream_close : CppStreamSession → Option CppStreamSession
cpp_stream_close s = if s.closed then some s else post close_stream (record s { closed = true })

unfoldable pub cpp_stream_is_cancelled : CppStreamSession → Bool
cpp_stream_is_cancelled s = s.cancelled

-- The next task on the loop; `ok` is what Drogon's stream answers to a chunk.
unfoldable pub run_job : Bool → CppStreamSession → CppStreamSession
run_job ok s = elim s.jobs [
  | [] ↦ s
  | send_chunk bytes ∷ jobs ↦
      if s.stream
      then record s {
        jobs = jobs;
        sent = s.sent ++ bytes ∷ [];
        cancelled = if ok then s.cancelled else true;
      }
      else record s { jobs = jobs }
  | close_stream ∷ jobs ↦
      if s.stream
      then record s { jobs = jobs; stream = false; closes = suc s.closes }
      else record s { jobs = jobs }
]

-- What the C function calls while it runs, each call where the session then stands.
pub data StreamCall : Type 0 where
  pushes : Bytes → StreamCall
  ends asks : StreamCall

unfoldable pub call_stream : StreamCall → CppStreamSession → Option CppStreamSession
unfolding cpp_stream_send cpp_stream_close
call_stream (pushes bytes) s = cpp_stream_send bytes s >>= λ r. some r.0
call_stream ends s = cpp_stream_close s
call_stream asks s = some s

-- The worker's task: the calls of the C function, then the close that follows it.
unfoldable pub run_backend : List StreamCall → CppStreamSession → Option CppStreamSession
unfolding call_stream cpp_stream_close
run_backend [] s = cpp_stream_close s
run_backend (c ∷ cs) s = call_stream c s >>= run_backend cs
