-- ===== src/Tests/Native.antt =====
-- Requests off the main thread and native streams of src/drogon_server.cpp.
use drogon_r.Prelude.{
  ℕ, zero, suc, ◌+◌, ◌≡◌, ◌≢◌, refl, ◌⊎◌, ◌↔◌, Bool, true, false, List, [], ◌∷◌, ◌++◌, none, some,
}
use drogon_r.Prelude.Bytes.{Bytes, codes}
use drogon_r.Prelude.Sexp.{pos, finite}
use drogon_r.Queue.{drain_queue}
use drogon_r.Dispatch.{Host, dispatch_all}
use drogon_r.Server.Limits.{RouteLimiters}
use drogon_r.Server.Handlers.{HttpRequest, Seconds}
use drogon_r.Server.Handlers.Serve.{drogon_handler, cpp_handler}
use drogon_r.Server.Handlers.Laws.{
  Site, Reach, here, next, r_request, cpp_request, turns, answered, waiting, arrivals, one_answer,
}
use drogon_r.Server.NativeStream.{
  CppStreamSession, new_session, deliver, run_job, cpp_stream_send, cpp_stream_close, send_chunk,
  close_stream,
}
use drogon_r.Server.NativeStream.{pushes, ends, asks, run_backend}
use drogon_r.Server.NativeStream.Backend.{run_backend-closes}
use drogon_r.Server.NativeStream.Laws.{
  Run, start, sends, closes, delivers, runs, chunks_in_order, null_loop,
}
use drogon_r.Server.NativeStream.Laws as Native

abbrev request : HttpRequest
request = record {
  method_string = codes "GET";
  path = codes "/fast";
  body = [];
  query = codes "a=1";
  headers = (codes "accept", codes "*/*") ∷ [];
  parameters = (codes "a", codes "1") ∷ [];
  routing_parameters = [];
  ticket = 5;
  connected = true;
}

abbrev limited : RouteLimiters
limited = record { limiters = 0 ∷ []; max_window = finite 2 }

abbrev unlimited : RouteLimiters
unlimited = record { limiters = []; max_window = finite 0 }

-- A limiter that counts down.
abbrev countdown : ℕ → ℕ → Bool × ℕ
countdown l zero = (false, zero)
countdown l (suc n) = (true, n)

abbrev seconds : Seconds
seconds = record { positive = λ x. true; ceil = λ x. pos 2 }

abbrev site : Site ℕ
site = record {
  io = record {
    queue = record {
      queue = [];
      queue_max_size = 8;
      nonblocking = true;
      wake_read_fd = some 3;
      wake_write_fd = some 4;
      pipe = 0;
      pipe_size = 100;
    };
    limits = 1;
    answers = [];
    tasks = [];
    streams = [];
    frees = [];
  };
  main = record {
    routes = [];
    streams = record {
      sessions = [];
      next_stream_id = 1;
      tasks = [];
      written = [];
      scheduled = [];
      calls = [];
      preserved = [];
    };
    answers = [];
  };
}

abbrev host : Host
host = record {
  eval = λ t c req. none;
  geterrmessage = λ t. none;
  to_int = λ x. pos 200;
  beyond = pos 0;
  to_double = λ i. finite 0;
  object = λ x. 0;
}

-- Two requests on a limited native route and one on a route of R, which then gets its turn.
abbrev one_in : Site ℕ
one_in = record site { io = cpp_handler countdown seconds limited 77 request site.io }

abbrev two_in : Site ℕ
two_in = record one_in { io = cpp_handler countdown seconds limited 77 request one_in.io }

abbrev all_in : Site ℕ
all_in = record two_in { io = drogon_handler countdown seconds unlimited (pos 0) request two_in.io }

abbrev turned : Site ℕ
turned = record all_in {
  io = record all_in.io { queue = (drain_queue all_in.io.queue).0 };
  main = dispatch_all host (drain_queue all_in.io.queue).1 all_in.main;
}

abbrev traffic : Reach countdown seconds site turned
traffic =
    next {u = all_in} {v = turned}
      (next {u = two_in} {v = all_in}
        (next {u = one_in} {v = two_in}
          (next {u = site} {v = one_in} here (cpp_request limited 77 request))
          (cpp_request limited 77 request))
        (r_request unlimited (pos 0) request))
      (turns host)

one_answer_example :
    answered 5 turned + waiting 5 turned
    ≡ answered 5 site + waiting 5 site + arrivals countdown seconds 5 traffic
one_answer_example = one_answer countdown seconds 5 traffic

-- A stream that is delivered, gets a chunk and is closed by the backend.
abbrev fresh : CppStreamSession
fresh = record {
  stream = false;
  loop = false;
  cancelled = false;
  closed = false;
  jobs = [];
  sent = [];
  closes = 0;
}

abbrev delivered : CppStreamSession
delivered = record fresh { stream = true; loop = true }

abbrev sent : CppStreamSession
sent = record delivered { jobs = send_chunk (codes "x") ∷ [] }

abbrev closed : CppStreamSession
closed = record sent { closed = true; jobs = send_chunk (codes "x") ∷ close_stream ∷ [] }

send_goes : cpp_stream_send (codes "x") delivered ≡ some (sent, true)
unfolding cpp_stream_send
send_goes = refl

close_goes : cpp_stream_close sent ≡ some closed
unfolding cpp_stream_close
close_goes = refl

abbrev before_jobs : Run
before_jobs = record { session = closed; accepted = codes "x" ∷ [] }

abbrev after_jobs : Run
after_jobs = record before_jobs { session = run_job true closed }

streamed : Native.Reach (start true) after_jobs
unfolding new_session deliver
streamed =
    Native.next {u = before_jobs}
      (Native.next {u = record { session = sent; accepted = codes "x" ∷ [] }} {v = before_jobs}
        (Native.next {u = record { session = delivered; accepted = [] }}
          (Native.next {u = record { session = fresh; accepted = [] }} Native.here (delivers refl))
          (sends (codes "x") sent true send_goes))
        (closes closed close_goes))
      (runs true)

chunks_in_order_example :
    ((rest : List Bytes) × (after_jobs.session.sent ++ rest ≡ after_jobs.accepted))
    × ((after_jobs.session.closes ≡ 0)
        ⊎ (after_jobs.session.closes ≡ 1) × (after_jobs.session.sent ≡ after_jobs.accepted))
chunks_in_order_example = chunks_in_order true after_jobs streamed

null_loop_example :
    (cpp_stream_send (codes "y") after_jobs.session ≢ none)
    × ((cpp_stream_close after_jobs.session ≡ none)
        ↔ ((after_jobs.session.closed ≡ false) × (after_jobs.session.loop ≡ false)))
null_loop_example = null_loop true after_jobs (codes "y") streamed

run_backend-closes_example :
    (v : CppStreamSession) × (run_backend
        (pushes (codes "a") ∷ asks ∷ ends ∷ pushes (codes "b") ∷ [])
        (deliver (new_session true))
      ≡ some v)
    × (v.closed ≡ true)
unfolding deliver
run_backend-closes_example =
    run_backend-closes (pushes (codes "a") ∷ asks ∷ ends ∷ pushes (codes "b") ∷ [])
      (deliver (new_session true)) refl
