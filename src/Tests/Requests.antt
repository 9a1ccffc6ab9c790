-- ===== src/Tests/Requests.antt =====
-- Requests of src/request_queue.cpp and src/r_dispatcher.cpp.
use drogon_r.Prelude.{
  ℕ, zero, suc, ◌≡◌, refl, inl, inr, true, List, [], ◌∷◌, ◌++◌, none, some, arith,
}
use drogon_r.Prelude.Bytes.{codes}
use drogon_r.Prelude.Sexp.{
  Sexp, strings, list, nil, cons, closure, texts, absent, plain, pos, finite, integers,
}
use drogon_r.Queue.{QueueState}
use drogon_r.Queue.Laws.{Call, enqueues, drains, run, IsOrdered, run-order}
use drogon_r.Queue.Wakeup.{World, waiting, here, next, push_ws, Signalled, no_lost_wakeup}
use drogon_r.Stream.{StreamWorld}
use drogon_r.Dispatch.{Dispatcher, Host, dispatch_all}
use drogon_r.Dispatch.Reply.{build_response}
use drogon_r.Dispatch.Request.{PendingRequest}
use drogon_r.Dispatch.Laws.{
  tickets, asked, dispatch_all-answers, IsWellFormed, build_response-IsWellFormed,
}

abbrev two_places : QueueState ℕ
two_places = record {
  queue = [];
  queue_max_size = 2;
  nonblocking = true;
  wake_read_fd = some 3;
  wake_write_fd = some 4;
  pipe = 0;
  pipe_size = 65536;
}

abbrev some_calls : List (Call ℕ)
some_calls = enqueues 1 ∷ enqueues 2 ∷ enqueues 3 ∷ drains ∷ enqueues 4 ∷ []

run-order_example :
    IsOrdered (run some_calls (record { state = two_places; accepted = []; drained = [] }))
run-order_example = run-order some_calls two_places refl

abbrev asleep : World ℕ ℕ ℕ
asleep = record {
  requests = two_places;
  ws_events = [];
  client_events = [];
  unwritten = 0;
  phase = waiting;
}

abbrev one_event : World ℕ ℕ ℕ
one_event = record asleep { ws_events = 5 ∷ []; unwritten = 1 }

no_lost_wakeup_example : Signalled one_event
no_lost_wakeup_example =
    no_lost_wakeup 4 asleep one_event refl refl refl refl (omega arith) (next here (push_ws 5)) refl
      (inr (inl (λ e. cc)))

abbrev no_streams : StreamWorld
no_streams = record {
  sessions = [];
  next_stream_id = 1;
  tasks = [];
  written = [];
  scheduled = [];
  calls = [];
  preserved = [];
}

-- A route whose handler gives a page, or an R error at the second request.
abbrev one_route : Dispatcher
one_route = record {
  routes =
      record {
        method = codes "GET";
        path = codes "/";
        regex = codes "^/$";
        param_names = [];
        handler = closure 9;
      }
      ∷ [];
  streams = no_streams;
  answers = [];
}

abbrev r_side : Host
r_side = record {
  eval = λ t c x. elim t [ zero ↦ some (strings plain (some (codes "hi") ∷ [])) | suc n ↦ none ];
  geterrmessage = λ t. some (codes "boom");
  to_int = λ x. pos 0;
  beyond = pos 0;
  to_double = λ i. finite 0;
  object = λ x. 0;
}

abbrev get_root : ℕ → PendingRequest
get_root t = record {
  method = codes "GET";
  path = codes "/";
  body = [];
  headers = [];
  queries = [];
  path_params = [];
  ticket = t;
  connected = true;
  route_id = pos 0;
}

dispatch_all-answers_example :
    tickets (dispatch_all r_side (get_root 0 ∷ get_root 1 ∷ []) one_route).answers
    ≡ tickets one_route.answers ++ asked (get_root 0 ∷ get_root 1 ∷ [])
dispatch_all-answers_example = dispatch_all-answers r_side (get_root 0 ∷ get_root 1 ∷ []) one_route

-- list(status = 999L, headers = list(`content-TYPE` = "text/css", ETag = "1")).
abbrev reply : Sexp
reply =
    list
      (record {
        class = absent;
        names = texts (some (codes "status") ∷ some (codes "headers") ∷ []);
      })
      (cons (integers plain (pos 999 ∷ [])) (
        cons
          (list
            (record {
              class = absent;
              names = texts (some (codes "content-TYPE") ∷ some (codes "ETag") ∷ []);
            })
            (cons (strings plain (some (codes "text/css") ∷ []))
              (cons (strings plain (some (codes "1") ∷ [])) nil)))
          nil))

build_response-IsWellFormed_example : IsWellFormed (build_response (λ x. pos 0) (pos 0) reply)
build_response-IsWellFormed_example = build_response-IsWellFormed (λ x. pos 0) (pos 0) reply
