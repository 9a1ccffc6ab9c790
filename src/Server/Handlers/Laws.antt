-- ===== src/Server/Handlers/Laws.antt =====
-- The requests of src/drogon_server.cpp, from the I/O threads to their callbacks.
use drogon_r.Prelude.{
  ℕ, ◌+◌, ◌≡◌, refl, ap, inl, inr, Bool, true, false, List, [], ◌∷◌, ◌++◌, arith, ◌==◌,
  if◌then◌else◌, count_p, count_p-append,
}
use drogon_r.Prelude.Bytes.{Bytes}
use drogon_r.Prelude.Sexp.{ℤ}
use drogon_r.Queue.{notify_dispatcher, drain_queue}
use drogon_r.Queue.Laws.{enqueue_request_cases}
use drogon_r.Dispatch.{Dispatcher, Host, dispatch_all}
use drogon_r.Dispatch.Request.{PendingRequest}
use drogon_r.Dispatch.Laws.{tickets, asked, dispatch_all-answers}
use drogon_r.Server.Limits.{RouteLimiters, check_rate_limits}
use drogon_r.Server.Handlers.{
  HttpRequest, NativeResponse, Snapshot, CppTask, Outcome, Io, Seconds, pending_of, respond_native,
  queue_full_response, make_rate_limit_response,
}
use drogon_r.Server.Handlers.Serve.{
  answer, run_cpp_task, serve_r, serve_cpp, serve_cpp_stream, behind_limits, drogon_handler,
  cpp_handler, cpp_stream_handler,
}

-- Whether a number is the ticket.
abbrev pub one : ℕ → ℕ → ℕ
one t u = if u == t then 1 else 0

abbrev is : ℕ → ℕ → Bool
is t u = u == t

abbrev pub given : ℕ → List (ℕ × NativeResponse) → ℕ
given t [] = 0
given t ((u, r) ∷ rest) = one t u + given t rest

abbrev pub to_do : ℕ → List CppTask → ℕ
to_do t [] = 0
to_do t (c ∷ cs) = one t c.ticket + to_do t cs

given-append :
    (t : ℕ) (xs ys : List (ℕ × NativeResponse)) → given t (xs ++ ys) ≡ given t xs + given t ys
given-append t [] ys = omega arith
given-append t ((u, r) ∷ xs) ys = omega (arith, given-append t xs ys)

to_do-append : (t : ℕ) (xs ys : List CppTask) → to_do t (xs ++ ys) ≡ to_do t xs + to_do t ys
to_do-append t [] ys = omega arith
to_do-append t (c ∷ xs) ys = omega (arith, to_do-append t xs ys)

asked-append : (xs ys : List PendingRequest) → asked (xs ++ ys) ≡ asked xs ++ asked ys
asked-append [] ys = refl
asked-append (pr ∷ xs) ys = ap (λ ts. pr.ticket ∷ ts) (asked-append xs ys)

module _ {S : Type 0} where
  -- How often a ticket waits in the queue or for a worker, or was answered off the main thread.
  abbrev pub load : ℕ → Io S → ℕ
  load t io = given t io.answers + count_p (is t) (asked io.queue.queue) + to_do t io.tasks

  -- A step that takes one request on.
  abbrev Takes : ℕ → Io S → Io S → Type 0
  Takes u io io' = (t : ℕ) → load t io' ≡ load t io + one t u

  answer-Takes : (u : ℕ) (resp : NativeResponse) (io : Io S) → Takes u io (answer u resp io)
  answer-Takes u resp io t = omega (arith, given-append t io.answers ((u, resp) ∷ []))

  serve_r-Takes :
      (route_id : ℤ) (req : HttpRequest) (io : Io S) → Takes req.ticket io (serve_r route_id req io)
  unfolding serve_r notify_dispatcher pending_of
  serve_r-Takes route_id req io t =
      let pr = pending_of route_id req in
      elim (enqueue_request_cases pr io.queue) [
        | inl (free, e) ↦
            rw (e, serve_r)
              (rw (asked-append io.queue.queue (pr ∷ []))
                (omega (arith, count_p-append (is t) (asked io.queue.queue) (req.ticket ∷ []))))
        | inr (full, most, e) ↦ rw (e, serve_r) (answer-Takes req.ticket queue_full_response io t)
      ]

  serve_cpp-Takes :
      (fn : ℕ) (req : HttpRequest) (io : Io S) → Takes req.ticket io (serve_cpp fn req io)
  unfolding serve_cpp
  serve_cpp-Takes fn req io t = omega (arith, to_do-append t io.tasks)

  serve_cpp_stream-Takes :
      (fn : ℕ) (ct : Bytes) (req : HttpRequest) (io : Io S)
      → Takes req.ticket io (serve_cpp_stream fn ct req io)
  unfolding serve_cpp_stream
  serve_cpp_stream-Takes fn ct req io t = omega (arith, given-append t io.answers)

  module _ (is_allowed : ℕ → S → Bool × S) (secs : Seconds) where
    -- Behind its limits a handler takes the request on as well, or answers it.
    behind_limits-Takes :
        (rl : RouteLimiters) (req : HttpRequest) (serve : Io S → Io S) (io : Io S)
        → ((io : Io S) → Takes req.ticket io (serve io))
        → Takes req.ticket io (behind_limits is_allowed secs rl req serve io)
    unfolding behind_limits
    behind_limits-Takes rl req serve io h = by_limiters rl.limiters
      where
        by_ok :
            (ok : Bool) (io' : Io S)
            → Takes req.ticket io' (
                if ok
                then serve io'
                else answer req.ticket (make_rate_limit_response secs rl.max_window) io')
        by_ok true io' = h io'
        by_ok false io' = answer-Takes req.ticket (make_rate_limit_response secs rl.max_window) io'

        by_limiters :
            (ls : List ℕ)
            → Takes req.ticket io (elim ls as (λ x. Io S) [
              | [] ↦ serve io
              | l ∷ ls ↦
                  let (ok, limits) = check_rate_limits is_allowed (l ∷ ls) io.limits in
                  let io' : Io S = record io { limits = limits } in
                  if ok
                  then serve io'
                  else answer req.ticket (make_rate_limit_response secs rl.max_window) io'
            ])
        by_limiters [] t = h io t
        by_limiters (l ∷ ls) t =
            let (ok, limits) = check_rate_limits is_allowed (l ∷ ls) io.limits in
            by_ok ok (record io { limits = limits }) t

-- The threads of the server and the main R thread's dispatcher.
pub record Site (S : Type 0) : Type 0 where
  pub io : Io S
  pub main : Dispatcher

module _ {S : Type 0} (is_allowed : ℕ → S → Bool × S) (secs : Seconds) where
  pub data Step (w : Site S) : Site S → Type 0 where
    r_request :
        (rl : RouteLimiters) (route_id : ℤ) (req : HttpRequest)
        → Step w (record w { io = drogon_handler is_allowed secs rl route_id req w.io })
    cpp_request :
        (rl : RouteLimiters) (fn : ℕ) (req : HttpRequest)
        → Step w (record w { io = cpp_handler is_allowed secs rl fn req w.io })
    cpp_stream_request :
        (rl : RouteLimiters) (fn : ℕ) (ct : Bytes) (req : HttpRequest)
        → Step w (record w { io = cpp_stream_handler is_allowed secs rl fn ct req w.io })
    works :
        (backend : ℕ → Snapshot → Outcome) (before after : List CppTask) (t : CppTask)
        → w.io.tasks ≡ before ++ t ∷ after
        → Step w
            (record w { io = run_cpp_task backend t (record w.io { tasks = before ++ after }) })
    turns :
        (host : Host)
        → Step w (record w {
          io = record w.io { queue = (drain_queue w.io.queue).0 };
          main = dispatch_all host (drain_queue w.io.queue).1 w.main;
        })

  pub data Reach (w : Site S) : Site S → Type 0 where
    here : Reach w w
    next : {u v : Site S} → Reach w u → Step u v → Reach w v

  -- How often a ticket came in during a run.
  arrival : (t : ℕ) {w v : Site S} → Step w v → ℕ
  arrival t (r_request rl route_id req) = one t req.ticket
  arrival t (cpp_request rl fn req) = one t req.ticket
  arrival t (cpp_stream_request rl fn ct req) = one t req.ticket
  arrival t (works backend before after c e) = 0
  arrival t (turns host) = 0

  pub arrivals : (t : ℕ) {w v : Site S} → Reach w v → ℕ
  arrivals t here = 0
  arrivals t (next r s) = arrivals t r + arrival t s

abbrev pub answered : {S : Type 0} → ℕ → Site S → ℕ
answered t w = given t w.io.answers + count_p (is t) (tickets w.main.answers)

abbrev pub waiting : {S : Type 0} → ℕ → Site S → ℕ
waiting t w = count_p (is t) (asked w.io.queue.queue) + to_do t w.io.tasks

module _ {S : Type 0} (is_allowed : ℕ → S → Bool × S) (secs : Seconds) where
  drogon_handler-Takes :
      (rl : RouteLimiters) (route_id : ℤ) (req : HttpRequest) (io : Io S)
      → Takes req.ticket io (drogon_handler is_allowed secs rl route_id req io)
  unfolding drogon_handler
  drogon_handler-Takes rl route_id req io =
      behind_limits-Takes is_allowed secs rl req (serve_r route_id req) io
        (serve_r-Takes route_id req)

  cpp_handler-Takes :
      (rl : RouteLimiters) (fn : ℕ) (req : HttpRequest) (io : Io S)
      → Takes req.ticket io (cpp_handler is_allowed secs rl fn req io)
  unfolding cpp_handler
  cpp_handler-Takes rl fn req io =
      behind_limits-Takes is_allowed secs rl req (serve_cpp fn req) io (serve_cpp-Takes fn req)

  cpp_stream_handler-Takes :
      (rl : RouteLimiters) (fn : ℕ) (ct : Bytes) (req : HttpRequest) (io : Io S)
      → Takes req.ticket io (cpp_stream_handler is_allowed secs rl fn ct req io)
  unfolding cpp_stream_handler
  cpp_stream_handler-Takes rl fn ct req io =
      behind_limits-Takes is_allowed secs rl req (serve_cpp_stream fn ct req) io
        (serve_cpp_stream-Takes fn ct req)

  run_cpp_task-load :
      (backend : ℕ → Snapshot → Outcome) (before after : List CppTask) (c : CppTask) (io : Io S)
      (t : ℕ)
      → io.tasks ≡ before ++ c ∷ after
      → load t (run_cpp_task backend c (record io { tasks = before ++ after })) ≡ load t io
  unfolding run_cpp_task
  run_cpp_task-load backend before after c io t e = rw e (
      omega (
        arith,
        to_do-append t before (c ∷ after),
        to_do-append t before after,
        given-append t io.answers ((c.ticket, respond_native (backend c.fn c.snapshot)) ∷ []),
      ))

  step-counts :
      (t : ℕ) {w v : Site S} (s : Step is_allowed secs w v)
      → answered t v + waiting t v ≡ answered t w + waiting t w + arrival is_allowed secs t s
  unfolding arrival drain_queue
  step-counts t {w} (r_request rl route_id req) =
      omega (arith, drogon_handler-Takes rl route_id req w.io t)
  step-counts t {w} (cpp_request rl fn req) = omega (arith, cpp_handler-Takes rl fn req w.io t)
  step-counts t {w} (cpp_stream_request rl fn ct req) =
      omega (arith, cpp_stream_handler-Takes rl fn ct req w.io t)
  step-counts t {w} (works backend before after c e) =
      omega (arith, run_cpp_task-load backend before after c w.io t e)
  step-counts t {w} (turns host) =
      rw (dispatch_all-answers host w.io.queue.queue w.main)
        (omega (arith, count_p-append (is t) (tickets w.main.answers) (asked w.io.queue.queue)))

  -- Every request that comes in on a route of R or of C++, limited or not, with a full queue or not, is
  -- answered exactly once: in every run the answers and what waits in the queue or for a worker are
  -- as many as they were, and one more for each request.
  pub one_answer :
      (t : ℕ) {w v : Site S} (r : Reach is_allowed secs w v)
      → answered t v + waiting t v ≡ answered t w + waiting t w + arrivals is_allowed secs t r
  unfolding arrivals
  one_answer t here = omega arith
  one_answer t (next r s) = omega (arith, one_answer t r, step-counts t s)
