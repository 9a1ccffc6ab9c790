-- ===== src/Server/Handlers/Serve.antt =====
-- The handlers of src/drogon_server.cpp as steps on what the threads share.
use drogon_r.Prelude.{ℕ, Bool, [], ◌∷◌, ◌++◌, if◌then◌else◌}
use drogon_r.Prelude.Bytes.{Bytes}
use drogon_r.Prelude.Sexp.{ℤ}
use drogon_r.Queue.{enqueue_request}
use drogon_r.Server.Limits.{RouteLimiters, check_rate_limits}
use drogon_r.Server.Handlers.{
  CppTask, HttpRequest, Io, NativeResponse, Outcome, Seconds, Snapshot, default_content_type,
  free_outputs, make_rate_limit_response, pending_of, queue_full_response, respond_native,
  snapshot_of, stream_head_response,
}

module _ {S : Type 0} where
  abbrev pub answer : ℕ → NativeResponse → Io S → Io S
  answer ticket resp io = record io { answers = io.answers ++ (ticket, resp) ∷ [] }

  -- The task of installCppHandler, on a worker; it has left the pool's queue.
  unfoldable pub run_cpp_task : (ℕ → Snapshot → Outcome) → CppTask → Io S → Io S
  unfolding respond_native free_outputs
  run_cpp_task backend t io =
      let out = backend t.fn t.snapshot in
      answer t.ticket (respond_native out) (record io { frees = free_outputs out io.frees })

  -- The tails of the handlers, behind the limits.
  unfoldable pub serve_r : ℤ → HttpRequest → Io S → Io S
  unfolding enqueue_request pending_of
  serve_r route_id req io =
      let (q, ok) = enqueue_request (pending_of route_id req) io.queue in
      if ok then record io { queue = q } else answer req.ticket queue_full_response io

  unfoldable pub serve_cpp : ℕ → HttpRequest → Io S → Io S
  unfolding snapshot_of
  serve_cpp fn req io = record io {
    tasks = io.tasks ++ record { fn = fn; snapshot = snapshot_of req; ticket = req.ticket } ∷ [];
  }

  unfoldable pub serve_cpp_stream : ℕ → Bytes → HttpRequest → Io S → Io S
  unfolding snapshot_of
  serve_cpp_stream fn content_type req io =
      let io' = answer req.ticket (stream_head_response (default_content_type content_type)) io in
      record io' {
        streams =
            io.streams ++ record { fn = fn; snapshot = snapshot_of req; ticket = req.ticket } ∷ [];
      }

  module _ (is_allowed : ℕ → S → Bool × S) (secs : Seconds) where
    -- `if (!rl.empty())`, then checkRateLimits: a limited request is answered with 429.
    unfoldable pub behind_limits : RouteLimiters → HttpRequest → (Io S → Io S) → Io S → Io S
    unfolding check_rate_limits make_rate_limit_response
    behind_limits rl req serve io = elim rl.limiters [
      | [] ↦ serve io
      | l ∷ ls ↦
          let (ok, limits) = check_rate_limits is_allowed (l ∷ ls) io.limits in
          let io' : Io S = record io { limits = limits } in
          if ok
          then serve io'
          else answer req.ticket (make_rate_limit_response secs rl.max_window) io'
    ]

    unfoldable pub drogon_handler : RouteLimiters → ℤ → HttpRequest → Io S → Io S
    unfolding behind_limits serve_r
    drogon_handler rl route_id req io = behind_limits rl req (serve_r route_id req) io

    unfoldable pub cpp_handler : RouteLimiters → ℕ → HttpRequest → Io S → Io S
    unfolding behind_limits serve_cpp
    cpp_handler rl fn req io = behind_limits rl req (serve_cpp fn req) io

    unfoldable pub cpp_stream_handler : RouteLimiters → ℕ → Bytes → HttpRequest → Io S → Io S
    unfolding behind_limits serve_cpp_stream
    cpp_stream_handler rl fn content_type req io =
        behind_limits rl req (serve_cpp_stream fn content_type req) io
