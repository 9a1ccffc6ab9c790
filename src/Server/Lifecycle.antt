-- ===== src/Server/Lifecycle.antt =====
-- The start and the stop of the server in src/drogon_server.cpp, on Linux: drogonR_server_start,
-- drogonR_server_stop, drogonR_server_running and drogonR_reset_fork_state. `false` is an R error,
-- which leaves what was done before.
pub mod Install
pub mod Laws
pub mod Targets
pub mod Stop
pub mod Thread
use drogon_r.Prelude.{
  ℕ, suc, ◌+◌, Bool, true, false, ◌&&◌, ◌||◌, List, [], ◌∷◌, ◌++◌, Option, none, some, ◌==◌, ltb,
  leb, if◌then◌else◌, ◌>>=◌,
}
use drogon_r.Prelude.Bytes.{Bytes, codes}
use drogon_r.Prelude.Sexp.{Sexp, integers, ℤ, pos, negsuc, Real}
use drogon_r.Queue.{set_queue_max_size}
use drogon_r.Dispatch.Request.{Route, PendingRequest}
use drogon_r.Dispatch.Watch.{
  Watch, Process, ensure_dispatcher_running, shutdown_dispatcher, apply_log_level_from_env,
}
use drogon_r.Static.Resolve.{mount_regex}
use drogon_r.Stream.{StreamWorld, clear_all_stream_sessions}
use drogon_r.Ws.{WsRoute, World}
use drogon_r.Ws.Routes.{single_string, install_ws_routes, clear_all_ws_sessions}
use drogon_r.Server.Limits.{Limiter, RouteLimiters, LimitWorld, build_limiters_for_path}
use drogon_r.Server.Tables.{Tables, StaticMount, CppRoute, CppStreamRoute}
use drogon_r.Server.Lifecycle.Install.{
  Installed, install_routes, install_cpp_routes, install_cpp_stream_routes, install_static_mounts,
  install_ws_paths,
}
use drogon_r.Server.Handlers.{HttpMethod, method_from_string, default_content_type}

-- What else drogon::app() is asked.
pub data AppCall : Type 0 where
  set_thread_num : ℕ → AppCall
  set_upload_path : Bytes → AppCall
  enable_reuse_port : Bool → AppCall
  reset_timer_queue : AppCall
  reset_after_fork : AppCall
  add_listener : Bytes → ℕ → AppCall
  run : AppCall
  quit : AppCall

-- `tables.running` is `g_running`; the rules of the limits stand in the tables too.
pub record Server : Type 0 where
  pub tables : Tables
  pub made : List Limiter
  pub next_limiter : ℕ
  pub ever_started : Bool
  pub watch : Watch PendingRequest
  pub cpp_worker_pool : Option ℕ
  -- Whether `g_drogonThread` is joinable, and whether std::terminate has ended the process.
  pub drogon_thread : Bool
  pub terminated : Bool
  pub installed : List Installed
  pub app : List AppCall
  pub streams : StreamWorld
  pub ws : World

unfoldable pub server_running : Server → Bool
server_running s = s.tables.running

unfoldable pub reset_fork_state : Server → Server
reset_fork_state s = record s { tables = record s.tables { running = false }; ever_started = false }

pub record StartArgs : Type 0 where
  pub port : ℕ
  pub threads : ℕ
  pub upload_path : Bytes
  pub max_queue : ℕ
  pub cpp_workers : ℕ

abbrev pub single_int : Sexp → Option ℤ
single_int (integers a (i ∷ [])) = some i
single_int x = none

abbrev pub valid_port : ℤ → Option ℕ
valid_port (pos n) = if ltb 0 n && leb n 65535 then some n else none
valid_port (negsuc n) = none

abbrev pub at_least_one : ℤ → Option ℕ
at_least_one (pos n) = if ltb 0 n then some n else none
at_least_one (negsuc n) = none

-- The checks of the arguments.
unfoldable pub start_args : Sexp → Sexp → Sexp → Sexp → Sexp → Option StartArgs
unfolding single_string
start_args port threads upload_path max_queue cpp_workers = single_int port >>= λ p.
    single_int threads >>= λ t. single_string upload_path >>= λ path. single_int max_queue >>= λ q.
    single_int cpp_workers >>= λ c. valid_port p >>= λ p'. at_least_one t >>= λ t'.
    at_least_one q >>= λ q'. at_least_one c >>= λ c'.
    some (record { port = p'; threads = t'; upload_path = path; max_queue = q'; cpp_workers = c' })

abbrev pub app_calls : StartArgs → List AppCall
app_calls a =
    set_thread_num a.threads
    ∷ set_upload_path a.upload_path
    ∷ enable_reuse_port true
    ∷ reset_timer_queue
    ∷ reset_after_fork
    ∷ add_listener (codes "0.0.0.0") a.port
    ∷ run
    ∷ []

abbrev pub pool_or : ℕ → Option ℕ → Option ℕ
pool_or n none = some n
pool_or n (some m) = some m

module _ (gt : Real → Real → Bool) where
  -- The block under g_routesMutex, in its order, and installWsRoutes.
  unfoldable pub install_all : Server → Server
  unfolding install_routes install_cpp_routes install_cpp_stream_routes install_static_mounts
      install_ws_paths install_ws_routes
  install_all s =
      let t = s.tables in
      let lw : LimitWorld = record {
        made = s.made;
        next_limiter = s.next_limiter;
        rules = t.rate_limit_rules;
      } in
      let (rs, lw1) = install_routes gt 0 t.routes lw in
      let (cs, lw2) = install_cpp_routes gt t.cpp_routes lw1 in
      let (ss, lw3) = install_cpp_stream_routes gt t.cpp_stream_routes lw2 in
      record s {
        tables = record t { rate_limit_rules = lw3.rules };
        made = lw3.made;
        next_limiter = lw3.next_limiter;
        installed =
            s.installed
            ++ rs
            ++ cs
            ++ ss
            ++ install_static_mounts t.static_mounts
            ++ install_ws_paths s.ws.routes;
        ws = install_ws_routes s.ws;
      }

  -- The start behind its checks and the dispatcher. The new thread is assigned to `g_drogonThread`
  -- last, which ends the process if that still is joinable.
  unfoldable pub bring_up : Process → StartArgs → Server → Server
  unfolding install_all apply_log_level_from_env set_queue_max_size
  bring_up p a s =
      let limited = record s.watch { queue = set_queue_max_size a.max_queue s.watch.queue } in
      let s' =
        install_all (record s {
          watch = limited;
          cpp_worker_pool = pool_or a.cpp_workers s.cpp_worker_pool;
        }) in
      record s' {
        watch = apply_log_level_from_env p s'.watch;
        app = s.app ++ app_calls a;
        tables = record s'.tables { running = true };
        ever_started = true;
        drogon_thread = true;
        terminated = s.terminated || s.drogon_thread;
      }

  unfoldable pub start_with : Process → Option StartArgs → Server → Server × Bool
  unfolding ensure_dispatcher_running bring_up
  start_with p args s = elim args [
    | none ↦ (s, false)
    | some a ↦
        let (watch, ok) = ensure_dispatcher_running p s.watch in
        if ok
        then (bring_up p a (record s { watch = watch }), true)
        else (record s { watch = watch }, false)
  ]

  unfoldable pub server_start : Process → Sexp → Sexp → Sexp → Sexp → Sexp → Server → Server × Bool
  unfolding start_args start_with
  server_start p port threads upload_path max_queue cpp_workers s =
      if s.watch.later_fd
      then (if s.tables.running
          then (s, false)
          else if s.ever_started
          then (s, false)
          else start_with p (start_args port threads upload_path max_queue cpp_workers) s)
      else (s, false)

-- The fields of the loop thread are set behind its end; the pool finishes its tasks before it is gone.
unfoldable pub server_stop : (Sexp → ℕ) → Server → Server
unfolding shutdown_dispatcher clear_all_stream_sessions clear_all_ws_sessions set_queue_max_size
server_stop object s =
    if s.tables.running
    then record s {
      app = s.app ++ quit ∷ [];
      drogon_thread = false;
      tables = record s.tables { running = false };
      watch = shutdown_dispatcher (record s.watch { queue = set_queue_max_size 0 s.watch.queue });
      streams = clear_all_stream_sessions object s.streams;
      ws = clear_all_ws_sessions s.ws;
      cpp_worker_pool = none;
    }
    else s
