-- ===== src/Server/Lifecycle/Targets.antt =====
-- What a start of the server in src/drogon_server.cpp installs, and what a refused one changes.
use drogon_r.Prelude.{
  ℕ, suc, ◌≡◌, ◌≢◌, refl, sym, ap, ◌∙◌, inl, inr, Bool, true, false, List, [], ◌∷◌, ◌++◌, Option,
  none, some, arith, map, Bool-cases,
}
use mathlib.Core.List.{map-append}
use drogon_r.Prelude.Bytes.{Bytes}
use drogon_r.Prelude.Sexp.{Sexp, Real}
use drogon_r.Queue.{set_queue_max_size}
use drogon_r.Dispatch.Request.{Route}
use drogon_r.Dispatch.Watch.{
  Watch, Process, ensure_dispatcher_running, apply_log_level_from_env, register_dispatcher_fd,
}
use drogon_r.Static.Resolve.{mount_regex}
use drogon_r.Ws.{WsRoute}
use drogon_r.Server.Limits.{LimitWorld}
use drogon_r.Server.Tables.{StaticMount, CppRoute, CppStreamRoute}
use drogon_r.Server.Lifecycle.{
  Server, StartArgs, install_all, pool_or, bring_up, start_with, server_start, start_args,
}
use drogon_r.Server.Lifecycle.Install.{
  Installed, r_entry, cpp_entry, cpp_stream_entry, static_entry, ws_entry, install_routes,
  install_cpp_routes, install_cpp_stream_routes, install_static_mounts, install_ws_paths,
}

-- A path that each kind of handler is installed under.
pub data Target : Type 0 where
  r_target cpp_target cpp_stream_target : Bytes → Target
  static_target : Bytes → Bytes → Target
  ws_target : Bytes → Target

abbrev pub target : Installed → Target
target (r_entry m regex i rl) = r_target regex
target (cpp_entry m regex fn rl) = cpp_target regex
target (cpp_stream_entry m regex fn ct rl) = cpp_stream_target regex
target (static_entry regex dir) = static_target regex dir
target (ws_entry path) = ws_target path

-- Nothing but the log level differs.
abbrev IsLogged : Server → Server → Type 0
IsLogged s v = v ≡ record s { watch = record s.watch { log_level = v.watch.log_level } }

log_level-only :
    {A : Type 0} (p : Process) (w : Watch A)
    → apply_log_level_from_env p w
      ≡ record w { log_level = (apply_log_level_from_env p w).log_level }
unfolding apply_log_level_from_env
log_level-only p w = ground arith

-- With later at hand, the dispatcher fails for want of a pipe alone.
ensure-failed :
    {A : Type 0} (p : Process) (w : Watch A)
    → w.later_fd ≡ true
    → (ensure_dispatcher_running p w).1 ≡ false
    → (ensure_dispatcher_running p w).0
      ≡ record w { log_level = (ensure_dispatcher_running p w).0.log_level }
unfolding ensure_dispatcher_running register_dispatcher_fd apply_log_level_from_env
ensure-failed p w fd e = ground (arith, fd, e, log_level-only p w)

module _ (gt : Real → Real → Bool) where
  install_routes-targets :
      (i : ℕ) (rs : List Route) (lw : LimitWorld)
      → map target (install_routes gt i rs lw).0 ≡ map (λ r. r_target r.regex) rs
  unfolding install_routes
  install_routes-targets i [] lw = refl
  install_routes-targets i (r ∷ rs) lw =
      ap (λ ts. r_target r.regex ∷ ts) (install_routes-targets (suc i) rs _)

  install_cpp_routes-targets :
      (rs : List CppRoute) (lw : LimitWorld)
      → map target (install_cpp_routes gt rs lw).0 ≡ map (λ r. cpp_target r.regex) rs
  unfolding install_cpp_routes
  install_cpp_routes-targets [] lw = refl
  install_cpp_routes-targets (r ∷ rs) lw =
      ap (λ ts. cpp_target r.regex ∷ ts) (install_cpp_routes-targets rs _)

  install_cpp_stream_routes-targets :
      (rs : List CppStreamRoute) (lw : LimitWorld)
      → map target (install_cpp_stream_routes gt rs lw).0 ≡ map (λ r. cpp_stream_target r.regex) rs
  unfolding install_cpp_stream_routes
  install_cpp_stream_routes-targets [] lw = refl
  install_cpp_stream_routes-targets (r ∷ rs) lw =
      ap (λ ts. cpp_stream_target r.regex ∷ ts) (install_cpp_stream_routes-targets rs _)

  install_static_mounts-targets :
      (ms : List StaticMount)
      → map target (install_static_mounts ms)
        ≡ map (λ m. static_target (mount_regex m.mount) m.dir) ms
  unfolding install_static_mounts
  install_static_mounts-targets [] = refl
  install_static_mounts-targets (m ∷ ms) =
      ap (λ ts. static_target (mount_regex m.mount) m.dir ∷ ts) (install_static_mounts-targets ms)

  install_ws_paths-targets :
      (rs : List WsRoute) → map target (install_ws_paths rs) ≡ map (λ r. ws_target r.path) rs
  unfolding install_ws_paths
  install_ws_paths-targets [] = refl
  install_ws_paths-targets (r ∷ rs) = ap (λ ts. ws_target r.path ∷ ts) (install_ws_paths-targets rs)

  -- What an install adds, in the order in which Drogon will try it.
  abbrev pub targets_of : List Target → Server → List Target
  targets_of before s =
      before
      ++ map (λ r. r_target r.regex) s.tables.routes
      ++ map (λ r. cpp_target r.regex) s.tables.cpp_routes
      ++ map (λ r. cpp_stream_target r.regex) s.tables.cpp_stream_routes
      ++ map (λ m. static_target (mount_regex m.mount) m.dir) s.tables.static_mounts
      ++ map (λ r. ws_target r.path) s.ws.routes

  install_all-targets :
      (s : Server) → map target (install_all gt s).installed ≡ targets_of (map target s.installed) s
  unfolding install_all
  install_all-targets s =
      let t = s.tables in
      let lw : LimitWorld = record {
        made = s.made;
        next_limiter = s.next_limiter;
        rules = t.rate_limit_rules;
      } in
      let rs = install_routes gt 0 t.routes lw in
      let cs = install_cpp_routes gt t.cpp_routes rs.1 in
      let ss = install_cpp_stream_routes gt t.cpp_stream_routes cs.1 in
      let ms = install_static_mounts t.static_mounts in
      let ws = install_ws_paths s.ws.routes in
      rw
        (
          map-append target (s.installed ++ rs.0 ++ cs.0 ++ ss.0 ++ ms) ws,
          map-append target (s.installed ++ rs.0 ++ cs.0 ++ ss.0) ms,
          map-append target (s.installed ++ rs.0 ++ cs.0) ss.0,
          map-append target (s.installed ++ rs.0) cs.0,
          map-append target s.installed rs.0,
          install_routes-targets 0 t.routes lw,
          install_cpp_routes-targets t.cpp_routes rs.1,
          install_cpp_stream_routes-targets t.cpp_stream_routes cs.1,
          install_static_mounts-targets t.static_mounts,
          install_ws_paths-targets s.ws.routes,
        )
        refl

  bring_up-targets :
      (p : Process) (a : StartArgs) (s : Server)
      → (map target (bring_up gt p a s).installed ≡ targets_of (map target s.installed) s)
        × ((bring_up gt p a s).tables.running ≡ true)
  unfolding bring_up
  bring_up-targets p a s = (
    install_all-targets (record s {
      watch = record s.watch { queue = set_queue_max_size a.max_queue s.watch.queue };
      cpp_worker_pool = pool_or a.cpp_workers s.cpp_worker_pool;
    }),
    refl,
  )

  -- What a start does behind its first checks, where it succeeds and where it does not.
  start_with-installs :
      (p : Process) (args : Option StartArgs) (s : Server)
      → (start_with gt p args s).1 ≡ true
      → (args ≢ none)
        × (map target (start_with gt p args s).0.installed ≡ targets_of (map target s.installed) s)
        × ((start_with gt p args s).0.tables.running ≡ true)
  unfolding start_with
  start_with-installs p none s e = absurd (ground (arith, e))
  start_with-installs p (some a) s e = elim (Bool-cases (ensure_dispatcher_running p s.watch).1) [
    | inl ok ↦
        let w = (ensure_dispatcher_running p s.watch).0 in
        rw (ok, start_with)
          (let (targets, running) = bring_up-targets p a (record s { watch = w }) in
            ((λ q. ground (arith, q)), targets, running))
    | inr failed ↦ absurd (ground (arith, failed, e))
  ]

  start_with-refused :
      (p : Process) (args : Option StartArgs) (s : Server)
      → s.watch.later_fd ≡ true
      → (start_with gt p args s).1 ≡ false
      → IsLogged s (start_with gt p args s).0
  unfolding start_with
  start_with-refused p none s fd e = refl
  start_with-refused p (some a) s fd e = elim (Bool-cases (ensure_dispatcher_running p s.watch).1) [
    | inl ok ↦ absurd (ground (arith, ok, e))
    | inr failed ↦
        rw (failed, start_with)
          (ap (λ w. record s { watch = w }) (ensure-failed p s.watch fd failed))
  ]

  start_chain :
      (p : Process) (port threads path queue workers : Sexp) (s : Server)
      → (server_start gt p port threads path queue workers s).1 ≡ true
      → (s.ever_started ≡ false)
        × (server_start gt p port threads path queue workers s
            ≡ start_with gt p (start_args port threads path queue workers) s)
  unfolding server_start
  start_chain p port threads path queue workers s e = ground (arith, e)

  -- A start that succeeds has valid arguments, was the first, and gives Drogon a handler for every
  -- registered route and mount: those of R, then the native ones, the native streams, the static
  -- mounts and the WebSocket paths, each in the order of its table.
  pub start-installs :
      (p : Process) (port threads path queue workers : Sexp) (s : Server)
      → (server_start gt p port threads path queue workers s).1 ≡ true
      → (s.ever_started ≡ false)
        × (start_args port threads path queue workers ≢ none)
        × (map target (server_start gt p port threads path queue workers s).0.installed
            ≡ targets_of (map target s.installed) s)
        × ((server_start gt p port threads path queue workers s).0.tables.running ≡ true)
  start-installs p port threads path queue workers s e =
      let (ever, same) = start_chain p port threads path queue workers s e in
      let args = start_args port threads path queue workers in
      let (valid, targets, running) = start_with-installs p args s (sym (ap (λ r. r.1) same) ∙ e) in
      (ever, valid, rw same targets, rw same running)

  -- A start that ends in an R error leaves everything but the log level as it was: the tables, the
  -- queue and its limit, the wake pipe and its watch, the pool, Drogon, the streams and the WebSockets.
  pub start_refused :
      (p : Process) (port threads path queue workers : Sexp) (s : Server)
      → (server_start gt p port threads path queue workers s).1 ≡ false
      → (server_start gt p port threads path queue workers s).0 ≡ record s {
        watch = record s.watch {
          log_level = (server_start gt p port threads path queue workers s).0.watch.log_level;
        };
      }
  unfolding server_start
  start_refused p port threads path queue workers s e = elim (Bool-cases s.watch.later_fd) [
    | inl fd ↦
        ground (arith, fd, start_with-refused p (start_args port threads path queue workers) s fd)
    | inr fd ↦ ground (arith, fd)
  ]
