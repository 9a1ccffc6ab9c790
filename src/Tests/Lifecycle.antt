-- ===== src/Tests/Lifecycle.antt =====
-- The wake pipe, the turns of the main thread, and the start and the stop of the server.
use drogon_r.Prelude.{
  ℕ, ◌+◌, ◌≤◌, ◌≡◌, ◌≢◌, refl, Bool, true, false, List, [], ◌∷◌, ◌++◌, none, some, map,
}
use drogon_r.Prelude.Bytes.{codes}
use drogon_r.Prelude.Sexp.{Sexp, integers, strings, closure, plain, pos, Real, finite}
use drogon_r.Dispatch.{Dispatcher, Host}
use drogon_r.Dispatch.Request.{PendingRequest}
use drogon_r.Dispatch.Laws.{tickets, asked}
use drogon_r.Dispatch.Watch.{
  Watch, Process, ensure_dispatcher_running, register_dispatcher_fd, apply_log_level_from_env,
  shutdown_dispatcher,
}
use drogon_r.Dispatch.Watch.Laws.{IsDown, IsUp, IsEither, pump_is_armed, ensures, shuts}
use drogon_r.Dispatch.Watch.Laws as Watches
use drogon_r.Dispatch.Turn.{Main, run_dispatcher}
use drogon_r.Dispatch.Turn.Laws.{run_dispatcher_serves}
use drogon_r.Ws.{World, HookCall}
use drogon_r.Ws.Pump.{RCall}
use drogon_r.Ws.Pump.Laws.{calls_of}
use drogon_r.Ws.Routes.{single_string}
use drogon_r.Client.Pump.Laws as ClientLaws
use drogon_r.Server.Lifecycle.{Server, server_start, server_stop, start_with, start_args}
use drogon_r.Server.Lifecycle.Laws.{here, next, starts, stops, runs_of, left, resets, started_once}
use drogon_r.Server.Lifecycle.Targets.{target, targets_of, start-installs, start_refused}
use drogon_r.Server.Lifecycle.{reset_fork_state, bring_up}
use drogon_r.Server.Lifecycle.Laws.{Reach, forks}
use drogon_r.Server.Lifecycle.Thread.{wild, thread_kept}
use drogon_r.Server.Lifecycle.Stop.{stop_is_complete}
use drogon_r.Tests.Clients.{down, talking, greets}

abbrev process : Process
process = record { getenv = some (codes "Warn"); new_pipe = some (3, 4) }

down-IsDown : IsDown down
down-IsDown = record { ready = refl; pipe = refl; polled = refl; read_end = refl; write_end = refl }

pump_is_armed_example : IsEither (shutdown_dispatcher (ensure_dispatcher_running process down).0)
pump_is_armed_example =
    pump_is_armed
      (Watches.next {u = (ensure_dispatcher_running process down).0}
        (Watches.next {u = down} Watches.here (ensures process)) shuts)
      down-IsDown

abbrev asked_for : PendingRequest
asked_for = record {
  method = codes "GET";
  path = codes "/";
  body = [];
  headers = [];
  queries = [];
  path_params = [];
  ticket = 12;
  connected = true;
  route_id = pos 0;
}

abbrev up : Watch PendingRequest
up = record down {
  wake_pipe = some (3, 4);
  dispatcher_fd = some 3;
  waits = some 3 ∷ [];
  queue = record down.queue {
    queue = asked_for ∷ [];
    nonblocking = true;
    wake_read_fd = some 3;
    wake_write_fd = some 4;
    pipe = 1;
  };
}

up-IsUp : IsUp 3 4 up
up-IsUp = record {
  ready = refl;
  pipe = refl;
  polled = refl;
  read_end = refl;
  write_end = refl;
  armed = ([], [], refl);
}

abbrev quiet_ws : World
quiet_ws = record {
  routes = [];
  sessions = [];
  events = [];
  next_id = 1;
  rooms = [];
  contexts = [];
  tasks = [];
  backend_calls = [];
  refused = [];
  wakes = 0;
  hook_calls = [];
  preserved = [];
  reaper_stop = false;
  reaper_armed = false;
}

abbrev dispatcher : Dispatcher
dispatcher = record {
  routes = [];
  streams = record {
    sessions = [];
    next_stream_id = 1;
    tasks = [];
    written = [];
    scheduled = [];
    calls = [];
    preserved = [];
  };
  answers = [];
}

abbrev host : Host
host = record {
  eval = λ t c req. none;
  geterrmessage = λ t. none;
  to_int = λ x. pos 200;
  beyond = pos 0;
  to_double = λ i. finite 0;
  object = λ x. 0;
}

abbrev no_calls : World → HookCall → List RCall
no_calls w c = []

abbrev main : Main
main = record { clients = record talking { watch = up }; dispatcher = dispatcher; ws = quiet_ws }

run_dispatcher_serves_example :
    (tickets (run_dispatcher host no_calls greets main).dispatcher.answers
      ≡ tickets main.dispatcher.answers ++ asked main.clients.watch.queue.queue)
    × ((run_dispatcher host no_calls greets main).ws.hook_calls
        ≡ main.ws.hook_calls ++ calls_of main.ws.events main.ws.routes)
    × ((run_dispatcher host no_calls greets main).clients.hook_calls
        ≡ main.clients.hook_calls ++ ClientLaws.calls_of main.clients.events main.clients.clients)
    × ((run_dispatcher host no_calls greets main).clients.watch.queue.queue ≡ [])
    × ((run_dispatcher host no_calls greets main).ws.events ≡ [])
    × ((run_dispatcher host no_calls greets main).clients.events ≡ [])
    × ((run_dispatcher host no_calls greets main).clients.watch.waits
        ≡ main.clients.watch.waits ++ some 3 ∷ [])
run_dispatcher_serves_example =
    run_dispatcher_serves host no_calls greets main 3 (λ w c. (tt, tt)) refl

abbrev gt : Real → Real → Bool
gt x y = false

abbrev server : Server
server = record {
  tables = record {
    running = false;
    routes =
        record {
          method = codes "GET";
          path = codes "/a";
          regex = codes "^/a$";
          param_names = [];
          handler = closure 9;
        }
        ∷ [];
    cpp_routes = [];
    cpp_stream_routes = [];
    static_mounts = record { mount = codes "/s"; dir = codes "/srv" } ∷ [];
    rate_limit_rules = [];
    preserved = 9 ∷ [];
  };
  made = [];
  next_limiter = 0;
  ever_started = false;
  watch = down;
  cpp_worker_pool = none;
  drogon_thread = false;
  terminated = false;
  installed = [];
  app = [];
  streams = dispatcher.streams;
  ws = quiet_ws;
}

abbrev int : ℕ → Sexp
int n = integers plain (pos n ∷ [])

abbrev uploads : Sexp
uploads = strings plain (some (codes "/tmp") ∷ [])

abbrev started : Server
started = (server_start gt process (int 8080) (int 2) uploads (int 64) (int 4) server).0

abbrev object : Sexp → ℕ
object x = 0

started_once_example :
    runs_of (server_stop object started)
    ≤ runs_of server
      + left server
      + resets gt {s = server} {v = server_stop object started} (
          next {u = started}
            (next {u = server} here (starts process (int 8080) (int 2) uploads (int 64) (int 4)))
            (stops object))
started_once_example = started_once gt (
    next {u = started}
      (next {u = server} here (starts process (int 8080) (int 2) uploads (int 64) (int 4)))
      (stops object))

start_goes : (server_start gt process (int 8080) (int 2) uploads (int 64) (int 4) server).1 ≡ true
unfolding server_start start_with start_args single_string ensure_dispatcher_running
    register_dispatcher_fd apply_log_level_from_env
start_goes = refl

start-installs_example :
    (server.ever_started ≡ false)
    × (start_args (int 8080) (int 2) uploads (int 64) (int 4) ≢ none)
    × (map target started.installed ≡ targets_of gt (map target server.installed) server)
    × (started.tables.running ≡ true)
start-installs_example =
    start-installs gt process (int 8080) (int 2) uploads (int 64) (int 4) server start_goes

bad_port : (server_start gt process (int 65536) (int 2) uploads (int 64) (int 4) server).1 ≡ false
unfolding server_start start_with start_args single_string
bad_port = refl

start_refused_example :
    (server_start gt process (int 65536) (int 2) uploads (int 64) (int 4) server).0
    ≡ record server {
      watch = record server.watch {
        log_level =
            (server_start gt process
              (int 65536)
              (int 2)
              uploads
              (int 64)
              (int 4)
              server).0.watch.log_level;
      };
    }
start_refused_example =
    start_refused gt process (int 65536) (int 2) uploads (int 64) (int 4) server bad_port

abbrev running : Server
running = record server { tables = record server.tables { running = true }; watch = up }

stop_is_complete_example :
    IsDown (server_stop object running).watch
    × ((server_stop object running).watch.closed ≡ running.watch.closed ++ 3 ∷ 4 ∷ [])
    × ((server_stop object running).watch.queue.queue ≡ [])
    × ((server_stop object running).ws.sessions ≡ [])
    × ((server_stop object running).ws.rooms ≡ [])
    × ((server_stop object running).ws.events ≡ [])
    × ((server_stop object running).ws.routes ≡ [])
    × ((server_stop object running).cpp_worker_pool ≡ none)
    × ((server_stop object running).drogon_thread ≡ false)
    × (server_stop object (server_stop object running) ≡ server_stop object running)
stop_is_complete_example = stop_is_complete object running 3 4 refl up-IsUp

-- A start, a stop, and the reset of a forked worker.
abbrev calls : Reach gt server (reset_fork_state (server_stop object started))
calls =
    next
      (next (next here (starts process (int 8080) (int 2) uploads (int 64) (int 4))) (stops object))
      forks

calls_tame : wild gt calls ≡ 0
unfolding server_stop server_start start_with start_args single_string ensure_dispatcher_running
    register_dispatcher_fd apply_log_level_from_env bring_up
calls_tame = refl

thread_kept_example :
    ((reset_fork_state (server_stop object started)).terminated ≡ false)
    × ((reset_fork_state (server_stop object started)).drogon_thread
        ≡ (reset_fork_state (server_stop object started)).tables.running)
thread_kept_example = thread_kept gt calls refl refl refl calls_tame
