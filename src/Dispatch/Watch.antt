-- ===== src/Dispatch/Watch.antt =====
-- The wake-up of the main R thread: ensureDispatcherRunning, shutdownDispatcher and
-- applyLogLevelFromEnv of src/drogon_server.cpp; registerDispatcherFd, unregisterDispatcherFd and
-- drogonR_init_later of src/r_dispatcher.cpp; makeWakePipe and closeWakeFd of src/socket_compat.h
-- on POSIX. `false` is an R error, which leaves what was done before.
pub mod Laws
use drogon_r.Prelude.{
  ℕ, suc, Bool, true, false, ◌&&◌, List, [], ◌∷◌, ◌++◌, Option, none, some, if◌then◌else◌, map,
}
use drogon_r.Prelude.Bytes.{Bytes, codes, bytes_eq}
use drogon_r.Dispatch.Reply.{lower_all}
use drogon_r.Queue.{QueueState, init_queue_wakeup, reset_queue_wakeup, drain_queue, drain_wake_pipe}

pub data LogLevel : Type 0 where
  trace debug info warn error fatal : LogLevel

pub record Watch (A : Type 0) : Type 0 where
  -- Whether `g_later_fd` and `g_later` are set.
  pub later_fd : Bool
  pub later : Bool
  pub wake_pipe : Option (ℕ × ℕ)
  pub dispatcher_fd : Option ℕ
  -- The waits that `later` holds for runDispatcher, by the descriptor each polls.
  pub waits : List (Option ℕ)
  pub queue : QueueState A
  -- The descriptors that were closed.
  pub closed : List ℕ
  pub log_level : Option LogLevel

-- What the process answers: the variable DROGONR_LOG_LEVEL, and the ends of a new pipe.
pub record Process : Type 0 where
  pub getenv : Option Bytes
  pub new_pipe : Option (ℕ × ℕ)

unfoldable pub level_named : Bytes → Option LogLevel
unfolding bytes_eq
level_named s =
    if bytes_eq s (codes "trace")
    then some trace
    else if bytes_eq s (codes "debug")
    then some debug
    else if bytes_eq s (codes "info")
    then some info
    else if bytes_eq s (codes "warn")
    then some warn
    else if bytes_eq s (codes "error")
    then some error
    else if bytes_eq s (codes "fatal")
    then some fatal
    else none

module _ {A : Type 0} where
  -- drogonR_init_later: whether R finds execLaterFdNative and execLaterNative2.
  unfoldable pub init_later : Bool → Bool → Watch A → Watch A × Bool
  init_later has_fd has_later w =
      if w.later_fd && w.later
      then (w, true)
      else if has_fd
      then (if has_later
          then (record w { later_fd = true; later = true }, true)
          else (record w { later_fd = true }, false))
      else (w, false)

  unfoldable pub apply_log_level_from_env : Process → Watch A → Watch A
  unfolding level_named
  apply_log_level_from_env p w = elim p.getenv [
    | none ↦ w
    | some text ↦ elim (level_named (lower_all text)) [
      | none ↦ w
      | some level ↦ record w { log_level = some level }
    ]
  ]

  -- One wait of `later` for runDispatcher, armed here and behind each call of it.
  abbrev pub arm : Watch A → Watch A
  arm w = record w { waits = w.waits ++ w.dispatcher_fd ∷ [] }

  unfoldable pub register_dispatcher_fd : ℕ → Watch A → Watch A × Bool
  register_dispatcher_fd fd w =
      if w.later_fd then (arm (record w { dispatcher_fd = some fd }), true) else (w, false)

  unfoldable pub unregister_dispatcher_fd : Watch A → Watch A
  unregister_dispatcher_fd w = record w { dispatcher_fd = none }

  -- A new pipe is empty, and makeWakePipe has made it one that does not block.
  abbrev pub use_pipe : ℕ → ℕ → Watch A → Watch A
  use_pipe r e w = record w {
    wake_pipe = some (r, e);
    queue = init_queue_wakeup r e (record w.queue { pipe = 0; nonblocking = true });
  }

  unfoldable pub ensure_dispatcher_running : Process → Watch A → Watch A × Bool
  unfolding apply_log_level_from_env init_queue_wakeup register_dispatcher_fd
  ensure_dispatcher_running p w =
      let w' = apply_log_level_from_env p w in
      elim w.wake_pipe [
        | some fds ↦ (w', true)
        | none ↦ elim p.new_pipe [
          | none ↦ (w', false)
          | some (r, e) ↦ register_dispatcher_fd r (use_pipe r e w')
        ]
      ]

  unfoldable pub shutdown_dispatcher : Watch A → Watch A
  unfolding unregister_dispatcher_fd reset_queue_wakeup
  shutdown_dispatcher w = elim w.wake_pipe [
    | none ↦ w
    | some (r, e) ↦ record (unregister_dispatcher_fd w) {
      queue = reset_queue_wakeup w.queue;
      closed = w.closed ++ r ∷ e ∷ [];
      wake_pipe = none;
    }
  ]

  -- The head of runDispatcher behind its guard: drainWakePipe, then drainQueue.
  unfoldable pub take_requests : Watch A → Watch A × List A
  unfolding drain_wake_pipe drain_queue
  take_requests w =
      let (q, items) = drain_queue (drain_wake_pipe w.queue) in (record w { queue = q }, items)
