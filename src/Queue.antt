-- ===== src/Queue.antt =====
-- src/request_queue.cpp and the POSIX half of src/socket_compat.h: the queue between the I/O threads
-- and the main R thread, and the pipe that wakes it. The kernel's pipe is the count of the bytes in
-- it; a write to a full one is dropped (EAGAIN), and a write that a signal breaks off is made again.
pub mod Laws
pub mod Wakeup
pub mod Drain
use drogon_r.Prelude.{
  ℕ, zero, suc, ◌+◌, ◌-◌, ◌==◌, Bool, true, false, ◌&&◌, List, [], ◌∷◌, ◌++◌, Option, none, some,
  ltb, leb, if◌then◌else◌, length,
}

pub record QueueState (A : Type 0) : Type 0 where
  pub queue : List A
  pub queue_max_size : ℕ
  pub wake_read_fd : Option ℕ
  pub wake_write_fd : Option ℕ
  -- What the pipe holds, and the most that it can hold.
  pub pipe : ℕ
  -- Whether a read of the empty pipe returns (O_NONBLOCK); makeWakePipe sets it.
  pub nonblocking : Bool
  pub pipe_size : ℕ

-- `none` is the descriptor -1.
unfoldable pub write_wake_byte : Option ℕ → ℕ → ℕ → ℕ
write_wake_byte none size bytes = bytes
write_wake_byte (some fd) size bytes = if ltb bytes size then suc bytes else bytes

-- One read of at most 64 bytes: what it leaves, EAGAIN, or no return before the next write.
pub data ReadResult : Type 0 where
  leaves : ℕ → ReadResult
  again blocks : ReadResult

unfoldable pub read_wake : Bool → ℕ → ReadResult
read_wake nonblocking bytes =
    if bytes == 0 then (if nonblocking then again else blocks) else leaves (bytes - 64)

-- The reads up to the one that finds the pipe empty; `none` if the loop does not end within as many. A
-- byte that is written between two reads is taken as written before the first one.
unfoldable pub read_until_empty : Bool → ℕ → ℕ → Option ℕ
unfolding read_wake
read_until_empty nonblocking zero bytes = none
read_until_empty nonblocking (suc reads) bytes =
    let rest = read_until_empty nonblocking reads (bytes - 64) in
    elim (read_wake nonblocking bytes) [ leaves left ↦ rest | again ↦ some bytes | blocks ↦ none ]

-- A loop that does not end leaves the main thread in it, and the pipe empty.
unfoldable pub drain_wake_bytes : Bool → Option ℕ → ℕ → ℕ
unfolding read_until_empty
drain_wake_bytes nonblocking none bytes = bytes
drain_wake_bytes nonblocking (some fd) bytes =
    elim (read_until_empty nonblocking (suc bytes) bytes) [ none ↦ 0 | some left ↦ left ]

module _ {A : Type 0} where
  unfoldable pub set_queue_max_size : ℕ → QueueState A → QueueState A
  set_queue_max_size n q = record q { queue_max_size = n }

  unfoldable pub init_queue_wakeup : ℕ → ℕ → QueueState A → QueueState A
  init_queue_wakeup read_fd write_fd q = record q {
    wake_read_fd = some read_fd;
    wake_write_fd = some write_fd;
  }

  unfoldable pub reset_queue_wakeup : QueueState A → QueueState A
  reset_queue_wakeup q = record q { queue = []; wake_read_fd = none; wake_write_fd = none }

  unfoldable pub notify_dispatcher : QueueState A → QueueState A
  unfolding write_wake_byte
  notify_dispatcher q = record q { pipe = write_wake_byte q.wake_write_fd q.pipe_size q.pipe }

  -- The part of `enqueueRequest` under the lock: the request is appended, or refused.
  unfoldable pub push_request : A → QueueState A → Option (QueueState A)
  push_request req q =
      if ltb 0 q.queue_max_size && leb q.queue_max_size (length q.queue)
      then none
      else some (record q { queue = q.queue ++ req ∷ [] })

  unfoldable pub enqueue_request : A → QueueState A → QueueState A × Bool
  unfolding push_request notify_dispatcher
  enqueue_request req q = elim (push_request req q) [
    | none ↦ (q, false)
    | some q' ↦ (notify_dispatcher q', true)
  ]

  unfoldable pub drain_queue : QueueState A → QueueState A × List A
  drain_queue q = (record q { queue = [] }, q.queue)

  unfoldable pub drain_wake_pipe : QueueState A → QueueState A
  unfolding drain_wake_bytes
  drain_wake_pipe q = record q { pipe = drain_wake_bytes q.nonblocking q.wake_read_fd q.pipe }
