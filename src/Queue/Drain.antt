-- ===== src/Queue/Drain.antt =====
-- The loop of drainWakeBytes in src/socket_compat.h.
use drogon_r.Prelude.{ℕ, zero, suc, ◌-◌, ◌*◌, ◌≤◌, ◌≡◌, true, some, arith}
use drogon_r.Queue.{read_until_empty, read_wake}

-- On a pipe that does not block, one read for each 64 bytes and one more end the loop, with the pipe
-- empty.
pub reads-suffice :
    (reads bytes : ℕ) → bytes ≤ 64 * reads → read_until_empty true (suc reads) bytes ≡ some 0
unfolding read_until_empty read_wake
reads-suffice zero bytes h = ground arith
reads-suffice (suc reads) bytes h = ground (arith, reads-suffice reads (bytes - 64) (omega arith))
