-- ===== src/Server/Lifecycle/Thread.antt =====
-- The thread that runs Drogon, g_drogonThread of src/drogon_server.cpp, over the runs of one R session.
use drogon_r.Prelude.{
  ℕ, ◌+◌, ◌<◌, ◌≡◌, refl, sym, ◌⊎◌, inl, inr, Bool, false, Option, none, some, arith, Bool-cases,
  if◌then◌else◌, ◌∙◌,
}
use drogon_r.Prelude.Sexp.{Sexp, Real}
use drogon_r.Dispatch.Watch.{Process, ensure_dispatcher_running}
use drogon_r.Server.Lifecycle.{
  Server, StartArgs, install_all, bring_up, start_with, server_start, server_stop, reset_fork_state,
  start_args,
}
use drogon_r.Server.Lifecycle.Laws.{Step, Reach, here, next, starts, stops, registers, forks}

-- The thread is there exactly while the server runs, and the process goes on.
record IsSound (s : Server) : Type 0 where
  thread : s.drogon_thread ≡ s.tables.running
  lives : s.terminated ≡ false

module _ (gt : Real → Real → Bool) where
  -- The resets of a fork state that find the server running.
  abbrev pub wild_of : {s v : Server} → Step gt s v → ℕ
  wild_of (starts p port threads path queue workers) = 0
  wild_of (stops object) = 0
  wild_of (registers t e) = 0
  wild_of {s} forks = if s.tables.running then 1 else 0

  abbrev pub wild : {s v : Server} → Reach gt s v → ℕ
  wild here = 0
  wild (next {u} r s) = wild r + wild_of s

  bring_up-IsSound :
      (p : Process) (a : StartArgs) (s : Server)
      → s.tables.running ≡ false
      → IsSound s
      → IsSound (bring_up gt p a s)
  unfolding bring_up install_all
  bring_up-IsSound p a s e h = record {
    thread = refl;
    lives = ground (arith, h.lives, h.thread, e);
  }

  start_with-IsSound :
      (p : Process) (args : Option StartArgs) (s : Server)
      → s.tables.running ≡ false
      → IsSound s
      → IsSound (start_with gt p args s).0
  unfolding start_with
  start_with-IsSound p none s e h = h
  start_with-IsSound p (some a) s e h = elim (Bool-cases (ensure_dispatcher_running p s.watch).1) [
    | inl ok ↦
        rw (ok, start_with)
          (bring_up-IsSound p a (record s { watch = (ensure_dispatcher_running p s.watch).0 }) e
            (record { thread = h.thread; lives = h.lives }))
    | inr failed ↦ rw (failed, start_with) (record { thread = h.thread; lives = h.lives })
  ]

  server_start-IsSound :
      (p : Process) (port threads path queue workers : Sexp) (s : Server)
      → IsSound s
      → IsSound (server_start gt p port threads path queue workers s).0
  unfolding server_start
  server_start-IsSound p port threads path queue workers s h = elim (Bool-cases s.watch.later_fd) [
    | inr fd ↦ simp (fd) h
    | inl fd ↦ elim (Bool-cases s.tables.running) [
      | inl e ↦ simp (fd, e) h
      | inr e ↦ elim (Bool-cases s.ever_started) [
        | inl f ↦ simp (fd, e, f) h
        | inr f ↦
            simp (fd, e, f)
              (start_with-IsSound p (start_args port threads path queue workers) s e h)
      ]
    ]
  ]

  step-IsSound : {s v : Server} (step : Step gt s v) → IsSound s → IsSound v ⊎ (0 < wild_of step)
  unfolding reset_fork_state server_stop
  step-IsSound {s} (starts p port threads path queue workers) h =
      inl (server_start-IsSound p port threads path queue workers s h)
  step-IsSound {s} (stops object) h = elim (Bool-cases s.tables.running) [
    | inl e ↦ inl (simp e (record { thread = refl; lives = h.lives }))
    | inr e ↦ inl (simp e h)
  ]
  step-IsSound {s} (registers t e) h = inl (record { thread = h.thread ∙ sym e; lives = h.lives })
  step-IsSound {s} forks h = elim (Bool-cases s.tables.running) [
    | inl e ↦ inr (rw e (omega arith))
    | inr e ↦ inl (record { thread = h.thread ∙ e; lives = h.lives })
  ]

  run-IsSound : {s v : Server} (r : Reach gt s v) → IsSound s → IsSound v ⊎ (0 < wild r)
  run-IsSound here h = inl h
  run-IsSound (next r s) h = elim (run-IsSound r h) [
    | inr w ↦ inr (omega arith)
    | inl k ↦ elim (step-IsSound s k) [ inl g ↦ inl g | inr w ↦ inr (omega arith) ]
  ]

  -- From a server that is stopped, any run of starts, stops, registrations and fork resets in which no
  -- reset finds the server running leaves the process alive, and the thread there exactly while the
  -- server runs. No start meets the thread of an earlier one.
  pub thread_kept :
      {s v : Server} (r : Reach gt s v)
      → s.tables.running ≡ false
      → s.drogon_thread ≡ false
      → s.terminated ≡ false
      → wild r ≡ 0
      → (v.terminated ≡ false) × (v.drogon_thread ≡ v.tables.running)
  thread_kept r running thread lives tame =
      elim (run-IsSound r (record { thread = thread ∙ sym running; lives = lives })) [
        | inl h ↦ (h.lives, h.thread)
        | inr w ↦ absurd (omega (arith, w, tame))
      ]
