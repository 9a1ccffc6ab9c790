-- ===== src/Server/Lifecycle/Laws.antt =====
-- How often the server of src/drogon_server.cpp is started.
use drogon_r.Prelude.{
  ℕ, suc, ◌+◌, ◌≤◌, ◌≡◌, refl, inl, inr, Bool, true, false, [], ◌∷◌, Option, none, some, arith,
  if◌then◌else◌, Bool-cases, count_p, count_p-append,
}
use drogon_r.Prelude.Sexp.{Sexp, Real}
use drogon_r.Dispatch.Watch.{Process, ensure_dispatcher_running}
use drogon_r.Server.Tables.{Tables}
use drogon_r.Server.Lifecycle.{
  Server, AppCall, StartArgs, run, quit, install_all, app_calls, bring_up, start_with, server_start,
  server_stop, reset_fork_state, start_args,
}

abbrev is_run : AppCall → Bool
is_run run = true
is_run c = false

-- How often Drogon was run, and how often it still may be.
abbrev pub runs_of : Server → ℕ
runs_of s = count_p is_run s.app

abbrev pub left : Server → ℕ
left s = if s.ever_started then 0 else 1

module _ (gt : Real → Real → Bool) where
  bring_up_shape :
      (p : Process) (a : StartArgs) (s : Server)
      → ((bring_up gt p a s).ever_started ≡ true) × (runs_of (bring_up gt p a s) ≡ suc (runs_of s))
  unfolding bring_up install_all
  bring_up_shape p a s = (refl, omega (arith, count_p-append is_run s.app (app_calls a)))

  start_with-runs :
      (p : Process) (args : Option StartArgs) (s : Server)
      → s.ever_started ≡ false
      → runs_of (start_with gt p args s).0 + left (start_with gt p args s).0 ≡ runs_of s + left s
  unfolding start_with
  start_with-runs p none s e = refl
  start_with-runs p (some a) s e = elim (Bool-cases (ensure_dispatcher_running p s.watch).1) [
    | inl ok ↦
        let w = (ensure_dispatcher_running p s.watch).0 in
        rw (ok, start_with)
          (let (ever, runs) = bring_up_shape p a (record s { watch = w }) in
            rw (ever, runs) (rw e (omega arith)))
    | inr failed ↦ rw (failed, start_with) refl
  ]

  server_start-runs :
      (p : Process) (port threads path queue workers : Sexp) (s : Server)
      → runs_of (server_start gt p port threads path queue workers s).0
          + left (server_start gt p port threads path queue workers s).0
        ≡ runs_of s + left s
  unfolding server_start
  server_start-runs p port threads path queue workers s =
      ground (arith, start_with-runs p (start_args port threads path queue workers) s)

  server_stop-runs :
      (object : Sexp → ℕ) (s : Server)
      → runs_of (server_stop object s) + left (server_stop object s) ≡ runs_of s + left s
  unfolding server_stop
  server_stop-runs object s = elim (Bool-cases s.tables.running) [
    | inl e ↦ rw (e, server_stop) (omega (arith, count_p-append is_run s.app (quit ∷ [])))
    | inr e ↦ rw (e, server_stop) refl
  ]

  -- The calls of one R session, a fork's reset among them.
  pub data Step (s : Server) : Server → Type 0 where
    starts :
        (p : Process) (port threads path queue workers : Sexp)
        → Step s (server_start gt p port threads path queue workers s).0
    stops : (object : Sexp → ℕ) → Step s (server_stop object s)
    registers : (t : Tables) → t.running ≡ s.tables.running → Step s (record s { tables = t })
    forks : Step s (reset_fork_state s)

  pub data Reach (s : Server) : Server → Type 0 where
    here : Reach s s
    next : {u v : Server} → Reach s u → Step u v → Reach s v

  resets_of : {s v : Server} → Step s v → ℕ
  resets_of (starts p port threads path queue workers) = 0
  resets_of (stops object) = 0
  resets_of (registers t e) = 0
  resets_of forks = 1

  pub resets : {s v : Server} → Reach s v → ℕ
  resets here = 0
  resets (next r s) = resets r + resets_of s

  step-runs :
      {s v : Server} (step : Step s v) → runs_of v + left v ≤ runs_of s + left s + resets_of step
  unfolding resets_of reset_fork_state
  step-runs {s} (starts p port threads path queue workers) =
      omega (arith, server_start-runs p port threads path queue workers s)
  step-runs {s} (stops object) = omega (arith, server_stop-runs object s)
  step-runs {s} (registers t e) = omega arith
  step-runs {s} forks = omega arith

  -- In any run of starts, stops, registrations and fork resets, Drogon is run at most once in an R
  -- session that has not started it, and once more for each reset of a forked worker.
  pub started_once : {s v : Server} (r : Reach s v) → runs_of v ≤ runs_of s + left s + resets r
  unfolding resets
  started_once r = omega (arith, count r)
    where
      count : {s v : Server} (r : Reach s v) → runs_of v + left v ≤ runs_of s + left s + resets r
      count here = omega arith
      count (next r s) = omega (arith, count r, step-runs s)
