-- ===== src/Stream/Runs.antt =====
-- The runs of src/stream_session.cpp from an idle server.
use drogon_r.Prelude.{
  ℕ, ◌≤◌, ◌≡◌, refl, inl, inr, Bool, [], ◌++◌, Option, arith, Option-cases, Bool-cases,
}
use drogon_r.Prelude.Table.{find}
use drogon_r.Prelude.Sexp.{Sexp, Real}
use drogon_r.Prelude.Preserved.{times}
use drogon_r.Stream.{StreamWorld, find_session, start_stream_session, clear_all_stream_sessions}
use drogon_r.Stream.Pump.{pump_stream_main}
use drogon_r.Stream.Laws.{called}
use drogon_r.Stream.Store.{IsStore, start-IsStore, clear-others}
use drogon_r.Stream.Tidy.{find-AllTidy, open-IsTidy}
use drogon_r.Stream.Mild.{deliver-IsSafe, peer-IsSafe, loop-IsSafe}
use drogon_r.Stream.Steps.{
  Step, starts, fires, delivers, closes, loops, Reach, here, next, pumps, live, IsSafe, IsBusy,
  fire-IsBusy, start-IsPumped, gone-IsPumped,
}
use drogon_r.Stream.Middle.{IsMid, schedule-IsSafe, take_answer-IsSafe}

module _ (object : Sexp → ℕ) where
  pump-IsSafe :
      (others : ℕ → ℕ) (answer : Option Sexp) (id : ℕ) (w : StreamWorld)
      → IsStore object others w
      → IsBusy object id w
      → IsSafe object others (pump_stream_main object answer id w)
  unfolding pump_stream_main find_session
  pump-IsSafe others answer id w store busy = elim (Option-cases (find id w.sessions)) [
    | inl e ↦ rw (e, pump_stream_main) (store, gone-IsPumped object id w busy (rw e refl))
    | inr (s, e) ↦ elim (Bool-cases s.listed) [
      | inr gone ↦
          rw (e, pump_stream_main)
            (simp gone (store, gone-IsPumped object id w busy (rw e (simp gone refl))))
      | inl listed ↦
          let going = open-IsTidy s (find-AllTidy id w.sessions s store.tidy e) listed in
          let mid : IsMid object others id s w = record {
            store = store;
            busy = busy;
            found = e;
            listed = listed;
          } in
          rw (e, pump_stream_main)
            (simp (listed, going)
              (elim (Bool-cases s.stream) [
                | inr waiting ↦ simp waiting (schedule-IsSafe object others id s w mid)
                | inl ready ↦ simp ready (
                    take_answer-IsSafe object others answer id s (called object id s w) (record {
                      store = record {
                        distinct = store.distinct;
                        below = store.below;
                        tidy = store.tidy;
                        balanced = store.balanced;
                      };
                      busy = record {
                        alive = busy.alive;
                        at_most = busy.at_most;
                        fresh = busy.fresh;
                        free = busy.free;
                        given = busy.given;
                      };
                      found = e;
                      listed = listed;
                    }))
              ]))
    ]
  ]

  start-IsSafe :
      (others : ℕ → ℕ) (next_chunk : Sexp) (state : Option Sexp) (connected : Bool) (t : Real)
      (w : StreamWorld)
      → IsSafe object others w
      → IsSafe object others (start_stream_session object next_chunk state connected t w)
  start-IsSafe others next_chunk state connected t w (store, pumped) = (
    start-IsStore object others next_chunk state connected t w store,
    start-IsPumped object next_chunk state connected t w pumped,
  )

  step-IsSafe :
      (others : ℕ → ℕ) {w v : StreamWorld}
      → Step object w v
      → IsSafe object others w
      → IsSafe object others v
  step-IsSafe others (starts next_chunk state connected t w) h =
      start-IsSafe others next_chunk state connected t w h
  step-IsSafe others (fires answer before after id secs w e) (store, pumped) =
      pump-IsSafe others answer id (record w { scheduled = before ++ after })
        (record {
          distinct = store.distinct;
          below = store.below;
          tidy = store.tidy;
          balanced = store.balanced;
        })
        (fire-IsBusy object before after id secs w pumped e)
  step-IsSafe others (delivers id w) h = deliver-IsSafe object others id w h
  step-IsSafe others (closes id w) h = peer-IsSafe object others id w h
  step-IsSafe others (loops ok w) h = loop-IsSafe object others ok w.tasks w refl h

  Reach-IsSafe :
      (others : ℕ → ℕ) {u w : StreamWorld}
      → Reach object u w
      → IsSafe object others u
      → IsSafe object others w
  Reach-IsSafe others (here w) h = h
  Reach-IsSafe others (next u v w r s) h = step-IsSafe others s (Reach-IsSafe others r h)

  -- A server that has no stream and no pump.
  abbrev pub IsIdle : StreamWorld → Type 0
  IsIdle u = (u.sessions ≡ []) × (u.scheduled ≡ [])

  idle-IsSafe : (u : StreamWorld) → IsIdle u → IsSafe object (λ x. times x u.preserved) u
  unfolding find
  idle-IsSafe u (no_sessions, no_pumps) = (
    record {
      distinct = simp no_sessions tt;
      below = simp no_sessions tt;
      tidy = simp no_sessions tt;
      balanced = λ x. simp no_sessions (omega arith);
    },
    record {
      alive = λ id. simp (no_sessions, no_pumps) (omega arith);
      at_most = λ id. simp no_pumps (omega arith);
      fresh = λ id le. simp no_pumps refl;
    },
  )

  -- In every run from an idle server, whatever the generators answer and in whatever order pumps, loop
  -- tasks and the ends of connections come: each stream in the map has a pump that waits, so none is
  -- stuck, and no stream has two.
  pub streams_are_pumped :
      (u w : StreamWorld)
      → IsIdle u
      → Reach object u w
      → (id : ℕ) → (live id w ≤ pumps id w) × (pumps id w ≤ 1)
  streams_are_pumped u w idle r id =
      let (store, pumped) = Reach-IsSafe (λ x. times x u.preserved) r (idle-IsSafe u idle) in
      (pumped.alive id, pumped.at_most id)

  -- After every such run the server clears its streams: each object is kept from collection as often
  -- as it was before the run.
  pub clear-collects :
      (u w : StreamWorld)
      → IsIdle u
      → Reach object u w
      → (x : ℕ) → times x (clear_all_stream_sessions object w).preserved ≡ times x u.preserved
  clear-collects u w idle r x =
      let (store, pumped) = Reach-IsSafe (λ x. times x u.preserved) r (idle-IsSafe u idle) in
      clear-others object (λ x. times x u.preserved) w store x
