-- ===== src/Stream/Laws.antt =====
-- One pump of src/stream_session.cpp: what it calls, sends, keeps and schedules.
use drogon_r.Prelude.{ℕ, ◌≡◌, refl, true, false, [], ◌∷◌, ◌++◌, Option, none, some}
use drogon_r.Prelude.Table.{find, find-modify_self}
use drogon_r.Prelude.Sexp.{Sexp}
use drogon_r.Stream.{
  StreamSession, StreamWorld, close_stream, find_session, torn_down, close_stream_from_main,
}
use drogon_r.Stream.Pump.{pump_stream_main, take_answer, keep_state, next_state}

module _ (object : Sexp → ℕ) where
  -- One call of the generator with `cancelled` set, one close, no pump and no session left.
  abbrev pub IsLastPump : ℕ → StreamSession → StreamWorld → StreamWorld → Type 0
  IsLastPump id s w v =
      (v.calls
        ≡ w.calls
          ++ record { id = id; generator = s.next_chunk; state = s.state; cancelled = true } ∷ [])
      × (v.tasks ≡ w.tasks ++ close_stream id ∷ [])
      × (v.scheduled ≡ w.scheduled)
      × (find_session id v ≡ none)

  pub closed_parts :
      (id : ℕ) (s t : StreamSession) (w : StreamWorld)
      → find id w.sessions ≡ some t
      → ((close_stream_from_main object id s w).calls ≡ w.calls)
        × ((close_stream_from_main object id s w).tasks ≡ w.tasks ++ close_stream id ∷ [])
        × ((close_stream_from_main object id s w).scheduled ≡ w.scheduled)
        × (find_session id (close_stream_from_main object id s w) ≡ none)
  unfolding close_stream_from_main find_session
  closed_parts id s t w found = (
    refl,
    refl,
    refl,
    rw (find-modify_self id (torn_down object) w.sessions t found, find_session),
  )

  pub kept_parts :
      (id : ℕ) (s : StreamSession) (given : Option Sexp) (w : StreamWorld)
      → find id w.sessions ≡ some s
      → ((keep_state object id s given w).calls ≡ w.calls)
        × ((keep_state object id s given w).tasks ≡ w.tasks)
        × ((keep_state object id s given w).scheduled ≡ w.scheduled)
        × (find id (keep_state object id s given w).sessions ≡ some (next_state object s given))
  unfolding keep_state
  kept_parts id s none w found = (refl, refl, refl, found)
  kept_parts id s (some x) w found =
      (refl, refl, refl, find-modify_self id (λ t. record t { state = some x }) w.sessions s found)

  abbrev pub called : ℕ → StreamSession → StreamWorld → StreamWorld
  called id s w = record w {
    calls =
        w.calls
        ++ record { id = id; generator = s.next_chunk; state = s.state; cancelled = s.cancelled }
          ∷ [];
  }

  pub pump_calls :
      (answer : Option Sexp) (id : ℕ) (s : StreamSession) (w : StreamWorld)
      → find id w.sessions ≡ some s
      → s.listed ≡ true
      → s.closing ≡ false
      → s.stream ≡ true
      → pump_stream_main object answer id w ≡ take_answer object answer id s (called id s w)
  unfolding pump_stream_main find_session
  pump_calls answer id s w found listed going ready =
      rw (found, pump_stream_main) (simp (listed, going, ready))
