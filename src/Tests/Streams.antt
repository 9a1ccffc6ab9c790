-- ===== src/Tests/Streams.antt =====
-- A stream of src/stream_session.cpp, from its start to its end.
use drogon_r.Prelude.{ℕ, ◌≤◌, ◌≡◌, refl, true, false, [], ◌∷◌, none, some}
use drogon_r.Prelude.Sexp.{Sexp, closure, finite}
use drogon_r.Prelude.Preserved.{times}
use drogon_r.Stream.{StreamSession, StreamWorld, start_stream_session, clear_all_stream_sessions}
use drogon_r.Stream.Steps.{Reach, here, next, starts, live, pumps}
use drogon_r.Stream.Runs.{streams_are_pumped, clear-collects}

-- The number of a closure is its object's.
abbrev object : Sexp → ℕ
object (closure c) = c
object x = 0

abbrev no_streams : StreamWorld
no_streams = record {
  sessions = [];
  next_stream_id = 1;
  tasks = [];
  written = [];
  scheduled = [];
  calls = [];
  preserved = 5 ∷ [];
}

abbrev started : StreamWorld
started = start_stream_session object (closure 5) (some (closure 6)) true (finite 0) no_streams

starts_once : Reach object no_streams started
starts_once =
    next no_streams no_streams started (here no_streams)
      (starts (closure 5) (some (closure 6)) true (finite 0) no_streams)

streams_are_pumped_example : (live 1 started ≤ pumps 1 started) × (pumps 1 started ≤ 1)
streams_are_pumped_example = streams_are_pumped object no_streams started (refl, refl) starts_once 1

clear-collects_example :
    times 5 (clear_all_stream_sessions object started).preserved ≡ times 5 no_streams.preserved
clear-collects_example = clear-collects object no_streams started (refl, refl) starts_once 5

abbrev gone_client : StreamSession
gone_client = record {
  next_chunk = some (closure 5);
  state = none;
  stream = true;
  closing = false;
  cancelled = true;
  min_interval = finite 0;
  listed = true;
}

abbrev one_stream : StreamWorld
one_stream = record no_streams { sessions = (1, gone_client) ∷ []; next_stream_id = 2 }
