-- ===== src/Stream.antt =====
-- src/stream_session.cpp: streaming responses. The sessions are shared objects, so the table holds each
-- that was ever made; `listed` says whether g_streams still has it. What R's generator answers is an
-- argument of the step that calls it: `none` is an R error. An R object is known by the number that
-- `object` gives it.
pub mod Tidy
pub mod Pump
pub mod Laws
pub mod Store
pub mod Steps
pub mod Middle
pub mod Mild
pub mod Runs
use drogon_r.Prelude.{
  ℕ, suc, ◌+◌, ◌^◌, Bool, true, false, ◌&&◌, List, [], ◌∷◌, ◌++◌, Option, none, some, ◌==◌, ltb,
  if◌then◌else◌,
}
use drogon_r.Prelude.Bytes.{Bytes}
use drogon_r.Prelude.Table.{find, modify}
use drogon_r.Prelude.Sexp.{Sexp, Real, na_real, nan, pos_inf, neg_inf, finite}
use drogon_r.Prelude.Preserved.{preserve_hook, release_hook}

-- `none` is a null pointer. The loop is set together with the stream.
pub record StreamSession : Type 0 where
  pub next_chunk : Option Sexp
  pub state : Option Sexp
  pub stream : Bool
  pub closing : Bool
  pub cancelled : Bool
  pub min_interval : Real
  pub listed : Bool

pub data StreamTask : Type 0 where
  send_chunk : ℕ → Bytes → StreamTask
  close_stream : ℕ → StreamTask

-- A call `next_chunk(state, cancelled)`.
pub record GeneratorCall : Type 0 where
  pub id : ℕ
  pub generator : Option Sexp
  pub state : Option Sexp
  pub cancelled : Bool

pub record StreamWorld : Type 0 where
  pub sessions : List (ℕ × StreamSession)
  pub next_stream_id : ℕ
  -- What `queueInLoop` leaves for Drogon's loop, and what the loop has written and closed.
  pub tasks : List StreamTask
  pub written : List StreamTask
  -- The pumps that wait in `later`, each with its delay.
  pub scheduled : List (ℕ × Real)
  pub calls : List GeneratorCall
  pub preserved : List ℕ

unfoldable pub find_session : ℕ → StreamWorld → Option StreamSession
find_session id w = elim (find id w.sessions) [
  | none ↦ none
  | some s ↦ if s.listed then some s else none
]

-- A change through the shared pointer.
abbrev pub change : ℕ → (StreamSession → StreamSession) → StreamWorld → StreamWorld
change id f w = record w { sessions = modify id f w.sessions }

unfoldable pub schedule_next_pump : ℕ → StreamWorld → StreamWorld
unfolding find_session
schedule_next_pump id w =
    let secs : Real = elim (find_session id w) [ none ↦ finite 0 | some s ↦ s.min_interval ] in
    record w { scheduled = w.scheduled ++ (id, secs) ∷ [] }

unfoldable pub send_chunk_in_loop : ℕ → Bytes → StreamWorld → StreamWorld
send_chunk_in_loop id text w = record w { tasks = w.tasks ++ send_chunk id text ∷ [] }

-- `(min_interval > 0.0) ? min_interval : 0.0`; a finite double of positive sign has its top bit clear.
unfoldable pub floor_at_zero : Real → Real
floor_at_zero pos_inf = pos_inf
floor_at_zero (finite b) = if ltb 0 b && ltb b (2 ^ 63) then finite b else finite 0
floor_at_zero na_real = finite 0
floor_at_zero nan = finite 0
floor_at_zero neg_inf = finite 0

-- The loop's side: Drogon delivers the stream, the peer closes, the loop does its next task. `ok` is
-- what `stream->send` returns.
unfoldable pub deliver_stream : ℕ → StreamWorld → StreamWorld
deliver_stream id w = change id (λ s. record s { stream = true }) w

unfoldable pub peer_closed : ℕ → StreamWorld → StreamWorld
peer_closed id w = change id (λ s. record s { cancelled = true }) w

abbrev pub has_stream : ℕ → StreamWorld → Bool
has_stream id w = elim (find id w.sessions) [ none ↦ false | some s ↦ s.stream ]

abbrev pub do_task : Bool → StreamTask → StreamWorld → StreamWorld
do_task ok (send_chunk id text) w =
    if has_stream id w
    then (if ok
        then record w { written = w.written ++ send_chunk id text ∷ [] }
        else change id (λ s. record s { cancelled = true }) w)
    else w
do_task ok (close_stream id) w =
    if has_stream id w
    then change id (λ s. record s { stream = false })
        (record w { written = w.written ++ close_stream id ∷ [] })
    else w

unfoldable pub run_loop_task : Bool → StreamWorld → StreamWorld
run_loop_task ok w = elim w.tasks [ [] ↦ w | t ∷ ts ↦ do_task ok t (record w { tasks = ts }) ]

module _ (object : Sexp → ℕ) where
  abbrev pub ref : Option Sexp → Option ℕ
  ref none = none
  ref (some x) = some (object x)

  unfoldable pub release_sexps : StreamSession → List ℕ → List ℕ
  release_sexps s kept = release_hook (ref s.state) (release_hook (ref s.next_chunk) kept)

  -- closeStreamFromMain, with releaseSEXPs and eraseSession.
  abbrev pub torn_down : StreamSession → StreamSession
  torn_down s = record s { closing = true; next_chunk = none; state = none; listed = false }

  unfoldable pub close_stream_from_main : ℕ → StreamSession → StreamWorld → StreamWorld
  unfolding release_sexps
  close_stream_from_main id s w = record w {
    sessions = modify id torn_down w.sessions;
    tasks = w.tasks ++ close_stream id ∷ [];
    preserved = release_sexps s w.preserved;
  }

  -- startStreamSession, without the response's headers. `connected` is whether the connection is there.
  abbrev pub register_session : Sexp → Option Sexp → Bool → Real → StreamWorld → StreamWorld
  register_session next_chunk state connected min_interval w = record w {
    sessions =
        (
          w.next_stream_id,
          record {
            next_chunk = some next_chunk;
            state = state;
            stream = false;
            closing = false;
            cancelled = if connected then false else true;
            min_interval = floor_at_zero min_interval;
            listed = true;
          },
        )
        ∷ w.sessions;
    next_stream_id = suc w.next_stream_id;
    preserved = preserve_hook (ref state) (preserve_hook (some (object next_chunk)) w.preserved);
  }

  unfoldable pub start_stream_session : Sexp → Option Sexp → Bool → Real → StreamWorld → StreamWorld
  unfolding schedule_next_pump floor_at_zero
  start_stream_session next_chunk state connected min_interval w =
      schedule_next_pump w.next_stream_id
        (register_session next_chunk state connected min_interval w)

  -- clearAllStreamSessions: the loop is gone by then, so the stream is only dropped.
  unfoldable pub clear_sessions :
      List (ℕ × StreamSession) → List ℕ → List (ℕ × StreamSession) × List ℕ
  unfolding release_sexps
  clear_sessions [] kept = ([], kept)
  clear_sessions ((id, s) ∷ ss) kept =
      if s.listed
      then (let (rest, kept') = clear_sessions ss (release_sexps s kept) in
          ((id, record (torn_down s) { stream = false }) ∷ rest, kept'))
      else (let (rest, kept') = clear_sessions ss kept in ((id, s) ∷ rest, kept'))

  unfoldable pub clear_all_stream_sessions : StreamWorld → StreamWorld
  unfolding clear_sessions
  clear_all_stream_sessions w =
      let (sessions, kept) = clear_sessions w.sessions w.preserved in
      record w { sessions = sessions; preserved = kept }
