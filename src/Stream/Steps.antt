-- ===== src/Stream/Steps.antt =====
-- The runs of src/stream_session.cpp: a pump, a task of Drogon's loop or an event of the connection at
-- a time, in any order.
use drogon_r.Prelude.{
  ℕ, ◌+◌, ◌≤◌, ◌<◌, ◌≡◌, ◌≢◌, refl, ap, ◌∙◌, inl, inr, Bool, List, [], ◌∷◌, ◌++◌, Option, none,
  some, arith, ◌==◌, if◌then◌else◌, Option-cases, Bool-cases, count_p, count_p-append,
}
use drogon_r.Prelude.Table.{find, modify}
use drogon_r.Prelude.Sexp.{Sexp, Real, finite}
use drogon_r.Stream.{
  StreamSession, StreamWorld, find_session, register_session, start_stream_session,
  schedule_next_pump, deliver_stream, peer_closed, run_loop_task, torn_down, close_stream_from_main,
}
use drogon_r.Stream.Pump.{pump_stream_main, keep_state}
use drogon_r.Stream.Store.{IsStore}

-- The pumps of a stream that wait, and whether the map has the stream.
abbrev pub is_pump : ℕ → ℕ × Real → Bool
is_pump id p = p.0 == id

abbrev pub pumps : ℕ → StreamWorld → ℕ
pumps id w = count_p (is_pump id) w.scheduled

abbrev pub count_session : Option StreamSession → ℕ
count_session none = 0
count_session (some s) = if s.listed then 1 else 0

abbrev pub live : ℕ → StreamWorld → ℕ
live id w = count_session (find id w.sessions)

module _ (object : Sexp → ℕ) where
  -- A pump that fires has left the queue of `later`.
  pub data Step : StreamWorld → StreamWorld → Type 0 where
    starts :
        (next_chunk : Sexp) (state : Option Sexp) (connected : Bool) (t : Real) (w : StreamWorld)
        → Step w (start_stream_session object next_chunk state connected t w)
    fires :
        (answer : Option Sexp) (before after : List (ℕ × Real)) (id : ℕ) (secs : Real)
        (w : StreamWorld)
        → w.scheduled ≡ before ++ (id, secs) ∷ after
        → Step w (pump_stream_main object answer id (record w { scheduled = before ++ after }))
    delivers : (id : ℕ) (w : StreamWorld) → Step w (deliver_stream id w)
    closes : (id : ℕ) (w : StreamWorld) → Step w (peer_closed id w)
    loops : (ok : Bool) (w : StreamWorld) → Step w (run_loop_task ok w)

  pub data Reach : StreamWorld → StreamWorld → Type 0 where
    here : (w : StreamWorld) → Reach w w
    next : (u v w : StreamWorld) → Reach u v → Step v w → Reach u w

  -- Each stream of the map has its pump, no stream has two, and none is left for an id to come.
  pub record IsPumped (w : StreamWorld) : Type 0 where
    pub alive : (id : ℕ) → live id w ≤ pumps id w
    pub at_most : (id : ℕ) → pumps id w ≤ 1
    pub fresh : (id : ℕ) → w.next_stream_id ≤ id → pumps id w ≡ 0

  -- The same while the pump of one stream runs.
  pub record IsBusy (k : ℕ) (w : StreamWorld) : Type 0 where
    pub alive : (id : ℕ) → id ≢ k → live id w ≤ pumps id w
    pub at_most : (id : ℕ) → pumps id w ≤ 1
    pub fresh : (id : ℕ) → w.next_stream_id ≤ id → pumps id w ≡ 0
    pub free : pumps k w ≡ 0
    pub given : k < w.next_stream_id

  abbrev pub IsSafe : (ℕ → ℕ) → StreamWorld → Type 0
  IsSafe others w = IsStore object others w × IsPumped w

  pub live-modify :
      (id k : ℕ) (g : StreamSession → StreamSession) (ss : List (ℕ × StreamSession))
      → ((s : StreamSession) → (if (g s).listed then 1 else 0) ≤ (if s.listed then 1 else 0))
      → count_session (find id (modify k g ss)) ≤ count_session (find id ss)
  unfolding find modify
  live-modify id k g [] h = omega arith
  live-modify id k g ((j, s) ∷ ss) h = ground (arith, live-modify id k g ss h, h s)

  live-torn :
      (k : ℕ) (ss : List (ℕ × StreamSession))
      → count_session (find k (modify k (torn_down object) ss)) ≡ 0
  unfolding find modify
  live-torn k [] = refl
  live-torn k ((j, s) ∷ ss) = ground (arith, live-torn k ss)

  pub live_le_one : (k : ℕ) (w : StreamWorld) → live k w ≤ 1
  live_le_one k w = elim (Option-cases (find k w.sessions)) [
    | inl e ↦ rw e (omega arith)
    | inr (s, e) ↦ rw e (ground arith)
  ]

  removed :
      (id k : ℕ) (secs : Real) (before after : List (ℕ × Real))
      → count_p (is_pump id) (before ++ (k, secs) ∷ after)
        ≡ count_p (is_pump id) (before ++ after) + (if k == id then 1 else 0)
  removed id k secs before after = ground (
    arith,
    count_p-append (is_pump id) before ((k, secs) ∷ after),
    count_p-append (is_pump id) before after,
  )

  pub fire-IsBusy :
      (before after : List (ℕ × Real)) (k : ℕ) (secs : Real) (w : StreamWorld)
      → IsPumped w
      → w.scheduled ≡ before ++ (k, secs) ∷ after
      → IsBusy k (record w { scheduled = before ++ after })
  fire-IsBusy before after k secs w h e =
      let count : (id : ℕ)
          → pumps id w ≡ count_p (is_pump id) (before ++ after) + (if k == id then 1 else 0) =
        λ id. ap (count_p (is_pump id)) e ∙ removed id k secs before after in
      record {
        alive = λ id ne. ground (arith, h.alive id, count id);
        at_most = λ id. omega (arith, h.at_most id, count id);
        fresh = λ id le. omega (arith, h.fresh id le, count id);
        free = ground (arith, h.at_most k, count k);
        given = ground (arith, h.fresh k, count k);
      }

  -- The pump ends by scheduling the next one, or with the stream gone.
  pub schedule-IsPumped : (k : ℕ) (w : StreamWorld) → IsBusy k w → IsPumped (schedule_next_pump k w)
  unfolding schedule_next_pump
  schedule-IsPumped k w h =
      let secs : Real = elim (find_session k w) [ none ↦ finite 0 | some s ↦ s.min_interval ] in
      let count : (id : ℕ)
          → count_p (is_pump id) (w.scheduled ++ (k, secs) ∷ [])
            ≡ pumps id w + (if k == id then 1 else 0) =
        λ id. omega (arith, count_p-append (is_pump id) w.scheduled ((k, secs) ∷ [])) in
      record {
        alive = λ id. ground (arith, count id, h.alive id, live_le_one id w);
        at_most = λ id. ground (arith, count id, h.at_most id, h.free);
        fresh = λ id le. ground (arith, count id, h.fresh id le, h.given);
      }

  pub gone-IsPumped : (k : ℕ) (w : StreamWorld) → IsBusy k w → live k w ≡ 0 → IsPumped w
  gone-IsPumped k w h e = record {
    alive = λ id. elim (Bool-cases (id == k)) [
      | inl same ↦ ground (arith, e)
      | inr ne ↦ h.alive id (ground arith)
    ];
    at_most = h.at_most;
    fresh = h.fresh;
  }

  pub close-IsPumped :
      (k : ℕ) (s : StreamSession) (w : StreamWorld)
      → IsBusy k w
      → IsPumped (close_stream_from_main object k s w)
  unfolding close_stream_from_main
  close-IsPumped k s w h =
      gone-IsPumped k (close_stream_from_main object k s w)
        (record {
          alive = λ id ne. omega (
            arith,
            h.alive id ne,
            live-modify id k (torn_down object) w.sessions (λ t. ground arith),
          );
          at_most = h.at_most;
          fresh = h.fresh;
          free = h.free;
          given = h.given;
        })
        (live-torn k w.sessions)

  pub keep-IsBusy :
      (k : ℕ) (s : StreamSession) (given : Option Sexp) (w : StreamWorld)
      → IsBusy k w
      → IsBusy k (keep_state object k s given w)
  unfolding keep_state
  keep-IsBusy k s none w h = h
  keep-IsBusy k s (some x) w h = record {
    alive = λ id ne. omega (
      arith,
      h.alive id ne,
      live-modify id k (λ t. record t { state = some x }) w.sessions (λ t. omega arith),
    );
    at_most = h.at_most;
    fresh = h.fresh;
    free = h.free;
    given = h.given;
  }

  live-register :
      (next_chunk : Sexp) (state : Option Sexp) (connected : Bool) (t : Real) (id : ℕ)
      (w : StreamWorld)
      → id ≢ w.next_stream_id
      → live id (register_session object next_chunk state connected t w) ≡ live id w
  unfolding find
  live-register next_chunk state connected t id w ne = ground arith

  pub start-IsPumped :
      (next_chunk : Sexp) (state : Option Sexp) (connected : Bool) (t : Real) (w : StreamWorld)
      → IsPumped w
      → IsPumped (start_stream_session object next_chunk state connected t w)
  unfolding start_stream_session
  start-IsPumped next_chunk state connected t w h =
      schedule-IsPumped w.next_stream_id (register_session object next_chunk state connected t w)
        (record {
          alive = λ id ne.
              omega (arith, h.alive id, live-register next_chunk state connected t id w ne);
          at_most = h.at_most;
          fresh = λ id le. h.fresh id (omega arith);
          free = h.fresh w.next_stream_id (omega arith);
          given = omega arith;
        })
