-- ===== src/Stream/Middle.antt =====
-- One pump of src/stream_session.cpp, from the call of the generator to its end.
use drogon_r.Prelude.{ℕ, ◌≡◌, refl, ◌∙◌, inl, inr, true, [], ◌∷◌, Option, none, some, Bool-cases}
use drogon_r.Prelude.Table.{find}
use drogon_r.Prelude.Bytes.{Bytes, codes}
use drogon_r.Prelude.Sexp.{Sexp}
use drogon_r.Stream.{
  StreamSession, StreamWorld, schedule_next_pump, close_stream_from_main, send_chunk_in_loop,
}
use drogon_r.Stream.Pump.{
  take_answer, keep_state, next_state, send_nonempty, is_list, named_field, is_done, chunk_of,
}
use drogon_r.Stream.Laws.{kept_parts}
use drogon_r.Stream.Store.{IsStore, close-IsStore, keep-IsStore}
use drogon_r.Stream.Steps.{IsBusy, IsSafe, close-IsPumped, keep-IsBusy, schedule-IsPumped}

module _ (object : Sexp → ℕ) where
  -- What holds in the middle of a pump, of the session as the pump knows it.
  pub record IsMid (others : ℕ → ℕ) (k : ℕ) (s : StreamSession) (w : StreamWorld) : Type 0 where
    pub store : IsStore object others w
    pub busy : IsBusy object k w
    pub found : find k w.sessions ≡ some s
    pub listed : s.listed ≡ true

  close-IsSafe :
      (others : ℕ → ℕ) (k : ℕ) (s : StreamSession) (w : StreamWorld)
      → IsMid others k s w
      → IsSafe object others (close_stream_from_main object k s w)
  close-IsSafe others k s w h =
      (close-IsStore object others k s w h.store h.found, close-IsPumped object k s w h.busy)

  pub schedule-IsSafe :
      (others : ℕ → ℕ) (k : ℕ) (s : StreamSession) (w : StreamWorld)
      → IsMid others k s w
      → IsSafe object others (schedule_next_pump k w)
  unfolding schedule_next_pump
  schedule-IsSafe others k s w h = (
    record {
      distinct = h.store.distinct;
      below = h.store.below;
      tidy = h.store.tidy;
      balanced = h.store.balanced;
    },
    schedule-IsPumped object k w h.busy,
  )

  listed_next :
      (s : StreamSession) (given : Option Sexp) → (next_state object s given).listed ≡ s.listed
  listed_next s none = refl
  listed_next s (some x) = refl

  keep-IsMid :
      (others : ℕ → ℕ) (k : ℕ) (s : StreamSession) (given : Option Sexp) (w : StreamWorld)
      → IsMid others k s w
      → IsMid others k (next_state object s given) (keep_state object k s given w)
  keep-IsMid others k s given w h = record {
    store = keep-IsStore object others k s given w h.store h.found h.listed;
    busy = keep-IsBusy object k s given w h.busy;
    found = (kept_parts object k s given w h.found).3;
    listed = listed_next s given ∙ h.listed;
  }

  send-IsMid :
      (others : ℕ → ℕ) (k : ℕ) (s : StreamSession) (chunk : Bytes) (w : StreamWorld)
      → IsMid others k s w
      → IsMid others k s (send_nonempty object k chunk w)
  unfolding send_chunk_in_loop
  send-IsMid others k s [] w h = h
  send-IsMid others k s (c ∷ cs) w h = record {
    store = record {
      distinct = h.store.distinct;
      below = h.store.below;
      tidy = h.store.tidy;
      balanced = h.store.balanced;
    };
    busy = record {
      alive = h.busy.alive;
      at_most = h.busy.at_most;
      fresh = h.busy.fresh;
      free = h.busy.free;
      given = h.busy.given;
    };
    found = h.found;
    listed = h.listed;
  }

  pub take_answer-IsSafe :
      (others : ℕ → ℕ) (answer : Option Sexp) (k : ℕ) (s : StreamSession) (w : StreamWorld)
      → IsMid others k s w
      → IsSafe object others (take_answer object answer k s w)
  unfolding take_answer
  take_answer-IsSafe others none k s w h = close-IsSafe others k s w h
  take_answer-IsSafe others (some res) k s w h = elim (Bool-cases (is_list res)) [
    | inr e ↦ rw (e, take_answer) (close-IsSafe others k s w h)
    | inl e ↦
        let given = named_field res (codes "state") in
        let s' = next_state object s given in
        let kept = keep_state object k s given w in
        let mid = keep-IsMid others k s given w h in
        rw (e, take_answer)
          (elim (Bool-cases s.cancelled) [
            | inl told ↦ simp told (close-IsSafe others k s' kept mid)
            | inr silent ↦
                let chunk = chunk_of (named_field res (codes "chunk")) in
                let sent = send_nonempty object k chunk kept in
                let mid' = send-IsMid others k s' chunk kept mid in
                simp silent (elim (Bool-cases (is_done (named_field res (codes "done")))) [
                  | inl d ↦ rw d (close-IsSafe others k s' sent mid')
                  | inr d ↦ rw d (schedule-IsSafe others k s' sent mid')
                ])
          ])
  ]
