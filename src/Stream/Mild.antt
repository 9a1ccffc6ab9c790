-- ===== src/Stream/Mild.antt =====
-- The steps of src/stream_session.cpp that Drogon's loop and the connection make.
use drogon_r.Prelude.{
  ℕ, ◌≡◌, refl, sym, ap, subst, ◌∙◌, inl, inr, Bool, true, false, List, [], ◌∷◌, ◌++◌, none, arith,
  Option-cases, Bool-cases,
}
use drogon_r.Prelude.Table.{find, modify}
use drogon_r.Prelude.Sexp.{Sexp}
use drogon_r.Stream.{
  StreamSession, StreamWorld, StreamTask, send_chunk, close_stream, deliver_stream, peer_closed,
  run_loop_task, do_task, has_stream,
}
use drogon_r.Stream.Store.{change-IsStore}
use drogon_r.Stream.Tidy.{IsTidy, find-AllTidy}
use drogon_r.Stream.Steps.{IsSafe, live-modify}

module _ (object : Sexp → ℕ) where
  modify-none :
      (k : ℕ) (g : StreamSession → StreamSession) (ss : List (ℕ × StreamSession))
      → find k ss ≡ none
      → modify k g ss ≡ ss
  unfolding find modify
  modify-none k g [] e = refl
  modify-none k g ((j, s) ∷ ss) e = ground (arith, modify-none k g ss)

  -- A change that leaves alone what the table holds and lists.
  record IsMild (g : StreamSession → StreamSession) : Type 0 where
    listed : (s : StreamSession) → (g s).listed ≡ s.listed
    closing : (s : StreamSession) → (g s).closing ≡ s.closing
    next_chunk : (s : StreamSession) → (g s).next_chunk ≡ s.next_chunk
    state : (s : StreamSession) → (g s).state ≡ s.state

  mild-IsTidy :
      (g : StreamSession → StreamSession) (s : StreamSession) → IsMild g → IsTidy s → IsTidy (g s)
  mild-IsTidy g s m (inl (a, b)) = inl (m.listed s ∙ a, m.closing s ∙ b)
  mild-IsTidy g s m (inr (a, b, c)) = inr (m.listed s ∙ a, m.next_chunk s ∙ b, m.state s ∙ c)

  mild-IsSafe :
      (others : ℕ → ℕ) (k : ℕ) (g : StreamSession → StreamSession) (w v : StreamWorld)
      → IsMild g
      → IsSafe object others w
      → v.sessions ≡ modify k g w.sessions
      → v.next_stream_id ≡ w.next_stream_id
      → v.preserved ≡ w.preserved
      → v.scheduled ≡ w.scheduled
      → IsSafe object others v
  mild-IsSafe others k g w v m (store, pumped) at_sessions at_next at_kept at_scheduled = (
    elim (Option-cases (find k w.sessions)) [
      | inl e ↦
          let same = at_sessions ∙ modify-none k g w.sessions e in
          record {
            distinct = simp same store.distinct;
            below = simp (same, at_next) store.below;
            tidy = simp same store.tidy;
            balanced = λ x. simp (same, at_kept) (store.balanced x);
          }
      | inr (s, e) ↦
          change-IsStore object others k g w.preserved s w v store e
            (mild-IsTidy g s m (find-AllTidy k w.sessions s store.tidy e))
            (λ x. simp (m.next_chunk s, m.state s) refl) at_sessions at_next at_kept
    ],
    record {
      alive = λ id.
          simp (at_sessions, at_scheduled)
            (omega (
              arith,
              pumped.alive id,
              live-modify object id k g w.sessions (λ s. simp (m.listed s) (omega arith)),
            ));
      at_most = λ id. simp at_scheduled (pumped.at_most id);
      fresh = λ id le. simp at_scheduled (pumped.fresh id (simp at_next at le));
    },
  )

  pub same-IsSafe :
      (others : ℕ → ℕ) (w : StreamWorld) (ts out : List StreamTask)
      → IsSafe object others w
      → IsSafe object others (record w { tasks = ts; written = out })
  same-IsSafe others w ts out (a, b) = (
    record { distinct = a.distinct; below = a.below; tidy = a.tidy; balanced = a.balanced },
    record { alive = b.alive; at_most = b.at_most; fresh = b.fresh },
  )

  pub deliver-IsSafe :
      (others : ℕ → ℕ) (id : ℕ) (w : StreamWorld)
      → IsSafe object others w
      → IsSafe object others (deliver_stream id w)
  unfolding deliver_stream
  deliver-IsSafe others id w h =
      mild-IsSafe others id (λ s. record s { stream = true }) w (deliver_stream id w)
        (record {
          listed = λ s. refl;
          closing = λ s. refl;
          next_chunk = λ s. refl;
          state = λ s. refl;
        })
        h refl refl refl refl

  pub peer-IsSafe :
      (others : ℕ → ℕ) (id : ℕ) (w : StreamWorld)
      → IsSafe object others w
      → IsSafe object others (peer_closed id w)
  unfolding peer_closed
  peer-IsSafe others id w h =
      mild-IsSafe others id (λ s. record s { cancelled = true }) w (peer_closed id w)
        (record {
          listed = λ s. refl;
          closing = λ s. refl;
          next_chunk = λ s. refl;
          state = λ s. refl;
        })
        h refl refl refl refl

  task-IsSafe :
      (others : ℕ → ℕ) (ok : Bool) (t : StreamTask) (w : StreamWorld)
      → IsSafe object others w
      → IsSafe object others (do_task ok t w)
  task-IsSafe others ok (send_chunk id bytes) w h = elim (Bool-cases (has_stream id w)) [
    | inr e ↦ rw e h
    | inl e ↦ rw e (elim (Bool-cases ok) [
      | inl k ↦ rw k (same-IsSafe others w w.tasks (w.written ++ send_chunk id bytes ∷ []) h)
      | inr k ↦ rw k (
          mild-IsSafe others id (λ s. record s { cancelled = true }) w
            (record w { sessions = modify id (λ s. record s { cancelled = true }) w.sessions })
            (record {
              listed = λ s. refl;
              closing = λ s. refl;
              next_chunk = λ s. refl;
              state = λ s. refl;
            })
            h refl refl refl refl)
    ])
  ]
  task-IsSafe others ok (close_stream id) w h = elim (Bool-cases (has_stream id w)) [
    | inr e ↦ rw e h
    | inl e ↦
        let v : StreamWorld = record w { written = w.written ++ close_stream id ∷ [] } in
        rw e (
          mild-IsSafe others id (λ s. record s { stream = false }) v
            (record v { sessions = modify id (λ s. record s { stream = false }) v.sessions })
            (record {
              listed = λ s. refl;
              closing = λ s. refl;
              next_chunk = λ s. refl;
              state = λ s. refl;
            })
            (same-IsSafe others w w.tasks (w.written ++ close_stream id ∷ []) h) refl refl refl
            refl)
  ]

  loop_shape :
      (ok : Bool) (w : StreamWorld) (ts : List StreamTask)
      → w.tasks ≡ ts
      → run_loop_task ok w
        ≡ elim ts [ [] ↦ w | t ∷ rest ↦ do_task ok t (record w { tasks = rest }) ]
  unfolding run_loop_task
  loop_shape ok w ts e =
      ap
        (λ us. elim us as (λ x. StreamWorld) [
          | [] ↦ w
          | t ∷ rest ↦ do_task ok t (record w { tasks = rest })
        ])
        e

  pub loop-IsSafe :
      (others : ℕ → ℕ) (ok : Bool) (ts : List StreamTask) (w : StreamWorld)
      → w.tasks ≡ ts
      → IsSafe object others w
      → IsSafe object others (run_loop_task ok w)
  loop-IsSafe others ok [] w e h = subst (IsSafe object others) (sym (loop_shape ok w [] e)) h
  loop-IsSafe others ok (t ∷ ts) w e h =
      subst (IsSafe object others) (sym (loop_shape ok w (t ∷ ts) e))
        (task-IsSafe others ok t (record w { tasks = ts }) (same-IsSafe others w ts w.written h))
