-- ===== src/Stream/Store.antt =====
-- The session table of src/stream_session.cpp against the objects that R is kept from collecting.
use drogon_r.Prelude.{
  ℕ, suc, ◌+◌, ◌≤◌, ◌≡◌, refl, sym, subst, inl, inr, Bool, true, List, [], ◌∷◌, Option, none, some,
  arith, ◌==◌, Bool-cases,
}
use drogon_r.Prelude.Table.{
  find, modify, HasDistinctKeys, IsFresh, IsBelow, modify-HasDistinctKeys, modify-IsBelow,
  IsFresh-of_IsBelow, IsBelow-mono,
}
use drogon_r.Prelude.Sexp.{Sexp, Real}
use drogon_r.Prelude.Preserved.{
  preserve_hook, release_hook, times, once, times-preserve_hook, times-release_hook,
}
use drogon_r.Stream.{
  StreamSession, StreamWorld, start_stream_session, schedule_next_pump, ref, release_sexps,
  torn_down, close_stream_from_main, clear_sessions, clear_all_stream_sessions,
}
use drogon_r.Stream.Pump.{keep_state}
use drogon_r.Stream.Tidy.{
  IsTidy, AllTidy, open-IsTidy, find-AllTidy, modify_of_IsFresh, modify-AllTidy,
}

module _ (object : Sexp → ℕ) where
  -- How often the session table holds an object.
  abbrev pub held_by : ℕ → StreamSession → ℕ
  held_by x s = once x (ref object s.next_chunk) + once x (ref object s.state)

  abbrev pub held : ℕ → List (ℕ × StreamSession) → ℕ
  held x [] = 0
  held x ((id, s) ∷ ss) = held_by x s + held x ss

  pub held-modify :
      (x id : ℕ) (g : StreamSession → StreamSession) (ss : List (ℕ × StreamSession))
      (s : StreamSession)
      → HasDistinctKeys ss
      → find id ss ≡ some s
      → held x (modify id g ss) + held_by x s ≡ held x ss + held_by x (g s)
  unfolding find modify
  held-modify x id g [] s d e = cc
  held-modify x id g ((j, t) ∷ ss) s d e = elim (Bool-cases (j == id)) [
    | inl k ↦
        let same : t ≡ s = ground arith in
        let rest : modify id g ss ≡ ss =
          modify_of_IsFresh id g ss (subst (λ i. IsFresh i ss) (ground arith) d.0) in
        rw (k, modify) (rw (rest, same) (omega arith))
    | inr k ↦ rw (k, modify) (omega (arith, held-modify x id g ss s d.1 (ground arith)))
  ]

  -- The state of the table: ids are distinct and have been given out, and the objects of the sessions
  -- are kept from collection once for each place that holds them, beside the `others`.
  pub record IsStore (others : ℕ → ℕ) (w : StreamWorld) : Type 0 where
    pub distinct : HasDistinctKeys w.sessions
    pub below : IsBelow w.next_stream_id w.sessions
    pub tidy : AllTidy w.sessions
    pub balanced : (x : ℕ) → times x w.preserved ≡ others x + held x w.sessions

  -- A change of one session, which may take on objects and let go of others.
  pub change-IsStore :
      (others : ℕ → ℕ) (id : ℕ) (g : StreamSession → StreamSession) (kept : List ℕ)
      (s : StreamSession)
      → (w v : StreamWorld) → IsStore others w
      → find id w.sessions ≡ some s
      → IsTidy (g s)
      → ((x : ℕ) → times x kept + held_by x s ≡ times x w.preserved + held_by x (g s))
      → v.sessions ≡ modify id g w.sessions
      → v.next_stream_id ≡ w.next_stream_id
      → v.preserved ≡ kept
      → IsStore others v
  change-IsStore others id g kept s w v h found tidy swap at_sessions at_next at_kept = record {
    distinct =
        subst HasDistinctKeys (sym at_sessions) (modify-HasDistinctKeys id g w.sessions h.distinct);
    below = simp (at_sessions, at_next) (modify-IsBelow id w.next_stream_id g w.sessions h.below);
    tidy =
        subst AllTidy (sym at_sessions)
          (modify-AllTidy id g w.sessions s h.distinct found tidy h.tidy);
    balanced = λ x.
        simp (at_sessions, at_kept)
          (omega (arith, held-modify x id g w.sessions s h.distinct found, h.balanced x, swap x));
  }

  one-held :
      (y id : ℕ) (ss : List (ℕ × StreamSession)) (s : StreamSession)
      → find id ss ≡ some s
      → held_by y s ≤ held y ss
  unfolding find
  one-held y id [] s e = cc
  one-held y id ((j, t) ∷ ss) s e = elim (Bool-cases (j == id)) [
    | inl k ↦ (let same : t ≡ s = ground arith in rw same (omega arith))
    | inr k ↦ omega (arith, one-held y id ss s (ground arith))
  ]

  times-release_sexps :
      (s : StreamSession) (kept : List ℕ)
      → ((y : ℕ) → held_by y s ≤ times y kept)
      → (x : ℕ) → times x (release_sexps object s kept) + held_by x s ≡ times x kept
  unfolding release_sexps
  times-release_sexps s kept h x =
      let a = λ (y : ℕ).
        times-release_hook y (ref object s.next_chunk) kept (λ (z : ℕ). omega (arith, h z)) in
      let k1 = release_hook (ref object s.next_chunk) kept in
      let b = times-release_hook x (ref object s.state) k1 (λ (z : ℕ). omega (arith, h z, a z)) in
      omega (arith, a x, b)

  pub close-IsStore :
      (others : ℕ → ℕ) (id : ℕ) (s : StreamSession) (w : StreamWorld)
      → IsStore others w
      → find id w.sessions ≡ some s
      → IsStore others (close_stream_from_main object id s w)
  unfolding close_stream_from_main
  close-IsStore others id s w h found =
      let enough : (y : ℕ) → held_by y s ≤ times y w.preserved =
        λ y. omega (arith, h.balanced y, one-held y id w.sessions s found) in
      change-IsStore others id (torn_down object) (release_sexps object s w.preserved) s w
        (close_stream_from_main object id s w) h found (inr (refl, refl, refl))
        (λ x. ground (arith, times-release_sexps s w.preserved enough x)) refl refl refl

  pub keep-IsStore :
      (others : ℕ → ℕ) (id : ℕ) (s : StreamSession) (given : Option Sexp) (w : StreamWorld)
      → IsStore others w
      → find id w.sessions ≡ some s
      → s.listed ≡ true
      → IsStore others (keep_state object id s given w)
  unfolding keep_state
  keep-IsStore others id s none w h found listed = h
  keep-IsStore others id s (some y) w h found listed =
      let going = open-IsTidy s (find-AllTidy id w.sessions s h.tidy found) listed in
      change-IsStore others id (λ t. record t { state = some y })
        (release_hook (ref object s.state) (preserve_hook (some (object y)) w.preserved)) s w
        (keep_state object id s (some y) w) h found (inl (listed, going))
        (λ x. ground (
          arith,
          times-release_hook x (ref object s.state) (preserve_hook (some (object y)) w.preserved)
              (λ (z : ℕ). omega (
                arith,
                times-preserve_hook z (some (object y)) w.preserved,
                h.balanced z,
                one-held z id w.sessions s found,
              )),
          times-preserve_hook x (some (object y)) w.preserved,
        ))
        refl refl refl

  pub start-IsStore :
      (others : ℕ → ℕ) (next_chunk : Sexp) (state : Option Sexp) (connected : Bool) (t : Real)
      → (w : StreamWorld) → IsStore others w
      → IsStore others (start_stream_session object next_chunk state connected t w)
  unfolding start_stream_session schedule_next_pump
  start-IsStore others next_chunk state connected t w h = record {
    distinct = (IsFresh-of_IsBelow w.next_stream_id w.sessions h.below, h.distinct);
    below = (
      omega arith,
      IsBelow-mono w.next_stream_id (suc w.next_stream_id) w.sessions (omega arith) h.below,
    );
    tidy = (inl (refl, refl), h.tidy);
    balanced = λ x.
        let a = times-preserve_hook x (some (object next_chunk)) w.preserved in
        let b =
          times-preserve_hook x (ref object state)
            (preserve_hook (some (object next_chunk)) w.preserved) in
        omega (arith, a, b, h.balanced x);
  }

  clear-balance :
      (ss : List (ℕ × StreamSession)) (kept : List ℕ)
      → AllTidy ss
      → ((y : ℕ) → held y ss ≤ times y kept)
      → (x : ℕ) → times x (clear_sessions object ss kept).1 + held x ss ≡ times x kept
  unfolding clear_sessions
  clear-balance [] kept tidy h x = omega arith
  clear-balance ((id, s) ∷ ss) kept tidy h x = elim tidy.0 [
    | inl (listed, going) ↦
        let one : (y : ℕ) → times y (release_sexps object s kept) + held_by y s ≡ times y kept =
          times-release_sexps s kept (λ y. omega (arith, h y)) in
        let rest =
          clear-balance ss (release_sexps object s kept) tidy.1 (λ y. omega (arith, h y, one y))
            x in
        simp listed (omega (arith, rest, one x))
    | inr (gone, a, b) ↦
        let rest = clear-balance ss kept tidy.1 (λ y. omega (arith, h y)) x in
        simp (gone, a, b) (omega (arith, rest))
  ]

  -- After the streams are cleared, only what others keep is kept from collection.
  pub clear-others :
      (others : ℕ → ℕ) (w : StreamWorld)
      → IsStore others w
      → (x : ℕ) → times x (clear_all_stream_sessions object w).preserved ≡ others x
  unfolding clear_all_stream_sessions
  clear-others others w h x = omega (
    arith,
    clear-balance w.sessions w.preserved h.tidy (λ (y : ℕ). omega (arith, h.balanced y)) x,
    h.balanced x,
  )
