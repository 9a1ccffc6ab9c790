-- ===== src/Stream/Tidy.antt =====
-- The order that the session table of src/stream_session.cpp is kept in.
use drogon_r.Prelude.{
  ℕ, ◌≡◌, refl, sym, subst, ◌⊎◌, inl, inr, true, false, List, [], ◌∷◌, none, some, arith, ◌==◌,
  Bool-cases,
}
use drogon_r.Prelude.Table.{find, modify, HasDistinctKeys, IsFresh}
use drogon_r.Stream.{StreamSession}

-- A session in the map is not closing, and one that has left it holds nothing.
abbrev pub IsTidy : StreamSession → Type 0
IsTidy s =
    ((s.listed ≡ true) × (s.closing ≡ false))
    ⊎ ((s.listed ≡ false) × (s.next_chunk ≡ none) × (s.state ≡ none))

abbrev pub AllTidy : List (ℕ × StreamSession) → Type 0
AllTidy [] = Unit {0}
AllTidy ((id, s) ∷ ss) = IsTidy s × AllTidy ss

pub open-IsTidy : (s : StreamSession) → IsTidy s → s.listed ≡ true → s.closing ≡ false
open-IsTidy s (inl (a, b)) e = b
open-IsTidy s (inr (a, b, c)) e = ground arith

pub find-AllTidy :
    (id : ℕ) (ss : List (ℕ × StreamSession)) (s : StreamSession)
    → AllTidy ss
    → find id ss ≡ some s
    → IsTidy s
unfolding find
find-AllTidy id [] s h e = cc
find-AllTidy id ((j, t) ∷ ss) s h e = elim (Bool-cases (j == id)) [
  | inl k ↦ (let same : t ≡ s = ground arith in subst IsTidy same h.0)
  | inr k ↦ find-AllTidy id ss s h.1 (ground arith)
]

pub modify_of_IsFresh :
    (id : ℕ) (g : StreamSession → StreamSession) (ss : List (ℕ × StreamSession))
    → IsFresh id ss
    → modify id g ss ≡ ss
unfolding modify
modify_of_IsFresh id g [] h = refl
modify_of_IsFresh id g ((j, s) ∷ ss) h = ground (arith, modify_of_IsFresh id g ss h.1)

pub modify-AllTidy :
    (id : ℕ) (g : StreamSession → StreamSession) (ss : List (ℕ × StreamSession)) (s : StreamSession)
    → HasDistinctKeys ss
    → find id ss ≡ some s
    → IsTidy (g s)
    → AllTidy ss
    → AllTidy (modify id g ss)
unfolding modify find
modify-AllTidy id g [] s d e keep h = tt
modify-AllTidy id g ((j, t) ∷ ss) s d e keep h = elim (Bool-cases (j == id)) [
  | inl k ↦
      let same : s ≡ t = ground arith in
      let rest : modify id g ss ≡ ss =
        modify_of_IsFresh id g ss (subst (λ i. IsFresh i ss) (ground arith) d.0) in
      rw (k, modify) (subst (λ u. IsTidy (g u)) same keep, subst AllTidy (sym rest) h.1)
  | inr k ↦ rw (k, modify) (h.0, modify-AllTidy id g ss s d.1 (ground arith) keep h.1)
]
