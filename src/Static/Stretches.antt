-- ===== src/Static/Stretches.antt =====
-- Splitting a path of src/drogon_server.cpp at its slashes, and joining names again.
use mathlib.Core.List.{reverse, reverse-cons}
use drogon_r.Prelude.{ℕ, ◌≡◌, ◌≢◌, refl, ◌∙◌, List, [], ◌∷◌, ◌++◌, arith, All, All-append}
use drogon_r.Prelude.Bytes.{Bytes}
use drogon_r.Static.FilePath.{slash, add_head, split, join, kind, named}

abbrev pub HasNoSlash : Bytes → Type 0
HasNoSlash [] = Unit {0}
HasNoSlash (c ∷ s) = (c ≢ slash) × HasNoSlash s

-- A file name: no slash in it, not empty, and neither of the names with dots only.
abbrev pub IsName : Bytes → Type 0
IsName p = (kind p ≡ named) × HasNoSlash p

add_head-append :
    (c : ℕ) (ps qs : List Bytes) → ps ≢ [] → add_head c (ps ++ qs) ≡ add_head c ps ++ qs
add_head-append c [] qs h = absurd (h refl)
add_head-append c (p ∷ ps) qs h = refl

add_head-HasNoSlash :
    (c : ℕ) (ps : List Bytes) → c ≢ slash → All HasNoSlash ps → All HasNoSlash (add_head c ps)
add_head-HasNoSlash c [] h k = ((h, tt), tt)
add_head-HasNoSlash c (p ∷ ps) h k = ((h, k.0), k.1)

add_head-ne-nil : (c : ℕ) (ps : List Bytes) → add_head c ps ≢ []
add_head-ne-nil c [] = λ e. cc
add_head-ne-nil c (p ∷ ps) = λ e. cc

split-ne-nil : (s : Bytes) → split s ≢ []
unfolding split
split-ne-nil [] = λ e. cc
split-ne-nil (c ∷ s) = ground (arith, add_head-ne-nil c (split s))

pub split-append_slash : (s t : Bytes) → split (s ++ slash ∷ t) ≡ split s ++ split t
unfolding split
split-append_slash [] t = refl
split-append_slash (c ∷ s) t =
    ground (arith, split-append_slash s t, add_head-append c (split s) (split t) (split-ne-nil s))

pub split-HasNoSlash : (s : Bytes) → All HasNoSlash (split s)
unfolding split
split-HasNoSlash [] = (tt, tt)
split-HasNoSlash (c ∷ s) = ground (arith, split-HasNoSlash s, add_head-HasNoSlash c (split s))

pub split_of_HasNoSlash : (p : Bytes) → HasNoSlash p → split p ≡ p ∷ []
unfolding split
split_of_HasNoSlash [] h = refl
split_of_HasNoSlash (c ∷ p) h = ground (arith, split_of_HasNoSlash p h.1)

pub split-join :
    (p : Bytes) (ps : List Bytes) → All HasNoSlash (p ∷ ps) → split (join (p ∷ ps)) ≡ p ∷ ps
unfolding join
split-join p [] h = split_of_HasNoSlash p h.0
split-join p (q ∷ ps) h =
    split-append_slash p (join (q ∷ ps)) ∙ rw (split_of_HasNoSlash p h.0, split-join q ps h.1)

pub All-reverse {ℓ κ} : {A : Type ℓ} (P : A → Type κ) (xs : List A) → All P xs → All P (reverse xs)
All-reverse P [] h = tt
All-reverse P (x ∷ xs) h =
    rw (reverse-cons x xs) (All-append P (reverse xs) (x ∷ []) (All-reverse P xs h.1) (h.0, tt))
