-- ===== src/Prelude/Table.antt =====
-- A `std::unordered_map` keyed by a number: an association list, searched from the front.
use Prim.Native.Nat.{ℕ, ◌+◌, ◌≤◌, ◌<◌}
use mathlib.Core.Path.{◌≡◌, refl}
use mathlib.Core.Logic.{◌≢◌}
use mathlib.Core.Bool.{Bool}
use mathlib.Core.List.{List, [], ◌∷◌}
use mathlib.Core.Option.{Option, none, some}
use native.Mathlib.Omega.{arith}
use drogon_r.Prelude.Tests.{◌==◌, if◌then◌else◌}
use drogon_r.Prelude.Lists.{count_p}

module _ {ℓ} {V : Type ℓ} where
  unfoldable pub find : ℕ → List (ℕ × V) → Option V
  find k [] = none
  find k ((j, v) ∷ m) = if j == k then some v else find k m

  -- `erase(k)`.
  unfoldable pub erase : ℕ → List (ℕ × V) → List (ℕ × V)
  erase k [] = []
  erase k ((j, v) ∷ m) = if j == k then erase k m else (j, v) ∷ erase k m

  -- A change of the entry that a shared pointer to it makes.
  unfoldable pub modify : ℕ → (V → V) → List (ℕ × V) → List (ℕ × V)
  modify k f [] = []
  modify k f ((j, v) ∷ m) = if j == k then (j, f v) ∷ modify k f m else (j, v) ∷ modify k f m

  -- No entry has the key.
  abbrev pub IsFresh : ℕ → List (ℕ × V) → Type 0
  IsFresh k [] = Unit {0}
  IsFresh k ((j, v) ∷ m) = (j ≢ k) × IsFresh k m

  -- Each key stands once.
  abbrev pub HasDistinctKeys : List (ℕ × V) → Type 0
  HasDistinctKeys [] = Unit {0}
  HasDistinctKeys ((j, v) ∷ m) = IsFresh j m × HasDistinctKeys m

  -- Every key lies below the bound.
  abbrev pub IsBelow : ℕ → List (ℕ × V) → Type 0
  IsBelow n [] = Unit {0}
  IsBelow n ((j, v) ∷ m) = (j < n) × IsBelow n m

  pub find-erase :
      (k j : ℕ) (m : List (ℕ × V)) → find j (erase k m) ≡ (if k == j then none else find j m)
  unfolding find erase
  find-erase k j [] = ground arith
  find-erase k j ((i, v) ∷ m) = ground (arith, find-erase k j m)

  pub find-modify_ne :
      (k j : ℕ) (f : V → V) (m : List (ℕ × V)) → k ≢ j → find j (modify k f m) ≡ find j m
  unfolding find modify
  find-modify_ne k j f [] h = refl
  find-modify_ne k j f ((i, v) ∷ m) h = ground (arith, find-modify_ne k j f m)

  pub find-modify_self :
      (k : ℕ) (f : V → V) (m : List (ℕ × V)) (v : V)
      → find k m ≡ some v
      → find k (modify k f m) ≡ some (f v)
  unfolding find modify
  find-modify_self k f [] v h = cc
  find-modify_self k f ((i, w) ∷ m) v h = ground (arith, find-modify_self k f m v)

  pub find-modify-none :
      (k j : ℕ) (f : V → V) (m : List (ℕ × V)) → find j m ≡ none → find j (modify k f m) ≡ none
  unfolding find modify
  find-modify-none k j f [] h = refl
  find-modify-none k j f ((i, v) ∷ m) h = ground (arith, find-modify-none k j f m)

  pub find_of_IsFresh : (k : ℕ) (m : List (ℕ × V)) → IsFresh k m → find k m ≡ none
  unfolding find
  find_of_IsFresh k [] h = refl
  find_of_IsFresh k ((j, v) ∷ m) h = ground (arith, find_of_IsFresh k m h.1)

  pub IsFresh-erase : (k : ℕ) (m : List (ℕ × V)) → IsFresh k (erase k m)
  unfolding erase
  IsFresh-erase k [] = tt
  IsFresh-erase k ((j, v) ∷ m) = ground (arith, IsFresh-erase k m)

  IsFresh-erase_other : (j k : ℕ) (m : List (ℕ × V)) → IsFresh j m → IsFresh j (erase k m)
  unfolding erase
  IsFresh-erase_other j k [] h = tt
  IsFresh-erase_other j k ((i, v) ∷ m) h = ground (arith, IsFresh-erase_other j k m h.1)

  pub IsFresh-modify :
      (j k : ℕ) (f : V → V) (m : List (ℕ × V)) → IsFresh j m → IsFresh j (modify k f m)
  unfolding modify
  IsFresh-modify j k f [] h = tt
  IsFresh-modify j k f ((i, v) ∷ m) h = ground (arith, IsFresh-modify j k f m h.1)

  pub erase-HasDistinctKeys :
      (k : ℕ) (m : List (ℕ × V)) → HasDistinctKeys m → HasDistinctKeys (erase k m)
  unfolding erase
  erase-HasDistinctKeys k [] h = tt
  erase-HasDistinctKeys k ((j, v) ∷ m) h =
      ground (arith, erase-HasDistinctKeys k m h.1, IsFresh-erase_other j k m h.0)

  pub modify-HasDistinctKeys :
      (k : ℕ) (f : V → V) (m : List (ℕ × V)) → HasDistinctKeys m → HasDistinctKeys (modify k f m)
  unfolding modify
  modify-HasDistinctKeys k f [] h = tt
  modify-HasDistinctKeys k f ((j, v) ∷ m) h =
      ground (arith, modify-HasDistinctKeys k f m h.1, IsFresh-modify j k f m h.0)

  pub erase-IsBelow : (k n : ℕ) (m : List (ℕ × V)) → IsBelow n m → IsBelow n (erase k m)
  unfolding erase
  erase-IsBelow k n [] h = tt
  erase-IsBelow k n ((j, v) ∷ m) h = ground (arith, erase-IsBelow k n m h.1)

  pub modify-IsBelow :
      (k n : ℕ) (f : V → V) (m : List (ℕ × V)) → IsBelow n m → IsBelow n (modify k f m)
  unfolding modify
  modify-IsBelow k n f [] h = tt
  modify-IsBelow k n f ((j, v) ∷ m) h = ground (arith, modify-IsBelow k n f m h.1)

  pub IsBelow-mono : (n n' : ℕ) (m : List (ℕ × V)) → n ≤ n' → IsBelow n m → IsBelow n' m
  IsBelow-mono n n' [] le h = tt
  IsBelow-mono n n' ((j, v) ∷ m) le h = (omega arith, IsBelow-mono n n' m le h.1)

  pub IsFresh-of_IsBelow : (n : ℕ) (m : List (ℕ × V)) → IsBelow n m → IsFresh n m
  IsFresh-of_IsBelow n [] h = tt
  IsFresh-of_IsBelow n ((j, v) ∷ m) h = (omega arith, IsFresh-of_IsBelow n m h.1)

  pub erase_of_IsFresh : (k : ℕ) (m : List (ℕ × V)) → IsFresh k m → erase k m ≡ m
  unfolding erase
  erase_of_IsFresh k [] h = refl
  erase_of_IsFresh k ((j, v) ∷ m) h = ground (arith, erase_of_IsFresh k m h.1)

  -- Erasing a key takes away what its one entry counted for.
  pub count_p-erase :
      (p : ℕ × V → Bool) (k : ℕ) (m : List (ℕ × V)) (v : V)
      → HasDistinctKeys m
      → find k m ≡ some v
      → count_p p m ≡ (if p (k, v) then 1 else 0) + count_p p (erase k m)
  unfolding find erase
  count_p-erase p k [] v d h = cc
  count_p-erase p k ((j, w) ∷ m) v d h =
      ground (arith, count_p-erase p k m v d.1, erase_of_IsFresh k m)

  pub count_p-modify :
      (p : ℕ × V → Bool) (k : ℕ) (f : V → V) (m : List (ℕ × V))
      → ((v : V) → p (k, f v) ≡ p (k, v))
      → count_p p (modify k f m) ≡ count_p p m
  unfolding modify
  count_p-modify p k f [] h = refl
  count_p-modify p k f ((j, w) ∷ m) h = ground (arith, count_p-modify p k f m h, h w)
