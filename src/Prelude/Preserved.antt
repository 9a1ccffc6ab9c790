-- ===== src/Prelude/Preserved.antt =====
-- R_PreserveObject and R_ReleaseObject: the objects that are kept from R's garbage collector, each as
-- often as it was preserved and not yet released.
use Prim.Native.Nat.{ℕ, ◌+◌, ◌≤◌, ◌<◌}
use mathlib.Core.Path.{◌≡◌, refl}
use mathlib.Core.List.{List, [], ◌∷◌}
use mathlib.Core.Option.{Option, none, some}
use native.Mathlib.Omega.{arith}
use drogon_r.Prelude.Tests.{◌==◌, if◌then◌else◌}

abbrev pub preserve : ℕ → List ℕ → List ℕ
preserve x kept = x ∷ kept

unfoldable pub release : ℕ → List ℕ → List ℕ
release x [] = []
release x (y ∷ kept) = if y == x then kept else y ∷ release x kept

-- A missing closure is neither preserved nor released.
abbrev pub preserve_hook : Option ℕ → List ℕ → List ℕ
preserve_hook none kept = kept
preserve_hook (some x) kept = preserve x kept

abbrev pub release_hook : Option ℕ → List ℕ → List ℕ
release_hook none kept = kept
release_hook (some x) kept = release x kept

-- How often an object is preserved.
unfoldable pub times : ℕ → List ℕ → ℕ
times x [] = 0
times x (y ∷ kept) = (if y == x then 1 else 0) + times x kept

abbrev pub once : ℕ → Option ℕ → ℕ
once x none = 0
once x (some y) = if y == x then 1 else 0

pub times-preserve_hook :
    (x : ℕ) (h : Option ℕ) (kept : List ℕ)
    → times x (preserve_hook h kept) ≡ once x h + times x kept
unfolding times
times-preserve_hook x none kept = omega arith
times-preserve_hook x (some y) kept = refl

-- Releasing an object that is preserved takes it away once.
times-release :
    (x y : ℕ) (kept : List ℕ)
    → 0 < times y kept
    → times x (release y kept) + (if y == x then 1 else 0) ≡ times x kept
unfolding times release
times-release x y [] h = absurd (omega arith)
times-release x y (z ∷ kept) h = ground (arith, times-release x y kept)

pub times-release_hook :
    (x : ℕ) (h : Option ℕ) (kept : List ℕ)
    → ((y : ℕ) → once y h ≤ times y kept)
    → times x (release_hook h kept) + once x h ≡ times x kept
times-release_hook x none kept e = omega arith
times-release_hook x (some y) kept e = times-release x y kept (ground (arith, e y))

-- The three hooks of a route or a client.
pub times-preserve_hooks :
    (x : ℕ) (a b c : Option ℕ) (kept : List ℕ)
    → times x (preserve_hook c (preserve_hook b (preserve_hook a kept)))
      ≡ once x a + once x b + once x c + times x kept
times-preserve_hooks x a b c kept =
    let k1 = preserve_hook a kept in
    omega (
      arith,
      times-preserve_hook x a kept,
      times-preserve_hook x b k1,
      times-preserve_hook x c (preserve_hook b k1),
    )

pub times-release_hooks :
    (a b c : Option ℕ) (kept : List ℕ)
    → ((y : ℕ) → once y a + once y b + once y c ≤ times y kept)
    → (x : ℕ)
    → times x (release_hook c (release_hook b (release_hook a kept)))
        + (once x a + once x b + once x c)
      ≡ times x kept
times-release_hooks a b c kept h x =
    let one = λ (y : ℕ). times-release_hook y a kept (λ (z : ℕ). omega (arith, h z)) in
    let k1 = release_hook a kept in
    let two = λ (y : ℕ). times-release_hook y b k1 (λ (z : ℕ). omega (arith, h z, one z)) in
    let k2 = release_hook b k1 in
    let three = times-release_hook x c k2 (λ (z : ℕ). omega (arith, h z, one z, two z)) in
    omega (arith, one x, two x, three)
