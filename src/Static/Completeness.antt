-- ===== src/Static/Completeness.antt =====
-- What resolveSafely of src/drogon_server.cpp lets through.
use mathlib.Core.List.{reverse, reverse-cons, reverse-reverse}
use drogon_r.Prelude.{
  ℕ, ◌≡◌, ◌≢◌, refl, sym, ap, ◌∙◌, true, false, List, [], ◌∷◌, ◌++◌, some, arith, All, All-append,
  append_assoc, append-nil, leb, length,
}
use drogon_r.Prelude.Bytes.{Bytes, starts_with-append}
use drogon_r.Static.FilePath.{
  slash, split, join, kind, named, visit, visit_all, Normal, print_normal, lexically_normal,
  is_absolute, has_filename, append_path,
}
use drogon_r.Static.Resolve.{resolve_safely, strip_slashes, contains}
use drogon_r.Static.Stretches.{IsName, HasNoSlash, split-join}
use drogon_r.Static.Safety.{get_elem?-append}

visit_name :
    (n : Normal) (p : Bytes)
    → kind p ≡ named
    → visit true n p ≡ record { kept = p ∷ n.kept; trailing = false }
unfolding visit
visit_name n p h = rw (h, visit) refl

-- Names are kept as they come, the last one first.
visit_names :
    (n : Normal) (p : Bytes) (ps : List Bytes)
    → All IsName (p ∷ ps)
    → visit_all true n (p ∷ ps) ≡ record { kept = reverse (p ∷ ps) ++ n.kept; trailing = false }
unfolding visit_all
visit_names n p [] h = visit_name n p h.0.0
visit_names n p (q ∷ ps) h =
    ap (λ m. visit_all true m (q ∷ ps)) (visit_name n p h.0.0)
    ∙ visit_names (record { kept = p ∷ n.kept; trailing = false }) q ps h.1
    ∙ rw (reverse-cons p (q ∷ ps)) (
        ap (λ (k : List Bytes). record { kept = k; trailing = false })
          (sym (append_assoc (reverse (q ∷ ps)) (p ∷ []) n.kept)))

names-HasNoSlash : (ps : List Bytes) → All IsName ps → All HasNoSlash ps
names-HasNoSlash [] h = tt
names-HasNoSlash (p ∷ ps) h = (h.0.1, names-HasNoSlash ps h.1)

-- The text of a list of names at the root, which is its own normal form.
abbrev pub rooted : List Bytes → Bytes
rooted ps = slash ∷ join ps

reverse-ne-nil : (p : Bytes) (ps : List Bytes) → reverse (p ∷ ps) ≢ []
reverse-ne-nil p ps e = absurd (ground (arith, ap reverse e, reverse-reverse (p ∷ ps)))

print_reverse :
    (p : Bytes) (ps : List Bytes) → print_normal true (reverse (p ∷ ps)) false ≡ rooted (p ∷ ps)
unfolding print_normal
print_reverse p ps = by_shape (reverse (p ∷ ps)) refl
  where
    by_shape :
        (qs : List Bytes) → reverse (p ∷ ps) ≡ qs → print_normal true qs false ≡ rooted (p ∷ ps)
    by_shape [] e = absurd (reverse-ne-nil p ps e)
    by_shape (q ∷ qs) e =
        ap (λ names. slash ∷ join names) (ap reverse (sym e) ∙ reverse-reverse (p ∷ ps))

lexically_normal-rooted :
    (p : Bytes) (ps : List Bytes)
    → All IsName (p ∷ ps)
    → lexically_normal (rooted (p ∷ ps)) ≡ rooted (p ∷ ps)
unfolding lexically_normal is_absolute split visit_all visit kind
lexically_normal-rooted p ps h =
    rw
      (
        split-join p ps (names-HasNoSlash (p ∷ ps) h),
        visit_names (record { kept = []; trailing = true }) p ps h,
        append-nil (reverse (p ∷ ps)),
      )
      (print_reverse p ps)

-- A name neither is empty nor starts with a slash.
name-is_absolute : (p rest : Bytes) → IsName p → is_absolute (p ++ rest) ≡ false
unfolding is_absolute kind
name-is_absolute [] rest h = absurd (ground arith)
name-is_absolute (c ∷ p) rest h = ground (arith, h)

HasNoSlash-has_filename : (c : ℕ) (p : Bytes) → HasNoSlash (c ∷ p) → has_filename (c ∷ p) ≡ true
unfolding has_filename
HasNoSlash-has_filename c [] h = ground arith
HasNoSlash-has_filename c (d ∷ p) h = HasNoSlash-has_filename d p h.1

has_filename-append : (s t : Bytes) → has_filename t ≡ true → has_filename (s ++ t) ≡ true
unfolding has_filename
has_filename-append [] t h = h
has_filename-append (c ∷ []) [] h = absurd (ground arith)
has_filename-append (c ∷ []) (d ∷ t) h = h
has_filename-append (c ∷ d ∷ s) t h = has_filename-append (d ∷ s) t h

strip_slashes-has_filename : (s : Bytes) → has_filename s ≡ true → strip_slashes s ≡ s
unfolding strip_slashes has_filename
strip_slashes-has_filename [] h = refl
strip_slashes-has_filename (c ∷ []) h = ground arith
strip_slashes-has_filename (c ∷ d ∷ s) h =
    rw (strip_slashes-has_filename (d ∷ s) h, strip_slashes) refl

name-has_filename : (p : Bytes) → IsName p → has_filename p ≡ true
unfolding kind
name-has_filename [] h = absurd (ground arith)
name-has_filename (c ∷ p) h = HasNoSlash-has_filename c p h.1

join-has_filename :
    (p : Bytes) (ps : List Bytes) → All IsName (p ∷ ps) → has_filename (join (p ∷ ps)) ≡ true
unfolding join
join-has_filename p [] h = name-has_filename p h.0
join-has_filename p (q ∷ ps) h =
    has_filename-append p (slash ∷ join (q ∷ ps))
      (has_filename-append (slash ∷ []) (join (q ∷ ps)) (join-has_filename q ps h.1))

join-is_absolute :
    (p : Bytes) (ps : List Bytes) → All IsName (p ∷ ps) → is_absolute (join (p ∷ ps)) ≡ false
unfolding join
join-is_absolute p [] h = rw (← append-nil p) (name-is_absolute p [] h.0)
join-is_absolute p (q ∷ ps) h = name-is_absolute p (slash ∷ join (q ∷ ps)) h.0

join-append :
    (p : Bytes) (ps : List Bytes) (q : Bytes) (qs : List Bytes)
    → join (p ∷ ps ++ q ∷ qs) ≡ join (p ∷ ps) ++ slash ∷ join (q ∷ qs)
unfolding join
join-append p [] q qs = refl
join-append p (r ∷ ps) q qs =
    ap (λ t. p ++ slash ∷ t) (join-append r ps q qs)
    ∙ sym (append_assoc p (slash ∷ join (r ∷ ps)) (slash ∷ join (q ∷ qs)))

longer : (s t : Bytes) (c : ℕ) → leb (length (s ++ c ∷ t)) (length s) ≡ false
longer [] t c = ground arith
longer (d ∷ s) t c = ground (arith, longer s t c)

-- The tests of `resolveSafely`, where both of its texts are known.
accepts :
    (dir rel d rest : Bytes)
    → contains 0 rel ≡ false
    → is_absolute rel ≡ false
    → lexically_normal (append_path dir rel) ≡ d ++ slash ∷ rest
    → strip_slashes (lexically_normal dir) ≡ d
    → resolve_safely dir rel ≡ some (d ++ slash ∷ rest)
unfolding resolve_safely
accepts dir rel d rest zero relative norm_str dir_str =
    rw
      (
        zero,
        relative,
        norm_str,
        dir_str,
        longer d rest slash,
        starts_with-append d (slash ∷ rest),
        get_elem?-append d (slash ∷ rest),
        resolve_safely,
      )
      refl

-- Take a mount at an absolute directory in normal form, below the root. A path of file names
-- without a zero byte is let through, as the directory, a slash and the path.
pub resolve_safely_complete :
    (d : Bytes) (ds : List Bytes) (r : Bytes) (rs : List Bytes)
    → All IsName (d ∷ ds)
    → All IsName (r ∷ rs)
    → contains 0 (join (r ∷ rs)) ≡ false
    → resolve_safely (rooted (d ∷ ds)) (join (r ∷ rs))
      ≡ some (rooted (d ∷ ds) ++ slash ∷ join (r ∷ rs))
unfolding append_path
resolve_safely_complete d ds r rs hd hr zero =
    let dir = rooted (d ∷ ds) in
    let rel = join (r ∷ rs) in
    let relative = join-is_absolute r rs hr in
    let filed = has_filename-append (slash ∷ []) (join (d ∷ ds)) (join-has_filename d ds hd) in
    let all = ap (λ t. slash ∷ t) (join-append d ds r rs) in
    let normal =
      lexically_normal-rooted d (ds ++ r ∷ rs) (All-append IsName (d ∷ ds) (r ∷ rs) hd hr) in
    let whole : append_path dir rel ≡ dir ++ slash ∷ rel = rw (relative, filed, append_path) refl in
    let norm_str = ap lexically_normal (whole ∙ sym all) ∙ normal ∙ all in
    let dir_str : strip_slashes (lexically_normal dir) ≡ dir =
      ap strip_slashes (lexically_normal-rooted d ds hd) ∙ strip_slashes-has_filename dir filed in
    accepts dir rel dir rel zero relative norm_str dir_str
