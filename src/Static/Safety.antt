-- ===== src/Static/Safety.antt =====
-- Which paths resolveSafely in src/drogon_server.cpp lets through.
use mathlib.Core.List.{reverse}
use drogon_r.Prelude.{
  ℕ, leb, ◌||◌, ◌≡◌, ◌≢◌, refl, sym, ap, ◌∙◌, Bool, true, false, not, ◌&&◌, List, [], ◌∷◌, ◌++◌,
  Option, none, some, arith, ◌==◌, if◌then◌else◌, All, All-append, All-append_right, All-mono,
  length, get_elem?,
}
use drogon_r.Prelude.Bytes.{Bytes, starts_with, starts_with→eq}
use drogon_r.Static.FilePath.{
  slash, split, join, is_absolute, append_path, kind, parent, Normal, go_up, visit, visit_all,
  print_normal, lexically_normal, is_parent,
}
use drogon_r.Static.Stretches.{
  HasNoSlash, IsName, split-append_slash, split-HasNoSlash, split-join, All-reverse,
}
use drogon_r.Static.Resolve.{
  resolve_safely, strip_slashes, contains, byte_is, escape_regex, special,
}

abbrev pub IsNoParent : Bytes → Type 0
IsNoParent p = kind p ≢ parent

go_up-names : (ps : List Bytes) → All IsName ps → All IsName (go_up true ps).kept
unfolding go_up
go_up-names [] h = tt
go_up-names (p ∷ ps) h = ground arith

visit-names :
    (n : Normal) (p : Bytes) → HasNoSlash p → All IsName n.kept → All IsName (visit true n p).kept
unfolding visit
visit-names n p s h = ground (arith, go_up-names n.kept h)

visit_all-names :
    (n : Normal) (ps : List Bytes)
    → All HasNoSlash ps
    → All IsName n.kept
    → All IsName (visit_all true n ps).kept
unfolding visit_all
visit_all-names n [] s h = h
visit_all-names n (p ∷ ps) s h = visit_all-names (visit true n p) ps s.1 (visit-names n p s.0 h)

skipped-IsNoParent : IsNoParent []
unfolding kind
skipped-IsNoParent = λ e. cc

names-IsNoParent : (ps : List Bytes) → All IsName ps → All IsNoParent ps
names-IsNoParent [] h = tt
names-IsNoParent (p ∷ ps) h = ((λ e. cc (h.0.0)), names-IsNoParent ps h.1)

join-IsNoParent : (ps : List Bytes) → All IsName ps → All IsNoParent (split (join ps))
unfolding split join kind
join-IsNoParent [] h = ((λ e. cc), tt)
join-IsNoParent (p ∷ ps) h =
    rw (split-join p ps (All-mono (λ q k. k.1) (p ∷ ps) h)) (names-IsNoParent (p ∷ ps) h)

body-IsNoParent :
    (b : Bool) (ps : List Bytes)
    → All IsName ps
    → All IsNoParent (split (if b then join ps ++ slash ∷ [] else join ps))
unfolding split kind
body-IsNoParent false ps h = join-IsNoParent ps h
body-IsNoParent true ps h =
    rw (split-append_slash (join ps) [])
      (All-append IsNoParent (split (join ps)) ([] ∷ []) (join-IsNoParent ps h) ((λ e. cc), tt))

slash-IsNoParent : (s : Bytes) → All IsNoParent (split s) → All IsNoParent (split (slash ∷ s))
unfolding split
slash-IsNoParent s h = (skipped-IsNoParent, h)

print_normal-IsNoParent :
    (ps : List Bytes) (trailing : Bool)
    → All IsName ps
    → All IsNoParent (split (print_normal true ps trailing))
unfolding print_normal join
print_normal-IsNoParent [] trailing h = slash-IsNoParent [] (join-IsNoParent [] tt)
print_normal-IsNoParent (p ∷ ps) trailing h = slash-IsNoParent _ (
    body-IsNoParent (trailing && not (is_parent (p ∷ ps))) (reverse (p ∷ ps))
      (All-reverse IsName (p ∷ ps) h))

-- The normal form of an absolute path has no two dots in it.
pub lexically_normal-IsNoParent :
    (path : Bytes) → is_absolute path ≡ true → All IsNoParent (split (lexically_normal path))
unfolding lexically_normal split
lexically_normal-IsNoParent [] h = (skipped-IsNoParent, tt)
lexically_normal-IsNoParent (c ∷ s) h =
    let n = visit_all true (record { kept = []; trailing = false }) (split (c ∷ s)) in
    rw h (
      print_normal-IsNoParent n.kept n.trailing
        (visit_all-names _ (split (c ∷ s)) (split-HasNoSlash (c ∷ s)) tt))

append_path-absolute :
    (dir rel : Bytes) → is_absolute dir ≡ true → is_absolute (append_path dir rel) ≡ true
unfolding append_path is_absolute
append_path-absolute [] rel h = cc
append_path-absolute (c ∷ s) rel h = ground arith

pub get_elem?-append : (s t : Bytes) → get_elem? (s ++ t) (length s) ≡ get_elem? t 0
get_elem?-append [] t = refl
get_elem?-append (c ∷ s) t = get_elem?-append s t

byte_is-head :
    (t : Bytes) → byte_is slash (get_elem? t 0) ≡ true → (rest : Bytes) × (t ≡ slash ∷ rest)
byte_is-head [] h = cc
byte_is-head (c ∷ t) h = (t, ground arith)

-- The three tests at the end of `resolveSafely`: the text goes on with a slash behind the prefix.
prefix_then_slash :
    (d n : Bytes)
    → starts_with d n ≡ true
    → byte_is slash (get_elem? n (length d)) ≡ true
    → (rest : Bytes) × (n ≡ d ++ slash ∷ rest)
prefix_then_slash d n h k =
    let (t, e) = starts_with→eq d n h in
    let (rest, e') = byte_is-head t (subst_head d n t e k) in (rest, e ∙ ap (λ r. d ++ r) e')
  where
    subst_head :
        (d n t : Bytes)
        → n ≡ d ++ t
        → byte_is slash (get_elem? n (length d)) ≡ true
        → byte_is slash (get_elem? t 0) ≡ true
    subst_head d n t e k = rw (← get_elem?-append d t) (rw (← e) k)

-- Take a mount whose directory is an absolute path. A path that `resolveSafely` lets through is the
-- directory, a slash and a rest in which no stretch between slashes is two dots.
pub resolve_safely-contained :
    (dir rel out : Bytes)
    → is_absolute dir ≡ true
    → resolve_safely dir rel ≡ some out
    → (rest : Bytes) × (out ≡ strip_slashes (lexically_normal dir) ++ slash ∷ rest)
      × All IsNoParent (split rest)
unfolding resolve_safely
resolve_safely-contained dir rel out abs h =
    let d = strip_slashes (lexically_normal dir) in
    let n = lexically_normal (append_path dir rel) in
    let e : n ≡ out = ground arith in
    let (rest, same) = prefix_then_slash d n (ground arith) (ground arith) in
    let clean =
      lexically_normal-IsNoParent (append_path dir rel) (append_path-absolute dir rel abs) in
    (
      rest,
      sym e ∙ same,
      All-append_right IsNoParent (split d) (split rest)
          (rw (← split-append_slash d rest) (rw (← same) clean)),
    )

-- The bytes that the grammar of an ECMAScript regular expression reserves: `$`, `(` to `+`, `.`, `?`,
-- `[` to `^` and `{` to `}`.
abbrev pub is_syntax : ℕ → Bool
is_syntax c =
    (c == 36)
    || (leb 40 c && leb c 43)
    || (c == 46)
    || (c == 63)
    || (leb 91 c && leb c 94)
    || (leb 123 c && leb c 125)

-- A pattern that stands for one text: a backslash before a reserved byte stands for the byte, any
-- byte that is not reserved for itself.
abbrev pub pattern_text : Bool → Bytes → Option Bytes
pattern_text true [] = none
pattern_text false [] = some []
pattern_text true (c ∷ s) = elim (pattern_text false s) [
  | none ↦ none
  | some t ↦ if is_syntax c then some (c ∷ t) else none
]
pattern_text false (c ∷ s) = elim (pattern_text (c == 92) s) [
  | none ↦ none
  | some t ↦ if c == 92 then some t else if is_syntax c then none else some (c ∷ t)
]

-- The bytes that escapeRegex marks are those of the grammar.
special-is_syntax : (c : ℕ) → contains c special ≡ is_syntax c
special-is_syntax c = ground arith

-- Every byte of the prefix that the grammar reserves is escaped, and no other: the escaped prefix is
-- a pattern that stands for the prefix alone.
pub escape_regex-literal : (s : Bytes) → pattern_text false (escape_regex s) ≡ some s
unfolding escape_regex
escape_regex-literal [] = refl
escape_regex-literal (c ∷ s) = ground (arith, escape_regex-literal s, special-is_syntax c)
