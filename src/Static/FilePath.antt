-- ===== src/Static/FilePath.antt =====
-- std::filesystem::path on POSIX, as src/drogon_server.cpp uses it: is_absolute, operator/ and
-- lexically_normal. The only separator is the slash, and there are no root names.
use drogon_r.Prelude.{ℕ, Bool, true, false, ◌&&◌, not, List, [], ◌∷◌, ◌++◌, ◌==◌, if◌then◌else◌}
use drogon_r.Prelude.Bytes.{Bytes, codes}

abbrev pub slash : ℕ
slash = 47

-- The byte goes in front of the first stretch.
abbrev pub add_head : ℕ → List Bytes → List Bytes
add_head c [] = (c ∷ []) ∷ []
add_head c (p ∷ ps) = (c ∷ p) ∷ ps

-- The stretches between slashes; one stretch if there is none.
unfoldable pub split : Bytes → List Bytes
split [] = [] ∷ []
split (c ∷ s) = let rest = split s in if c == slash then [] ∷ rest else add_head c rest

unfoldable pub join : List Bytes → Bytes
join [] = []
join (p ∷ []) = p
join (p ∷ q ∷ ps) = p ++ slash ∷ join (q ∷ ps)

unfoldable pub is_absolute : Bytes → Bool
is_absolute [] = false
is_absolute (c ∷ s) = c == slash

-- `has_filename()`: the path does not end with a slash, nor is it empty.
unfoldable pub has_filename : Bytes → Bool
has_filename [] = false
has_filename (c ∷ []) = not (c == slash)
has_filename (c ∷ d ∷ s) = has_filename (d ∷ s)

-- `dir / rel` for a relative `rel`.
unfoldable pub append_path : Bytes → Bytes → Bytes
append_path dir rel =
    if is_absolute rel then rel else if has_filename dir then dir ++ slash ∷ rel else dir ++ rel

-- What a stretch is to `lexically_normal`: nothing or one dot, two dots, or a file name.
pub data Kind : Type 0 where
  skipped parent named : Kind

unfoldable pub kind : Bytes → Kind
kind [] = skipped
kind (a ∷ []) = if a == b'.' then skipped else named
kind (a ∷ b ∷ []) = if (a == b'.') && (b == b'.') then parent else named
kind (a ∷ b ∷ c ∷ s) = named

-- The file names kept so far, the last one first, and whether a separator ends the path.
pub record Normal : Type 0 where
  pub kept : List Bytes
  pub trailing : Bool

-- Two dots take away a file name before them; at the root they are dropped; else they stay.
unfoldable pub go_up : Bool → List Bytes → Normal
go_up true [] = record { kept = []; trailing = true }
go_up false [] = record { kept = codes ".." ∷ []; trailing = false }
go_up rooted (p ∷ ps) = elim (kind p) [
  | parent ↦ record { kept = codes ".." ∷ p ∷ ps; trailing = false }
  | _ ↦ record { kept = ps; trailing = true }
]

unfoldable pub visit : Bool → Normal → Bytes → Normal
visit rooted n p = elim (kind p) [
  | skipped ↦ record n { trailing = true }
  | parent ↦ go_up rooted n.kept
  | named ↦ record { kept = p ∷ n.kept; trailing = false }
]

unfoldable pub visit_all : Bool → Normal → List Bytes → Normal
visit_all rooted n [] = n
visit_all rooted n (p ∷ ps) = visit_all rooted (visit rooted n p) ps

abbrev pub is_nil {ℓ} : {A : Type ℓ} → List A → Bool
is_nil [] = true
is_nil (x ∷ xs) = false

abbrev pub is_parent : List Bytes → Bool
is_parent [] = false
is_parent (p ∷ ps) = elim (kind p) [ parent ↦ true | _ ↦ false ]

-- The text of a normal form: no separator behind two dots, and a dot for the empty path.
unfoldable pub print_normal : Bool → List Bytes → Bool → Bytes
print_normal rooted [] trailing = if rooted then slash ∷ [] else codes "."
print_normal rooted (p ∷ ps) trailing =
    let names = join (mathlib.Core.List.reverse (p ∷ ps)) in
    let body = if trailing && not (is_parent (p ∷ ps)) then names ++ slash ∷ [] else names in
    if rooted then slash ∷ body else body

unfoldable pub lexically_normal : Bytes → Bytes
lexically_normal [] = []
lexically_normal (c ∷ s) =
    let rooted = is_absolute (c ∷ s) in
    let n = visit_all rooted (record { kept = []; trailing = false }) (split (c ∷ s)) in
    print_normal rooted n.kept n.trailing
