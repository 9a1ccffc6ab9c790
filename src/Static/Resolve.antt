-- ===== src/Static/Resolve.antt =====
-- escapeRegex, resolveSafely and the handler of installStaticMount in src/drogon_server.cpp.
use drogon_r.Prelude.{
  ℕ, Bool, false, ◌||◌, not, List, [], ◌∷◌, ◌++◌, Option, none, some, ◌==◌, leb, if◌then◌else◌,
  length, get_elem?,
}
use drogon_r.Prelude.Bytes.{Bytes, codes, starts_with}
use drogon_r.Static.FilePath.{slash, is_absolute, append_path, lexically_normal}

abbrev pub contains : ℕ → Bytes → Bool
contains c [] = false
contains c (d ∷ s) = (d == c) || contains c s

-- `R"(\.+*?()[]{}|^$)"`.
abbrev pub special : Bytes
special = codes "\\.+*?()[]{}|^$"

unfoldable pub escape_regex : Bytes → Bytes
escape_regex [] = []
escape_regex (c ∷ s) = if contains c special then 92 ∷ c ∷ escape_regex s else c ∷ escape_regex s

-- `while (!s.empty() && s.back() == '/') s.pop_back()`.
unfoldable pub strip_slashes : Bytes → Bytes
strip_slashes [] = []
strip_slashes (c ∷ s) = elim (strip_slashes s) [
  | [] ↦ if c == slash then [] else c ∷ []
  | d ∷ t ↦ c ∷ d ∷ t
]

abbrev pub byte_is : ℕ → Option ℕ → Bool
byte_is c none = false
byte_is c (some d) = d == c

-- `none` where the source returns false, and the path that it stores in `out` otherwise.
unfoldable pub resolve_safely : Bytes → Bytes → Option Bytes
resolve_safely dir rel =
    if contains 0 rel
    then none
    else if is_absolute rel
    then none
    else (let norm_str = lexically_normal (append_path dir rel) in
        let dir_str = strip_slashes (lexically_normal dir) in
        if leb (length norm_str) (length dir_str)
          || (not (starts_with dir_str norm_str)
              || not (byte_is slash (get_elem? norm_str (length dir_str))))
        then none
        else some norm_str)

-- The answer to a request under a mount: 403, or the file at a path (404 if there is none).
pub data Answer : Type 0 where
  forbidden : Answer
  file : Bytes → Answer

unfoldable pub static_handler : Bytes → List Bytes → Answer
static_handler dir params =
    let rel : Bytes = elim params [ [] ↦ [] | p ∷ ps ↦ p ] in
    elim (resolve_safely dir rel) [ none ↦ forbidden | some full ↦ file full ]

-- The regex under which the mount is registered.
unfoldable pub mount_regex : Bytes → Bytes
mount_regex mount = codes "^" ++ (escape_regex mount ++ codes "/(.*)$")
