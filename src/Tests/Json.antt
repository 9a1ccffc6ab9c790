-- ===== src/Tests/Json.antt =====
-- Values and texts of src/json_writer.cpp.
use drogon_r.Prelude.{ℕ, ◌≡◌, refl, ◌⊎◌, true, [], ◌∷◌, none, some}
use drogon_r.Prelude.Bytes.{Bytes, codes}
use drogon_r.Prelude.Sexp.{
  Sexp, logicals, integers, reals, strings, list, nil, cons, texts, absent, plain, pos, negsuc,
  finite,
}
use drogon_r.Json.Document.{Doc, meaning}
use drogon_r.Json.Writer.{to_json, is_true, write_value}
use drogon_r.Json.Reader.{read}
use drogon_r.Json.Refinement.{emit, write_value-meaning}
use drogon_r.Json.RoundTrip.{to_json-read}

-- list(name = "a\"\\", n = c(1L, -2L), x = 0.5), and TRUE.
abbrev sample : Sexp
sample =
    list
      (record {
        class = absent;
        names = texts (some (codes "name") ∷ some (codes "n") ∷ some (codes "x") ∷ []);
      })
      (cons (strings plain (some (codes "a\"\\") ∷ []))
        (cons (integers plain (pos 1 ∷ negsuc 1 ∷ [])) (cons (reals plain (finite 1 ∷ [])) nil)))

abbrev yes : Sexp
yes = logicals plain (pos 1 ∷ [])

abbrev half : ℕ → Bytes
half v = codes "0.5"

to_json-read_example :
    ((to_json half sample yes ≡ none) × (meaning half sample (is_true yes) 0 ≡ none))
    ⊎ ((s : Bytes) × (d : Doc) × (to_json half sample yes ≡ some s)
        × (meaning half sample (is_true yes) 0 ≡ some d)
        × (read s ≡ some d))
to_json-read_example = to_json-read half (λ v. refl) sample yes

write_value-meaning_example :
    write_value half (codes "x") sample true 0 ≡ emit (codes "x") (meaning half sample true 0)
write_value-meaning_example = write_value-meaning half (codes "x") sample true 0
