-- ===== src/Json/RoundTrip.antt =====
-- drogonR_to_json of src/json_writer.cpp, read back.
pub mod Strings
pub mod Documents
pub mod Lexemes
use drogon_r.Prelude.{
  ℕ, zero, suc, ◌+◌, ◌*◌, ◌≤◌, ◌≡◌, refl, ◌⊎◌, inl, inr, ◌∙◌, Bool, true, false, ◌&&◌, List, [],
  ◌∷◌, ◌++◌, Option, none, some, append-nil, arith, length, length-append, ltb, ◌==◌, if◌then◌else◌,
}
use drogon_r.Prelude.Bytes.{Bytes, codes}
use drogon_r.Prelude.Sexp.{Sexp}
use drogon_r.Json.Escape.{escape_byte}
use drogon_r.Json.Writer.{to_json, is_true}
use drogon_r.Json.Document.{
  Doc, Docs, Members, null_doc, bool, number, text, array, object, no_docs, doc, no_members, member,
  escaped, quoted, render, render_docs, render_members, comma, meaning,
}
use drogon_r.Json.Refinement.{emit, write_value-meaning}
use drogon_r.Json.Reader.{read_value, read}
use Documents.{
  is_lexeme, has_lexemes, docs_have_lexemes, members_have_lexemes, size, size_docs, size_members,
  read_value-render,
}
use Lexemes.{OfLexemes, meaning-OfLexemes}

length-lexeme : (l : Bytes) → is_lexeme l ≡ true → 1 ≤ length l
length-lexeme [] h = cc
length-lexeme (c ∷ l) h = omega arith

mutual
  unfolding render has_lexemes size

  size-le : (d : Doc) → has_lexemes d ≡ true → size d + 1 ≤ 2 * length (render d)
  size-le null_doc w = omega arith
  size-le (bool true) w = omega arith
  size-le (bool false) w = omega arith
  size-le (number l) w = omega (arith, length-lexeme l w)
  size-le (text s) w = omega arith
  size-le (array xs) w = omega (arith, size_docs-le true xs w)
  size-le (object ms) w = omega (arith, size_members-le true ms w)

  size_docs-le :
      (first : Bool) (xs : Docs)
      → docs_have_lexemes xs ≡ true
      → size_docs xs + 1 ≤ 2 * length (render_docs first xs)
  size_docs-le first no_docs w = omega arith
  size_docs-le first (doc x xs) w = omega (
    arith,
    length-append (comma first) (render x ++ render_docs false xs),
    length-append (render x) (render_docs false xs),
    size-le x (ground arith),
    size_docs-le false xs (ground arith),
  )

  size_members-le :
      (first : Bool) (ms : Members)
      → members_have_lexemes ms ≡ true
      → size_members ms + 1 ≤ 2 * length (render_members first ms)
  size_members-le first no_members w = omega arith
  size_members-le first (member k x ms) w = omega (
    arith,
    length-append (comma first) (quoted k ++ b':' ∷ (render x ++ render_members false ms)),
    length-append (quoted k) (b':' ∷ (render x ++ render_members false ms)),
    length-append (render x) (render_members false ms),
    size-le x (ground arith),
    size_members-le false ms (ground arith),
  )

-- Reading the text of a document gives the document, if its numbers are lexemes.
pub read-render : (d : Doc) → has_lexemes d ≡ true → read (render d) ≡ some d
unfolding read
read-render d w =
    let e = read_value-render (2 * length (render d)) d [] (omega (arith, size-le d w)) w refl in
    ground (arith, e, append-nil (render d))

outcome :
    {r : Option Bytes} (m : Option Doc)
    → r ≡ emit [] m
    → OfLexemes m
    → ((r ≡ none) × (m ≡ none))
      ⊎ ((s : Bytes) × (d : Doc) × (r ≡ some s) × (m ≡ some d) × (read s ≡ some d))
outcome none e w = inl (e, refl)
outcome (some d) e w = inr (render d, d, e, refl, read-render d w)

-- The text that `to_json` returns is read back as the document of the value, so the output is
-- always one well-formed JSON document that stands for the value, and the two agree on which
-- values are refused. The text of `%.17g` at a finite double is assumed to be a number's.
pub to_json-read :
    (format : ℕ → Bytes)
    → ((v : ℕ) → is_lexeme (format v) ≡ true)
    → (x auto_unbox : Sexp)
    → ((to_json format x auto_unbox ≡ none) × (meaning format x (is_true auto_unbox) 0 ≡ none))
      ⊎ ((s : Bytes) × (d : Doc) × (to_json format x auto_unbox ≡ some s)
          × (meaning format x (is_true auto_unbox) 0 ≡ some d)
          × (read s ≡ some d))
unfolding to_json
to_json-read format h x auto_unbox =
    outcome (meaning format x (is_true auto_unbox) 0)
      (write_value-meaning format [] x (is_true auto_unbox) 0)
      (meaning-OfLexemes format h x (is_true auto_unbox) 0)
