-- ===== src/Json/RoundTrip/Documents.antt =====
-- A rendered document is read back, by induction on the document.
use drogon_r.Prelude.{
  ℕ, zero, suc, ◌+◌, ◌≤◌, ◌≡◌, refl, ap, ◌∙◌, Bool, true, false, ◌&&◌, [], ◌∷◌, ◌++◌, some,
  append_assoc, arith, ◌==◌, if◌then◌else◌,
}
use drogon_r.Prelude.Bytes.{Bytes}
use drogon_r.Json.Document.{
  Doc, Docs, Members, null_doc, bool, number, text, array, object, no_docs, doc, no_members, member,
  escaped, quoted, render, render_docs, render_members,
}
use drogon_r.Json.Reader.{
  is_number_byte, span_number, read_number, skip, mapped, then_read, read_key, read_value,
  read_docs, read_members,
}
use drogon_r.Json.RoundTrip.Strings.{read_string-escaped}

abbrev pub all_number_bytes : Bytes → Bool
all_number_bytes [] = true
all_number_bytes (c ∷ s) = is_number_byte c && all_number_bytes s

-- A number's text: not empty, and of the bytes that a number may hold.
abbrev pub is_lexeme : Bytes → Bool
is_lexeme [] = false
is_lexeme (c ∷ s) = is_number_byte c && all_number_bytes s

-- No number goes on in the text.
abbrev pub ends_number : Bytes → Bool
ends_number [] = true
ends_number (c ∷ s) = if is_number_byte c then false else true

unfoldable mutual
  pub has_lexemes : Doc → Bool
  has_lexemes null_doc = true
  has_lexemes (bool b) = true
  has_lexemes (number l) = is_lexeme l
  has_lexemes (text s) = true
  has_lexemes (array xs) = docs_have_lexemes xs
  has_lexemes (object ms) = members_have_lexemes ms

  pub docs_have_lexemes : Docs → Bool
  docs_have_lexemes no_docs = true
  docs_have_lexemes (doc x xs) = has_lexemes x && docs_have_lexemes xs

  pub members_have_lexemes : Members → Bool
  members_have_lexemes no_members = true
  members_have_lexemes (member k x ms) = has_lexemes x && members_have_lexemes ms

unfoldable mutual
  pub size : Doc → ℕ
  size null_doc = 1
  size (bool b) = 1
  size (number l) = 1
  size (text s) = 1
  size (array xs) = suc (size_docs xs)
  size (object ms) = suc (size_members ms)

  pub size_docs : Docs → ℕ
  size_docs no_docs = 1
  size_docs (doc x xs) = suc (size x + size_docs xs)

  pub size_members : Members → ℕ
  size_members no_members = 1
  size_members (member k x ms) = suc (size x + size_members ms)

span_number_lem :
    (l rest : Bytes)
    → all_number_bytes l ≡ true
    → ends_number rest ≡ true
    → span_number (l ++ rest) ≡ (l, rest)
unfolding span_number
span_number_lem [] [] h e = refl
span_number_lem [] (c ∷ rest) h e = ground arith
span_number_lem (c ∷ l) rest h e = ground (arith, span_number_lem l rest)

read_number_lem :
    (l rest : Bytes)
    → is_lexeme l ≡ true
    → ends_number rest ≡ true
    → read_number (l ++ rest) ≡ some (number l, rest)
unfolding read_number
read_number_lem [] rest h e = cc
read_number_lem (c ∷ l) rest h e = ground (arith, span_number_lem (c ∷ l) rest h e)

read_value-number :
    (f : ℕ) (l rest : Bytes)
    → is_lexeme l ≡ true
    → ends_number rest ≡ true
    → read_value (suc f) (l ++ rest) ≡ some (number l, rest)
unfolding read_value
read_value-number f [] rest h e = cc
read_value-number f (c ∷ l) rest h e = ground (arith, read_number_lem (c ∷ l) rest)

read_value-text :
    (f : ℕ) (s rest : Bytes) → read_value (suc f) (quoted s ++ rest) ≡ some (text s, rest)
unfolding read_value
read_value-text f s rest =
    rw (append_assoc (escaped s) (b'"' ∷ []) rest, read_string-escaped s rest)

read_key_lem : (k rest : Bytes) → read_key (quoted k ++ (b':' ∷ rest)) ≡ some (k, rest)
unfolding read_key skip
read_key_lem k rest =
    rw (append_assoc (escaped k) (b'"' ∷ []) (b':' ∷ rest))
      (ground (arith, read_string-escaped k (b':' ∷ rest)))

-- A rendered list ends with a bracket or goes on with a comma, so no number runs on into it.
render_docs-ends : (xs : Docs) (rest : Bytes) → ends_number (render_docs false xs ++ rest) ≡ true
unfolding render
render_docs-ends no_docs rest = refl
render_docs-ends (doc x xs) rest = refl

render_members-ends :
    (ms : Members) (rest : Bytes) → ends_number (render_members false ms ++ rest) ≡ true
unfolding render
render_members-ends no_members rest = refl
render_members-ends (member k x ms) rest = refl

-- The first byte of a document is no bracket that would end a list.
head-render :
    (d : Doc) (rest : Bytes)
    → has_lexemes d ≡ true
    → (c : ℕ) × (s : Bytes) × (render d ++ rest ≡ c ∷ s) × ((c == b']') ≡ false)
unfolding render has_lexemes
head-render null_doc rest w = (_, _, refl, refl)
head-render (bool true) rest w = (_, _, refl, refl)
head-render (bool false) rest w = (_, _, refl, refl)
head-render (number []) rest w = cc
head-render (number (c ∷ l)) rest w = (c, _, refl, ground arith)
head-render (text s) rest w = (_, _, refl, refl)
head-render (array xs) rest w = (_, _, refl, refl)
head-render (object ms) rest w = (_, _, refl, refl)

read_docs-first :
    (f c : ℕ) (t s : Bytes)
    → t ≡ c ∷ s
    → (c == b']') ≡ false
    → read_docs (suc f) true t
      ≡ then_read (read_value f t) (λ x rest. mapped (doc x) (read_docs f false rest))
unfolding read_value
read_docs-first f c t s e h = rw e (rw (h, read_docs))

-- One item of a list, given how its document and the rest of the list are read.
docs_round :
    (f : ℕ) (x : Doc) (xs : Docs) (t middle rest : Bytes)
    → read_value f t ≡ some (x, middle)
    → read_docs f false middle ≡ some (xs, rest)
    → then_read (read_value f t) (λ y r. mapped (doc y) (read_docs f false r))
      ≡ some (doc x xs, rest)
docs_round f x xs t middle rest e h = rw e (rw h)

members_round :
    (f : ℕ) (k : Bytes) (x : Doc) (ms : Members) (t middle rest : Bytes)
    → read_value f t ≡ some (x, middle)
    → read_members f false middle ≡ some (ms, rest)
    → then_read (read_key (quoted k ++ b':' ∷ t)) (λ j value.
      then_read (read_value f value) (λ y r. mapped (member j y) (read_members f false r)))
      ≡ some (member k x ms, rest)
members_round f k x ms t middle rest e h = rw (read_key_lem k t) (rw e (rw h))

mutual
  unfolding read_value render has_lexemes size skip

  pub read_value-render :
      (f : ℕ) (d : Doc) (rest : Bytes)
      → size d ≤ f
      → has_lexemes d ≡ true
      → ends_number rest ≡ true
      → read_value f (render d ++ rest) ≡ some (d, rest)
  read_value-render zero null_doc rest h w e = absurd (omega arith)
  read_value-render zero (bool b) rest h w e = absurd (omega arith)
  read_value-render zero (number l) rest h w e = absurd (omega arith)
  read_value-render zero (text s) rest h w e = absurd (omega arith)
  read_value-render zero (array xs) rest h w e = absurd (omega arith)
  read_value-render zero (object ms) rest h w e = absurd (omega arith)
  read_value-render (suc f) null_doc rest h w e = refl
  read_value-render (suc f) (bool true) rest h w e = refl
  read_value-render (suc f) (bool false) rest h w e = refl
  read_value-render (suc f) (number l) rest h w e = read_value-number f l rest w e
  read_value-render (suc f) (text s) rest h w e = read_value-text f s rest
  read_value-render (suc f) (array xs) rest h w e =
      ap (mapped array) (read_docs-render f true xs rest (omega arith) w)
  read_value-render (suc f) (object ms) rest h w e =
      ap (mapped object) (read_members-render f true ms rest (omega arith) w)

  read_docs-render :
      (f : ℕ) (first : Bool) (xs : Docs) (rest : Bytes)
      → size_docs xs ≤ f
      → docs_have_lexemes xs ≡ true
      → read_docs f first (render_docs first xs ++ rest) ≡ some (xs, rest)
  read_docs-render zero first no_docs rest h w = absurd (omega arith)
  read_docs-render zero first (doc x xs) rest h w = absurd (omega arith)
  read_docs-render (suc f) first no_docs rest h w = refl
  read_docs-render (suc f) true (doc x xs) rest h w =
      let (c, s, e, ne) = head-render x (render_docs false xs ++ rest) (ground arith) in
      rw (append_assoc (render x) (render_docs false xs) rest) (
        read_docs-first f c _ s e ne
        ∙ docs_round f x xs _ (render_docs false xs ++ rest) rest
            (read_value-render f x (render_docs false xs ++ rest) (omega arith) (ground arith)
              (render_docs-ends xs rest))
            (read_docs-render f false xs rest (omega arith) (ground arith)))
  read_docs-render (suc f) false (doc x xs) rest h w =
      rw (append_assoc (render x) (render_docs false xs) rest) (
        docs_round f x xs _ (render_docs false xs ++ rest) rest
          (read_value-render f x (render_docs false xs ++ rest) (omega arith) (ground arith)
            (render_docs-ends xs rest))
          (read_docs-render f false xs rest (omega arith) (ground arith)))

  read_members-render :
      (f : ℕ) (first : Bool) (ms : Members) (rest : Bytes)
      → size_members ms ≤ f
      → members_have_lexemes ms ≡ true
      → read_members f first (render_members first ms ++ rest) ≡ some (ms, rest)
  read_members-render zero first no_members rest h w = absurd (omega arith)
  read_members-render zero first (member k x ms) rest h w = absurd (omega arith)
  read_members-render (suc f) first no_members rest h w = refl
  read_members-render (suc f) true (member k x ms) rest h w =
      rw
        (
          append_assoc (quoted k) (b':' ∷ (render x ++ render_members false ms)) rest,
          append_assoc (render x) (render_members false ms) rest,
        )
        (members_round f k x ms _ (render_members false ms ++ rest) rest
          (read_value-render f x (render_members false ms ++ rest) (omega arith) (ground arith)
            (render_members-ends ms rest))
          (read_members-render f false ms rest (omega arith) (ground arith)))
  read_members-render (suc f) false (member k x ms) rest h w =
      rw
        (
          append_assoc (quoted k) (b':' ∷ (render x ++ render_members false ms)) rest,
          append_assoc (render x) (render_members false ms) rest,
        )
        (members_round f k x ms _ (render_members false ms ++ rest) rest
          (read_value-render f x (render_members false ms ++ rest) (omega arith) (ground arith)
            (render_members-ends ms rest))
          (read_members-render f false ms rest (omega arith) (ground arith)))
