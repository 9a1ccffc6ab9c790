-- ===== src/Json/RoundTrip/Lexemes.antt =====
-- The numbers of a value's document are well formed: `%d` prints a lexeme.
use drogon_r.Prelude.{
  ℕ, zero, suc, ◌+◌, ◌/◌, ◌%◌, ◌≡◌, refl, Bool, true, false, List, [], ◌∷◌, ◌++◌, Option, none,
  some, arith, ltb, ◌==◌, if◌then◌else◌, length,
}
use drogon_r.Prelude.Bytes.{Bytes}
use drogon_r.Prelude.Sexp.{
  ℤ, pos, negsuc, Real, na_real, nan, pos_inf, neg_inf, finite, RString, Attrs, Sexp, null,
  logicals, integers, reals, strings, raws, list, closure, external_ptr, other, Elements, nil, cons,
  has_class, count, absent, texts, other_type,
}
use drogon_r.Json.Escape.{decimal, print_int}
use drogon_r.Json.Writer.{max_depth}
use drogon_r.Json.Document.{
  Doc, Docs, Members, meaning, meaning_all, meaning_named, bool_doc, int_doc, string_doc,
  double_doc, docs, vector_doc, atomic_doc, add_doc, add_member, object_of, array_of,
}
use drogon_r.Json.RoundTrip.Documents.{
  is_lexeme, all_number_bytes, has_lexemes, docs_have_lexemes, members_have_lexemes,
}

abbrev pub OfLexemes : Option Doc → Type 0
OfLexemes none = Unit {0}
OfLexemes (some d) = has_lexemes d ≡ true

abbrev DocsOfLexemes : Option Docs → Type 0
DocsOfLexemes none = Unit {0}
DocsOfLexemes (some ds) = docs_have_lexemes ds ≡ true

abbrev MembersOfLexemes : Option Members → Type 0
MembersOfLexemes none = Unit {0}
MembersOfLexemes (some ms) = members_have_lexemes ms ≡ true

all_number_bytes-append :
    (s t : Bytes)
    → all_number_bytes s ≡ true
    → all_number_bytes t ≡ true
    → all_number_bytes (s ++ t) ≡ true
all_number_bytes-append [] t h k = k
all_number_bytes-append (c ∷ s) t h k = ground (arith, all_number_bytes-append s t)

is_lexeme-append :
    (s t : Bytes) → is_lexeme s ≡ true → all_number_bytes t ≡ true → is_lexeme (s ++ t) ≡ true
is_lexeme-append [] t h k = cc
is_lexeme-append (c ∷ s) t h k = ground (arith, all_number_bytes-append s t)

decimal-digits : (f n : ℕ) → all_number_bytes (decimal f n) ≡ true
unfolding decimal
decimal-digits zero n = refl
decimal-digits (suc f) n = ground (
  arith,
  decimal-digits f (n / 10),
  all_number_bytes-append (decimal f (n / 10)) ((48 + n % 10) ∷ []),
)

decimal-lexeme : (f n : ℕ) → is_lexeme (decimal (suc f) n) ≡ true
unfolding decimal
decimal-lexeme zero n = ground arith
decimal-lexeme (suc f) n = ground (
  arith,
  decimal-lexeme f (n / 10),
  is_lexeme-append (decimal (suc f) (n / 10)) ((48 + n % 10) ∷ []),
)

print_int-lexeme : (v : ℤ) → is_lexeme (print_int v) ≡ true
unfolding print_int
print_int-lexeme (pos n) = decimal-lexeme 9 n
print_int-lexeme (negsuc n) = decimal-digits 10 (n + 1)

bool_doc-OfLexemes : (v : ℤ) → OfLexemes (some (bool_doc v))
unfolding has_lexemes
bool_doc-OfLexemes v = ground arith

int_doc-OfLexemes : (v : ℤ) → OfLexemes (some (int_doc v))
unfolding has_lexemes
int_doc-OfLexemes v = ground (arith, print_int-lexeme v)

string_doc-OfLexemes : (v : RString) → OfLexemes (some (string_doc v))
unfolding has_lexemes
string_doc-OfLexemes none = refl
string_doc-OfLexemes (some s) = refl

module _ {ℓ} {A : Type ℓ} (f : A → Doc) (h : (v : A) → OfLexemes (some (f v))) where
  docs-OfLexemes : (vs : List A) → docs_have_lexemes (docs f vs) ≡ true
  unfolding has_lexemes
  docs-OfLexemes [] = refl
  docs-OfLexemes (v ∷ vs) = ground (arith, h v, docs-OfLexemes vs)

  vector_doc-OfLexemes : (unbox : Bool) (vs : List A) → has_lexemes (vector_doc f unbox vs) ≡ true
  unfolding has_lexemes
  vector_doc-OfLexemes true (v ∷ []) = h v
  vector_doc-OfLexemes true [] = refl
  vector_doc-OfLexemes true (v ∷ w ∷ vs) = docs-OfLexemes (v ∷ w ∷ vs)
  vector_doc-OfLexemes false vs = docs-OfLexemes vs

  atomic-OfLexemes :
      (depth : ℕ) (a : Attrs) (unbox : Bool) (vs : List A)
      → OfLexemes (if ltb max_depth depth then none else atomic_doc f a unbox vs)
  atomic-OfLexemes depth a unbox vs = ground (arith, vector_doc-OfLexemes unbox vs)

add_doc-OfLexemes :
    (x : Option Doc) (xs : Option Docs)
    → OfLexemes x
    → DocsOfLexemes xs
    → DocsOfLexemes (add_doc x xs)
unfolding has_lexemes
add_doc-OfLexemes none xs h k = tt
add_doc-OfLexemes (some x) none h k = tt
add_doc-OfLexemes (some x) (some xs) h k = ground arith

add_member-OfLexemes :
    (name : RString) (x : Option Doc) (ms : Option Members)
    → OfLexemes x
    → MembersOfLexemes ms
    → MembersOfLexemes (add_member name x ms)
unfolding has_lexemes
add_member-OfLexemes (some (c ∷ s)) (some x) (some ms) h k = ground arith
add_member-OfLexemes (some (c ∷ s)) (some x) none h k = tt
add_member-OfLexemes (some (c ∷ s)) none ms h k = tt
add_member-OfLexemes (some []) x ms h k = tt
add_member-OfLexemes none x ms h k = tt

array_of-OfLexemes : (xs : Option Docs) → DocsOfLexemes xs → OfLexemes (array_of xs)
unfolding has_lexemes
array_of-OfLexemes none h = tt
array_of-OfLexemes (some xs) h = h

object_of-OfLexemes : (ms : Option Members) → MembersOfLexemes ms → OfLexemes (object_of ms)
unfolding has_lexemes
object_of-OfLexemes none h = tt
object_of-OfLexemes (some ms) h = h

module _ (format : ℕ → Bytes) (h : (v : ℕ) → is_lexeme (format v) ≡ true) where
  double_doc-OfLexemes : (v : Real) → OfLexemes (some (double_doc format v))
  unfolding has_lexemes
  double_doc-OfLexemes na_real = refl
  double_doc-OfLexemes nan = refl
  double_doc-OfLexemes pos_inf = refl
  double_doc-OfLexemes neg_inf = refl
  double_doc-OfLexemes (finite v) = h v

  list-OfLexemes :
      (depth : ℕ) (a : Attrs) (n : ℕ) (named : List RString → Option Doc) (all : Option Doc)
      → ((ns : List RString) → OfLexemes (named ns))
      → OfLexemes all
      → OfLexemes (
          if ltb max_depth depth then none else if has_class a then none else elim a.names [
            | absent ↦ all
            | texts names ↦ if length names == n then named names else none
            | other_type m ↦ none
          ])
  list-OfLexemes depth a n named all k e = grind (arith, k)

  mutual
    unfolding meaning has_lexemes

    pub meaning-OfLexemes :
        (x : Sexp) (unbox : Bool) (depth : ℕ) → OfLexemes (meaning format x unbox depth)
    meaning-OfLexemes null unbox depth = ground arith
    meaning-OfLexemes (logicals a vs) unbox depth =
        atomic-OfLexemes bool_doc bool_doc-OfLexemes depth a unbox vs
    meaning-OfLexemes (integers a vs) unbox depth =
        atomic-OfLexemes int_doc int_doc-OfLexemes depth a unbox vs
    meaning-OfLexemes (reals a vs) unbox depth =
        atomic-OfLexemes (double_doc format) double_doc-OfLexemes depth a unbox vs
    meaning-OfLexemes (strings a vs) unbox depth =
        atomic-OfLexemes string_doc string_doc-OfLexemes depth a unbox vs
    meaning-OfLexemes (list a xs) unbox depth =
        list-OfLexemes depth a (count xs) _ _
          (λ ns.
            object_of-OfLexemes (meaning_named format ns xs unbox depth)
              (meaning_named-OfLexemes ns xs unbox depth))
          (array_of-OfLexemes (meaning_all format xs unbox depth)
            (meaning_all-OfLexemes xs unbox depth))
    meaning-OfLexemes (raws a bs) unbox depth = tt
    meaning-OfLexemes (closure c) unbox depth = tt
    meaning-OfLexemes (external_ptr p) unbox depth = tt
    meaning-OfLexemes (other n) unbox depth = tt

    meaning_all-OfLexemes :
        (xs : Elements) (unbox : Bool) (depth : ℕ)
        → DocsOfLexemes (meaning_all format xs unbox depth)
    meaning_all-OfLexemes nil unbox depth = refl
    meaning_all-OfLexemes (cons x xs) unbox depth =
        add_doc-OfLexemes (meaning format x unbox (suc depth)) (meaning_all format xs unbox depth)
          (meaning-OfLexemes x unbox (suc depth)) (meaning_all-OfLexemes xs unbox depth)

    meaning_named-OfLexemes :
        (names : List RString) (xs : Elements) (unbox : Bool) (depth : ℕ)
        → MembersOfLexemes (meaning_named format names xs unbox depth)
    meaning_named-OfLexemes names nil unbox depth = refl
    meaning_named-OfLexemes [] (cons x xs) unbox depth = tt
    meaning_named-OfLexemes (name ∷ names) (cons x xs) unbox depth =
        add_member-OfLexemes name (meaning format x unbox (suc depth))
          (meaning_named format names xs unbox depth) (meaning-OfLexemes x unbox (suc depth))
          (meaning_named-OfLexemes names xs unbox depth)
