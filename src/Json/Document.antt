-- ===== src/Json/Document.antt =====
-- JSON documents, their compact text, and the document that an R value stands for. It describes
-- what src/json_writer.cpp should write, without buffers and loops.
use drogon_r.Prelude.{
  ℕ, suc, Bool, true, false, List, [], ◌∷◌, ◌++◌, Option, none, some, ltb, ◌==◌, if◌then◌else◌,
  length,
}
use drogon_r.Prelude.Bytes.{Bytes, codes}
use drogon_r.Prelude.Sexp.{
  ℤ, is_na, Real, na_real, nan, pos_inf, neg_inf, finite, RString, absent, texts, other_type, Attrs,
  Sexp, null, logicals, integers, reals, strings, raws, list, closure, external_ptr, other,
  Elements, nil, cons, count, has_class,
}
use drogon_r.Json.Escape.{escape_byte, print_int, is_zero}
use drogon_r.Json.Writer.{max_depth}

mutual
  pub data Doc : Type 0 where
    null_doc : Doc
    bool : Bool → Doc
    number : Bytes → Doc
    text : Bytes → Doc
    array : Docs → Doc
    object : Members → Doc

  pub data Docs : Type 0 where
    no_docs : Docs
    doc : Doc → Docs → Docs

  pub data Members : Type 0 where
    no_members : Members
    member : Bytes → Doc → Members → Members

unfoldable pub escaped : Bytes → Bytes
escaped [] = []
escaped (c ∷ s) = escape_byte c ++ escaped s

abbrev pub quoted : Bytes → Bytes
quoted s = b'"' ∷ (escaped s ++ b'"' ∷ [])

-- The comma before every item but the first.
abbrev pub comma : Bool → Bytes
comma first = if first then [] else b',' ∷ []

unfoldable mutual
  pub render : Doc → Bytes
  render null_doc = codes "null"
  render (bool true) = codes "true"
  render (bool false) = codes "false"
  render (number lexeme) = lexeme
  render (text s) = quoted s
  render (array xs) = b'[' ∷ render_docs true xs
  render (object ms) = b'{' ∷ render_members true ms

  pub render_docs : Bool → Docs → Bytes
  render_docs first no_docs = b']' ∷ []
  render_docs first (doc x xs) = comma first ++ (render x ++ render_docs false xs)

  pub render_members : Bool → Members → Bytes
  render_members first no_members = b'}' ∷ []
  render_members first (member k x ms) =
      comma first ++ (quoted k ++ b':' ∷ (render x ++ render_members false ms))

abbrev pub bool_doc : ℤ → Doc
bool_doc v = if is_na v then null_doc else if is_zero v then bool false else bool true

abbrev pub int_doc : ℤ → Doc
int_doc v = if is_na v then text (codes "NA") else number (print_int v)

abbrev pub string_doc : RString → Doc
string_doc none = null_doc
string_doc (some s) = text s

abbrev pub docs {ℓ} : {A : Type ℓ} → (A → Doc) → List A → Docs
docs f [] = no_docs
docs f (v ∷ vs) = doc (f v) (docs f vs)

-- One element stands for itself where vectors are unboxed; any other vector is an array.
abbrev pub vector_doc {ℓ} : {A : Type ℓ} → (A → Doc) → Bool → List A → Doc
vector_doc f true (v ∷ []) = f v
vector_doc f unbox vs = array (docs f vs)

abbrev pub atomic_doc {ℓ} : {A : Type ℓ} → (A → Doc) → Attrs → Bool → List A → Option Doc
atomic_doc f a unbox vs = if has_class a then none else some (vector_doc f unbox vs)

abbrev pub add_doc : Option Doc → Option Docs → Option Docs
add_doc (some x) (some xs) = some (doc x xs)
add_doc none xs = none
add_doc (some x) none = none

abbrev pub add_member : RString → Option Doc → Option Members → Option Members
add_member (some (c ∷ s)) (some x) (some ms) = some (member (c ∷ s) x ms)
add_member _ _ _ = none

abbrev pub object_of : Option Members → Option Doc
object_of none = none
object_of (some ms) = some (object ms)

abbrev pub array_of : Option Docs → Option Doc
array_of none = none
array_of (some xs) = some (array xs)

module _ (format : ℕ → Bytes) where
  abbrev pub double_doc : Real → Doc
  double_doc na_real = text (codes "NA")
  double_doc nan = text (codes "NaN")
  double_doc pos_inf = text (codes "Inf")
  double_doc neg_inf = text (codes "-Inf")
  double_doc (finite v) = number (format v)

  -- The document of an R value; `none` for what is left to jsonlite.
  unfoldable mutual
    pub meaning : Sexp → Bool → ℕ → Option Doc
    meaning null unbox depth =
        if ltb max_depth depth then none else if ltb 0 depth then none else some (object no_members)
    meaning (logicals a vs) unbox depth =
        if ltb max_depth depth then none else atomic_doc bool_doc a unbox vs
    meaning (integers a vs) unbox depth =
        if ltb max_depth depth then none else atomic_doc int_doc a unbox vs
    meaning (reals a vs) unbox depth =
        if ltb max_depth depth then none else atomic_doc double_doc a unbox vs
    meaning (strings a vs) unbox depth =
        if ltb max_depth depth then none else atomic_doc string_doc a unbox vs
    meaning (list a xs) unbox depth =
        let named = λ (names : List RString). object_of (meaning_named names xs unbox depth) in
        let plain_array = array_of (meaning_all xs unbox depth) in
        if ltb max_depth depth then none else if has_class a then none else elim a.names [
          | absent ↦ plain_array
          | texts names ↦ if length names == count xs then named names else none
          | other_type n ↦ none
        ]
    meaning (raws a bs) unbox depth = none
    meaning (closure c) unbox depth = none
    meaning (external_ptr p) unbox depth = none
    meaning (other n) unbox depth = none

    pub meaning_all : Elements → Bool → ℕ → Option Docs
    meaning_all nil unbox depth = some no_docs
    meaning_all (cons x xs) unbox depth =
        add_doc (meaning x unbox (suc depth)) (meaning_all xs unbox depth)

    pub meaning_named : List RString → Elements → Bool → ℕ → Option Members
    meaning_named names nil unbox depth = some no_members
    meaning_named [] (cons x xs) unbox depth = none
    meaning_named (name ∷ names) (cons x xs) unbox depth =
        add_member name (meaning x unbox (suc depth)) (meaning_named names xs unbox depth)
