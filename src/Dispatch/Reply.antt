-- ===== src/Dispatch/Reply.antt =====
-- makeErrorResponse, buildResponse and parseStreamHeaders in src/r_dispatcher.cpp.
use drogon_r.Prelude.{
  ℕ, ◌+◌, Bool, ◌&&◌, List, [], ◌∷◌, ◌++◌, Option, none, some, leb, if◌then◌else◌,
}
use drogon_r.Prelude.Bytes.{Bytes, codes, bytes_eq}
use drogon_r.Prelude.Sexp.{
  Sexp, reals, integers, strings, raws, list, null, Elements, nil, cons, texts, absent, other_type,
  RString, char, ℤ, pos, negsuc, Real,
}

pub data ContentType : Type 0 where
  default_type text_plain : ContentType
  custom : Bytes → ContentType

-- `headers` are the calls of addHeader.
pub record Response : Type 0 where
  pub status : ℕ
  pub content_type : ContentType
  pub body : Bytes
  pub headers : List (Bytes × Bytes)

unfoldable pub make_error_response : Bytes → Response
make_error_response reason = record {
  status = 500;
  content_type = text_plain;
  body = reason;
  headers = [];
}

abbrev pub ok_response : Response
ok_response = record { status = 200; content_type = default_type; body = []; headers = [] }

-- `tolower` of an ASCII byte, and strcasecmp against Content-Type.
abbrev pub lower : ℕ → ℕ
lower c = if leb 65 c && leb c 90 then c + 32 else c

abbrev pub lower_all : Bytes → Bytes
lower_all [] = []
lower_all (c ∷ cs) = lower c ∷ lower_all cs

unfoldable pub header_of : Bytes → Bool
unfolding bytes_eq
header_of name = bytes_eq (lower_all name) (codes "content-type")

abbrev pub is_present : Sexp → Option Sexp
is_present null = none
is_present x = some x

pub record Fields : Type 0 where
  pub status : Option Sexp
  pub body : Option Sexp
  pub headers : Option Sexp

-- The loop over the names, in which a later element replaces an earlier one.
unfoldable pub read_fields : List RString → Elements → Fields → Fields
unfolding bytes_eq
read_fields [] xs f = f
read_fields (n ∷ ns) nil f = f
read_fields (n ∷ ns) (cons x xs) f = read_fields ns xs (
    if bytes_eq (char n) (codes "status")
    then record f { status = is_present x }
    else if bytes_eq (char n) (codes "body")
    then record f { body = is_present x }
    else if bytes_eq (char n) (codes "headers")
    then record f { headers = is_present x }
    else f)

-- The first element of a numeric vector, which is read without a look at its length. What the read
-- finds behind an empty one is `beyond`: the standard does not say, and R may stop the process.
abbrev pub status_code : (Real → ℤ) → ℤ → Option Sexp → ℤ
status_code to_int beyond (some (integers a (i ∷ is))) = i
status_code to_int beyond (some (integers a [])) = beyond
status_code to_int beyond (some (reals a (x ∷ xs))) = to_int x
status_code to_int beyond (some (reals a [])) = beyond
status_code to_int beyond x = pos 0

abbrev pub valid_status : ℤ → ℕ
valid_status (pos n) = if leb 100 n && leb n 599 then n else 200
valid_status (negsuc n) = 200

abbrev pub body_of : Option Sexp → Bytes
body_of (some (strings a (s ∷ ss))) = char s
body_of (some (raws a bs)) = bs
body_of x = []

-- A header's value: the first string of a character vector that has one.
abbrev pub header_value : Sexp → Option Bytes
header_value (strings a (s ∷ ss)) = some (char s)
header_value x = none

unfoldable pub set_headers : List RString → Elements → Response → Response
unfolding header_of
set_headers [] xs r = r
set_headers (n ∷ ns) nil r = r
set_headers (n ∷ ns) (cons x xs) r = set_headers ns xs (elim (header_value x) [
  | none ↦ r
  | some v ↦
      if header_of (char n)
      then record r { content_type = custom v }
      else record r { headers = r.headers ++ (char n, v) ∷ [] }
])

abbrev pub with_headers : Option Sexp → Response → Response
with_headers (some (list a xs)) r = elim a.names [
  | texts ns ↦ set_headers ns xs r
  | absent ↦ r
  | other_type n ↦ r
]
with_headers x r = r

abbrev pub from_fields : (Real → ℤ) → ℤ → Fields → Response
from_fields to_int beyond f = with_headers f.headers (record {
  status = valid_status (status_code to_int beyond f.status);
  content_type = default_type;
  body = body_of f.body;
  headers = [];
})

abbrev pub no_fields : Fields
no_fields = record { status = none; body = none; headers = none }

unfoldable pub build_response : (Real → ℤ) → ℤ → Sexp → Response
unfolding make_error_response read_fields set_headers
build_response to_int beyond (strings a (s ∷ [])) = record ok_response {
  body = char s;
  content_type = text_plain;
}
build_response to_int beyond (list a xs) = elim a.names [
  | texts ns ↦ from_fields to_int beyond (read_fields ns xs no_fields)
  | absent ↦ make_error_response (codes "R handler returned an unnamed list")
  | other_type n ↦ make_error_response (codes "R handler returned an unnamed list")
]
build_response to_int beyond x =
    make_error_response (codes "R handler returned an unsupported value")

unfoldable pub header_pairs : List RString → Elements → List (Bytes × Bytes)
header_pairs [] xs = []
header_pairs (n ∷ ns) nil = []
header_pairs (n ∷ ns) (cons x xs) = elim (header_value x) [
  | none ↦ header_pairs ns xs
  | some v ↦ (char n, v) ∷ header_pairs ns xs
]

unfoldable pub parse_stream_headers : Option Sexp → List (Bytes × Bytes)
unfolding header_pairs
parse_stream_headers (some (list a xs)) = elim a.names [
  | texts ns ↦ header_pairs ns xs
  | absent ↦ []
  | other_type n ↦ []
]
parse_stream_headers x = []
