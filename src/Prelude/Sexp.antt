-- ===== src/Prelude/Sexp.antt =====
-- R values as the C++ code sees them through the R API: a type, the data and two attributes.
use Prim.Native.Nat.{ℕ, suc}
use mathlib.Core.Bool.{Bool, false}
use mathlib.Core.List.{List, [], ◌∷◌}
use mathlib.Core.Option.{Option, none, some}
use drogon_r.Prelude.Tests.{◌==◌, ltb}
use drogon_r.Prelude.Lists.{length}
use drogon_r.Prelude.Bytes.{Bytes, codes}

-- A C `int`: `negsuc n` is -(n + 1).
pub data ℤ : Type 0 where
  pos : ℕ → ℤ
  negsuc : ℕ → ℤ

-- `NA_INTEGER` and `NA_LOGICAL` are both INT_MIN.
abbrev pub is_na : ℤ → Bool
is_na (pos n) = false
is_na (negsuc n) = n == 2147483647

-- A `double`, by the cases that the code tells apart; a finite one by its bit pattern.
pub data Real : Type 0 where
  na_real nan pos_inf neg_inf : Real
  finite : ℕ → Real

-- A CHARSXP; `none` is `NA_STRING`.
abbrev pub RString : Type 0
RString = Option Bytes

-- `CHAR(x)`; that of `NA_STRING` is the text NA.
abbrev pub char : RString → Bytes
char none = codes "NA"
char (some s) = s

-- An attribute: missing (`R_NilValue`), a character vector, or of another type, with its length.
pub data Attr : Type 0 where
  absent : Attr
  texts : List RString → Attr
  other_type : ℕ → Attr

pub record Attrs : Type 0 where
  pub class : Attr
  pub names : Attr

abbrev pub plain : Attrs
plain = record { class = absent; names = absent }

mutual
  pub data Sexp : Type 0 where
    null : Sexp
    logicals : Attrs → List ℤ → Sexp
    integers : Attrs → List ℤ → Sexp
    reals : Attrs → List Real → Sexp
    strings : Attrs → List RString → Sexp
    raws : Attrs → Bytes → Sexp
    list : Attrs → Elements → Sexp
    closure : ℕ → Sexp
    external_ptr : ℕ → Sexp
    other : ℕ → Sexp

  pub data Elements : Type 0 where
    nil : Elements
    cons : Sexp → Elements → Elements

abbrev pub count : Elements → ℕ
count nil = 0
count (cons x xs) = suc (count xs)

-- `cls != R_NilValue && Rf_length(cls) > 0`.
pub has_class : Attrs → Bool
has_class a = elim a.class [
  | absent ↦ false
  | texts cs ↦ ltb 0 (length cs)
  | other_type n ↦ ltb 0 n
]

-- A single numeric, as the entry points want an id; the conversion to 64 bits is the argument.
abbrev pub id_of : (Real → ℕ) → Sexp → Option ℕ
id_of to_uint64 (reals a (x ∷ [])) = some (to_uint64 x)
id_of to_uint64 x = none

abbrev pub is_true : Sexp → Bool
is_true (logicals a (pos n ∷ bs)) = n == 1
is_true x = false
