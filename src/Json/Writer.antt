-- ===== src/Json/Writer.antt =====
-- writeAtomic, writeList, writeValue and drogonR_to_json of src/json_writer.cpp. `none` is
-- `WriteResult::Unsupported`, after which the caller drops the buffer; `some` holds the new buffer.
use drogon_r.Prelude.{
  ℕ, suc, Bool, true, false, List, [], ◌∷◌, ◌++◌, Option, none, some, ltb, ◌==◌, if◌then◌else◌,
  length,
}
use drogon_r.Prelude.Bytes.{Bytes, codes}
use drogon_r.Prelude.Sexp.{
  pos, RString, absent, texts, other_type, Attrs, Sexp, null, logicals, integers, reals, strings,
  raws, list, closure, external_ptr, other, Elements, nil, cons, count, has_class,
}
use drogon_r.Json.Escape.{
  append_escaped_string, append_char_sexp, append_int, append_bool, append_double,
}

abbrev pub max_depth : ℕ
max_depth = 64

-- `if (i) buf.push_back(',')`.
abbrev pub separate : Bool → Bytes → Bytes
separate first buf = if first then buf else buf ++ b',' ∷ []

module _ {ℓ} {A : Type ℓ} (append : Bytes → A → Bytes) where
  -- The loop over the elements of an atomic vector.
  unfoldable pub write_elements : Bytes → Bool → List A → Bytes
  write_elements buf first [] = buf
  write_elements buf first (v ∷ vs) = write_elements (append (separate first buf) v) false vs

  -- One case of `writeAtomic`: `p[0]` alone, or a bracketed sequence.
  unfoldable pub write_vector : Bytes → Bool → List A → Bytes
  write_vector buf unbox [] = write_elements (buf ++ b'[' ∷ []) true [] ++ b']' ∷ []
  write_vector buf unbox (v ∷ []) =
      if unbox then append buf v else write_elements (buf ++ b'[' ∷ []) true (v ∷ []) ++ b']' ∷ []
  write_vector buf unbox (v ∷ w ∷ vs) =
      write_elements (buf ++ b'[' ∷ []) true (v ∷ w ∷ vs) ++ b']' ∷ []

  unfoldable pub write_atomic : Bytes → Attrs → Bool → List A → Option Bytes
  write_atomic buf a unbox vs = if has_class a then none else some (write_vector buf unbox vs)

-- `writeList`, given what its two loops return.
unfoldable pub write_list : Attrs → ℕ → (List RString → Option Bytes) → Option Bytes → Option Bytes
write_list a n object array = if has_class a then none else elim a.names [
  | absent ↦ array
  | texts names ↦ if length names == n then object names else none
  | other_type m ↦ none
]

-- The checks on one key: neither `NA_STRING` nor empty.
unfoldable pub object_key : Bytes → RString → Option Bytes
object_key buf none = none
object_key buf (some []) = none
object_key buf (some (c ∷ s)) = some (append_escaped_string buf (c ∷ s) ++ b':' ∷ [])

-- `TYPEOF == LGLSXP && length == 1 && [0] == TRUE`.
unfoldable pub is_true : Sexp → Bool
is_true (logicals a (pos n ∷ [])) = n == 1
is_true x = false

module _ (format : ℕ → Bytes) where
  unfoldable mutual
    pub write_value : Bytes → Sexp → Bool → ℕ → Option Bytes
    write_value buf null unbox depth =
        if ltb max_depth depth then none else if ltb 0 depth then none else some (buf ++ codes "{}")
    write_value buf (logicals a vs) unbox depth =
        if ltb max_depth depth then none else write_atomic append_bool buf a unbox vs
    write_value buf (integers a vs) unbox depth =
        if ltb max_depth depth then none else write_atomic append_int buf a unbox vs
    write_value buf (reals a vs) unbox depth =
        if ltb max_depth depth then none else write_atomic (append_double format) buf a unbox vs
    write_value buf (strings a vs) unbox depth =
        if ltb max_depth depth then none else write_atomic append_char_sexp buf a unbox vs
    write_value buf (list a xs) unbox depth =
        let object =
          λ (names : List RString). write_object (buf ++ b'{' ∷ []) true names xs unbox depth in
        let array = write_array (buf ++ b'[' ∷ []) true xs unbox depth in
        if ltb max_depth depth then none else write_list a (count xs) object array
    write_value buf (raws a bs) unbox depth = none
    write_value buf (closure c) unbox depth = none
    write_value buf (external_ptr p) unbox depth = none
    write_value buf (other n) unbox depth = none

    pub write_array : Bytes → Bool → Elements → Bool → ℕ → Option Bytes
    write_array buf first nil unbox depth = some (buf ++ b']' ∷ [])
    write_array buf first (cons x xs) unbox depth =
        elim (write_value (separate first buf) x unbox (suc depth)) [
          | none ↦ none
          | some buf' ↦ write_array buf' false xs unbox depth
        ]

    pub write_object : Bytes → Bool → List RString → Elements → Bool → ℕ → Option Bytes
    write_object buf first names nil unbox depth = some (buf ++ b'}' ∷ [])
    write_object buf first [] (cons x xs) unbox depth = none
    write_object buf first (name ∷ names) (cons x xs) unbox depth =
        elim (object_key (separate first buf) name) [
          | none ↦ none
          | some keyed ↦ elim (write_value keyed x unbox (suc depth)) [
            | none ↦ none
            | some buf' ↦ write_object buf' false names xs unbox depth
          ]
        ]

  -- drogonR_to_json: `none` is `R_NilValue`, which sends the caller to jsonlite.
  unfoldable pub to_json : Sexp → Sexp → Option Bytes
  to_json x auto_unbox = write_value [] x (is_true auto_unbox) 0
