-- ===== src/Json/Leaves.antt =====
-- What the parts of src/json_writer.cpp that call no other write, against the text of their document.
use drogon_r.Prelude.{
  ℕ, ◌≡◌, refl, sym, ◌∙◌, [], ◌∷◌, ◌++◌, none, some, append_assoc, append-nil, arith,
}
use drogon_r.Prelude.Bytes.{Bytes}
use drogon_r.Prelude.Sexp.{ℤ, Real, na_real, nan, pos_inf, neg_inf, finite, RString}
use drogon_r.Json.Escape.{
  escape_byte, escape_from, append_escaped_string, append_char_sexp, append_int, append_bool,
  append_double,
}
use drogon_r.Json.Document.{escaped, quoted, render, bool_doc, int_doc, string_doc, double_doc}

pub escape_from-escaped : (buf s : Bytes) → escape_from buf s ≡ buf ++ escaped s
unfolding escape_from escaped
escape_from-escaped buf [] = sym (append-nil buf)
escape_from-escaped buf (c ∷ s) =
    escape_from-escaped (buf ++ escape_byte c) s ∙ append_assoc buf (escape_byte c) (escaped s)

pub append_escaped_string-quoted : (buf s : Bytes) → append_escaped_string buf s ≡ buf ++ quoted s
unfolding append_escaped_string
append_escaped_string-quoted buf s = rw (escape_from-escaped (buf ++ 34 ∷ []) s) (simp append_assoc)

pub append_bool-render : (buf : Bytes) (v : ℤ) → append_bool buf v ≡ buf ++ render (bool_doc v)
unfolding append_bool render
append_bool-render buf v = ground arith

pub append_int-render : (buf : Bytes) (v : ℤ) → append_int buf v ≡ buf ++ render (int_doc v)
unfolding append_int render escaped escape_byte
append_int-render buf v = ground arith

pub append_char_sexp-render :
    (buf : Bytes) (v : RString) → append_char_sexp buf v ≡ buf ++ render (string_doc v)
unfolding append_char_sexp render
append_char_sexp-render buf none = refl
append_char_sexp-render buf (some s) = append_escaped_string-quoted buf s

pub append_double-render :
    (format : ℕ → Bytes) (buf : Bytes) (v : Real)
    → append_double format buf v ≡ buf ++ render (double_doc format v)
unfolding append_double render escaped escape_byte
append_double-render format buf na_real = refl
append_double-render format buf nan = refl
append_double-render format buf pos_inf = refl
append_double-render format buf neg_inf = refl
append_double-render format buf (finite v) = refl
