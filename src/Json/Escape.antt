-- ===== src/Json/Escape.antt =====
-- appendEscapedString and the four scalar printers of src/json_writer.cpp.
use drogon_r.Prelude.{
  ℕ, zero, suc, ◌+◌, ◌/◌, ◌%◌, Bool, [], ◌∷◌, ◌++◌, none, some, ltb, ◌==◌, if◌then◌else◌,
}
use drogon_r.Prelude.Bytes.{Bytes, codes}
use drogon_r.Prelude.Sexp.{
  ℤ, pos, negsuc, is_na, Real, na_real, nan, pos_inf, neg_inf, finite, RString,
}

-- A digit of `%x`.
abbrev pub hex : ℕ → ℕ
hex n = if ltb n 10 then 48 + n else 87 + n

-- The body of the `switch` for one byte.
unfoldable pub escape_byte : ℕ → Bytes
escape_byte c =
    if c == b'"'
    then 92 ∷ 34 ∷ []
    else if c == 92
    then 92 ∷ 92 ∷ []
    else if c == 8
    then 92 ∷ b'b' ∷ []
    else if c == 12
    then 92 ∷ b'f' ∷ []
    else if c == 10
    then 92 ∷ b'n' ∷ []
    else if c == 13
    then 92 ∷ b'r' ∷ []
    else if c == 9
    then 92 ∷ b't' ∷ []
    else if ltb c 32
    then 92 ∷ b'u' ∷ 48 ∷ 48 ∷ hex (c / 16) ∷ hex (c % 16) ∷ []
    else c ∷ []

-- The loop over the bytes, which appends to the buffer.
unfoldable pub escape_from : Bytes → Bytes → Bytes
escape_from buf [] = buf
escape_from buf (c ∷ s) = escape_from (buf ++ escape_byte c) s

unfoldable pub append_escaped_string : Bytes → Bytes → Bytes
append_escaped_string buf s = escape_from (buf ++ 34 ∷ []) s ++ 34 ∷ []

unfoldable pub append_char_sexp : Bytes → RString → Bytes
append_char_sexp buf none = buf ++ codes "null"
append_char_sexp buf (some s) = append_escaped_string buf s

-- `%d` without its sign: at most `fuel` digits.
unfoldable pub decimal : ℕ → ℕ → Bytes
decimal zero n = []
decimal (suc fuel) n =
    let high = decimal fuel (n / 10) in
    if ltb n 10 then (48 + n) ∷ [] else high ++ (48 + n % 10) ∷ []

-- `%d`; an `int` has at most ten digits.
unfoldable pub print_int : ℤ → Bytes
print_int (pos n) = decimal 10 n
print_int (negsuc n) = b'-' ∷ decimal 10 (n + 1)

unfoldable pub append_int : Bytes → ℤ → Bytes
append_int buf v = if is_na v then buf ++ codes "\"NA\"" else buf ++ print_int v

unfoldable pub is_zero : ℤ → Bool
is_zero (pos n) = n == 0
is_zero (negsuc n) = Bool.false

unfoldable pub append_bool : Bytes → ℤ → Bytes
unfolding is_zero
append_bool buf v =
    if is_na v
    then buf ++ codes "null"
    else if is_zero v
    then buf ++ codes "false"
    else buf ++ codes "true"

-- The text of `%.17g` at a finite value is the argument `format`.
unfoldable pub append_double : (ℕ → Bytes) → Bytes → Real → Bytes
append_double format buf na_real = buf ++ codes "\"NA\""
append_double format buf nan = buf ++ codes "\"NaN\""
append_double format buf pos_inf = buf ++ codes "\"Inf\""
append_double format buf neg_inf = buf ++ codes "\"-Inf\""
append_double format buf (finite v) = buf ++ format v
