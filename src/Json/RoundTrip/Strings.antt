-- ===== src/Json/RoundTrip/Strings.antt =====
-- Reading back a string that appendEscapedString of src/json_writer.cpp writes.
use drogon_r.Prelude.{
  ℕ, ◌+◌, ◌*◌, ◌/◌, ◌%◌, ◌<◌, ◌≡◌, refl, ◌∙◌, [], ◌∷◌, ◌++◌, Option, none, some, append_assoc,
  arith,
}
use drogon_r.Prelude.Bytes.{Bytes}
use drogon_r.Json.Escape.{escape_byte, hex}
use drogon_r.Json.Document.{escaped}
use drogon_r.Json.Reader.{Mode, direct, hex_digits, go, hex_value, read_byte, prepend, read_string}

hex_value-hex : (n : ℕ) → n < 16 → hex_value (hex n) ≡ some n
unfolding hex_value
hex_value-hex n h = ground arith

prepend_nil : (r : Option (Bytes × Bytes)) → prepend [] r ≡ r
prepend_nil none = refl
prepend_nil (some (s, rest)) = refl

read_string-prefix :
    (x y : ℕ) (s : Bytes)
    → read_string direct (92 ∷ b'u' ∷ 48 ∷ 48 ∷ x ∷ y ∷ s)
      ≡ prepend [] (prepend [] (prepend [] (prepend [] (read_string (hex_digits 1 0) (x ∷ y ∷ s)))))
unfolding read_string read_byte hex_value
read_string-prefix x y s = refl

read_byte-hex_first : (n : ℕ) → n < 16 → read_byte (hex_digits 1 0) (hex n) ≡ go [] (hex_digits 0 n)
unfolding read_byte
read_byte-hex_first n h = ground (arith, hex_value-hex n)

read_byte-hex_last :
    (m n : ℕ)
    → n < 16
    → m * 16 + n < 128
    → read_byte (hex_digits 0 m) (hex n) ≡ go ((m * 16 + n) ∷ []) direct
unfolding read_byte
read_byte-hex_last m n h b = ground (arith, hex_value-hex n)

read_string_of_go :
    (mode mode' : Mode) (c : ℕ) (out s : Bytes)
    → read_byte mode c ≡ go out mode'
    → read_string mode (c ∷ s) ≡ prepend out (read_string mode' s)
unfolding read_string
read_string_of_go mode mode' c out s e = rw (e, read_string)

-- The six bytes of a `\u` escape.
read_string-unicode :
    (c : ℕ) (s : Bytes)
    → c < 32
    → read_string direct (92 ∷ b'u' ∷ 48 ∷ 48 ∷ hex (c / 16) ∷ hex (c % 16) ∷ s)
      ≡ prepend (c ∷ []) (read_string direct s)
read_string-unicode c s h =
    let whole : c / 16 * 16 + c % 16 ≡ c = omega arith in
    read_string-prefix (hex (c / 16)) (hex (c % 16)) s
    ∙ rw
        (
          read_string_of_go _ _ _ _ (hex (c % 16) ∷ s) (read_byte-hex_first (c / 16) (omega arith)),
          read_string_of_go _ _ _ _ s
              (read_byte-hex_last (c / 16) (c % 16) (omega arith) (omega arith)),
          whole,
        )
        (simp prepend_nil)

-- One escaped byte is read back as that byte.
read_string-escape_byte :
    (c : ℕ) (s : Bytes)
    → read_string direct (escape_byte c ++ s) ≡ prepend (c ∷ []) (read_string direct s)
unfolding read_string escape_byte read_byte
read_string-escape_byte c s =
    ground (arith, read_string-unicode c s, prepend_nil (prepend (c ∷ []) (read_string direct s)))

pub read_string-escaped :
    (s rest : Bytes) → read_string direct (escaped s ++ b'"' ∷ rest) ≡ some (s, rest)
unfolding escaped read_string read_byte
read_string-escaped [] rest = refl
read_string-escaped (c ∷ s) rest = rw (
  append_assoc (escape_byte c) (escaped s) (b'"' ∷ rest),
  read_string-escape_byte c (escaped s ++ b'"' ∷ rest),
  read_string-escaped s rest,
)
