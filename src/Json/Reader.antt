-- ===== src/Json/Reader.antt =====
-- A reader of compact JSON, the yardstick for the output of src/json_writer.cpp.
use drogon_r.Prelude.{
  ℕ, zero, suc, ◌+◌, ◌-◌, ◌*◌, Bool, true, false, ◌&&◌, ◌||◌, [], ◌∷◌, ◌++◌, Option, none, some,
  ltb, leb, ◌==◌, if◌then◌else◌, length,
}
use drogon_r.Prelude.Bytes.{Bytes, codes}
use drogon_r.Json.Document.{
  Doc, Docs, Members, null_doc, bool, number, text, array, object, no_docs, doc, no_members, member,
}

-- Inside a string: at a plain byte, after a backslash, or with hex digits still to come.
pub data Mode : Type 0 where
  direct after_backslash : Mode
  hex_digits : ℕ → ℕ → Mode

pub data Step : Type 0 where
  stop wrong : Step
  go : Bytes → Mode → Step

abbrev emit_byte : ℕ → Step
emit_byte c = go (c ∷ []) direct

unfoldable pub hex_value : ℕ → Option ℕ
hex_value c =
    if leb 48 c && leb c 57
    then some (c - 48)
    else if leb 97 c && leb c 102
    then some (c - 87)
    else none

-- One byte of a string. A `\u` escape is read where it names an ASCII code.
unfoldable pub read_byte : Mode → ℕ → Step
read_byte direct c =
    if c == b'"'
    then stop
    else if c == 92
    then go [] after_backslash
    else if ltb c 32
    then wrong
    else emit_byte c
read_byte after_backslash c =
    if c == b'"'
    then emit_byte 34
    else if c == 92
    then emit_byte 92
    else if c == b'b'
    then emit_byte 8
    else if c == b'f'
    then emit_byte 12
    else if c == b'n'
    then emit_byte 10
    else if c == b'r'
    then emit_byte 13
    else if c == b't'
    then emit_byte 9
    else if c == b'u'
    then go [] (hex_digits 3 0)
    else wrong
read_byte (hex_digits left acc) c = elim (hex_value c) [
  | none ↦ wrong
  | some v ↦
      if left == 0
      then (if ltb (acc * 16 + v) 128 then emit_byte (acc * 16 + v) else wrong)
      else go [] (hex_digits (left - 1) (acc * 16 + v))
]

abbrev pub prepend : Bytes → Option (Bytes × Bytes) → Option (Bytes × Bytes)
prepend out none = none
prepend out (some (s, rest)) = some (out ++ s, rest)

-- The rest of a string after its opening quote, and what follows the closing one.
unfoldable pub read_string : Mode → Bytes → Option (Bytes × Bytes)
read_string mode [] = none
read_string mode (c ∷ s) = elim (read_byte mode c) [
  | stop ↦ some ([], s)
  | wrong ↦ none
  | go out mode' ↦ prepend out (read_string mode' s)
]

abbrev pub is_number_byte : ℕ → Bool
is_number_byte c =
    (leb 48 c && leb c 57)
    || (c == b'-')
    || (c == b'+')
    || (c == b'.')
    || (c == b'e')
    || (c == b'E')

-- The longest run of bytes that a number may hold.
unfoldable pub span_number : Bytes → Bytes × Bytes
span_number [] = ([], [])
span_number (c ∷ s) =
    let (lexeme, rest) = span_number s in
    if is_number_byte c then (c ∷ lexeme, rest) else ([], c ∷ s)

unfoldable pub read_number : Bytes → Option (Doc × Bytes)
read_number s =
    let (lexeme, rest) = span_number s in
    elim lexeme [ [] ↦ none | c ∷ l ↦ some (number (c ∷ l), rest) ]

unfoldable pub skip : Bytes → Bytes → Option Bytes
skip [] s = some s
skip (c ∷ w) [] = none
skip (c ∷ w) (d ∷ s) = if c == d then skip w s else none

abbrev word : Bytes → Doc → Bytes → Option (Doc × Bytes)
word w d s = elim (skip w s) [ none ↦ none | some rest ↦ some (d, rest) ]

abbrev pub mapped {ℓ κ} :
    {A : Type ℓ} {B : Type κ} → (A → B) → Option (A × Bytes) → Option (B × Bytes)
mapped f none = none
mapped f (some (a, rest)) = some (f a, rest)

abbrev pub then_read {ℓ κ} :
    {A : Type ℓ} {B : Type κ}
    → Option (A × Bytes)
    → (A → Bytes → Option (B × Bytes))
    → Option (B × Bytes)
then_read none f = none
then_read (some (a, rest)) f = f a rest

-- A quoted key and the colon behind it.
unfoldable pub read_key : Bytes → Option (Bytes × Bytes)
read_key s = elim (skip (b'"' ∷ []) s) [
  | none ↦ none
  | some chars ↦ elim (read_string direct chars) [
    | none ↦ none
    | some (k, colon) ↦ elim (skip (b':' ∷ []) colon) [ none ↦ none | some rest ↦ some (k, rest) ]
  ]
]

unfoldable mutual
  pub read_value : ℕ → Bytes → Option (Doc × Bytes)
  read_value zero s = none
  read_value (suc fuel) [] = none
  read_value (suc fuel) (c ∷ s) =
      let items = mapped array (read_docs fuel true s) in
      let fields = mapped object (read_members fuel true s) in
      if c == b'"'
      then mapped text (read_string direct s)
      else if c == b'['
      then items
      else if c == b'{'
      then fields
      else if c == b'n'
      then word (codes "ull") null_doc s
      else if c == b't'
      then word (codes "rue") (bool true) s
      else if c == b'f'
      then word (codes "alse") (bool false) s
      else read_number (c ∷ s)

  pub read_docs : ℕ → Bool → Bytes → Option (Docs × Bytes)
  read_docs zero first s = none
  read_docs (suc fuel) first [] = none
  read_docs (suc fuel) first (c ∷ s) =
      let item : Bytes → Option (Docs × Bytes) =
        λ t. then_read (read_value fuel t) (λ x rest. mapped (doc x) (read_docs fuel false rest)) in
      if c == b']'
      then some (no_docs, s)
      else if first
      then item (c ∷ s)
      else if c == b','
      then item s
      else none

  pub read_members : ℕ → Bool → Bytes → Option (Members × Bytes)
  read_members zero first s = none
  read_members (suc fuel) first [] = none
  read_members (suc fuel) first (c ∷ s) =
      let field : Bytes → Option (Members × Bytes) = λ t. then_read (read_key t) (λ k value.
        then_read (read_value fuel value)
          (λ x rest. mapped (member k x) (read_members fuel false rest))) in
      if c == b'}'
      then some (no_members, s)
      else if first
      then field (c ∷ s)
      else if c == b','
      then field s
      else none

-- A text that is one document; a document has fewer nodes than twice its bytes.
unfoldable pub read : Bytes → Option Doc
read s = elim (read_value (2 * length s) s) [
  | none ↦ none
  | some (d, []) ↦ some d
  | some (d, c ∷ rest) ↦ none
]
