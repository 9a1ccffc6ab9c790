-- ===== src/Json/Refinement.antt =====
-- The writer of src/json_writer.cpp against the document that a value stands for.
use drogon_r.Prelude.{
  ℕ, suc, ◌≡◌, refl, sym, ◌∙◌, Bool, true, false, List, [], ◌∷◌, ◌++◌, Option, none, some,
  append_assoc, append-nil, arith, ltb, length, ◌==◌, if◌then◌else◌,
}
use drogon_r.Prelude.Bytes.{Bytes}
use drogon_r.Prelude.Sexp.{
  RString, Attrs, Sexp, null, logicals, integers, reals, strings, raws, list, closure, external_ptr,
  other, Elements, nil, cons, has_class, count, absent, texts, other_type,
}
use drogon_r.Json.Escape.{append_char_sexp, append_int, append_bool, append_double}
use drogon_r.Json.Writer.{
  max_depth, separate, write_elements, write_vector, write_atomic, write_list, object_key,
  write_value, write_array, write_object,
}
use drogon_r.Json.Document.{
  Doc, Docs, Members, quoted, render, render_docs, render_members, bool_doc, int_doc, string_doc,
  double_doc, docs, vector_doc, atomic_doc, meaning, meaning_all, meaning_named, comma, add_doc,
  add_member, object_of, array_of,
}
use drogon_r.Json.Leaves.{
  append_escaped_string-quoted, append_bool-render, append_int-render, append_char_sexp-render,
  append_double-render,
}

abbrev pub emit : Bytes → Option Doc → Option Bytes
emit buf none = none
emit buf (some d) = some (buf ++ render d)

abbrev emit_docs : Bytes → Bool → Option Docs → Option Bytes
emit_docs buf first none = none
emit_docs buf first (some ds) = some (buf ++ render_docs first ds)

abbrev emit_members : Bytes → Bool → Option Members → Option Bytes
emit_members buf first none = none
emit_members buf first (some ms) = some (buf ++ render_members first ms)

separate-comma : (first : Bool) (buf : Bytes) → separate first buf ≡ buf ++ comma first
separate-comma true buf = sym (append-nil buf)
separate-comma false buf = refl

module _ {ℓ} {A : Type ℓ} (append : Bytes → A → Bytes) (f : A → Doc)
    (h : (buf : Bytes) (v : A) → append buf v ≡ buf ++ render (f v)) where
  write_elements-render :
      (buf : Bytes) (first : Bool) (vs : List A)
      → write_elements append buf first vs ++ b']' ∷ [] ≡ buf ++ render_docs first (docs f vs)
  unfolding write_elements render
  write_elements-render buf first [] = refl
  write_elements-render buf first (v ∷ vs) =
      write_elements-render (append (separate first buf) v) false vs
      ∙ rw (h (separate first buf) v, separate-comma first buf) (simp append_assoc)

  write_vector-render :
      (buf : Bytes) (unbox : Bool) (vs : List A)
      → write_vector append buf unbox vs ≡ buf ++ render (vector_doc f unbox vs)
  unfolding write_vector render
  write_vector-render buf true [] =
      write_elements-render (buf ++ b'[' ∷ []) true [] ∙ append_assoc buf _ _
  write_vector-render buf false [] =
      write_elements-render (buf ++ b'[' ∷ []) true [] ∙ append_assoc buf _ _
  write_vector-render buf true (v ∷ []) = h buf v
  write_vector-render buf false (v ∷ []) =
      write_elements-render (buf ++ b'[' ∷ []) true (v ∷ []) ∙ append_assoc buf _ _
  write_vector-render buf true (v ∷ w ∷ vs) =
      write_elements-render (buf ++ b'[' ∷ []) true (v ∷ w ∷ vs) ∙ append_assoc buf _ _
  write_vector-render buf false (v ∷ w ∷ vs) =
      write_elements-render (buf ++ b'[' ∷ []) true (v ∷ w ∷ vs) ∙ append_assoc buf _ _

  write_atomic-render :
      (buf : Bytes) (a : Attrs) (unbox : Bool) (vs : List A)
      → write_atomic append buf a unbox vs ≡ emit buf (atomic_doc f a unbox vs)
  unfolding write_atomic
  write_atomic-render buf a unbox vs = ground (arith, write_vector-render buf unbox vs)

object_key-render :
    (buf : Bytes) (first : Bool) (c : ℕ) (s : Bytes)
    → object_key (separate first buf) (some (c ∷ s))
      ≡ some (buf ++ (comma first ++ (quoted (c ∷ s) ++ b':' ∷ [])))
unfolding object_key
object_key-render buf first c s =
    rw (append_escaped_string-quoted (separate first buf) (c ∷ s), separate-comma first buf)
      (simp append_assoc)

object_key-none : (buf : Bytes) → object_key buf none ≡ none
unfolding object_key
object_key-none buf = refl

object_key-empty : (buf : Bytes) → object_key buf (some []) ≡ none
unfolding object_key
object_key-empty buf = refl

within_depth :
    (buf : Bytes) (depth : ℕ) (m : Option Bytes) (d : Option Doc)
    → m ≡ emit buf d
    → (if ltb max_depth depth then none else m) ≡ emit buf (if ltb max_depth depth then none else d)
within_depth buf depth m d e = ground arith

-- One round of each loop, given what the rest of the loop writes.
module _ (buf : Bytes) (first : Bool) (k : Bytes → Option Bytes) where
  array_round :
      (r : Option Doc) (ds : Option Docs)
      → ((b : Bytes) → k b ≡ emit_docs b false ds)
      → (elim (emit (separate first buf) r) [ none ↦ none | some b ↦ k b ])
        ≡ emit_docs buf first (add_doc r ds)
  unfolding render
  array_round none ds h = refl
  array_round (some d) none h = h _
  array_round (some d) (some ds) h = h _ ∙ rw (separate-comma first buf) (simp append_assoc)

  object_round :
      (c : ℕ) (s : Bytes) (r : Option Doc) (ms : Option Members)
      → ((b : Bytes) → k b ≡ emit_members b false ms)
      → (elim (emit (buf ++ (comma first ++ (quoted (c ∷ s) ++ b':' ∷ []))) r) [
        | none ↦ none
        | some b ↦ k b
      ])
        ≡ emit_members buf first (add_member (some (c ∷ s)) r ms)
  unfolding render
  object_round c s none ms h = refl
  object_round c s (some d) none h = h _
  object_round c s (some d) (some ms) h = h _ ∙ (simp append_assoc)

emit-array_of :
    (buf : Bytes) (ds : Option Docs) → emit_docs (buf ++ b'[' ∷ []) true ds ≡ emit buf (array_of ds)
unfolding render
emit-array_of buf none = refl
emit-array_of buf (some ds) = simp append_assoc

emit-object_of :
    (buf : Bytes) (ms : Option Members)
    → emit_members (buf ++ b'{' ∷ []) true ms ≡ emit buf (object_of ms)
unfolding render
emit-object_of buf none = refl
emit-object_of buf (some ms) = simp append_assoc

module _ (format : ℕ → Bytes) where
  list_round :
      (buf : Bytes) (a : Attrs) (n : ℕ) (obj : List RString → Option Bytes) (arr : Option Bytes)
      (named : List RString → Option Doc) (all : Option Doc)
      → ((ns : List RString) → obj ns ≡ emit buf (named ns))
      → arr ≡ emit buf all
      → write_list a n obj arr
        ≡ emit buf (
            if has_class a then none else elim a.names [
              | absent ↦ all
              | texts names ↦ if length names == n then named names else none
              | other_type m ↦ none
            ])
  unfolding write_list
  list_round buf a n obj arr named all h e = grind (arith, h)

  mutual
    unfolding write_value meaning render

    pub write_value-meaning :
        (buf : Bytes) (x : Sexp) (unbox : Bool) (depth : ℕ)
        → write_value format buf x unbox depth ≡ emit buf (meaning format x unbox depth)
    write_value-meaning buf null unbox depth = ground arith
    write_value-meaning buf (logicals a vs) unbox depth =
        within_depth buf depth _ (atomic_doc bool_doc a unbox vs)
          (write_atomic-render append_bool bool_doc append_bool-render buf a unbox vs)
    write_value-meaning buf (integers a vs) unbox depth =
        within_depth buf depth _ (atomic_doc int_doc a unbox vs)
          (write_atomic-render append_int int_doc append_int-render buf a unbox vs)
    write_value-meaning buf (reals a vs) unbox depth =
        within_depth buf depth _ (atomic_doc (double_doc format) a unbox vs) (
          write_atomic-render (append_double format) (double_doc format)
            (append_double-render format) buf a unbox vs)
    write_value-meaning buf (strings a vs) unbox depth =
        within_depth buf depth _ (atomic_doc string_doc a unbox vs)
          (write_atomic-render append_char_sexp string_doc append_char_sexp-render buf a unbox vs)
    write_value-meaning buf (list a xs) unbox depth = within_depth buf depth _ _ (
        list_round buf a (count xs) _ _ _ _
          (λ ns.
            write_object-meaning (buf ++ b'{' ∷ []) true ns xs unbox depth
            ∙ emit-object_of buf (meaning_named format ns xs unbox depth))
          (write_array-meaning (buf ++ b'[' ∷ []) true xs unbox depth
            ∙ emit-array_of buf (meaning_all format xs unbox depth)))
    write_value-meaning buf (raws a bs) unbox depth = refl
    write_value-meaning buf (closure c) unbox depth = refl
    write_value-meaning buf (external_ptr p) unbox depth = refl
    write_value-meaning buf (other n) unbox depth = refl

    write_array-meaning :
        (buf : Bytes) (first : Bool) (xs : Elements) (unbox : Bool) (depth : ℕ)
        → write_array format buf first xs unbox depth
          ≡ emit_docs buf first (meaning_all format xs unbox depth)
    write_array-meaning buf first nil unbox depth = refl
    write_array-meaning buf first (cons x xs) unbox depth =
        rw (write_value-meaning (separate first buf) x unbox (suc depth), write_array)
          (array_round buf first _ (meaning format x unbox (suc depth)) _
            (λ b. write_array-meaning b false xs unbox depth))

    write_object-meaning :
        (buf : Bytes) (first : Bool) (names : List RString) (xs : Elements) (unbox : Bool)
        (depth : ℕ)
        → write_object format buf first names xs unbox depth
          ≡ emit_members buf first (meaning_named format names xs unbox depth)
    write_object-meaning buf first names nil unbox depth = refl
    write_object-meaning buf first [] (cons x xs) unbox depth = refl
    write_object-meaning buf first (none ∷ names) (cons x xs) unbox depth =
        rw (object_key-none (separate first buf), write_object)
    write_object-meaning buf first (some [] ∷ names) (cons x xs) unbox depth =
        rw (object_key-empty (separate first buf), write_object)
    write_object-meaning buf first (some (c ∷ s) ∷ names) (cons x xs) unbox depth =
        rw (object_key-render buf first c s, write_object)
          (rw
            (
              write_value-meaning (buf ++ (comma first ++ (quoted (c ∷ s) ++ b':' ∷ []))) x unbox
                  (suc depth),
              write_object,
            )
            (object_round buf first _ c s (meaning format x unbox (suc depth)) _
              (λ b. write_object-meaning b false names xs unbox depth)))
