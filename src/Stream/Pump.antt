-- ===== src/Stream/Pump.antt =====
-- namedField and pumpStreamMain in src/stream_session.cpp: one step of a stream on the main R thread.
use drogon_r.Prelude.{
  ℕ, Bool, true, false, List, [], ◌∷◌, ◌++◌, Option, none, some, ◌==◌, if◌then◌else◌,
}
use drogon_r.Prelude.Bytes.{Bytes, bytes_eq, codes}
use drogon_r.Prelude.Sexp.{
  Sexp, null, logicals, strings, list, Elements, nil, cons, Attr, texts, absent, other_type,
  RString, char, ℤ, pos, negsuc,
}
use drogon_r.Prelude.Preserved.{preserve_hook, release_hook}
use drogon_r.Stream.{
  StreamSession, StreamWorld, find_session, change, schedule_next_pump, send_chunk_in_loop, ref,
  close_stream_from_main,
}

-- The element of the first name that is the one asked for. The names of an R list are as many as its
-- elements.
unfoldable pub first_named : List RString → Elements → Bytes → Option Sexp
unfolding bytes_eq
first_named [] xs name = none
first_named (n ∷ ns) nil name = none
first_named (n ∷ ns) (cons x xs) name =
    if bytes_eq (char n) name then some x else first_named ns xs name

abbrev pub present : Sexp → Option Sexp
present null = none
present x = some x

abbrev pub element_named : Attr → Elements → Bytes → Option Sexp
element_named (texts ns) xs name = elim (first_named ns xs name) [
  | none ↦ none
  | some x ↦ present x
]
element_named absent xs name = none
element_named (other_type n) xs name = none

-- `none` is R_NilValue.
unfoldable pub named_field : Sexp → Bytes → Option Sexp
unfolding first_named
named_field (list a xs) name = element_named a.names xs name
named_field x name = none

abbrev pub is_list : Sexp → Bool
is_list (list a xs) = true
is_list x = false

-- `LOGICAL(s_done)[0] == 1`, of a logical vector that has an element.
abbrev pub is_one : ℤ → Bool
is_one (pos n) = n == 1
is_one (negsuc n) = false

unfoldable pub is_done : Option Sexp → Bool
is_done (some (logicals a (x ∷ xs))) = is_one x
is_done x = false

unfoldable pub chunk_of : Option Sexp → Bytes
chunk_of (some (strings a (s ∷ ss))) = char s
chunk_of x = []

module _ (object : Sexp → ℕ) where
  -- A new state is preserved before the old one is released; without one the old one stays.
  unfoldable pub keep_state : ℕ → StreamSession → Option Sexp → StreamWorld → StreamWorld
  keep_state id s none w = w
  keep_state id s (some x) w =
      change id (λ t. record t { state = some x })
        (record w {
          preserved =
              release_hook (ref object s.state) (preserve_hook (some (object x)) w.preserved);
        })

  abbrev pub next_state : StreamSession → Option Sexp → StreamSession
  next_state s none = s
  next_state s (some x) = record s { state = some x }

  abbrev pub send_nonempty : ℕ → Bytes → StreamWorld → StreamWorld
  send_nonempty id [] w = w
  send_nonempty id (c ∷ cs) w = send_chunk_in_loop id (c ∷ cs) w

  -- From the answer on: an error or anything but a list ends the stream.
  unfoldable pub take_answer : Option Sexp → ℕ → StreamSession → StreamWorld → StreamWorld
  unfolding close_stream_from_main named_field keep_state is_done chunk_of schedule_next_pump
      send_chunk_in_loop
  take_answer none id s w = close_stream_from_main object id s w
  take_answer (some res) id s w =
      if is_list res
      then (let given = named_field res (codes "state") in
          let kept = keep_state id s given w in
          let s' = next_state s given in
          if s.cancelled
          then close_stream_from_main object id s' kept
          else (let sent = send_nonempty id (chunk_of (named_field res (codes "chunk"))) kept in
              if is_done (named_field res (codes "done"))
              then close_stream_from_main object id s' sent
              else schedule_next_pump id sent))
      else close_stream_from_main object id s w

  unfoldable pub pump_stream_main : Option Sexp → ℕ → StreamWorld → StreamWorld
  unfolding find_session take_answer schedule_next_pump
  pump_stream_main answer id w = elim (find_session id w) [
    | none ↦ w
    | some s ↦
        if s.closing
        then w
        else if s.stream
        then take_answer answer id s (record w {
          calls =
              w.calls
              ++ record {
                id = id;
                generator = s.next_chunk;
                state = s.state;
                cancelled = s.cancelled;
              }
                ∷ [];
        })
        else schedule_next_pump id w
  ]
