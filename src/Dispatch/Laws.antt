-- ===== src/Dispatch/Laws.antt =====
-- The answers that src/r_dispatcher.cpp gives.
use drogon_r.Prelude.{
  ℕ, ◌≤◌, ◌≡◌, refl, sym, ap, ◌∙◌, false, List, [], ◌∷◌, ◌++◌, Option, none, some, arith,
  append-nil, append_assoc, Option-cases, Bool-cases, inl, inr, All, All-append, ◌⊎◌, ◌+◌, true,
  Bool, ◌&&◌, ◌||◌, ltb,
}
use drogon_r.Prelude.Bytes.{Bytes, codes, bytes_eq}
use drogon_r.Prelude.Sexp.{
  Sexp, null, logicals, integers, reals, strings, raws, list, closure, external_ptr, other,
  Elements, nil, cons, texts, absent, other_type, RString, char, ℤ, pos, negsuc, Real,
}
use drogon_r.Stream.Pump.{named_field}
use drogon_r.Dispatch.Reply.{
  Response, make_error_response, build_response, set_headers, with_headers, from_fields,
  read_fields, no_fields, lower_all, header_of, header_value, valid_status, status_code, Fields,
  custom,
}
use drogon_r.Dispatch.Request.{PendingRequest, get_route, build_request_list}
use drogon_r.Dispatch.{
  Dispatcher, Host, Answer, dispatch_all, dispatch_request, answer_stream, answer_value,
  call_handler, handler_at, is_drogon_stream,
}

abbrev pub tickets : List (ℕ × Answer) → List ℕ
tickets [] = []
tickets ((t, a) ∷ rest) = t ∷ tickets rest

abbrev pub asked : List PendingRequest → List ℕ
asked [] = []
asked (pr ∷ prs) = pr.ticket ∷ asked prs

tickets-end :
    (given : List (ℕ × Answer)) (t : ℕ) (a : Answer)
    → tickets (given ++ (t, a) ∷ []) ≡ tickets given ++ t ∷ []
tickets-end [] t a = refl
tickets-end ((u, b) ∷ given) t a = ap (λ ts. u ∷ ts) (tickets-end given t a)

-- A step that calls the callback of one request, once.
abbrev pub Answers : ℕ → Dispatcher → Dispatcher → Type 0
Answers t d e = tickets e.answers ≡ tickets d.answers ++ t ∷ []

answer_stream-Answers :
    (host : Host) (pr : PendingRequest) (res : Sexp) (next : Option Sexp) (d : Dispatcher)
    → Answers pr.ticket d (answer_stream host pr res next d)
unfolding answer_stream
answer_stream-Answers host pr res none d = tickets-end d.answers pr.ticket _
answer_stream-Answers host pr res (some (closure c)) d = tickets-end d.answers pr.ticket _
answer_stream-Answers host pr res (some null) d = tickets-end d.answers pr.ticket _
answer_stream-Answers host pr res (some (logicals a xs)) d = tickets-end d.answers pr.ticket _
answer_stream-Answers host pr res (some (integers a xs)) d = tickets-end d.answers pr.ticket _
answer_stream-Answers host pr res (some (reals a xs)) d = tickets-end d.answers pr.ticket _
answer_stream-Answers host pr res (some (strings a xs)) d = tickets-end d.answers pr.ticket _
answer_stream-Answers host pr res (some (raws a xs)) d = tickets-end d.answers pr.ticket _
answer_stream-Answers host pr res (some (list a xs)) d = tickets-end d.answers pr.ticket _
answer_stream-Answers host pr res (some (external_ptr p)) d = tickets-end d.answers pr.ticket _
answer_stream-Answers host pr res (some (other n)) d = tickets-end d.answers pr.ticket _

answer_value-Answers :
    (host : Host) (pr : PendingRequest) (value : Option Sexp) (d : Dispatcher)
    → Answers pr.ticket d (answer_value host pr value d)
answer_value-Answers host pr none d = tickets-end d.answers pr.ticket _
answer_value-Answers host pr (some res) d = elim (Bool-cases (is_drogon_stream res)) [
  | inl e ↦ rw e (answer_stream-Answers host pr res (named_field res (codes "next_chunk")) d)
  | inr e ↦ rw e (tickets-end d.answers pr.ticket _)
]

call_handler-Answers :
    (host : Host) (pr : PendingRequest) (handler : Sexp) (d : Dispatcher)
    → Answers pr.ticket d (call_handler host pr handler d)
call_handler-Answers host pr (closure c) d =
    answer_value-Answers host pr (host.eval pr.ticket c (build_request_list d.routes pr)) d
call_handler-Answers host pr null d = tickets-end d.answers pr.ticket _
call_handler-Answers host pr (logicals a xs) d = tickets-end d.answers pr.ticket _
call_handler-Answers host pr (integers a xs) d = tickets-end d.answers pr.ticket _
call_handler-Answers host pr (reals a xs) d = tickets-end d.answers pr.ticket _
call_handler-Answers host pr (strings a xs) d = tickets-end d.answers pr.ticket _
call_handler-Answers host pr (raws a xs) d = tickets-end d.answers pr.ticket _
call_handler-Answers host pr (list a xs) d = tickets-end d.answers pr.ticket _
call_handler-Answers host pr (external_ptr p) d = tickets-end d.answers pr.ticket _
call_handler-Answers host pr (other n) d = tickets-end d.answers pr.ticket _

dispatch_request-Answers :
    (host : Host) (pr : PendingRequest) (d : Dispatcher)
    → Answers pr.ticket d (dispatch_request host pr d)
unfolding dispatch_request
dispatch_request-Answers host pr d =
    call_handler-Answers host pr (handler_at (get_route d.routes pr.route_id)) d

-- Every request that is drained is answered exactly once, in the order of the queue, whatever R's
-- handlers do: also without a handler, after an R error and for a stream.
pub dispatch_all-answers :
    (host : Host) (items : List PendingRequest) (d : Dispatcher)
    → tickets (dispatch_all host items d).answers ≡ tickets d.answers ++ asked items
unfolding dispatch_all
dispatch_all-answers host [] d = sym (append-nil (tickets d.answers))
dispatch_all-answers host (pr ∷ items) d =
    dispatch_all-answers host items (dispatch_request host pr d)
    ∙ ap (λ ts. ts ++ asked items) (dispatch_request-Answers host pr d)
    ∙ append_assoc (tickets d.answers) (pr.ticket ∷ []) (asked items)

-- A name written with the given small letters, each of them in either case.
abbrev pub Spells : Bytes → Bytes → Type 0
Spells [] [] = Unit {0}
Spells [] (d ∷ ds) = ⊥
Spells (c ∷ cs) [] = ⊥
Spells (c ∷ cs) (d ∷ ds) = ((c ≡ d) ⊎ ((65 ≤ c) × (c ≤ 90) × (c + 32 ≡ d))) × Spells cs ds

-- No letter of the name is a capital.
abbrev all_small : Bytes → Bool
all_small [] = true
all_small (d ∷ ds) = (ltb d 65 || ltb 90 d) && all_small ds

bytes_eq-spelled :
    (name small : Bytes)
    → all_small small ≡ true
    → Spells name small
    → bytes_eq (lower_all name) small ≡ true
unfolding bytes_eq
bytes_eq-spelled [] [] h p = refl
bytes_eq-spelled [] (d ∷ ds) h p = absurd p
bytes_eq-spelled (c ∷ cs) [] h p = absurd p
bytes_eq-spelled (c ∷ cs) (d ∷ ds) h p = ground (arith, bytes_eq-spelled cs ds, h, p.0, p.1)

header_of-Plain : (name : Bytes) → header_of name ≡ false → ¬ Spells name (codes "content-type")
unfolding header_of
header_of-Plain name e p = cc (e, bytes_eq-spelled name (codes "content-type") refl p)

-- What a client may rely on in a response: a status in 100..599, and no Content-Type beside the one
-- that the response's type gives.
abbrev pub IsPlainHeader : Bytes × Bytes → Type 0
IsPlainHeader h = ¬ Spells h.0 (codes "content-type")

abbrev pub IsWellFormed : Response → Type 0
IsWellFormed r = (100 ≤ r.status) × (r.status ≤ 599) × All IsPlainHeader r.headers

set_headers-IsWellFormed :
    (ns : List RString) (xs : Elements) (r : Response)
    → IsWellFormed r
    → IsWellFormed (set_headers ns xs r)
unfolding set_headers
set_headers-IsWellFormed [] xs r h = h
set_headers-IsWellFormed (n ∷ ns) nil r h = h
set_headers-IsWellFormed (n ∷ ns) (cons x xs) r h = elim (Option-cases (header_value x)) [
  | inl e ↦ rw (e, set_headers) (set_headers-IsWellFormed ns xs r h)
  | inr (v, e) ↦
      rw (e, set_headers)
        (elim (Bool-cases (header_of (char n))) [
          | inl k ↦
              rw (k, set_headers)
                (set_headers-IsWellFormed ns xs (record r { content_type = custom v })
                  (h.0, h.1, h.2))
          | inr k ↦
              rw (k, set_headers)
                (set_headers-IsWellFormed ns xs
                  (record r { headers = r.headers ++ (char n, v) ∷ [] })
                  (
                    h.0,
                    h.1,
                    All-append IsPlainHeader r.headers ((char n, v) ∷ []) h.2
                        (header_of-Plain (char n) k, tt),
                  ))
        ])
]

with_headers-IsWellFormed :
    (headers : Option Sexp) (r : Response) → IsWellFormed r → IsWellFormed (with_headers headers r)
with_headers-IsWellFormed none r h = h
with_headers-IsWellFormed (some (list a xs)) r h =
    elim a.names
      as (λ names. IsWellFormed (elim names as (λ x. Response) [
        | texts ns ↦ set_headers ns xs r
        | absent ↦ r
        | other_type n ↦ r
      ])) [ texts ns ↦ set_headers-IsWellFormed ns xs r h | absent ↦ h | other_type n ↦ h ]
with_headers-IsWellFormed (some (closure c)) r h = h
with_headers-IsWellFormed (some null) r h = h
with_headers-IsWellFormed (some (logicals a xs)) r h = h
with_headers-IsWellFormed (some (integers a xs)) r h = h
with_headers-IsWellFormed (some (reals a xs)) r h = h
with_headers-IsWellFormed (some (strings a xs)) r h = h
with_headers-IsWellFormed (some (raws a xs)) r h = h
with_headers-IsWellFormed (some (external_ptr p)) r h = h
with_headers-IsWellFormed (some (other n)) r h = h

valid_status_bounds : (code : ℤ) → (100 ≤ valid_status code) × (valid_status code ≤ 599)
valid_status_bounds (pos n) = ground arith
valid_status_bounds (negsuc n) = (omega arith, omega arith)

from_fields-IsWellFormed :
    (to_int : Real → ℤ) (beyond : ℤ) (f : Fields) → IsWellFormed (from_fields to_int beyond f)
from_fields-IsWellFormed to_int beyond f =
    let bounds = valid_status_bounds (status_code to_int beyond f.status) in
    with_headers-IsWellFormed f.headers _ (bounds.0, bounds.1, tt)

-- Whatever value a handler returns, the response that is built from it has a status in 100..599, also
-- where the value gives another, and passes on no header that is called Content-Type in any mix of
-- capital and small letters. That holds whatever the read of an empty status vector finds, if it
-- returns.
pub build_response-IsWellFormed :
    (to_int : Real → ℤ) (beyond : ℤ) (value : Sexp)
    → IsWellFormed (build_response to_int beyond value)
unfolding build_response
build_response-IsWellFormed to_int beyond (strings a []) = (omega arith, omega arith, tt)
build_response-IsWellFormed to_int beyond (strings a (s ∷ [])) = (omega arith, omega arith, tt)
build_response-IsWellFormed to_int beyond (strings a (s ∷ t ∷ ss)) = (omega arith, omega arith, tt)
build_response-IsWellFormed to_int beyond (list a xs) =
    elim a.names
      as (λ names. IsWellFormed (elim names as (λ x. Response) [
        | texts ns ↦ from_fields to_int beyond (read_fields ns xs no_fields)
        | absent ↦ make_error_response (codes "R handler returned an unnamed list")
        | other_type n ↦ make_error_response (codes "R handler returned an unnamed list")
      ])) [
        | texts ns ↦ from_fields-IsWellFormed to_int beyond (read_fields ns xs no_fields)
        | absent ↦ (omega arith, omega arith, tt)
        | other_type n ↦ (omega arith, omega arith, tt)
      ]
build_response-IsWellFormed to_int beyond (closure c) = (omega arith, omega arith, tt)
build_response-IsWellFormed to_int beyond null = (omega arith, omega arith, tt)
build_response-IsWellFormed to_int beyond (logicals a xs) = (omega arith, omega arith, tt)
build_response-IsWellFormed to_int beyond (integers a xs) = (omega arith, omega arith, tt)
build_response-IsWellFormed to_int beyond (reals a xs) = (omega arith, omega arith, tt)
build_response-IsWellFormed to_int beyond (raws a xs) = (omega arith, omega arith, tt)
build_response-IsWellFormed to_int beyond (external_ptr p) = (omega arith, omega arith, tt)
build_response-IsWellFormed to_int beyond (other n) = (omega arith, omega arith, tt)
