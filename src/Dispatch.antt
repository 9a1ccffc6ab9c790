-- ===== src/Dispatch.antt =====
-- src/r_dispatcher.cpp: what the main R thread does with the requests that it has drained.
pub mod Reply
pub mod Request
pub mod Watch
pub mod Turn
pub mod Laws
use drogon_r.Prelude.{
  ℕ, suc, ◌+◌, Bool, true, false, ◌||◌, List, [], ◌∷◌, ◌++◌, Option, none, some, ◌==◌, ltb,
  if◌then◌else◌, get_elem?,
}
use drogon_r.Prelude.Bytes.{Bytes, codes, bytes_eq}
use drogon_r.Prelude.Sexp.{
  Sexp, null, reals, integers, strings, list, closure, Elements, nil, cons, Attr, texts, Attrs,
  RString, char, ℤ, pos, negsuc, Real, finite,
}
use drogon_r.Stream.{StreamWorld, start_stream_session}
use drogon_r.Stream.Pump.{named_field}
use drogon_r.Dispatch.Reply.{
  Response, make_error_response, build_response, header_of, parse_stream_headers,
}
use drogon_r.Dispatch.Request.{PendingRequest, Route, get_route, build_request_list}

-- What Drogon's callback of a request is called with.
pub data Answer : Type 0 where
  plain_answer : Response → Answer
  stream_answer : Bytes → List (Bytes × Bytes) → Answer

pub record Dispatcher : Type 0 where
  pub routes : List Route
  pub streams : StreamWorld
  -- The callbacks that were called, by the request's ticket, with what.
  pub answers : List (ℕ × Answer)

-- What R does: a handler's value for a request (`none` is an error), the text of geterrmessage, and the
-- conversions of a `double` and an `int`.
pub record Host : Type 0 where
  pub eval : ℕ → ℕ → Sexp → Option Sexp
  pub geterrmessage : ℕ → Option Bytes
  pub to_int : Real → ℤ
  -- What is read where an empty vector of numbers has its first element.
  pub beyond : ℤ
  pub to_double : ℤ → Real
  pub object : Sexp → ℕ

unfoldable pub has_stream_class : List RString → Bool
unfolding bytes_eq
has_stream_class [] = false
has_stream_class (c ∷ cs) =
    if bytes_eq (char c) (codes "drogon_stream") then true else has_stream_class cs

abbrev pub class_is_stream : Attr → Bool
class_is_stream (texts cs) = has_stream_class cs
class_is_stream a = false

unfoldable pub is_drogon_stream : Sexp → Bool
unfolding has_stream_class
is_drogon_stream (list a xs) = class_is_stream a.class
is_drogon_stream x = false

abbrev pub content_type_of : Option Sexp → Bytes
content_type_of (some (strings a (s ∷ ss))) = char s
content_type_of x = codes "text/event-stream"

abbrev pub interval_of : Host → Option Sexp → Real
interval_of host (some (reals a (x ∷ xs))) = x
interval_of host (some (integers a (i ∷ is))) = host.to_double i
interval_of host x = finite 0

unfoldable pub error_text : Option Bytes → Bytes
error_text none = codes "R handler error: " ++ codes "(unknown error)"
error_text (some msg) = codes "R handler error: " ++ msg

abbrev pub answer_with : ℕ → Answer → Dispatcher → Dispatcher
answer_with ticket a d = record d { answers = d.answers ++ (ticket, a) ∷ [] }

-- Every header of a stream but Content-Type goes to addHeader, and the last Content-Type wins.
unfoldable pub stream_head : Bytes → List (Bytes × Bytes) → List (Bytes × Bytes) → Answer
unfolding header_of
stream_head content_type added [] = stream_answer content_type added
stream_head content_type added ((name, value) ∷ hs) =
    if header_of name
    then stream_head value added hs
    else stream_head content_type (added ++ (name, value) ∷ []) hs

-- A value of class drogon_stream, whose next_chunk has been looked up.
unfoldable pub answer_stream : Host → PendingRequest → Sexp → Option Sexp → Dispatcher → Dispatcher
unfolding named_field start_stream_session parse_stream_headers stream_head make_error_response
answer_stream host pr res (some (closure c)) d =
    let content_type = content_type_of (named_field res (codes "content_type")) in
    let headers = parse_stream_headers (named_field res (codes "headers")) in
    answer_with pr.ticket (stream_head content_type [] headers) (record d {
      streams =
          start_stream_session host.object (closure c) (named_field res (codes "state"))
            pr.connected (interval_of host (named_field res (codes "min_interval"))) d.streams;
    })
answer_stream host pr res x d =
    answer_with pr.ticket
      (plain_answer (make_error_response (codes "drogon_stream: next_chunk is not a function"))) d

abbrev pub answer_value : Host → PendingRequest → Option Sexp → Dispatcher → Dispatcher
answer_value host pr none d =
    answer_with pr.ticket
      (plain_answer (make_error_response (error_text (host.geterrmessage pr.ticket)))) d
answer_value host pr (some res) d =
    if is_drogon_stream res
    then answer_stream host pr res (named_field res (codes "next_chunk")) d
    else answer_with pr.ticket (plain_answer (build_response host.to_int host.beyond res)) d

abbrev pub handler_at : Option Route → Sexp
handler_at none = null
handler_at (some r) = r.handler

abbrev pub call_handler : Host → PendingRequest → Sexp → Dispatcher → Dispatcher
call_handler host pr (closure c) d =
    answer_value host pr (host.eval pr.ticket c (build_request_list d.routes pr)) d
call_handler host pr x d =
    answer_with pr.ticket
      (plain_answer (make_error_response (codes "no handler registered for this route"))) d

-- The body of runDispatcher's loop, and the loop.
unfoldable pub dispatch_request : Host → PendingRequest → Dispatcher → Dispatcher
unfolding get_route build_request_list build_response make_error_response is_drogon_stream
    named_field answer_stream error_text
dispatch_request host pr d = call_handler host pr (handler_at (get_route d.routes pr.route_id)) d

unfoldable pub dispatch_all : Host → List PendingRequest → Dispatcher → Dispatcher
unfolding dispatch_request
dispatch_all host [] d = d
dispatch_all host (pr ∷ items) d = dispatch_all host items (dispatch_request host pr d)
