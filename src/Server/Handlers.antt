-- ===== src/Server/Handlers.antt =====
-- The handlers that src/drogon_server.cpp gives to Drogon, as they run on an I/O thread and on a
-- worker of the native pool: makeRateLimitResponse, methodFromString, installDrogonHandler,
-- installCppHandler and the head of installCppStreamHandler.
pub mod Serve
pub mod Laws
use drogon_r.Prelude.{
  ℕ, ◌+◌, Bool, true, false, List, [], ◌∷◌, ◌++◌, Option, none, some, ◌==◌, ltb, if◌then◌else◌,
  length, map,
}
use drogon_r.Prelude.Bytes.{Bytes, codes, bytes_eq, c_string}
use drogon_r.Prelude.Sexp.{ℤ, pos, negsuc, Real}
use drogon_r.Json.Escape.{print_int}
use drogon_r.Queue.{QueueState, enqueue_request}
use drogon_r.Dispatch.Request.{PendingRequest}
use drogon_r.Dispatch.Reply.{ContentType, default_type, text_plain, custom}
use drogon_r.Server.Limits.{RouteLimiters, check_rate_limits}
use drogon_r.Server.Tables.{CppStreamRoute}

pub data HttpMethod : Type 0 where
  get post put delete patch head options : HttpMethod

unfoldable pub method_from_string : Bytes → HttpMethod
unfolding bytes_eq
method_from_string m =
    if bytes_eq m (codes "GET")
    then get
    else if bytes_eq m (codes "POST")
    then post
    else if bytes_eq m (codes "PUT")
    then put
    else if bytes_eq m (codes "DELETE")
    then delete
    else if bytes_eq m (codes "PATCH")
    then patch
    else if bytes_eq m (codes "HEAD")
    then head
    else if bytes_eq m (codes "OPTIONS")
    then options
    else get

-- A request of Drogon; `ticket` stands for its callback.
pub record HttpRequest : Type 0 where
  pub method_string : Bytes
  pub path : Bytes
  pub body : Bytes
  pub query : Bytes
  pub headers : List (Bytes × Bytes)
  pub parameters : List (Bytes × Bytes)
  pub routing_parameters : List Bytes
  pub ticket : ℕ
  pub connected : Bool

-- A response that C++ gives without R. Its status is an `int` that is cast to Drogon's enumeration.
pub record NativeResponse : Type 0 where
  pub status : ℤ
  pub content_type : ContentType
  pub body : Bytes
  pub headers : List (Bytes × Bytes)

-- What the worker hands to the backend's C function. A missing query is a null pointer, and headers
-- are names and values in turn.
pub record Snapshot : Type 0 where
  pub body : Bytes
  pub query : Option Bytes
  pub path_params : List Bytes
  pub headers : List Bytes

pub record CppTask : Type 0 where
  pub fn : ℕ
  pub snapshot : Snapshot
  pub ticket : ℕ

-- A buffer that the backend allocated: its address, and what it holds, as many bytes as the length
-- says that the backend gives with it (a content type is a C string).
pub record Buffer : Type 0 where
  pub address : ℕ
  pub bytes : Bytes

-- How a call of the C function ends: its result, `none` if it threw, and its output parameters.
pub record Outcome : Type 0 where
  pub rc : Option ℤ
  pub out_body : Option Buffer
  pub out_status : ℤ
  pub out_content_type : Option Buffer

-- What the threads of the server share. `S` is the state of the limiters.
pub record Io (S : Type 0) : Type 0 where
  pub queue : QueueState PendingRequest
  pub limits : S
  pub answers : List (ℕ × NativeResponse)
  pub tasks : List CppTask
  pub streams : List CppTask
  pub frees : List ℕ

-- The arithmetic on a window: whether it is above zero, and its ceiling as an `int`.
pub record Seconds : Type 0 where
  pub positive : Real → Bool
  pub ceil : Real → ℤ

unfoldable pub make_rate_limit_response : Seconds → Real → NativeResponse
unfolding print_int
make_rate_limit_response secs retry_after = record {
  status = pos 429;
  content_type = text_plain;
  body = codes "429 Too Many Requests";
  headers =
      (
        codes "Retry-After",
        print_int (if secs.positive retry_after then secs.ceil retry_after else pos 1),
      )
      ∷ [];
}

abbrev pub queue_full_response : NativeResponse
queue_full_response = record {
  status = pos 503;
  content_type = default_type;
  body = codes "503 Service Unavailable: request queue is full";
  headers = [];
}

abbrev pub backend_failed_response : NativeResponse
backend_failed_response = record {
  status = pos 500;
  content_type = text_plain;
  body = codes "500 Internal Server Error: native backend returned non-zero";
  headers = [];
}

-- The pointers that the worker builds are to C strings.
unfoldable pub flatten : List (Bytes × Bytes) → List Bytes
flatten [] = []
flatten ((name, value) ∷ hs) = name ∷ value ∷ flatten hs

abbrev pub query_or_null : Bytes → Option Bytes
query_or_null [] = none
query_or_null (c ∷ cs) = some (c_string (c ∷ cs))

unfoldable pub snapshot_of : HttpRequest → Snapshot
unfolding c_string flatten
snapshot_of req = record {
  body = req.body;
  query = query_or_null req.query;
  path_params = map c_string req.routing_parameters;
  headers = map c_string (flatten req.headers);
}

unfoldable pub pending_of : ℤ → HttpRequest → PendingRequest
pending_of route_id req = record {
  method = req.method_string;
  path = req.path;
  body = req.body;
  headers = req.headers;
  queries = req.parameters;
  path_params = req.routing_parameters;
  ticket = req.ticket;
  connected = req.connected;
  route_id = route_id;
}

abbrev pub free_buffer : Option Buffer → List ℕ → List ℕ
free_buffer none frees = frees
free_buffer (some b) frees = frees ++ b.address ∷ []

abbrev pub bytes_of : Option Buffer → Bytes
bytes_of none = []
bytes_of (some b) = b.bytes

abbrev pub content_type_or : Bytes → Option Buffer → ContentType
content_type_or default none = custom default
content_type_or default (some b) = custom (c_string b.bytes)

-- `rc`, which is -1 behind a throw.
abbrev pub failed : Option ℤ → Bool
failed none = true
failed (some (pos n)) = ltb 0 n
failed (some (negsuc n)) = true

unfoldable pub respond_native : Outcome → NativeResponse
unfolding c_string
respond_native out = if failed out.rc then backend_failed_response else record {
  status = out.out_status;
  content_type = content_type_or (codes "application/octet-stream") out.out_content_type;
  body = bytes_of out.out_body;
  headers = [];
}

-- Both buffers are freed on either branch.
unfoldable pub free_outputs : Outcome → List ℕ → List ℕ
free_outputs out frees = free_buffer out.out_content_type (free_buffer out.out_body frees)

-- The head of a stream is answered at once; the worker's task then pushes the chunks.
abbrev pub stream_head_response : Bytes → NativeResponse
stream_head_response content_type = record {
  status = pos 200;
  content_type = custom content_type;
  body = [];
  headers = [];
}

abbrev pub default_content_type : Bytes → Bytes
default_content_type [] = codes "text/event-stream"
default_content_type (c ∷ cs) = c ∷ cs
