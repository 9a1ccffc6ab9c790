-- ===== src/Server/Tables.antt =====
-- The registrations of src/drogon_server.cpp. `false` is an R error, which leaves what was done before.
pub mod RateLimits
pub mod Laws
use drogon_r.Prelude.{
  ℕ, suc, ◌+◌, Bool, true, false, ◌&&◌, List, [], ◌∷◌, ◌++◌, Option, none, some, ◌==◌,
  if◌then◌else◌, ◌>>=◌, map,
}
use drogon_r.Prelude.Bytes.{Bytes}
use drogon_r.Prelude.Sexp.{Sexp, null, strings, closure, external_ptr, RString, char}
use drogon_r.Prelude.Preserved.{preserve, release_hook}
use drogon_r.Dispatch.Request.{Route}
use drogon_r.Server.Limits.{RateLimitRule}

pub record StaticMount : Type 0 where
  pub mount : Bytes
  pub dir : Bytes

-- The C function is known by its address.
pub record CppRoute : Type 0 where
  pub method : Bytes
  pub path : Bytes
  pub regex : Bytes
  pub param_names : List Bytes
  pub fn : ℕ

pub record CppStreamRoute : Type 0 where
  pub method : Bytes
  pub path : Bytes
  pub regex : Bytes
  pub param_names : List Bytes
  pub fn : ℕ
  pub content_type : Bytes

pub record Tables : Type 0 where
  pub running : Bool
  pub routes : List Route
  pub cpp_routes : List CppRoute
  pub cpp_stream_routes : List CppStreamRoute
  pub static_mounts : List StaticMount
  pub rate_limit_rules : List RateLimitRule
  pub preserved : List ℕ

abbrev pub single_text : Sexp → Option Bytes
single_text (strings a (s ∷ [])) = some (char s)
single_text x = none

abbrev pub all_texts : Sexp → Option (List Bytes)
all_texts (strings a ss) = some (map char ss)
all_texts x = none

abbrev pub function_of : Sexp → Option ℕ
function_of (closure c) = some c
function_of x = none

-- An external pointer that is not NULL.
abbrev pub address_of : Sexp → Option ℕ
address_of (external_ptr p) = if p == 0 then none else some p
address_of x = none

-- `NA` for the default content type.
abbrev pub text_or_default : Sexp → Option Bytes
text_or_default (strings a (none ∷ [])) = some []
text_or_default (strings a (some s ∷ [])) = some s
text_or_default x = none

abbrev pub or_error : Tables → Option Tables → Tables × Bool
or_error t none = (t, false)
or_error t (some t') = (t', true)

abbrev pub unless_running : Tables → Option Tables → Tables × Bool
unless_running t change = if t.running then (t, false) else or_error t change

abbrev pub route_change : Sexp → Sexp → Sexp → Sexp → Sexp → Tables → Option Tables
route_change method path regex param_names handler t = single_text method >>= λ m.
    single_text path >>= λ p. single_text regex >>= λ r. all_texts param_names >>= λ ns.
    function_of handler >>= λ c. some (record t {
      routes =
          t.routes
          ++ record { method = m; path = p; regex = r; param_names = ns; handler = closure c } ∷ [];
      preserved = preserve c t.preserved;
    })

unfoldable pub register_route : Sexp → Sexp → Sexp → Sexp → Sexp → Tables → Tables × Bool
register_route method path regex param_names handler t =
    unless_running t (route_change method path regex param_names handler t)

abbrev pub static_change : Sexp → Sexp → Tables → Option Tables
static_change mount dir t = single_text mount >>= λ m. single_text dir >>= λ d.
    some (record t { static_mounts = t.static_mounts ++ record { mount = m; dir = d } ∷ [] })

unfoldable pub register_static : Sexp → Sexp → Tables → Tables × Bool
register_static mount dir t = unless_running t (static_change mount dir t)

abbrev pub cpp_route_change : Sexp → Sexp → Sexp → Sexp → Sexp → Tables → Option Tables
cpp_route_change method path regex param_names ptr t = single_text method >>= λ m.
    single_text path >>= λ p. single_text regex >>= λ r. all_texts param_names >>= λ ns.
    address_of ptr >>= λ f. some (record t {
      cpp_routes =
          t.cpp_routes ++ record { method = m; path = p; regex = r; param_names = ns; fn = f } ∷ [];
    })

unfoldable pub register_cpp_route : Sexp → Sexp → Sexp → Sexp → Sexp → Tables → Tables × Bool
register_cpp_route method path regex param_names ptr t =
    unless_running t (cpp_route_change method path regex param_names ptr t)

abbrev pub cpp_stream_route_change :
    Sexp → Sexp → Sexp → Sexp → Sexp → Sexp → Tables → Option Tables
cpp_stream_route_change method path regex param_names ptr content_type t =
    single_text method >>= λ m. single_text path >>= λ p. single_text regex >>= λ r.
    all_texts param_names >>= λ ns. text_or_default content_type >>= λ ct. address_of ptr >>= λ f.
    some (record t {
      cpp_stream_routes =
          t.cpp_stream_routes
          ++ record { method = m; path = p; regex = r; param_names = ns; fn = f; content_type = ct }
            ∷ [];
    })

unfoldable pub register_cpp_stream_route :
    Sexp → Sexp → Sexp → Sexp → Sexp → Sexp → Tables → Tables × Bool
register_cpp_stream_route method path regex param_names ptr content_type t =
    unless_running t (cpp_stream_route_change method path regex param_names ptr content_type t)

abbrev pub handler_ref : Route → Option ℕ
handler_ref r = function_of r.handler

unfoldable pub release_handlers : List Route → List ℕ → List ℕ
release_handlers [] kept = kept
release_handlers (r ∷ rs) kept = release_handlers rs (release_hook (handler_ref r) kept)

unfoldable pub clear_routes : Tables → Tables × Bool
unfolding release_handlers
clear_routes t = if t.running then (t, false) else (
  record t {
    routes = [];
    cpp_routes = [];
    cpp_stream_routes = [];
    static_mounts = [];
    rate_limit_rules = [];
    preserved = release_handlers t.routes t.preserved;
  },
  true,
)
