-- ===== src/Dispatch/Request.antt =====
-- getRoute in src/drogon_server.cpp and buildRequestList in src/r_dispatcher.cpp.
use drogon_r.Prelude.{ℕ, Bool, List, [], ◌∷◌, Option, none, some, get_elem?}
use drogon_r.Prelude.Bytes.{Bytes, codes, c_string}
use drogon_r.Prelude.Sexp.{
  Sexp, strings, list, nil, cons, texts, absent, plain, RString, ℤ, pos, negsuc,
}

pub record Route : Type 0 where
  pub method : Bytes
  pub path : Bytes
  pub regex : Bytes
  pub param_names : List Bytes
  pub handler : Sexp

-- `ticket` stands for the callback `respond`; `connected` is whether the connection is still there.
pub record PendingRequest : Type 0 where
  pub method : Bytes
  pub path : Bytes
  pub body : Bytes
  pub headers : List (Bytes × Bytes)
  pub queries : List (Bytes × Bytes)
  pub path_params : List Bytes
  pub ticket : ℕ
  pub connected : Bool
  pub route_id : ℤ

unfoldable pub get_route : List Route → ℤ → Option Route
get_route routes (pos i) = get_elem? routes i
get_route routes (negsuc i) = none

-- `Rf_mkString` and `Rf_mkChar` read a C string.
abbrev pub text : Bytes → Sexp
text s = strings plain (some (c_string s) ∷ [])

abbrev pub named : List RString → List RString → Sexp
named names values = strings (record { class = absent; names = texts names }) values

abbrev pub firsts : List (Bytes × Bytes) → List RString
firsts [] = []
firsts ((a, b) ∷ ps) = some (c_string a) ∷ firsts ps

abbrev pub seconds : List (Bytes × Bytes) → List RString
seconds [] = []
seconds ((a, b) ∷ ps) = some (c_string b) ∷ seconds ps

abbrev pub pairs : List (Bytes × Bytes) → Sexp
pairs ps = named (firsts ps) (seconds ps)

-- Names and captured values by position, as many as there are of both.
unfoldable pub zip_params : List Bytes → List Bytes → List (Bytes × Bytes)
zip_params [] vs = []
zip_params (n ∷ ns) [] = []
zip_params (n ∷ ns) (v ∷ vs) = (n, v) ∷ zip_params ns vs

abbrev pub param_names_of : Option Route → List Bytes
param_names_of none = []
param_names_of (some r) = r.param_names

unfoldable pub build_request_list : List Route → PendingRequest → Sexp
unfolding get_route zip_params c_string
build_request_list routes pr =
    list
      (record {
        class = texts (some (codes "drogon_request") ∷ []);
        names = texts (
            some (codes "method")
            ∷ some (codes "path")
            ∷ some (codes "body")
            ∷ some (codes "headers")
            ∷ some (codes "query")
            ∷ some (codes "params")
            ∷ []);
      })
      (cons (text pr.method) (
        cons (text pr.path) (
          cons (text pr.body) (
            cons (pairs pr.headers) (
              cons (pairs pr.queries) (
                cons
                  (pairs
                    (zip_params (param_names_of (get_route routes pr.route_id)) pr.path_params))
                  nil))))))
