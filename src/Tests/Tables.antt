-- ===== src/Tests/Tables.antt =====
-- Registrations and rate limits of src/drogon_server.cpp.
use drogon_r.Prelude.{ℕ, ◌≡◌, refl, ◌↔◌, Bool, true, false, [], ◌∷◌, none, some, ltb}
use drogon_r.Prelude.Bytes.{Bytes, codes, starts_with}
use drogon_r.Prelude.Sexp.{Sexp, Real, ℤ, strings, closure, list, nil, plain, pos, finite}
use drogon_r.Prelude.Preserved.{times}
use drogon_r.Server.Limits.{
  RateLimitRule, LimitWorld, fixed_window, build_limiters_for_path, check_rate_limits, matches,
  has_prefix,
}
use drogon_r.Server.Limits.Laws.{holds, AllAllow, passes_all, global_rule_shared}
use drogon_r.Server.Tables.{Tables, clear_routes}
use drogon_r.Server.Tables.Laws.{
  Registration, route, rate_limits, register_all, clear_routes-balance,
}

abbrev to_int : Real → ℤ
to_int x = pos 0

abbrev text : Bytes → Sexp
text s = strings plain (some s ∷ [])

abbrev stopped : Tables
stopped = record {
  running = false;
  routes = [];
  cpp_routes = [];
  cpp_stream_routes = [];
  static_mounts = [];
  rate_limit_rules = [];
  preserved = 4 ∷ [];
}

abbrev started : Tables
started = record stopped { running = true }

abbrev get_root : Registration
get_root =
    route (text (codes "GET")) (text (codes "/")) (text (codes "^/$")) (strings plain [])
      (closure 4)

clear_routes-balance_example :
    times 4
      (clear_routes
        (register_all to_int (get_root ∷ rate_limits (list plain nil) ∷ []) stopped)).0.preserved
    ≡ times 4 stopped.preserved
clear_routes-balance_example =
    clear_routes-balance to_int (get_root ∷ rate_limits (list plain nil) ∷ []) stopped refl refl 4

abbrev gt : Real → Real → Bool
gt x y = false

abbrev rule : RateLimitRule
rule = record {
  capacity = pos 5;
  window = finite 1;
  type = fixed_window;
  global_scope = true;
  route_prefixes = codes "/api" ∷ [];
  shared_limiter = none;
}

abbrev limits : LimitWorld
limits = record { made = []; next_limiter = 0; rules = rule ∷ [] }

in_api : (s : Bytes) → starts_with (codes "/api") s ≡ true → matches rule s ≡ true
unfolding has_prefix
in_api s e = rw e refl

api_a : starts_with (codes "/api") (codes "/api/a") ≡ true
unfolding starts_with
api_a = refl

api_b : starts_with (codes "/api") (codes "/api/b") ≡ true
unfolding starts_with
api_b = refl

global_rule_shared_example :
    (l : ℕ) × (holds l (build_limiters_for_path gt (codes "/api/a") limits).0.limiters ≡ true)
    × (holds l
          (build_limiters_for_path gt
            (codes "/api/b")
            (build_limiters_for_path gt (codes "/api/a") limits).1).0.limiters
        ≡ true)
global_rule_shared_example =
    global_rule_shared gt (codes "/api/a") (codes "/api/b") limits 0 rule refl refl
      (in_api (codes "/api/a") api_a) (in_api (codes "/api/b") api_b)

-- Each limiter allows a request while fewer than three were counted.
abbrev is_allowed : ℕ → ℕ → Bool × ℕ
is_allowed l n = (ltb n 3, n)

passes_all_example :
    ((check_rate_limits is_allowed (0 ∷ 1 ∷ []) 2).0 ≡ true) ↔ AllAllow is_allowed (0 ∷ 1 ∷ []) 2
passes_all_example = passes_all is_allowed (0 ∷ 1 ∷ []) 2
