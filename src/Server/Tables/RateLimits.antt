-- ===== src/Server/Tables/RateLimits.antt =====
-- drogonR_register_rate_limits in src/drogon_server.cpp. The conversion of a double to an `int` is an
-- argument.
use drogon_r.Prelude.{
  Bool, true, false, List, [], ◌∷◌, ◌++◌, Option, none, some, if◌then◌else◌, ◌>>=◌, map,
}
use drogon_r.Prelude.Bytes.{Bytes, codes, bytes_eq}
use drogon_r.Prelude.Sexp.{
  Sexp, null, strings, integers, reals, list, Elements, nil, cons, texts, absent, other_type,
  RString, char, ℤ, Real,
}
use drogon_r.Dispatch.Reply.{is_present}
use drogon_r.Server.Limits.{
  RateLimitRule, RateLimiterType, sliding_window, fixed_window, token_bucket,
}
use drogon_r.Server.Tables.{Tables}

pub record RuleFields : Type 0 where
  pub capacity : Option Sexp
  pub window : Option Sexp
  pub type : Option Sexp
  pub scope : Option Sexp
  pub routes : Option Sexp

abbrev pub no_rule_fields : RuleFields
no_rule_fields = record { capacity = none; window = none; type = none; scope = none; routes = none }

-- The loop over the names, in which a later element replaces an earlier one.
unfoldable pub rule_fields : List RString → Elements → RuleFields → RuleFields
unfolding bytes_eq
rule_fields [] xs f = f
rule_fields (n ∷ ns) nil f = f
rule_fields (n ∷ ns) (cons x xs) f = rule_fields ns xs (
    if bytes_eq (char n) (codes "capacity")
    then record f { capacity = is_present x }
    else if bytes_eq (char n) (codes "window")
    then record f { window = is_present x }
    else if bytes_eq (char n) (codes "type")
    then record f { type = is_present x }
    else if bytes_eq (char n) (codes "scope")
    then record f { scope = is_present x }
    else if bytes_eq (char n) (codes "routes")
    then record f { routes = is_present x }
    else f)

-- The checks of the fields; `none` is an R error.
abbrev pub one_number : (Real → ℤ) → Sexp → Option ℤ
one_number to_int (integers a (i ∷ [])) = some i
one_number to_int (reals a (x ∷ [])) = some (to_int x)
one_number to_int x = none

abbrev pub one_real : Sexp → Option Real
one_real (reals a (x ∷ [])) = some x
one_real x = none

abbrev pub one_text : Sexp → Option Bytes
one_text (strings a (s ∷ [])) = some (char s)
one_text x = none

unfoldable pub limiter_type : Bytes → Option RateLimiterType
unfolding bytes_eq
limiter_type s =
    if bytes_eq s (codes "sliding_window")
    then some sliding_window
    else if bytes_eq s (codes "fixed_window")
    then some fixed_window
    else if bytes_eq s (codes "token_bucket")
    then some token_bucket
    else none

unfoldable pub is_global : Bytes → Option Bool
unfolding bytes_eq
is_global s =
    if bytes_eq s (codes "global")
    then some true
    else if bytes_eq s (codes "per_route")
    then some false
    else none

abbrev pub prefixes : Option Sexp → Option (List Bytes)
prefixes none = some []
prefixes (some (strings a ss)) = some (map char ss)
prefixes (some x) = none

abbrev pub rule_from : (Real → ℤ) → RuleFields → Option RateLimitRule
rule_from to_int f = f.capacity >>= λ cap. f.window >>= λ win. f.type >>= λ ty. f.scope >>= λ sc.
    one_number to_int cap >>= λ c. one_real win >>= λ w. one_text ty >>= λ t. one_text sc >>= λ s.
    limiter_type t >>= λ k. is_global s >>= λ g. prefixes f.routes >>= λ ps. some (record {
      capacity = c;
      window = w;
      type = k;
      global_scope = g;
      route_prefixes = ps;
      shared_limiter = none;
    })

unfoldable pub read_rule : (Real → ℤ) → Sexp → Option RateLimitRule
unfolding rule_fields limiter_type is_global
read_rule to_int (list a xs) = elim a.names [
  | texts ns ↦ rule_from to_int (rule_fields ns xs no_rule_fields)
  | absent ↦ none
  | other_type n ↦ none
]
read_rule to_int x = none

-- The rules are appended one at a time, so an error keeps those before it.
unfoldable pub read_rules : (Real → ℤ) → Elements → List RateLimitRule → List RateLimitRule × Bool
unfolding read_rule
read_rules to_int nil out = (out, true)
read_rules to_int (cons x xs) out = elim (read_rule to_int x) [
  | none ↦ (out, false)
  | some r ↦ read_rules to_int xs (out ++ r ∷ [])
]

abbrev pub with_rules : Tables → List RateLimitRule × Bool → Tables × Bool
with_rules t (rules, ok) = (record t { rate_limit_rules = rules }, ok)

abbrev pub replace_rules : (Real → ℤ) → Sexp → Tables → Tables × Bool
replace_rules to_int null t = (record t { rate_limit_rules = [] }, true)
replace_rules to_int (list a xs) t = with_rules t (read_rules to_int xs [])
replace_rules to_int x t = (t, false)

unfoldable pub register_rate_limits : (Real → ℤ) → Sexp → Tables → Tables × Bool
unfolding read_rules
register_rate_limits to_int rules t = if t.running then (t, false) else replace_rules to_int rules t
