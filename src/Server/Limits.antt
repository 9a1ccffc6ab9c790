-- ===== src/Server/Limits.antt =====
-- Rate limits in src/drogon_server.cpp: buildLimitersForPath and checkRateLimits.
-- A limiter is known by a number, in the order in which they are made. A window is a double: its
-- comparison is an argument.
pub mod Laws
use drogon_r.Prelude.{
  ℕ, suc, ◌+◌, Bool, true, false, ◌||◌, List, [], ◌∷◌, ◌++◌, Option, none, some, ◌==◌, ltb,
  if◌then◌else◌,
}
use drogon_r.Prelude.Bytes.{Bytes, codes, starts_with}
use drogon_r.Prelude.Sexp.{ℤ, Real, finite}
use drogon_r.Dispatch.Reply.{text_plain}

pub data RateLimiterType : Type 0 where
  sliding_window fixed_window token_bucket : RateLimiterType

pub record RateLimitRule : Type 0 where
  pub capacity : ℤ
  pub window : Real
  pub type : RateLimiterType
  pub global_scope : Bool
  pub route_prefixes : List Bytes
  pub shared_limiter : Option ℕ

-- A limiter as RateLimiter::newRateLimiter made it.
pub record Limiter : Type 0 where
  pub type : RateLimiterType
  pub capacity : ℤ
  pub window : Real

pub record RouteLimiters : Type 0 where
  pub limiters : List ℕ
  pub max_window : Real

-- The limiters that exist, which numbers index, and the rules.
pub record LimitWorld : Type 0 where
  pub made : List Limiter
  pub next_limiter : ℕ
  pub rules : List RateLimitRule

unfoldable pub has_prefix : List Bytes → Bytes → Bool
has_prefix [] path = false
has_prefix (pfx ∷ pfxs) path = if starts_with pfx path then true else has_prefix pfxs path

abbrev pub matches : RateLimitRule → Bytes → Bool
matches rule path = elim rule.route_prefixes [ [] ↦ true | p ∷ ps ↦ has_prefix (p ∷ ps) path ]

abbrev pub limiter_of : RateLimitRule → Limiter
limiter_of rule = record { type = rule.type; capacity = rule.capacity; window = rule.window }

-- What one rule that applies to a path gives: its limiter, the rule, and what has been made.
pub record Applied : Type 0 where
  pub limiter : ℕ
  pub rule : RateLimitRule
  pub made : List Limiter
  pub next_limiter : ℕ

unfoldable pub apply_rule : RateLimitRule → List Limiter → ℕ → Applied
apply_rule rule made n =
    let fresh : Applied = record {
      limiter = n;
      rule = rule;
      made = made ++ limiter_of rule ∷ [];
      next_limiter = suc n;
    } in
    if rule.global_scope
    then (elim rule.shared_limiter [
      | some l ↦ record { limiter = l; rule = rule; made = made; next_limiter = n }
      | none ↦ record fresh { rule = record rule { shared_limiter = some n } }
    ])
    else fresh

module _ (gt : Real → Real → Bool) where
  abbrev pub longer : Real → Real → Real
  longer window max = if gt window max then window else max

  -- The loop's body for one rule, and the loop.
  unfoldable pub limit_rule :
      Bytes → RateLimitRule → RouteLimiters → List Limiter → ℕ → RouteLimiters × Applied
  unfolding has_prefix apply_rule
  limit_rule path rule out made n =
      let a = apply_rule rule made n in
      if matches rule path
      then (
        record {
          limiters = out.limiters ++ a.limiter ∷ [];
          max_window = longer rule.window out.max_window;
        },
        a,
      )
      else (out, record { limiter = n; rule = rule; made = made; next_limiter = n })

  unfoldable pub limit_rules :
      Bytes
      → List RateLimitRule
      → RouteLimiters
      → List Limiter
      → ℕ
      → RouteLimiters × List RateLimitRule × List Limiter × ℕ
  unfolding limit_rule
  limit_rules path [] out made n = (out, [], made, n)
  limit_rules path (rule ∷ rules) out made n =
      let (out1, a) = limit_rule path rule out made n in
      let (out2, rules2, made2, n2) = limit_rules path rules out1 a.made a.next_limiter in
      (out2, a.rule ∷ rules2, made2, n2)

  unfoldable pub build_limiters_for_path : Bytes → LimitWorld → RouteLimiters × LimitWorld
  unfolding limit_rules
  build_limiters_for_path path w =
      let (out, rules, made, n) =
        limit_rules path w.rules (record { limiters = []; max_window = finite 0 }) w.made
          w.next_limiter in
      (out, record { rules = rules; made = made; next_limiter = n })

-- isAllowed of each limiter in turn: the state of the limiters is an argument, `is_allowed` is Drogon's.
module _ {S : Type 0} (is_allowed : ℕ → S → Bool × S) where
  -- Whether the request may pass; the first limiter that rejects ends the loop.
  unfoldable pub check_rate_limits : List ℕ → S → Bool × S
  check_rate_limits [] s = (true, s)
  check_rate_limits (l ∷ ls) s =
      let (ok, s') = is_allowed l s in
      let rest = check_rate_limits ls s' in if ok then rest else (false, s')
