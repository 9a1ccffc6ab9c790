-- ===== src/Server/Limits/Laws.antt =====
-- Which limiters the routes of src/drogon_server.cpp share.
use drogon_r.Prelude.{
  ◌↔◌, ℕ, zero, suc, subst, ap₂, ◌≡◌, ◌≢◌, refl, ap, ◌∙◌, Bool, true, false, List, [], ◌∷◌, ◌++◌,
  Option, some, arith, ◌==◌, if◌then◌else◌, Bool-cases, Option-cases, inl, inr, get_elem?,
}
use drogon_r.Prelude.Bytes.{Bytes}
use drogon_r.Prelude.Sexp.{Real, finite}
use drogon_r.Server.Limits.{
  RateLimitRule, Limiter, RouteLimiters, LimitWorld, matches, apply_rule, limit_rule, limit_rules,
  build_limiters_for_path, check_rate_limits,
}

-- The number of rules that apply to a path.
abbrev pub count_matching : Bytes → List RateLimitRule → ℕ
count_matching path [] = 0
count_matching path (r ∷ rs) =
    if matches r path then suc (count_matching path rs) else count_matching path rs

false_not_true : false ≢ true
false_not_true e = cc

module _ {S : Type 0} (is_allowed : ℕ → S → Bool × S) where
  -- Each limiter, asked in turn, allows it.
  abbrev pub AllAllow : List ℕ → S → Type 0
  AllAllow [] s = Unit {0}
  AllAllow (l ∷ ls) s = ((is_allowed l s).0 ≡ true) × AllAllow ls (is_allowed l s).1

  -- A request is let through exactly if every limiter of its route, asked in turn, allows it.
  pub passes_all :
      (ls : List ℕ) (s : S) → ((check_rate_limits is_allowed ls s).0 ≡ true) ↔ AllAllow ls s
  unfolding check_rate_limits
  passes_all [] s = (λ h. tt, λ h. refl)
  passes_all (l ∷ ls) s = elim (Bool-cases (is_allowed l s).0) [
    | inl e ↦
        rw (e, check_rate_limits)
          (
            λ h. (refl, (passes_all ls (is_allowed l s).1).0 h),
            λ h. (passes_all ls (is_allowed l s).1).1 h.1,
          )
    | inr e ↦
        rw (e, check_rate_limits) (λ h. absurd (false_not_true h), λ h. absurd (false_not_true h.0))
  ]

abbrev pub holds : ℕ → List ℕ → Bool
holds l [] = false
holds l (x ∷ xs) = if x == l then true else holds l xs

holds-append_left : (l : ℕ) (xs ys : List ℕ) → holds l xs ≡ true → holds l (xs ++ ys) ≡ true
holds-append_left l [] ys h = cc
holds-append_left l (x ∷ xs) ys h = ground (arith, holds-append_left l xs ys)

holds-end : (l : ℕ) (xs : List ℕ) → holds l (xs ++ l ∷ []) ≡ true
holds-end l [] = ground arith
holds-end l (x ∷ xs) = ground (arith, holds-end l xs)

module _ (gt : Real → Real → Bool) where
  -- The limiters that a path has already are kept by the rules that follow.
  limit_rules-keeps :
      (path : Bytes) (rules : List RateLimitRule) (out : RouteLimiters) (made : List Limiter)
      (n l : ℕ)
      → holds l out.limiters ≡ true
      → holds l (limit_rules gt path rules out made n).0.limiters ≡ true
  unfolding limit_rules limit_rule
  limit_rules-keeps path [] out made n l h = h
  limit_rules-keeps path (rule ∷ rules) out made n l h =
      let (out1, a) = limit_rule gt path rule out made n in
      limit_rules-keeps path rules (limit_rule gt path rule out made n).0
        (limit_rule gt path rule out made n).1.made
        (limit_rule gt path rule out made n).1.next_limiter l
        (elim (Bool-cases (matches rule path)) [
          | inl e ↦ rw e (holds-append_left l out.limiters _ h)
          | inr e ↦ rw e h
        ])

  -- A rule as it stands behind the build of a path: with a limiter that the path has.
  abbrev pub IsShared : RateLimitRule → ℕ → Bytes → List RateLimitRule → RouteLimiters → ℕ → Type 0
  IsShared rule l path rules out i =
      (get_elem? rules i ≡ some (record rule { shared_limiter = some l }))
      × (holds l out.limiters ≡ true)

  abbrev set_shared : RateLimitRule → ℕ → RateLimitRule
  set_shared rule l = record rule { shared_limiter = some l }

  abbrev set_both : RateLimitRule → Bool → Option ℕ → RateLimitRule
  set_both rule g o = record rule { global_scope = g; shared_limiter = o }

  limit_rule-IsShared :
      (path : Bytes) (rule : RateLimitRule) (out : RouteLimiters) (made : List Limiter) (n : ℕ)
      → matches rule path ≡ true
      → rule.global_scope ≡ true
      → (l : ℕ) × ((limit_rule gt path rule out made n).1.rule
          ≡ record rule { shared_limiter = some l })
        × (holds l (limit_rule gt path rule out made n).0.limiters ≡ true)
        × ((k : ℕ) → rule.shared_limiter ≡ some k → l ≡ k)
  unfolding limit_rule apply_rule
  limit_rule-IsShared path rule out made n here global = elim (Option-cases rule.shared_limiter) [
    | inl e ↦ (
      n,
      simp (here, global, e) refl,
      simp (here, global, e) (holds-end n out.limiters),
      λ k h. ground arith,
    )
    | inr (s, e) ↦ (
      s,
      simp (here, global, e) (ap₂ (λ g o. set_both rule g o) global e),
      simp (here, global, e) (holds-end s out.limiters),
      λ k h. ground arith,
    )
  ]

  -- The same for the rule at any place of the table.
  limit_rules-IsShared :
      (path : Bytes) (rules : List RateLimitRule) (out : RouteLimiters) (made : List Limiter)
      (n i : ℕ)
      → (rule : RateLimitRule) → get_elem? rules i ≡ some rule
      → matches rule path ≡ true
      → rule.global_scope ≡ true
      → (l : ℕ) × (get_elem? (limit_rules gt path rules out made n).1 i
          ≡ some (record rule { shared_limiter = some l }))
        × (holds l (limit_rules gt path rules out made n).0.limiters ≡ true)
        × ((k : ℕ) → rule.shared_limiter ≡ some k → l ≡ k)
  unfolding limit_rules
  limit_rules-IsShared path [] out made n i rule found here global = cc
  limit_rules-IsShared path (r ∷ rules) out made n (suc i) rule found here global =
      let (out1, a) = limit_rule gt path r out made n in
      limit_rules-IsShared path rules (limit_rule gt path r out made n).0
        (limit_rule gt path r out made n).1.made (limit_rule gt path r out made n).1.next_limiter i
        rule found here global
  limit_rules-IsShared path (r ∷ rules) out made n zero rule found here global =
      let same : r ≡ rule = cc in
      let (l, stored, pushed, old) =
        limit_rule-IsShared path r out made n (rw same here) (rw same global) in
      (
        l,
        ap some stored ∙ ap (λ u. some (set_shared u l)) same,
        limit_rules-keeps path rules (limit_rule gt path r out made n).0
            (limit_rule gt path r out made n).1.made
            (limit_rule gt path r out made n).1.next_limiter l pushed,
        λ k h. old k (rw same h),
      )

  -- Two routes that one global rule matches have a limiter in common: their requests count together.
  pub global_rule_shared :
      (p q : Bytes) (w : LimitWorld) (i : ℕ) (rule : RateLimitRule)
      → get_elem? w.rules i ≡ some rule
      → rule.global_scope ≡ true
      → matches rule p ≡ true
      → matches rule q ≡ true
      → (l : ℕ) × (holds l (build_limiters_for_path gt p w).0.limiters ≡ true)
        × (holds l (build_limiters_for_path gt q (build_limiters_for_path gt p w).1).0.limiters
            ≡ true)
  unfolding build_limiters_for_path
  global_rule_shared p q w i rule found global at_p at_q =
      let start : RouteLimiters = record { limiters = []; max_window = finite 0 } in
      let (l, stored, first, old) =
        limit_rules-IsShared p w.rules start w.made w.next_limiter i rule found at_p global in
      let after = (build_limiters_for_path gt p w).1 in
      let (k, again, second, same) =
        limit_rules-IsShared q after.rules start after.made after.next_limiter i
          (record rule { shared_limiter = some l }) stored at_q global in
      (
        l,
        first,
        subst (λ j. holds j (build_limiters_for_path gt q after).0.limiters ≡ true) (same l refl)
            second,
      )
