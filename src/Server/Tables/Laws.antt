-- ===== src/Server/Tables/Laws.antt =====
-- The registrations of src/drogon_server.cpp taken together.
use drogon_r.Prelude.{
  ℕ, ◌+◌, ◌≤◌, ◌≡◌, refl, ap, Bool, true, false, List, [], ◌∷◌, ◌++◌, Option, none, some, arith,
  ◌>>=◌,
}
use drogon_r.Prelude.Sexp.{
  Sexp, Real, ℤ, null, logicals, integers, reals, strings, raws, list, closure, external_ptr, other,
}
use drogon_r.Prelude.Preserved.{preserve, release_hook, times, once, times-release_hook}
use drogon_r.Dispatch.Request.{Route}
use drogon_r.Server.Tables.{
  Tables, register_route, register_static, register_cpp_route, register_cpp_stream_route,
  clear_routes, release_handlers, handler_ref, or_error, unless_running, route_change,
  static_change, cpp_route_change, cpp_stream_route_change, single_text, all_texts, function_of,
  address_of, text_or_default,
}
use drogon_r.Server.Tables.RateLimits.{register_rate_limits, replace_rules}

-- A call of one of the entry points that fill the tables.
pub data Registration : Type 0 where
  route : Sexp → Sexp → Sexp → Sexp → Sexp → Registration
  static : Sexp → Sexp → Registration
  cpp_route : Sexp → Sexp → Sexp → Sexp → Sexp → Registration
  cpp_stream_route : Sexp → Sexp → Sexp → Sexp → Sexp → Sexp → Registration
  rate_limits : Sexp → Registration

module _ (to_int : Real → ℤ) where
  abbrev pub register : Registration → Tables → Tables × Bool
  register (route m p r ns h) t = register_route m p r ns h t
  register (static m d) t = register_static m d t
  register (cpp_route m p r ns f) t = register_cpp_route m p r ns f t
  register (cpp_stream_route m p r ns f ct) t = register_cpp_stream_route m p r ns f ct t
  register (rate_limits rules) t = register_rate_limits to_int rules t

  abbrev pub register_all : List Registration → Tables → Tables
  register_all [] t = t
  register_all (c ∷ cs) t = register_all cs (register c t).0

  -- While the server runs every registration is an error that changes nothing, whatever its arguments.
  pub register_refused :
      (c : Registration) (t : Tables) → t.running ≡ true → register c t ≡ (t, false)
  unfolding register_route register_static register_cpp_route register_cpp_stream_route
      register_rate_limits
  register_refused (route m p r ns h) t e = simp e refl
  register_refused (static m d) t e = simp e refl
  register_refused (cpp_route m p r ns f) t e = simp e refl
  register_refused (cpp_stream_route m p r ns f ct) t e = simp e refl
  register_refused (rate_limits rules) t e = simp e refl

  -- How often the handlers of a route table hold an object.
  abbrev pub held : ℕ → List Route → ℕ
  held x [] = 0
  held x (r ∷ rs) = once x (handler_ref r) + held x rs

  held-end :
      (x : ℕ) (rs : List Route) (r : Route)
      → held x (rs ++ r ∷ []) ≡ held x rs + once x (handler_ref r)
  held-end x [] r = omega arith
  held-end x (s ∷ rs) r = omega (arith, held-end x rs r)

  abbrev pub IsBalanced : (ℕ → ℕ) → Tables → Type 0
  IsBalanced others t =
      (t.running ≡ false) × ((x : ℕ) → times x t.preserved ≡ others x + held x t.routes)

  -- A change that ends in an error, or in other tables, keeps the balance.
  record Keeps (others : ℕ → ℕ) (t : Tables) (o : Option Tables) : Type 0 where
    ok : IsBalanced others (or_error t o).0

  chain-Keeps :
      {A : Type 0} (others : ℕ → ℕ) (t : Tables) (o : Option A) (f : A → Option Tables)
      → IsBalanced others t
      → ((x : A) → Keeps others t (f x))
      → Keeps others t (o >>= f)
  chain-Keeps others t none f h g = record { ok = h }
  chain-Keeps others t (some x) f h g = g x

  unless_running-Keeps :
      (others : ℕ → ℕ) (t : Tables) (o : Option Tables)
      → IsBalanced others t
      → Keeps others t o
      → IsBalanced others (unless_running t o).0
  unless_running-Keeps others t o h g = simp h.0 g.ok

  added-IsBalanced :
      (others : ℕ → ℕ) (r : Route) (c : ℕ) (t : Tables)
      → r.handler ≡ closure c
      → IsBalanced others t
      → IsBalanced others
          (record t { routes = t.routes ++ r ∷ []; preserved = preserve c t.preserved })
  unfolding times
  added-IsBalanced others r c t e b =
      (b.0, λ x. ground (arith, b.1 x, held-end x t.routes r, ap (λ h. once x (function_of h)) e))

  route-IsBalanced :
      (others : ℕ → ℕ) (m p r ns h : Sexp) (t : Tables)
      → IsBalanced others t
      → IsBalanced others (register_route m p r ns h t).0
  unfolding register_route times
  route-IsBalanced others m p r ns h t b =
      unless_running-Keeps others t (route_change m p r ns h t) b (
        chain-Keeps others t (single_text m) _ b λ m'.
          chain-Keeps others t (single_text p) _ b λ p'.
            chain-Keeps others t (single_text r) _ b λ r'.
              chain-Keeps others t (all_texts ns) _ b λ ns'.
                chain-Keeps others t (function_of h) _ b λ c. record {
                  ok =
                      added-IsBalanced others
                        (record {
                          method = m';
                          path = p';
                          regex = r';
                          param_names = ns';
                          handler = closure c;
                        })
                        c t refl b;
                })

  rate_limits-IsBalanced :
      (others : ℕ → ℕ) (rules : Sexp) (t : Tables)
      → IsBalanced others t
      → IsBalanced others (replace_rules to_int rules t).0
  rate_limits-IsBalanced others null t b = b
  rate_limits-IsBalanced others (logicals a xs) t b = b
  rate_limits-IsBalanced others (integers a xs) t b = b
  rate_limits-IsBalanced others (reals a xs) t b = b
  rate_limits-IsBalanced others (strings a xs) t b = b
  rate_limits-IsBalanced others (raws a xs) t b = b
  rate_limits-IsBalanced others (list a xs) t b = b
  rate_limits-IsBalanced others (closure c) t b = b
  rate_limits-IsBalanced others (external_ptr p) t b = b
  rate_limits-IsBalanced others (other n) t b = b

  register-IsBalanced :
      (others : ℕ → ℕ) (c : Registration) (t : Tables)
      → IsBalanced others t
      → IsBalanced others (register c t).0
  unfolding register_static register_cpp_route register_cpp_stream_route register_rate_limits
  register-IsBalanced others (route m p r ns h) t b = route-IsBalanced others m p r ns h t b
  register-IsBalanced others (static m d) t b =
      unless_running-Keeps others t (static_change m d t) b (
        chain-Keeps others t (single_text m) _ b
          λ m'. chain-Keeps others t (single_text d) _ b λ d'. record { ok = b })
  register-IsBalanced others (cpp_route m p r ns f) t b =
      unless_running-Keeps others t (cpp_route_change m p r ns f t) b (
        chain-Keeps others t (single_text m) _ b λ m'.
          chain-Keeps others t (single_text p) _ b λ p'.
            chain-Keeps others t (single_text r) _ b λ r'.
              chain-Keeps others t (all_texts ns) _ b
                λ ns'. chain-Keeps others t (address_of f) _ b λ f'. record { ok = b })
  register-IsBalanced others (cpp_stream_route m p r ns f ct) t b =
      unless_running-Keeps others t (cpp_stream_route_change m p r ns f ct t) b (
        chain-Keeps others t (single_text m) _ b λ m'.
          chain-Keeps others t (single_text p) _ b λ p'.
            chain-Keeps others t (single_text r) _ b λ r'.
              chain-Keeps others t (all_texts ns) _ b λ ns'.
                chain-Keeps others t (text_or_default ct) _ b
                  λ ct'. chain-Keeps others t (address_of f) _ b λ f'. record { ok = b })
  register-IsBalanced others (rate_limits rules) t b =
      simp b.0 (rate_limits-IsBalanced others rules t b)

  register_all-IsBalanced :
      (others : ℕ → ℕ) (cs : List Registration) (t : Tables)
      → IsBalanced others t
      → IsBalanced others (register_all cs t)
  register_all-IsBalanced others [] t b = b
  register_all-IsBalanced others (c ∷ cs) t b =
      register_all-IsBalanced others cs (register c t).0 (register-IsBalanced others c t b)

  release_handlers-times :
      (rs : List Route) (kept : List ℕ)
      → ((y : ℕ) → held y rs ≤ times y kept)
      → (x : ℕ) → times x (release_handlers rs kept) + held x rs ≡ times x kept
  unfolding release_handlers
  release_handlers-times [] kept h x = omega arith
  release_handlers-times (r ∷ rs) kept h x =
      let one : (y : ℕ)
          → times y (release_hook (handler_ref r) kept) + once y (handler_ref r) ≡ times y kept =
        λ y. times-release_hook y (handler_ref r) kept (λ z. omega (arith, h z)) in
      let rest =
        release_handlers-times rs (release_hook (handler_ref r) kept)
          (λ (y : ℕ). omega (arith, h y, one y)) x in
      omega (arith, one x, rest)

  -- From a server that is stopped and has no routes, any registrations are made, whether they succeed
  -- or fail, and cleared: each object is kept from collection as often as before.
  pub clear_routes-balance :
      (cs : List Registration) (t : Tables)
      → t.running ≡ false
      → t.routes ≡ []
      → (x : ℕ) → times x (clear_routes (register_all cs t)).0.preserved ≡ times x t.preserved
  unfolding clear_routes
  clear_routes-balance cs t stopped empty x =
      let start : IsBalanced (λ y. times y t.preserved) t =
        (stopped, λ y. simp empty (omega arith)) in
      let b = register_all-IsBalanced (λ y. times y t.preserved) cs t start in
      simp b.0 (
        omega (
          arith,
          release_handlers-times (register_all cs t).routes (register_all cs t).preserved
              (λ (y : ℕ). omega (arith, b.1 y)) x,
          b.1 x,
        ))
