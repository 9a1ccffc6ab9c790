-- ===== src/Ws/Routes/Laws.antt =====
-- The closures of the route table of src/ws_session.cpp.
use drogon_r.Prelude.{
  ℕ, ◌+◌, ◌≤◌, ◌≡◌, sym, ap, ◌∙◌, List, [], ◌∷◌, ◌++◌, arith, append-nil, append_assoc,
}
use drogon_r.Prelude.Preserved.{
  release_hook, times, once, times-preserve_hooks, times-release_hooks,
}
use drogon_r.Ws.{WsRoute, World}
use drogon_r.Ws.Routes.{add_ws_route, release_routes, clear_all_ws_sessions}

-- How often a closure stands in a route, and in a table of routes.
abbrev pub held_by : ℕ → WsRoute → ℕ
held_by x r = once x r.on_connect + once x r.on_message + once x r.on_close

abbrev pub held : ℕ → List WsRoute → ℕ
held x [] = 0
held x (r ∷ rs) = held_by x r + held x rs

abbrev pub add_routes : List WsRoute → World → World
add_routes [] w = w
add_routes (r ∷ rs) w = add_routes rs (add_ws_route r w).0

add_ws_route-times :
    (x : ℕ) (r : WsRoute) (w : World)
    → times x (add_ws_route r w).0.preserved ≡ held_by x r + times x w.preserved
unfolding add_ws_route
add_ws_route-times x r w = times-preserve_hooks x r.on_connect r.on_message r.on_close w.preserved

add_routes-times :
    (x : ℕ) (rs : List WsRoute) (w : World)
    → times x (add_routes rs w).preserved ≡ held x rs + times x w.preserved
add_routes-times x [] w = omega arith
add_routes-times x (r ∷ rs) w =
    omega (arith, add_routes-times x rs (add_ws_route r w).0, add_ws_route-times x r w)

add_routes-routes : (rs : List WsRoute) (w : World) → (add_routes rs w).routes ≡ w.routes ++ rs
unfolding add_ws_route
add_routes-routes [] w = sym (append-nil w.routes)
add_routes-routes (r ∷ rs) w =
    add_routes-routes rs (add_ws_route r w).0 ∙ append_assoc w.routes (r ∷ []) rs

release_routes-times :
    (rs : List WsRoute) (kept : List ℕ)
    → ((y : ℕ) → held y rs ≤ times y kept)
    → (x : ℕ) → times x (release_routes rs kept) + held x rs ≡ times x kept
unfolding release_routes
release_routes-times [] kept h x = omega arith
release_routes-times (r ∷ rs) kept h x =
    let one =
      times-release_hooks r.on_connect r.on_message r.on_close kept
        (λ (y : ℕ). omega (arith, h y)) in
    let next =
      release_hook r.on_close (release_hook r.on_message (release_hook r.on_connect kept)) in
    let rest = release_routes-times rs next (λ (y : ℕ). omega (arith, h y, one y)) x in
    omega (arith, one x, rest)

-- Routes are registered on an empty table, whatever their hooks, and the table is cleared: each
-- closure is preserved as often as it was before, and no session, event, room or route is left.
pub clear_all-balance :
    (rs : List WsRoute) (w : World)
    → w.routes ≡ []
    → (x : ℕ) → times x (clear_all_ws_sessions (add_routes rs w)).preserved ≡ times x w.preserved
unfolding clear_all_ws_sessions
clear_all-balance rs w empty x =
    let all = add_routes-routes rs w ∙ ap (λ t. t ++ rs) empty in
    let kept = λ (y : ℕ). add_routes-times y rs w in
    let gone =
      release_routes-times rs (add_routes rs w).preserved (λ (y : ℕ). omega (arith, kept y)) x in
    ap (λ t. times x (release_routes t (add_routes rs w).preserved)) all
    ∙ omega (arith, gone, kept x)
