-- ===== src/Server/Lifecycle/Install.antt =====
-- The handlers that drogonR_server_start of src/drogon_server.cpp gives to Drogon.
use drogon_r.Prelude.{ℕ, suc, Bool, List, [], ◌∷◌}
use drogon_r.Prelude.Bytes.{Bytes}
use drogon_r.Prelude.Sexp.{Real}
use drogon_r.Dispatch.Request.{Route}
use drogon_r.Static.Resolve.{mount_regex}
use drogon_r.Ws.{WsRoute}
use drogon_r.Server.Limits.{RouteLimiters, LimitWorld, build_limiters_for_path}
use drogon_r.Server.Tables.{StaticMount, CppRoute, CppStreamRoute}
use drogon_r.Server.Handlers.{HttpMethod, method_from_string, default_content_type}

-- A handler that Drogon was given, in the order in which it tries them.
pub data Installed : Type 0 where
  r_entry : HttpMethod → Bytes → ℕ → RouteLimiters → Installed
  cpp_entry : HttpMethod → Bytes → ℕ → RouteLimiters → Installed
  cpp_stream_entry : HttpMethod → Bytes → ℕ → Bytes → RouteLimiters → Installed
  static_entry : Bytes → Bytes → Installed
  ws_entry : Bytes → Installed

unfoldable pub install_static_mounts : List StaticMount → List Installed
unfolding mount_regex
install_static_mounts [] = []
install_static_mounts (m ∷ ms) = static_entry (mount_regex m.mount) m.dir ∷ install_static_mounts ms

unfoldable pub install_ws_paths : List WsRoute → List Installed
install_ws_paths [] = []
install_ws_paths (r ∷ rs) = ws_entry r.path ∷ install_ws_paths rs

module _ (gt : Real → Real → Bool) where
  -- The loops that install the routes; each handler is given the limiters of its path.
  unfoldable pub install_routes : ℕ → List Route → LimitWorld → List Installed × LimitWorld
  unfolding build_limiters_for_path method_from_string
  install_routes i [] lw = ([], lw)
  install_routes i (r ∷ rs) lw =
      let (rl, lw') = build_limiters_for_path gt r.path lw in
      let (rest, lw'') = install_routes (suc i) rs lw' in
      (r_entry (method_from_string r.method) r.regex i rl ∷ rest, lw'')

  unfoldable pub install_cpp_routes : List CppRoute → LimitWorld → List Installed × LimitWorld
  unfolding build_limiters_for_path method_from_string
  install_cpp_routes [] lw = ([], lw)
  install_cpp_routes (r ∷ rs) lw =
      let (rl, lw') = build_limiters_for_path gt r.path lw in
      let (rest, lw'') = install_cpp_routes rs lw' in
      (cpp_entry (method_from_string r.method) r.regex r.fn rl ∷ rest, lw'')

  unfoldable pub install_cpp_stream_routes :
      List CppStreamRoute → LimitWorld → List Installed × LimitWorld
  unfolding build_limiters_for_path method_from_string
  install_cpp_stream_routes [] lw = ([], lw)
  install_cpp_stream_routes (r ∷ rs) lw =
      let (rl, lw') = build_limiters_for_path gt r.path lw in
      let (rest, lw'') = install_cpp_stream_routes rs lw' in
      (
        cpp_stream_entry (method_from_string r.method) r.regex r.fn
              (default_content_type r.content_type) rl
            ∷ rest,
        lw'',
      )
