-- ===== src/Tests/Paths.antt =====
-- A mount of src/drogon_server.cpp.
use drogon_r.Prelude.{◌≡◌, refl, List, [], arith, ◌∷◌, ◌++◌, some, All, true, false}
use drogon_r.Prelude.Bytes.{Bytes, codes, starts_with}
use drogon_r.Static.FilePath.{
  slash, is_absolute, lexically_normal, append_path, has_filename, print_normal, visit_all, split,
  visit, kind, join, go_up,
}
use drogon_r.Static.Resolve.{contains, strip_slashes, resolve_safely, escape_regex}
use drogon_r.Static.Completeness.{rooted, resolve_safely_complete}
use drogon_r.Static.Stretches.{IsName}
use drogon_r.Static.Safety.{
  IsNoParent, pattern_text, resolve_safely-contained, escape_regex-literal,
}

abbrev out : Bytes
out = codes "/srv/www/b.css"

resolves : resolve_safely (codes "/srv/www/") (codes "a/../b.css") ≡ some out
unfolding resolve_safely is_absolute lexically_normal append_path has_filename print_normal
    visit_all split visit kind join go_up strip_slashes starts_with
resolves = refl

is_rooted : is_absolute (codes "/srv/www/") ≡ true
unfolding is_absolute
is_rooted = refl

resolve_safely-contained_example :
    (rest : Bytes) × (out ≡ strip_slashes (lexically_normal (codes "/srv/www/")) ++ slash ∷ rest)
    × All IsNoParent (split rest)
resolve_safely-contained_example =
    resolve_safely-contained (codes "/srv/www/") (codes "a/../b.css") out is_rooted resolves

escape_regex-literal_example :
    pattern_text false (escape_regex (codes "/v1.0/assets")) ≡ some (codes "/v1.0/assets")
escape_regex-literal_example = escape_regex-literal (codes "/v1.0/assets")

abbrev site : List Bytes
site = codes "srv" ∷ codes "www" ∷ []

abbrev sheet : List Bytes
sheet = codes "css" ∷ codes "b.css" ∷ []

site-names : All IsName site
unfolding kind
site-names = ground arith

sheet-names : All IsName sheet
unfolding kind
sheet-names = ground arith

no_zero : contains 0 (join sheet) ≡ false
unfolding join
no_zero = refl

resolve_safely_complete_example :
    resolve_safely (rooted site) (join sheet) ≡ some (rooted site ++ slash ∷ join sheet)
resolve_safely_complete_example =
    resolve_safely_complete (codes "srv") (codes "www" ∷ []) (codes "css") (codes "b.css" ∷ [])
      site-names sheet-names no_zero
