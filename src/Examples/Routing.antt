-- ===== src/Examples/Routing.antt =====
-- Canonical paths and routes, at concrete inputs.
use borgo.Common.{◌≡◌, refl, ◌↔◌, List, [], ◌∷◌, ◌++◌, none, some}
use borgo.Text.{Text, codes, ◌===◌, split, decode_uri_component}
use borgo.Params.{Params, get, put}
use borgo.Canonical.Slashes.{IsCollapsed, IsTrimmed, canonical_path-IsCollapsed}
use borgo.Canonical.{canonical_path, is_unreserved}
use borgo.Canonical.Escapes.{IsWellFormed, done, other, escape}
use borgo.Canonical.Stable.{canonical_path_idempotent, canonical_path-alias}
use borgo.Router.{
  match_pattern, match_parts, bind_part, safe_decode, bare_path, Matched, match_route, first_match,
}
use borgo.Router.Match.{Fits, captured, match_pattern_iff}
use borgo.Router.Routes.{IsFirst, match_route-IsFirst}

routing : Unit {0}
unfolding ◌===◌ put match_route first_match match_pattern match_parts bind_part safe_decode
    bare_path split decode_uri_component get canonical_path captured
routing = tt

-- an escape of an unreserved octet is decoded, any other is upper-cased, and slashes collapse
canonical_tests :
    (canonical_path (codes "/ne%77s//%2f/") ≡ codes "/news/%2F")
    × (canonical_path (codes "//") ≡ codes "/")
    × (canonical_path (codes "/100%/%zz") ≡ codes "/100%/%zz")
unfolding routing
canonical_tests = (refl, refl, refl)

-- a "%" that starts no escape can take the place of one that was decoded
canonical_twice :
    (canonical_path (codes "/%%341") ≡ codes "/%41") × (canonical_path (codes "/%41") ≡ codes "/A")
unfolding routing
canonical_twice = (refl, refl)

abbrev encoded : Text
encoded = codes "/%77/"

encoded-IsWellFormed : IsWellFormed encoded
encoded-IsWellFormed = other refl (escape refl (other refl done))

canonical_path_idempotent_example : canonical_path (canonical_path encoded) ≡ canonical_path encoded
canonical_path_idempotent_example = canonical_path_idempotent encoded encoded-IsWellFormed

canonical_path-alias_example :
    canonical_path (encoded ++ codes "%7e/x") ≡ canonical_path (encoded ++ codes "~/x")
unfolding is_unreserved
canonical_path-alias_example =
    canonical_path-alias encoded b'%' b'7' b'e' (codes "/x") encoded-IsWellFormed refl refl

decode_tests :
    (decode_uri_component (codes "%C3%A0%20%F0%9F%98%80")
      ≡ some (0xE0 ∷ 0x20 ∷ 0xD83D ∷ 0xDE00 ∷ []))
    × (decode_uri_component (codes "%C0%80") ≡ none)
    × (decode_uri_component (codes "%ED%A0%80") ≡ none)
    × (decode_uri_component (codes "100%") ≡ none)
unfolding routing
decode_tests = (refl, refl, refl, refl)

abbrev task_params : Params
task_params = (codes "id", codes "a b") ∷ []

task_match : match_pattern (codes "/tasks/:id") (codes "/tasks/a%20b") ≡ some task_params
unfolding routing
task_match = refl

match_pattern_iff_example :
    ((params : Params) × (match_pattern (codes "/tasks/:id") (codes "/tasks/7") ≡ some params))
    ↔ Fits (split b'/' (codes "/tasks/:id")) (split b'/' (codes "/tasks/7"))
match_pattern_iff_example = match_pattern_iff (codes "/tasks/:id") (codes "/tasks/7")

abbrev same : Text → Text
same pattern = pattern

abbrev table : List Text
table = codes "/" ∷ codes "/tasks/new" ∷ codes "/tasks/:id" ∷ []

abbrev found : Matched same
found = record { route = codes "/tasks/:id"; params = (codes "id", codes "7") ∷ [] }

table_tests :
    (match_route same (codes "/tasks/7") table ≡ some found)
    × (match_route same (codes "/tasks//") table ≡ none)
    × (match_route same (codes "/tasks/a/b") table ≡ none)
unfolding routing
table_tests = (refl, refl, refl)

match_route-IsFirst_example : IsFirst same (bare_path (codes "/tasks/7")) table found
match_route-IsFirst_example = match_route-IsFirst same (codes "/tasks/7") table table_tests.0

canonical_path-IsCollapsed_example :
    IsCollapsed (canonical_path (codes "//a///b/")) × IsTrimmed (canonical_path (codes "//a///b/"))
canonical_path-IsCollapsed_example = canonical_path-IsCollapsed (codes "//a///b/")
