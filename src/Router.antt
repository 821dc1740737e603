-- ===== src/Router.antt =====
-- The routes of packages/borgo/src/router.ts: `safeDecode`, `matchRoute` and `matchPattern`. An
-- object of params is its list of properties in the order of their creation; the name
-- `__proto__`, which an object literal treats apart, is not singled out.
pub mod Match
pub mod Routes
use borgo.Common.{
  ℕ, Bool, true, false, ◌&&◌, ◌||◌, not, List, [], ◌∷◌, ◌==◌, if◌then◌else◌, is_empty, length, drop,
  Option, none, some,
}
use borgo.Text.{Text, ◌===◌, starts_with, split, decode_uri_component}
use borgo.Params.{Params, put}
use borgo.Canonical.{strip_slashes}

-- `decodeURIComponent`, and the text itself where that throws
unfoldable pub safe_decode : Text → Text
safe_decode s = elim (decode_uri_component s) [ none ↦ s | some t ↦ t ]

abbrev pub is_param : Text → Bool
is_param = starts_with b':'

-- one round of the loop of `matchPattern`; `none` is its `return null`
unfoldable pub bind_part : Text → Text → Params → Option Params
bind_part pattern part params =
    if is_param pattern
    then if is_empty part then none else some (put (drop 1 pattern) (safe_decode part) params)
    else if not (pattern === part) && not (pattern === safe_decode part)
    then none
    else some params

-- The loop. The lists are of one length, so the mixed cases are never met.
unfoldable pub match_parts : List Text → List Text → Params → Option Params
match_parts [] [] params = some params
match_parts [] (_ ∷ _) params = none
match_parts (_ ∷ _) [] params = none
match_parts (pattern ∷ patterns) (part ∷ parts) params = elim (bind_part pattern part params) [
  | none ↦ none
  | some params' ↦ match_parts patterns parts params'
]

unfoldable pub match_pattern : Text → Text → Option Params
match_pattern pattern path =
    let pattern_parts = split b'/' pattern in
    let path_parts = split b'/' path in
    if not (length pattern_parts == length path_parts)
    then none
    else match_parts pattern_parts path_parts []

-- `pathname.replace(/\/+$/, "") || "/"`
unfoldable pub bare_path : Text → Text
bare_path pathname = let path = strip_slashes pathname in if is_empty path then b'/' ∷ [] else path

-- the loop of `matchRoute`, over any record with a pattern
module _ {ℓ} {R : Type ℓ} (pattern_of : R → Text) where
  pub record Matched : Type ℓ where
    pub route : R
    pub params : Params

  unfoldable pub first_match : Text → List R → Option Matched
  first_match path [] = none
  first_match path (route ∷ routes) = elim (match_pattern (pattern_of route) path) [
    | none ↦ first_match path routes
    | some params ↦ some (record { route = route; params = params })
  ]

  unfoldable pub match_route : Text → List R → Option Matched
  match_route pathname routes = first_match (bare_path pathname) routes
