-- ===== src/Router/Routes.antt =====
-- The loop of `matchRoute`: the route that is found.
use borgo.Common.{
  ◌≡◌, refl, ap, ◌↔◌, inl, inr, List, [], ◌∷◌, ◌++◌, none, some, arith, All, Option-cases, subst,
  some-eq,
}
use borgo.Text.{Text}
use borgo.Canonical.{strip_slashes}
use borgo.Router.{match_pattern, bare_path, Matched, first_match, match_route}

module _ {ℓ} {R : Type ℓ} (pattern_of : R → Text) where
  -- The route found is the first that matches.
  pub record IsFirst (path : Text) (routes : List R) (m : Matched pattern_of) : Type ℓ where
    pub before : List R
    pub after : List R
    pub splits : routes ≡ before ++ (m.route ∷ after)
    pub passed : All (λ r. match_pattern (pattern_of r) path ≡ none) before
    pub matches : match_pattern (pattern_of m.route) path ≡ some m.params

  first_match-IsFirst :
      (path : Text) (routes : List R) {m : Matched pattern_of}
      → first_match pattern_of path routes ≡ some m
      → IsFirst path routes m
  unfolding first_match
  first_match-IsFirst path [] e = cc
  first_match-IsFirst path (r ∷ rs) {m} e =
      elim (Option-cases (match_pattern (pattern_of r) path)) [
        | inl missed ↦
            let later = first_match-IsFirst path rs {m = m} (rw (missed, first_match) at e) in
            record {
              before = r ∷ later.before;
              after = later.after;
              splits = ap (◌∷◌ r) later.splits;
              passed = (missed, later.passed);
              matches = later.matches;
            }
        | inr (params, found) ↦
            let same : some (record { route = r; params = params }) ≡ some m =
              rw (found, first_match) at e in
            subst (IsFirst path (r ∷ rs)) (some-eq same)
              (record { before = []; after = rs; splits = refl; passed = tt; matches = found })
      ]

  pub first_match-none :
      (path : Text) (routes : List R)
      → (first_match pattern_of path routes ≡ none)
        ↔ All (λ r. match_pattern (pattern_of r) path ≡ none) routes
  unfolding first_match
  first_match-none path [] = (λ _. tt, λ _. refl)
  first_match-none path (r ∷ rs) = ground (arith, first_match-none path rs)

  -- A route is found only if its pattern matches the path without its trailing slashes, with these
  -- params, and the pattern of no route listed before it does.
  pub match_route-IsFirst :
      (pathname : Text) (routes : List R) {m : Matched pattern_of}
      → match_route pattern_of pathname routes ≡ some m
      → IsFirst (bare_path pathname) routes m
  unfolding match_route
  match_route-IsFirst pathname routes e = first_match-IsFirst (bare_path pathname) routes e

  -- No route is found exactly when no pattern matches the path without its trailing slashes.
  pub match_route-none_iff :
      (pathname : Text) (routes : List R)
      → (match_route pattern_of pathname routes ≡ none)
        ↔ All (λ r. match_pattern (pattern_of r) (bare_path pathname) ≡ none) routes
  unfolding match_route
  match_route-none_iff pathname routes = first_match-none (bare_path pathname) routes

strip_slashes-append : (s : Text) → strip_slashes (s ++ b'/' ∷ []) ≡ strip_slashes s
unfolding strip_slashes
strip_slashes-append [] = refl
strip_slashes-append (c ∷ s) = rw (strip_slashes-append s) refl

bare_path-append : (pathname : Text) → bare_path (pathname ++ b'/' ∷ []) ≡ bare_path pathname
unfolding bare_path
bare_path-append pathname = rw (strip_slashes-append pathname) refl

-- A slash at the end of a path changes neither the route nor its params.
pub match_route_slash {ℓ} :
    {R : Type ℓ} (pattern_of : R → Text) (pathname : Text) (routes : List R)
    → match_route pattern_of (pathname ++ b'/' ∷ []) routes ≡ match_route pattern_of pathname routes
unfolding match_route
match_route_slash pattern_of pathname routes =
    ap (λ path. first_match pattern_of path routes) (bare_path-append pathname)
