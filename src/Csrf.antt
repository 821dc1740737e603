-- ===== src/Csrf.antt =====
-- The double-submit token of packages/borgo/src: `csrfCookieValue` of index.ts, and `hasCookie` and
-- `csrfRejects` of util.ts.
pub mod Values
pub mod Accepts
use borgo.Common.{
  ℕ, ◌≡◌, refl, Bool, true, false, ◌&&◌, ◌||◌, not, List, [], ◌∷◌, map, Option, none, some,
  if◌then◌else◌, is_empty, ◌==◌,
}
use borgo.Text.{or_empty, Text, codes, ◌===◌, split, trim}
use borgo.Keys.{keys_equal}

unfoldable pub onto_first : ℕ → Option (Text × Text) → Option (Text × Text)
onto_first c none = none
onto_first c (some (before, after)) = some (c ∷ before, after)

-- `part.slice(0, eq)` and `part.slice(eq + 1)` at the first "=", if there is one
unfoldable pub cut : Text → Option (Text × Text)
unfolding onto_first
cut [] = none
cut (c ∷ s) = let rest = cut s in if c == b'=' then some ([], s) else onto_first c rest

-- the value that a part of the header gives a cookie
unfoldable pub named_value : Text → Text → Option Text
named_value name part = elim (cut part) [
  | none ↦ none
  | some (before, after) ↦ if trim before === name then some (trim after) else none
]

abbrev pub csrf_cookie : Text
csrf_cookie = codes "borgo_csrf"

unfoldable pub agreed_value : Option Text → List (Option Text) → Text
agreed_value value [] = or_empty value
agreed_value value (none ∷ parts) = agreed_value value parts
agreed_value none (some found ∷ parts) = agreed_value (some found) parts
agreed_value (some value) (some found ∷ parts) =
    let rest = agreed_value (some found) parts in if not (value === found) then [] else rest

-- what the parts of a header give a cookie, in order
abbrev pub cookie_parts : Option Text → Text → List (Option Text)
cookie_parts header name = map (named_value name) (split b';' (or_empty header))

-- `csrfCookieValue`; null is `none`
unfoldable pub csrf_cookie_value : Option Text → Text
unfolding agreed_value
csrf_cookie_value header = agreed_value none (cookie_parts header csrf_cookie)

unfoldable pub has_value : List (Option Text) → Bool
has_value [] = false
has_value (none ∷ parts) = has_value parts
has_value (some _ ∷ parts) = true

-- `hasCookie`: `named_value` gives a part's value exactly when the part has the name
unfoldable pub has_cookie : Option Text → Text → Bool
unfolding has_value
has_cookie header name = has_value (cookie_parts header name)

-- `csrfRejects`: the cookie header, and the form's token, which is empty when the form has none or
-- cannot be read
unfoldable pub csrf_rejects : Bool → Option Text → Text → Bool
csrf_rejects enforced cookies given =
    if not enforced
    then false
    else if not (has_cookie cookies (codes "borgo_session")) && not (has_cookie cookies csrf_cookie)
    then false
    else if is_empty (csrf_cookie_value cookies)
    then true
    else is_empty given || not (keys_equal given (csrf_cookie_value cookies))
