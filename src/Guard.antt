-- ===== src/Guard.antt =====
-- The page middleware of packages/borgo/src/page-middleware.ts: the entries of a matcher, the paths
-- they cover, and whether a route may be covered.
pub mod Accepted
pub mod Cover
pub mod Overlap
pub mod Boot
pub mod Decide
use borgo.Common.{
  ℕ, Bool, true, false, ◌&&◌, ◌||◌, not, List, [], ◌∷◌, ◌++◌, map, ◌==◌, if◌then◌else◌, is_empty,
  all, any, drop, drop_last, Option, none, some,
}
use borgo.Text.{
  Text, codes, ◌===◌, starts_with, ends_with, includes, is_alpha, is_digit, split, join,
  decode_uri_component,
}
use borgo.Text.Uri.{is_escape}
use borgo.Params.{Params, put}

-- an element of the exported matcher, of which only strings are looked into
pub data Entry : Type 0 where
  text : Text → Entry
  not_text : Entry

-- the reasons of `matcherRefusal`, with what they quote
pub data Refusal : Type 0 where
  not_a_path no_slash query_or_fragment encoded trailing_slash empty_segment : Refusal
  wildcard_inside stray_mark : Refusal
  bad_name reserved : Text → Refusal

-- `PARAM_NAME`
abbrev pub is_name_start : ℕ → Bool
is_name_start c = is_alpha c || c == b'_'

unfoldable pub is_param_name : Text → Bool
is_param_name [] = false
is_param_name (c ∷ s) = is_name_start c && all (λ d. is_name_start d || is_digit d) s

-- `/%[0-9A-Fa-f]{2}/`
unfoldable pub has_escape : Text → Bool
has_escape [] = false
has_escape (c ∷ []) = false
has_escape (c ∷ a ∷ []) = false
has_escape (c ∷ a ∷ b ∷ s) = is_escape c a b || has_escape (a ∷ b ∷ s)

abbrev pub is_param : Text → Bool
is_param = starts_with b':'

-- the test of `segment.startsWith(":") && segment.endsWith("*")`
abbrev pub is_wildcard : Text → Bool
is_wildcard segment = is_param segment && ends_with b'*' segment

-- `segment.slice(1, wildcard ? -1 : undefined)`
abbrev pub param_name : Text → Text
param_name segment = if ends_with b'*' segment then drop_last (drop 1 segment) else drop 1 segment

-- `entry === "/" ? [] : entry.slice(1).split("/")`
unfoldable pub segments_of : Text → List Text
segments_of entry = if entry === codes "/" then [] else split b'/' (drop 1 entry)

-- one round of the loop of `matcherRefusal`; the flag is `i === segments.length - 1`
unfoldable pub segment_refusal : Text → Bool → Option Refusal
segment_refusal segment last =
    if is_empty segment
    then some empty_segment
    else if is_param segment
    then if not (is_param_name (param_name segment))
      then some (bad_name segment)
      else if ends_with b'*' segment && not last
      then some wildcard_inside
      else none
    else if includes b'*' segment || includes b':' segment
    then some stray_mark
    else none

unfoldable pub segments_refusal : List Text → Option Refusal
segments_refusal [] = none
segments_refusal (segment ∷ rest) = elim (segment_refusal segment (is_empty rest)) [
  | some reason ↦ some reason
  | none ↦ segments_refusal rest
]

unfoldable pub reserved_refusal : List Text → Option Refusal
reserved_refusal [] = none
reserved_refusal (first ∷ rest) =
    if first === codes "api" || first === codes "__borgo" then some (reserved first) else none

-- `matcherRefusal`; `none` is the empty reason
unfoldable pub matcher_refusal : Entry → Option Refusal
matcher_refusal not_text = some not_a_path
matcher_refusal (text entry) =
    if is_empty entry
    then some not_a_path
    else if not (starts_with b'/' entry)
    then some no_slash
    else if includes b'?' entry || includes b'#' entry
    then some query_or_fragment
    else if has_escape entry
    then some encoded
    else if not (entry === codes "/") && ends_with b'/' entry
    then some trailing_slash
    else elim (segments_refusal (segments_of entry)) [
      | some reason ↦ some reason
      | none ↦ reserved_refusal (segments_of entry)
    ]

-- `decodeSegment`
unfoldable pub decode_segment : Text → Text
decode_segment segment = elim (decode_uri_component segment) [ none ↦ segment | some t ↦ t ]

-- one round of the loop of the compiled matcher, past its wildcard test
unfoldable pub bind_segment : Text → Text → Params → Option Params
bind_segment segment part params =
    if is_empty part
    then none
    else if is_param segment
    then some (put (drop 1 segment) (decode_segment part) params)
    else if not (segment === part) && not (segment === decode_segment part)
    then none
    else some params

abbrev pub bind_wildcard : Text → List Text → Params → Params
bind_wildcard segment parts params =
    put (drop_last (drop 1 segment)) (join (codes "/") (map decode_segment parts)) params

-- The loop. `parts[i]` is undefined once the parts are used up, and the last test is that of
-- `parts.length === segments.length`.
unfoldable pub match_segments : List Text → List Text → Params → Option Params
match_segments [] [] params = some params
match_segments [] (_ ∷ _) params = none
match_segments (segment ∷ rest) [] params =
    if is_wildcard segment then some (bind_wildcard segment [] params) else none
match_segments (segment ∷ rest) (part ∷ parts) params = elim (is_wildcard segment) [
  | true ↦ some (bind_wildcard segment (part ∷ parts) params)
  | false ↦ elim (bind_segment segment part params) [
    | none ↦ none
    | some params' ↦ match_segments rest parts params'
  ]
]

-- `pathname === "/" ? [] : pathname.replace(/^\//, "").split("/")`
unfoldable pub parts_of : Text → List Text
parts_of pathname =
    if pathname === codes "/"
    then []
    else split b'/' (if starts_with b'/' pathname then drop 1 pathname else pathname)

-- the function that `compileMatcher` returns for an entry that is not refused
unfoldable pub match_entry : Text → Text → Option Params
match_entry entry pathname = match_segments (segments_of entry) (parts_of pathname) []

-- `patternsOverlap`
unfoldable pub overlap : List Text → List Text → Bool
overlap route [] = is_empty route
overlap [] (m ∷ ms) = is_wildcard m
overlap (r ∷ rs) (m ∷ ms) =
    let rest = overlap rs ms in
    if is_wildcard m then true else if is_param r || is_param m then rest else r === m && rest

unfoldable pub patterns_overlap : Text → Text → Bool
unfolding overlap segments_of
patterns_overlap route_pattern entry = overlap (segments_of route_pattern) (segments_of entry)
