-- ===== src/ApiClient/Path.antt =====
-- The path of a call: its route with the params in place of the wildcards.
pub mod Shape
use borgo.Common.{
  ℕ, zero, suc, ◌+◌, Bool, not, ◌||◌, List, [], ◌∷◌, ◌++◌, Option, none, some, ◌==◌, if◌then◌else◌,
  is_empty, length, drop,
}
use borgo.Text.{Text, codes, ◌===◌, has_prefix, split}
use borgo.Result.{Result, thrown, value, ◌>>=◌}
use borgo.Maps.{Map, lookup}
use borgo.ApiClient.{Fault, missing_param, empty_param, malformed_param, dot_segment}
use borgo.ApiClient.Encode.{encode_uri_component}

-- `{$}`, `{name}` and `{name...}`
pub data Wildcard : Type 0 where
  anchor : Wildcard
  one rest : Text → Wildcard

-- `/[^{}.]/`
unfoldable pub in_name : ℕ → Bool
in_name c = not (c == b'{' || c == b'}' || c == b'.')

unfoldable pub name_part : Text → Text
unfolding in_name
name_part [] = []
name_part (c ∷ s) = let more = c ∷ name_part s in if in_name c then more else []

-- what stands behind a name
unfoldable pub close_name : Text → Text → Option (Wildcard × ℕ)
close_name [] s = none
close_name (c ∷ name) s =
    if has_prefix (codes "...}") s
    then some (rest (c ∷ name), length (c ∷ name) + 4)
    else if has_prefix (codes "}") s
    then some (one (c ∷ name), length (c ∷ name) + 1)
    else none

-- the wildcard behind a `{`, with its length
unfoldable pub wildcard : Text → Option (Wildcard × ℕ)
unfolding name_part close_name
wildcard s =
    if has_prefix (codes "$}") s
    then some (anchor, 2)
    else close_name (name_part s) (drop (length (name_part s)) s)

-- the encoded value, or the refusal of what is half a surrogate pair
abbrev pub encoded : Text → Option Text → Result Fault Text
encoded name none = thrown (malformed_param name)
encoded name (some e) = value e

-- `segment`
unfoldable pub segment : Text → Text → Result Fault Text
unfolding encode_uri_component
segment name v =
    if is_empty v
    then thrown (empty_param name)
    else if v === codes "." || v === codes ".."
    then thrown (dot_segment name v)
    else encoded name (encode_uri_component v)

-- the segments of a rest, joined
unfoldable pub join_segments : Text → List Text → Result Fault Text
unfolding segment
join_segments name [] = value []
join_segments name (v ∷ []) = segment name v
join_segments name (v ∷ w ∷ vs) = do
  e ← segment name v
  more ← join_segments name (w ∷ vs)
  value (e ++ (b'/' ∷ more))

unfoldable pub rest_value : Text → Text → Result Fault Text
unfolding join_segments
rest_value name [] = value []
rest_value name (c ∷ v) = join_segments name (split b'/' (c ∷ v))

-- a param that is there and neither undefined nor null, as text
abbrev pub present : Text → Option (Option Text) → Result Fault Text
present name (some (some v)) = value v
present name _ = thrown (missing_param name)

module _ (params : Map (Option Text)) where
  -- the replacer
  unfoldable pub expand : Wildcard → Result Fault Text
  unfolding segment rest_value lookup
  expand anchor = value []
  expand (one name) = do v ← present name (lookup name params); segment name v
  expand (rest name) = do v ← present name (lookup name params); rest_value name v

  -- The loop of `replace`; a match has taken the next `skip` code units.
  unfoldable pub fill_route_from : ℕ → Text → Result Fault Text
  unfolding wildcard expand
  fill_route_from skip [] = value []
  fill_route_from (suc skip) (c ∷ s) = fill_route_from skip s
  fill_route_from zero (c ∷ s) = elim (if c == b'{' then wildcard s else none) [
    | none ↦ (do more ← fill_route_from zero s; value (c ∷ more))
    | some (w, taken) ↦ (do v ← expand w; more ← fill_route_from taken s; value (v ++ more))
  ]

  unfoldable pub fill_route : Text → Result Fault Text
  unfolding fill_route_from
  fill_route route = fill_route_from zero route
