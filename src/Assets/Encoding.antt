-- ===== src/Assets/Encoding.antt =====
-- `pickEncoding` of packages/borgo/src/compress.ts: the encoding that a client accepts.
pub mod Picked
use borgo.Common.{
  ℕ, ◌≡◌, refl, Bool, true, false, List, [], ◌∷◌, ◌++◌, map, Option, none, some, is_empty,
  if◌then◌else◌, Option-cases, Bool-cases, inl, inr, arith, All, some-eq,
}
use borgo.Text.{Text, codes, ◌===◌, split, trim, to_lower}
use borgo.Maps.{Map, lookup, set}

-- what the code asks of `Number(value)`
pub data Weight : Type 0 where
  nan at_most_zero above_zero : Weight

abbrev pub is_above_zero : Weight → Bool
is_above_zero above_zero = true
is_above_zero _ = false

-- `Number.isNaN(quality) ? 0 : quality`
abbrev settled_weight : Weight → Weight
settled_weight nan = at_most_zero
settled_weight w = w

-- `const [key, value] = pieces`
abbrev pub key_of : List Text → Text
key_of [] = []
key_of (key ∷ rest) = key

abbrev pub value_of : List Text → Option Text
value_of [] = none
value_of (key ∷ []) = none
value_of (key ∷ v ∷ rest) = some v

abbrev pub rest_of : List Text → List Text
rest_of [] = []
rest_of (piece ∷ rest) = rest

module _ (number : Text → Weight) where
  -- `Number(value)`, which is not a number where there is no value
  abbrev number_of : Option Text → Weight
  number_of none = nan
  number_of (some v) = number v

  unfoldable pub weight_of : Weight → List Text → Weight
  weight_of quality [] = quality
  weight_of quality (param ∷ params) =
      let pieces = split b'=' (trim param) in
      weight_of
        (if map to_lower (trim (key_of pieces)) === codes "q"
          then number_of (value_of pieces)
          else quality)
        params

  unfoldable pub weigh_parts : List Text → Map Weight → Map Weight
  unfolding weight_of
  weigh_parts [] q = q
  weigh_parts (part ∷ parts) q =
      let pieces = split b';' (trim part) in
      let token = map to_lower (trim (key_of pieces)) in
      weigh_parts parts (
        if is_empty token
        then q
        else set token (settled_weight (weight_of above_zero (rest_of pieces))) q)

  -- the weights of an Accept-Encoding header
  unfoldable pub weights : Text → Map Weight
  unfolding weigh_parts
  weights accepted = weigh_parts (split b',' accepted) []

  -- `q.get(encoding) ?? q.get("*")`
  unfoldable pub weight_for : Map Weight → Text → Option Weight
  weight_for q encoding = elim (lookup encoding q) [ some w ↦ some w | none ↦ lookup (codes "*") q ]

  unfoldable pub is_accepted : Map Weight → Text → Bool
  unfolding weight_for
  is_accepted q encoding = elim (weight_for q encoding) [ none ↦ false | some w ↦ is_above_zero w ]

  unfoldable pub first_accepted : Map Weight → List Text → Option Text
  first_accepted q [] = none
  first_accepted q (e ∷ preferred) =
      let rest = first_accepted q preferred in if is_accepted q e then some e else rest

  unfoldable pub pick_encoding : Option Text → List Text → Option Text
  unfolding weights first_accepted is_accepted
  pick_encoding none preferred = none
  pick_encoding (some header) preferred =
      if is_empty header then none else first_accepted (weights header) preferred

  -- An Accept-Encoding header that takes an encoding.
  pub Takes : Option Text → Text → Type 0
  Takes accepted encoding =
      (header : Text) × (accepted ≡ some header) × (is_accepted (weights header) encoding ≡ true)
