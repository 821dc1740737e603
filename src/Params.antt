-- ===== src/Params.antt =====
-- The params of a match: `params[name] = value` on an object, and reading it back.
use borgo.Common.{◌≡◌, refl, List, [], ◌∷◌, arith, if◌then◌else◌, Option, none, some}
use borgo.Text.{Text, ◌===◌, ===_iff}

abbrev pub Params : Type 0
Params = List (Text × Text)

unfoldable pub put : Text → Text → Params → Params
put name value [] = (name, value) ∷ []
put name value ((k, v) ∷ rest) =
    if k === name then (k, value) ∷ rest else (k, v) ∷ put name value rest

unfoldable pub get : Text → Params → Option Text
get name [] = none
get name ((k, v) ∷ rest) = if k === name then some v else get name rest

pub get-put :
    (name other value : Text) (params : Params)
    → get other (put name value params) ≡ (if name === other then some value else get other params)
unfolding get put
get-put name other value [] = refl
get-put name other value ((k, v) ∷ rest) =
    ground
      (arith, get-put name other value rest, ===_iff k name, ===_iff k other, ===_iff name other)
