-- ===== src/Router/Match.antt =====
-- What a match of a route says of the path.
use borgo.Common.{
  suc, ◌≡◌, refl, ap, ◌∙◌, ◌↔◌, ◌⊎◌, inl, inr, true, false, ◌&&◌, List, [], ◌∷◌, if◌then◌else◌,
  is_empty, length, drop, Option, none, some, arith, Option-cases,
}
use borgo.Text.{Text, ◌===◌, ===_iff, split}
use borgo.Params.{Params, put, get, get-put}
use borgo.Router.{safe_decode, is_param, bind_part, match_parts, match_pattern}

-- A path's segments fit a pattern's: as many, a param stands at a segment that is not empty, and a
-- static segment is written as it is or percent-encoded.
pub data Fits : List Text → List Text → Type 0 where
  done : Fits [] []
  param :
      {p x : Text} {ps xs : List Text}
      → is_param p ≡ true
      → is_empty x ≡ false
      → Fits ps xs
      → Fits (p ∷ ps) (x ∷ xs)
  static :
      {p x : Text} {ps xs : List Text}
      → is_param p ≡ false
      → (p ≡ x) ⊎ (p ≡ safe_decode x)
      → Fits ps xs
      → Fits (p ∷ ps) (x ∷ xs)

-- The value of a name: the decoded segment at its last param.
unfoldable pub captured : Text → List Text → List Text → Option Text
captured name [] xs = none
captured name (p ∷ ps) [] = none
captured name (p ∷ ps) (x ∷ xs) = elim (captured name ps xs) [
  | some v ↦ some v
  | none ↦ if is_param p && drop 1 p === name then some (safe_decode x) else none
]

pub bind_part-eq-some :
    (p x : Text) (params : Params) {params' : Params}
    → bind_part p x params ≡ some params'
    → ((is_param p ≡ true)
        × (is_empty x ≡ false)
        × (params' ≡ put (drop 1 p) (safe_decode x) params))
      ⊎ ((is_param p ≡ false) × ((p ≡ x) ⊎ (p ≡ safe_decode x)) × (params' ≡ params))
unfolding bind_part
bind_part-eq-some p x params e = ground (arith, ===_iff p x, ===_iff p (safe_decode x))

match_parts-Fits :
    (ps xs : List Text) (acc : Params) {params : Params}
    → match_parts ps xs acc ≡ some params
    → Fits ps xs
unfolding match_parts
match_parts-Fits [] [] acc e = done
match_parts-Fits [] (x ∷ xs) acc e = cc
match_parts-Fits (p ∷ ps) [] acc e = cc
match_parts-Fits (p ∷ ps) (x ∷ xs) acc e = elim (Option-cases (bind_part p x acc)) [
  | inl f ↦ absurd (ground arith)
  | inr (acc', f) ↦
      let rest = match_parts-Fits ps xs acc' (rw (f, match_parts) at e) in
      elim (bind_part-eq-some p x acc f) [
        | inl (isp, ne, _) ↦ param isp ne rest
        | inr (isp, fits, _) ↦ static isp fits rest
      ]
]

bind_part-param :
    (p x : Text) (acc : Params)
    → is_param p ≡ true
    → is_empty x ≡ false
    → bind_part p x acc ≡ some (put (drop 1 p) (safe_decode x) acc)
unfolding bind_part
bind_part-param p x acc isp ne = rw (isp, ne) refl

bind_part-static :
    (p x : Text) (acc : Params)
    → is_param p ≡ false
    → (p ≡ x) ⊎ (p ≡ safe_decode x)
    → bind_part p x acc ≡ some acc
unfolding bind_part
bind_part-static p x acc isp fits = ground (arith, ===_iff p x, ===_iff p (safe_decode x))

Fits-match_parts :
    {ps xs : List Text} (acc : Params)
    → Fits ps xs
    → (params : Params) × (match_parts ps xs acc ≡ some params)
unfolding match_parts
Fits-match_parts acc done = (acc, refl)
Fits-match_parts acc (param {p} {x} isp ne rest) =
    let (params, e) = Fits-match_parts (put (drop 1 p) (safe_decode x) acc) rest in
    (params, rw (bind_part-param p x acc isp ne, match_parts) e)
Fits-match_parts acc (static {p} {x} isp fits rest) =
    let (params, e) = Fits-match_parts acc rest in
    (params, rw (bind_part-static p x acc isp fits, match_parts) e)

Fits-length : {ps xs : List Text} → Fits ps xs → length ps ≡ length xs
Fits-length done = refl
Fits-length (param isp ne rest) = ap suc (Fits-length rest)
Fits-length (static isp fits rest) = ap suc (Fits-length rest)

pub match_parts_of_match_pattern :
    (pattern path : Text) {params : Params}
    → match_pattern pattern path ≡ some params
    → match_parts (split b'/' pattern) (split b'/' path) [] ≡ some params
unfolding match_pattern
match_parts_of_match_pattern pattern path e = ground arith

-- A pattern matches a path exactly when the segments of the path fit those of the pattern.
pub match_pattern_iff :
    (pattern path : Text)
    → ((params : Params) × (match_pattern pattern path ≡ some params))
      ↔ Fits (split b'/' pattern) (split b'/' path)
match_pattern_iff pattern path = (
  λ (params, e).
      match_parts-Fits (split b'/' pattern) (split b'/' path) []
        (match_parts_of_match_pattern pattern path e),
  match_pattern_of_Fits pattern path,
)
  where
    match_pattern_of_Fits :
        (pattern path : Text)
        → Fits (split b'/' pattern) (split b'/' path)
        → (params : Params) × (match_pattern pattern path ≡ some params)
    match_pattern_of_Fits pattern path fits =
        let (params, e) = Fits-match_parts [] fits in
        let same = Fits-length fits in (params, unfold match_pattern in ground arith)

match_parts-get :
    (name : Text) (ps xs : List Text) (acc : Params) {params : Params}
    → match_parts ps xs acc ≡ some params
    → get name params ≡ elim (captured name ps xs) [ some v ↦ some v | none ↦ get name acc ]
unfolding match_parts captured
match_parts-get name [] [] acc e = ground arith
match_parts-get name [] (x ∷ xs) acc e = cc
match_parts-get name (p ∷ ps) [] acc e = cc
match_parts-get name (p ∷ ps) (x ∷ xs) acc e = elim (Option-cases (bind_part p x acc)) [
  | inl f ↦ absurd (ground arith)
  | inr (acc', f) ↦
      let rest = match_parts-get name ps xs acc' (rw (f, match_parts) at e) in
      elim (bind_part-eq-some p x acc f) [
        | inl (isp, ne, put_eq) ↦
            ground (arith, get-put (drop 1 p) name (safe_decode x) acc, ===_iff (drop 1 p) name)
        | inr (isp, fits, same) ↦ ground arith
      ]
]

-- The params of a match hold, for each name, the decoded segment at its last param.
pub get-match_pattern :
    (name pattern path : Text) {params : Params}
    → match_pattern pattern path ≡ some params
    → get name params ≡ captured name (split b'/' pattern) (split b'/' path)
get-match_pattern name pattern path e =
    let ps = split b'/' pattern in
    let xs = split b'/' path in
    match_parts-get name ps xs [] (match_parts_of_match_pattern pattern path e)
    ∙ none_or_some (captured name ps xs)
  where
    none_or_some : (o : Option Text) → elim o [ some v ↦ some v | none ↦ get name [] ] ≡ o
    none_or_some none = unfold get in refl
    none_or_some (some v) = refl
