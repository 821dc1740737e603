-- ===== src/Guard/Cover.antt =====
-- When a matcher entry covers a path, as a relation.
use borgo.Common.{
  ◌≡◌, refl, ◌↔◌, ◌⊎◌, inl, inr, true, false, List, [], ◌∷◌, is_empty, drop, some, arith,
  Bool-cases, Option-cases,
}
use borgo.Text.{Text, ===_iff}
use borgo.Params.{Params, put}
use borgo.Guard.{
  is_param, is_wildcard, decode_segment, bind_segment, bind_wildcard, match_segments, match_entry,
  segments_of, parts_of,
}

-- Segment by segment: a wildcard takes all that is left, a param takes one part that is not empty,
-- and a static segment such a part, written as it is or percent-encoded.
pub data Covers : List Text → List Text → Type 0 where
  done : Covers [] []
  wildcard : {m : Text} {ms xs : List Text} → is_wildcard m ≡ true → Covers (m ∷ ms) xs
  param :
      {m x : Text} {ms xs : List Text}
      → is_wildcard m ≡ false
      → is_param m ≡ true
      → is_empty x ≡ false
      → Covers ms xs
      → Covers (m ∷ ms) (x ∷ xs)
  static :
      {m x : Text} {ms xs : List Text}
      → is_wildcard m ≡ false
      → is_param m ≡ false
      → is_empty x ≡ false
      → (m ≡ x) ⊎ (m ≡ decode_segment x)
      → Covers ms xs
      → Covers (m ∷ ms) (x ∷ xs)

bind_segment-eq-some :
    (m x : Text) (params : Params) {params' : Params}
    → bind_segment m x params ≡ some params'
    → (is_empty x ≡ false)
      × ((is_param m ≡ true) ⊎ ((is_param m ≡ false) × ((m ≡ x) ⊎ (m ≡ decode_segment x))))
unfolding bind_segment
bind_segment-eq-some m x params e = ground (arith, ===_iff m x, ===_iff m (decode_segment x))

match_segments-Covers :
    (ms xs : List Text) (acc : Params) {params : Params}
    → match_segments ms xs acc ≡ some params
    → Covers ms xs
unfolding match_segments
match_segments-Covers [] [] acc e = done
match_segments-Covers [] (x ∷ xs) acc e = cc
match_segments-Covers (m ∷ ms) [] acc e = wildcard (ground arith)
match_segments-Covers (m ∷ ms) (x ∷ xs) acc e = elim (Bool-cases (is_wildcard m)) [
  | inl w ↦ wildcard w
  | inr w ↦ elim (Option-cases (bind_segment m x acc)) [
    | inl f ↦ absurd (ground arith)
    | inr (acc', f) ↦
        let rest =
          match_segments-Covers ms xs acc'
            (rw (f, match_segments) at (rw (w, match_segments) at e)) in
        let (ne, fits) = bind_segment-eq-some m x acc f in
        elim fits [ inl isp ↦ param w isp ne rest | inr (isp, same) ↦ static w isp ne same rest ]
  ]
]

bind_segment-param :
    (m x : Text) (acc : Params)
    → is_empty x ≡ false
    → is_param m ≡ true
    → bind_segment m x acc ≡ some (put (drop 1 m) (decode_segment x) acc)
unfolding bind_segment
bind_segment-param m x acc ne isp = rw (ne, isp) refl

bind_segment-static :
    (m x : Text) (acc : Params)
    → is_empty x ≡ false
    → is_param m ≡ false
    → (m ≡ x) ⊎ (m ≡ decode_segment x)
    → bind_segment m x acc ≡ some acc
unfolding bind_segment
bind_segment-static m x acc ne isp same = ground (arith, ===_iff m x, ===_iff m (decode_segment x))

Covers-match_segments :
    {ms xs : List Text} (acc : Params)
    → Covers ms xs
    → (params : Params) × (match_segments ms xs acc ≡ some params)
unfolding match_segments
Covers-match_segments acc done = (acc, refl)
Covers-match_segments {xs = []} acc (wildcard {m} w) = (bind_wildcard m [] acc, rw w refl)
Covers-match_segments {xs = x ∷ xs} acc (wildcard {m} w) =
    (bind_wildcard m (x ∷ xs) acc, rw (w, match_segments) refl)
Covers-match_segments acc (param {m} {x} w isp ne rest) =
    let (params, e) = Covers-match_segments (put (drop 1 m) (decode_segment x) acc) rest in
    (params, rw (w, match_segments) (rw (bind_segment-param m x acc ne isp, match_segments) e))
Covers-match_segments acc (static {m} {x} w isp ne same rest) =
    let (params, e) = Covers-match_segments acc rest in
    (
      params,
      rw (w, match_segments) (rw (bind_segment-static m x acc ne isp same, match_segments) e),
    )

-- An entry covers a path exactly when its segments cover the parts of the path.
pub match_entry_iff :
    (entry pathname : Text)
    → ((params : Params) × (match_entry entry pathname ≡ some params))
      ↔ Covers (segments_of entry) (parts_of pathname)
unfolding match_entry
match_entry_iff entry pathname = (
  λ (params, e). match_segments-Covers (segments_of entry) (parts_of pathname) [] e,
  λ c. Covers-match_segments [] c,
)
