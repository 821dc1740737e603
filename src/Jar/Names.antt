-- ===== src/Jar/Names.antt =====
-- The parts of a cookie header by their names, once go has set cookies.
use borgo.Common.{
  ℕ, suc, ◌≡◌, refl, ap, subst, ◌∙◌, Bool, true, false, List, [], ◌∷◌, ◌++◌, Option, none, some,
  if◌then◌else◌, Bool-cases, Option-cases, inl, inr, arith, append-nil,
}
use borgo.Text.{Text, ◌===◌, ===_iff, split, trim, Lacks}
use borgo.Csrf.{cut}
use borgo.Jar.Parts.{PlainName, cut-PlainName, name_of-append}
use borgo.Jar.{
  name_of, first_piece, cookie_expired, fresh_part, index_of, without, place_at, take_cookie,
  take_cookies,
}

-- The fresh part in the place of the first part of its name, or at the end, with no other of its
-- name left.
unfoldable pub in_place : Text → List Text → List Text → List Text
in_place name fresh [] = fresh
in_place name fresh (p ∷ ps) =
    let rest = in_place name fresh ps in
    if name_of p === name then fresh ++ without name ps else p ∷ rest

place_at-cons :
    (at : Option ℕ) (fresh rest : List Text) (p : Text)
    → place_at (elim at as (λ _. Option ℕ) [ none ↦ none | some n ↦ some (suc n) ]) fresh (p ∷ rest)
      ≡ p ∷ place_at at fresh rest
unfolding place_at
place_at-cons none fresh rest p = refl
place_at-cons (some n) fresh rest p = refl

place_at-in_place :
    (name : Text) (fresh parts : List Text)
    → place_at (index_of name parts) fresh (without name parts) ≡ in_place name fresh parts
unfolding index_of without in_place place_at
place_at-in_place name fresh [] = refl
place_at-in_place name fresh (p ∷ ps) = elim (Bool-cases (name_of p === name)) [
  | inl same ↦ rw same refl
  | inr other ↦ rw other (
      place_at-cons (index_of name ps) fresh (without name ps) p
      ∙ ap (λ (r : List Text). p ∷ r) (place_at-in_place name fresh ps))
]

-- The parts of a name, in their order.
unfoldable pub with_name : Text → List Text → List Text
with_name name [] = []
with_name name (p ∷ ps) =
    let rest = with_name name ps in if name_of p === name then p ∷ rest else rest

with_name-append :
    (name : Text) (ps qs : List Text)
    → with_name name (ps ++ qs) ≡ with_name name ps ++ with_name name qs
unfolding with_name
with_name-append name [] qs = refl
with_name-append name (p ∷ ps) qs = elim (Bool-cases (name_of p === name)) [
  | inl same ↦ rw same (ap (λ (r : List Text). p ∷ r) (with_name-append name ps qs))
  | inr other ↦ rw other (with_name-append name ps qs)
]

===_sym : (s t : Text) → (s === t) ≡ (t === s)
===_sym s t = ground (arith, ===_iff s t, ===_iff t s)

apart :
    (s name other : Text) → (s === name) ≡ true → (other === name) ≡ false → (s === other) ≡ false
apart s name other h k = ground (arith, ===_iff s name, ===_iff other name, ===_iff s other)

apart_back :
    (s name other : Text) → (s === name) ≡ false → (other === name) ≡ true → (s === other) ≡ false
apart_back s name other h k = ground (arith, ===_iff s name, ===_iff other name, ===_iff s other)

with_name-without :
    (name other : Text) (ps : List Text)
    → with_name other (without name ps) ≡ (if other === name then [] else with_name other ps)
unfolding with_name without
with_name-without name other [] = ground arith
with_name-without name other (p ∷ ps) = elim (Bool-cases (name_of p === name)) [
  | inl same ↦ elim (Bool-cases (other === name)) [
    | inl met ↦ rw same (with_name-without name other ps ∙ rw met refl)
    | inr else_ ↦
        rw same (
          with_name-without name other ps
          ∙ rw (else_, apart (name_of p) name other same else_) refl)
  ]
  | inr kept ↦ elim (Bool-cases (other === name)) [
    | inl met ↦
        rw (kept, with_name)
          (rw (apart_back (name_of p) name other kept met)
            (with_name-without name other ps ∙ rw met refl))
    | inr else_ ↦ rw (kept, with_name) (rw (with_name-without name other ps) (rw else_ refl))
  ]
]

with_name-fresh_part :
    (is_past : Text → Bool) (set_cookie before v other : Text)
    → Lacks b'=' before
    → with_name other (fresh_part is_past set_cookie (trim before) v)
      ≡ (if other === trim before then fresh_part is_past set_cookie (trim before) v else [])
unfolding fresh_part with_name
with_name-fresh_part is_past set_cookie before v other h =
    elim (Bool-cases (cookie_expired is_past set_cookie)) [
      | inl gone ↦ rw gone (ground arith)
      | inr lives ↦ rw lives (
          rw (name_of-append before (trim v) h) (
            both (trim before === other) (other === trim before) (===_sym (trim before) other)
              ((trim before ++ (b'=' ∷ trim v)) ∷ [])))
    ]
  where
    both : (a b : Bool) → a ≡ b → (ps : List Text) → (if a then ps else []) ≡ (if b then ps else [])
    both a b e ps = ap (λ (c : Bool). if c then ps else []) e

with_name-in_place :
    (name other : Text) (fresh ps : List Text)
    → with_name other fresh ≡ (if other === name then fresh else [])
    → with_name other (in_place name fresh ps)
      ≡ (if other === name then fresh else with_name other ps)
unfolding in_place with_name
with_name-in_place name other fresh [] h = h
with_name-in_place name other fresh (p ∷ ps) h = elim (Bool-cases (name_of p === name)) [
  | inl same ↦ elim (Bool-cases (other === name)) [
    | inl met ↦ rw same (
        with_name-append other fresh (without name ps)
        ∙ rw (with_name-without name other ps) (rw h (rw met (append-nil fresh))))
    | inr else_ ↦ rw same (
        with_name-append other fresh (without name ps)
        ∙ rw (with_name-without name other ps)
            (rw h (rw (else_, apart (name_of p) name other same else_) refl)))
  ]
  | inr kept ↦ elim (Bool-cases (other === name)) [
    | inl met ↦
        rw (kept, with_name)
          (rw (apart_back (name_of p) name other kept met)
            (with_name-in_place name other fresh ps h ∙ rw met refl))
    | inr else_ ↦
        rw (kept, with_name) (rw (with_name-in_place name other fresh ps h) (rw else_ refl))
  ]
]

-- What becomes of the parts of a name: each cookie of the name that go sets leaves its part instead
-- of them, or none where it has expired.
unfoldable pub outcome : (Text → Bool) → Text → List Text → List Text → List Text
outcome is_past name [] parts = parts
outcome is_past name (c ∷ set_cookies) parts =
    outcome is_past name set_cookies (elim (cut (first_piece (split b';' c))) [
      | none ↦ parts
      | some (before, v) ↦
          if name === trim before then fresh_part is_past c (trim before) v else parts
    ])

module _ (is_past : Text → Bool) where
  -- One cookie of go's takes the place of the first part of its name, or the end; no other part of
  -- its name is left, and every part of another name stays where it is.
  pub take_cookie-in_place :
      (parts : List Text) (set_cookie name v : Text)
      → cut (first_piece (split b';' set_cookie)) ≡ some (name, v)
      → take_cookie is_past parts set_cookie
        ≡ in_place (trim name) (fresh_part is_past set_cookie (trim name) v) parts
  unfolding take_cookie
  take_cookie-in_place parts set_cookie name v e =
      rw (e, take_cookie)
        (place_at-in_place (trim name) (fresh_part is_past set_cookie (trim name) v) parts)

  with_name-take_cookie :
      (other : Text) (parts : List Text) (set_cookie : Text)
      → with_name other (take_cookie is_past parts set_cookie)
        ≡ outcome is_past other (set_cookie ∷ []) (with_name other parts)
  unfolding outcome take_cookie
  with_name-take_cookie other parts set_cookie =
      elim (Option-cases (cut (first_piece (split b';' set_cookie)))) [
        | inl nameless ↦ rw (nameless, take_cookie, outcome) refl
        | inr ((name, v), e) ↦ rw (take_cookie-in_place parts set_cookie name v e) (
            rw (e, outcome)
              (with_name-in_place (trim name) other (fresh_part is_past set_cookie (trim name) v)
                parts
                (with_name-fresh_part is_past set_cookie name v other
                  (subst PlainName e (cut-PlainName (first_piece (split b';' set_cookie)))))))
      ]

  pub with_name-take_cookies :
      (name : Text) (parts set_cookies : List Text)
      → with_name name (take_cookies is_past parts set_cookies)
        ≡ outcome is_past name set_cookies (with_name name parts)
  unfolding take_cookies outcome
  with_name-take_cookies name parts [] = refl
  with_name-take_cookies name parts (c ∷ set_cookies) =
      with_name-take_cookies name (take_cookie is_past parts c) set_cookies
      ∙ ap (outcome is_past name set_cookies) (with_name-take_cookie name parts c)
