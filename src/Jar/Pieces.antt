-- ===== src/Jar/Pieces.antt =====
-- The parts of a cookie header stay parts while go sets cookies.
use borgo.Common.{
  ℕ, ◌≡◌, refl, subst, ap, ◌∙◌, Bool, false, List, [], ◌∷◌, ◌++◌, Option, none, some, is_empty,
  Bool-cases, Option-cases, inl, inr, arith, ◌==◌, All, All-append,
}
use borgo.Text.{
  Text, or_empty, ◌===◌, split, is_space, trim, trim_end, trim_idempotent, starts_with_space,
  trim_start_of, trim-starts_with_space, trim_end-trim, Lacks, split-Lacks,
}
use borgo.Csrf.{cut, onto_first}
use borgo.Jar.{
  name_of, parts_of, kept_parts, first_piece, cookie_expired, fresh_part, without, take_cookie,
  take_cookies,
}
use borgo.Jar.Parts.{trim-All}
use borgo.Jar.Names.{in_place, take_cookie-in_place}

-- A part as it is read: trimmed, not empty, and in one piece.
pub record IsPart (p : Text) : Type 0 where
  pub trimmed : trim p ≡ p
  pub filled : is_empty p ≡ false
  pub alone : Lacks b';' p

-- What the reading of a header gives.
kept_parts-IsPart : (ps : List Text) → All (Lacks b';') ps → All IsPart (kept_parts ps)
unfolding kept_parts
kept_parts-IsPart [] h = tt
kept_parts-IsPart (p ∷ ps) (alone, h) = elim (Bool-cases (is_empty (trim p))) [
  | inl blank ↦ rw blank (kept_parts-IsPart ps h)
  | inr filled ↦ rw filled (
    record {
      trimmed = trim_idempotent p;
      filled = filled;
      alone = trim-All (λ x. (x == b';') ≡ false) p alone;
    },
    kept_parts-IsPart ps h,
  )
]

pub parts_of-IsPart : (header : Option Text) → All IsPart (parts_of header)
unfolding parts_of
parts_of-IsPart header =
    kept_parts-IsPart (split b';' (or_empty header)) (split-Lacks b';' (or_empty header))

-- The part that a cookie leaves.
starts_with_space-append :
    (s t : Text) → starts_with_space s ≡ false → starts_with_space (s ++ (b'=' ∷ t)) ≡ false
unfolding is_space
starts_with_space-append [] t h = refl
starts_with_space-append (c ∷ s) t h = h

trim_end-append : (s t : Text) → trim_end t ≡ t → trim_end (s ++ (b'=' ∷ t)) ≡ s ++ (b'=' ∷ t)
unfolding trim_end is_space
trim_end-append [] t h = rw h refl
trim_end-append (c ∷ s) t h = rw (trim_end-append s t h) (rw (filled s) (ground arith))
  where
    filled : (s : Text) → is_empty (s ++ (b'=' ∷ t)) ≡ false
    filled [] = refl
    filled (x ∷ s) = refl

pair-trim :
    (before v : Text) → trim (trim before ++ (b'=' ∷ trim v)) ≡ trim before ++ (b'=' ∷ trim v)
unfolding trim
pair-trim before v =
    ap trim_end (
      trim_start_of (trim before ++ (b'=' ∷ trim v))
        (starts_with_space-append (trim before) (trim v) (trim-starts_with_space before)))
    ∙ trim_end-append (trim before) (trim v) (trim_end-trim v)

Plain : ℕ → Type 0
Plain c = (c == b';') ≡ false

abbrev PlainPair : Option (Text × Text) → Type 0
PlainPair none = Unit
PlainPair (some (before, after)) = All Plain before × All Plain after

onto_first-PlainPair :
    (c : ℕ) (rest : Option (Text × Text)) → Plain c → PlainPair rest → PlainPair (onto_first c rest)
unfolding onto_first
onto_first-PlainPair c none p h = tt
onto_first-PlainPair c (some (before, after)) p (h, k) = ((p, h), k)

cut-PlainPair : (s : Text) → All Plain s → PlainPair (cut s)
unfolding cut
cut-PlainPair [] h = tt
cut-PlainPair (c ∷ s) (p, h) = elim (Bool-cases (c == b'=')) [
  | inl sign ↦ rw sign (tt, h)
  | inr other ↦ rw other (onto_first-PlainPair c (cut s) p (cut-PlainPair s h))
]

fresh_part-IsPart :
    (is_past : Text → Bool) (set_cookie before v : Text)
    → All Plain before
    → All Plain v
    → All IsPart (fresh_part is_past set_cookie (trim before) v)
unfolding fresh_part Plain
fresh_part-IsPart is_past set_cookie before v h k =
    elim (Bool-cases (cookie_expired is_past set_cookie)) [
      | inl gone ↦ rw gone tt
      | inr lives ↦ rw lives (part, tt)
    ]
  where
    filled : (s : Text) → is_empty (s ++ (b'=' ∷ trim v)) ≡ false
    filled [] = refl
    filled (c ∷ s) = refl

    part : IsPart (trim before ++ (b'=' ∷ trim v))
    part = record {
      trimmed = pair-trim before v;
      filled = filled (trim before);
      alone =
          All-append Plain (trim before) (b'=' ∷ trim v) (trim-All Plain before h)
            (refl, trim-All Plain v k);
    }

without-All : (name : Text) (ps : List Text) → All IsPart ps → All IsPart (without name ps)
unfolding without
without-All name [] h = tt
without-All name (p ∷ ps) (k, h) = elim (Bool-cases (name_of p === name)) [
  | inl same ↦ rw same (without-All name ps h)
  | inr other ↦ rw other (k, without-All name ps h)
]

in_place-All :
    (name : Text) (fresh ps : List Text)
    → All IsPart fresh
    → All IsPart ps
    → All IsPart (in_place name fresh ps)
unfolding in_place
in_place-All name fresh [] f h = f
in_place-All name fresh (p ∷ ps) f (k, h) = elim (Bool-cases (name_of p === name)) [
  | inl same ↦ rw same (All-append IsPart fresh (without name ps) f (without-All name ps h))
  | inr other ↦ rw other (k, in_place-All name fresh ps f h)
]

first_piece-Plain : (ps : List Text) → All (Lacks b';') ps → All Plain (first_piece ps)
unfolding Plain
first_piece-Plain [] h = tt
first_piece-Plain (p ∷ ps) (k, h) = k

module _ (is_past : Text → Bool) where
  take_cookie-All :
      (parts : List Text) (c : Text) → All IsPart parts → All IsPart (take_cookie is_past parts c)
  unfolding take_cookie
  take_cookie-All parts c h = elim (Option-cases (cut pair)) [
    | inl nameless ↦ rw (nameless, take_cookie) h
    | inr ((before, v), e) ↦
        let (k, l) = subst PlainPair e (cut-PlainPair pair plain) in
        rw (take_cookie-in_place is_past parts c before v e) (
          in_place-All (trim before) (fresh_part is_past c (trim before) v) parts
            (fresh_part-IsPart is_past c before v k l) h)
  ]
    where
      pair : Text
      pair = first_piece (split b';' c)

      plain : All Plain pair
      plain = first_piece-Plain (split b';' c) (split-Lacks b';' c)

  pub take_cookies-All :
      (parts set_cookies : List Text)
      → All IsPart parts
      → All IsPart (take_cookies is_past parts set_cookies)
  unfolding take_cookies
  take_cookies-All parts [] h = h
  take_cookies-All parts (c ∷ set_cookies) h =
      take_cookies-All (take_cookie is_past parts c) set_cookies (take_cookie-All parts c h)
