-- ===== src/Guard/Accepted.antt =====
-- What an accepted matcher entry looks like: `matcherRefusal` and the texts of its segments.
use borgo.Common.{
  ℕ, ◌≡◌, refl, ap, ◌∙◌, inl, inr, Bool, true, false, ◌||◌, List, [], ◌∷◌, ◌++◌, none, arith, All,
  Bool-cases,
}
use borgo.Text.{Text, codes, ◌===◌, starts_with, includes, split, join, join-split}
use borgo.Text.Uri.{is_escape}
use borgo.Text.Uri.Plain.{HasNoEscape, decode_of_HasNoEscape}
use borgo.Guard.{
  text, has_escape, segments_of, segments_refusal, reserved_refusal, matcher_refusal,
  decode_segment,
}

has_escape-HasNoEscape : (s : Text) → has_escape s ≡ false → HasNoEscape s
unfolding has_escape
has_escape-HasNoEscape [] h = tt
has_escape-HasNoEscape (c ∷ []) h = tt
has_escape-HasNoEscape (c ∷ a ∷ []) h = tt
has_escape-HasNoEscape (c ∷ a ∷ b ∷ s) h =
    let (e, rest) = or-false (is_escape c a b) (has_escape (a ∷ b ∷ s)) h in
    (e, has_escape-HasNoEscape (a ∷ b ∷ s) rest)
  where
    or-false : (x y : Bool) → (x || y) ≡ false → (x ≡ false) × (y ≡ false)
    or-false true y h = cc
    or-false false y h = (refl, h)

-- A text with no escape decodes to itself.
pub decode_segment_of_has_escape : (s : Text) → has_escape s ≡ false → decode_segment s ≡ s
unfolding decode_segment
decode_segment_of_has_escape s h = elim (decode_of_HasNoEscape s (has_escape-HasNoEscape s h)) [
  | inl e ↦ rw (e, decode_segment) refl
  | inr e ↦ rw (e, decode_segment) refl
]

has_escape-tail : (c : ℕ) (s : Text) → has_escape (c ∷ s) ≡ false → has_escape s ≡ false
unfolding has_escape
has_escape-tail c [] h = refl
has_escape-tail c (a ∷ []) h = refl
has_escape-tail c (a ∷ b ∷ s) h = ground arith

has_escape-suffix : (s t : Text) → has_escape (s ++ t) ≡ false → has_escape t ≡ false
has_escape-suffix [] t h = h
has_escape-suffix (c ∷ s) t h = has_escape-suffix s t (has_escape-tail c (s ++ t) h)

has_escape-prefix : (s t : Text) → has_escape (s ++ t) ≡ false → has_escape s ≡ false
unfolding has_escape
has_escape-prefix [] t h = refl
has_escape-prefix (c ∷ []) t h = refl
has_escape-prefix (c ∷ a ∷ []) t h = refl
has_escape-prefix (c ∷ a ∷ b ∷ s) t h =
    let rest = has_escape-prefix (a ∷ b ∷ s) t (has_escape-tail c (a ∷ b ∷ (s ++ t)) h) in
    ground arith

has_escape-join :
    (sep : Text) (ps : List Text)
    → has_escape (join sep ps) ≡ false
    → All (λ p. has_escape p ≡ false) ps
unfolding join
has_escape-join sep [] h = tt
has_escape-join sep (p ∷ []) h = (h, tt)
has_escape-join sep (p ∷ q ∷ ps) h =
    let later = has_escape-suffix p (sep ++ join sep (q ∷ ps)) h in
    (
      has_escape-prefix p (sep ++ join sep (q ∷ ps)) h,
      has_escape-join sep (q ∷ ps) (has_escape-suffix sep (join sep (q ∷ ps)) later),
    )

has_escape-split :
    (s : Text) → has_escape s ≡ false → All (λ p. has_escape p ≡ false) (split b'/' s)
has_escape-split s h =
    has_escape-join (b'/' ∷ []) (split b'/' s) (ap has_escape (join-split b'/' s) ∙ h)

has_escape-segments_of :
    (entry : Text) → has_escape entry ≡ false → All (λ p. has_escape p ≡ false) (segments_of entry)
unfolding segments_of ◌===◌ split
has_escape-segments_of [] h = (h, tt)
has_escape-segments_of (c ∷ entry) h = elim (Bool-cases ((c ∷ entry) === codes "/")) [
  | inl e ↦ rw e tt
  | inr e ↦ rw e (has_escape-split entry (has_escape-tail c entry h))
]

-- What `matcherRefusal` has checked of an entry that it accepts.
pub record IsAccepted (entry : Text) : Type 0 where
  pub rooted : starts_with b'/' entry ≡ true
  pub no_escape : has_escape entry ≡ false
  pub no_query : (includes b'?' entry || includes b'#' entry) ≡ false
  pub segments : segments_refusal (segments_of entry) ≡ none
  pub page : reserved_refusal (segments_of entry) ≡ none

pub matcher_refusal-IsAccepted :
    (entry : Text) → matcher_refusal (text entry) ≡ none → IsAccepted entry
unfolding matcher_refusal
matcher_refusal-IsAccepted entry h = record {
  rooted = ground arith;
  no_escape = ground arith;
  no_query = ground arith;
  segments = ground arith;
  page = ground arith;
}

-- Every segment of an accepted entry decodes to itself.
pub decode_segment-segments_of :
    (entry : Text) → IsAccepted entry → All (λ p. decode_segment p ≡ p) (segments_of entry)
decode_segment-segments_of entry a =
    go (segments_of entry) (has_escape-segments_of entry a.no_escape)
  where
    go : (ps : List Text) → All (λ p. has_escape p ≡ false) ps → All (λ p. decode_segment p ≡ p) ps
    go [] h = tt
    go (p ∷ ps) (h, hs) = (decode_segment_of_has_escape p h, go ps hs)
