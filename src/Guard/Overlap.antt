-- ===== src/Guard/Overlap.antt =====
-- `patternsOverlap` answers yes for every route that has a covered page.
use borgo.Common.{
  ℕ, ◌≡◌, refl, sym, ap, ◌∙◌, ◌⊎◌, inl, inr, true, false, ◌||◌, List, [], ◌∷◌, Option, none, some,
  arith, All,
}
use borgo.Text.{Text, ◌===◌, ===_iff, split, join, join-split, decode_uri_component}
use borgo.Text.Uri.Plain.{decode_uri_component-ne-nil}
use borgo.Params.{Params}
use borgo.Router.{safe_decode, match_pattern}
use borgo.Router.Match.{Fits, match_pattern_iff}
use borgo.Guard.{
  is_param, is_wildcard, decode_segment, segments_of, parts_of, match_entry, overlap,
  patterns_overlap,
}
use borgo.Guard.Accepted.{IsAccepted, decode_segment-segments_of}
use borgo.Guard.Cover.{Covers, match_entry_iff}

-- The two functions that decode a segment are one.
pub decode_segment-safe_decode : (s : Text) → decode_segment s ≡ safe_decode s
unfolding decode_segment safe_decode
decode_segment-safe_decode s = refl

-- A static segment that decoding leaves as it is.
abbrev pub IsPlain : Text → Type 0
IsPlain r = is_param r ≡ false → safe_decode r ≡ r

statics_agree :
    (r m x : Text)
    → safe_decode r ≡ r
    → safe_decode m ≡ m
    → (r ≡ x) ⊎ (r ≡ safe_decode x)
    → (m ≡ x) ⊎ (m ≡ safe_decode x)
    → r ≡ m
statics_agree r m x pr pm (inl e) (inl f) = cc
statics_agree r m x pr pm (inl e) (inr f) = sym pr ∙ ap safe_decode e ∙ sym f
statics_agree r m x pr pm (inr e) (inl f) = e ∙ ap safe_decode (sym f) ∙ pm
statics_agree r m x pr pm (inr e) (inr f) = e ∙ sym f

overlap-wildcard :
    (rs : List Text) (m : Text) (ms : List Text) → is_wildcard m ≡ true → overlap rs (m ∷ ms) ≡ true
unfolding overlap
overlap-wildcard [] m ms w = w
overlap-wildcard (r ∷ rs) m ms w = rw w refl

overlap-param :
    (r m : Text) (rs ms : List Text)
    → (is_param r || is_param m) ≡ true
    → overlap rs ms ≡ true
    → overlap (r ∷ rs) (m ∷ ms) ≡ true
unfolding overlap
overlap-param r m rs ms p h = ground arith

overlap-static :
    (r m : Text) (rs ms : List Text)
    → r ≡ m
    → overlap rs ms ≡ true
    → overlap (r ∷ rs) (m ∷ ms) ≡ true
unfolding overlap
overlap-static r m rs ms e h = ground (arith, ===_iff r m)

overlap_of_Fits :
    {rs ms xs : List Text}
    → Fits rs xs
    → Covers ms xs
    → All IsPlain rs
    → All (λ m. decode_segment m ≡ m) ms
    → overlap rs ms ≡ true
unfolding safe_decode decode_segment
overlap_of_Fits {rs} fits (Covers.wildcard {m} {ms} w) pr pm = overlap-wildcard rs m ms w
overlap_of_Fits Fits.done Covers.done pr pm = unfold overlap in refl
overlap_of_Fits (Fits.param {p} {ps = ps} isp _ f) (Covers.param {m} {ms = ms} _ _ _ c) pr pm =
    overlap-param p m ps ms (ground arith) (overlap_of_Fits f c pr.1 pm.1)
overlap_of_Fits (Fits.param {p} {ps = ps} isp _ f) (Covers.static {m} {ms = ms} _ _ _ _ c) pr pm =
    overlap-param p m ps ms (ground arith) (overlap_of_Fits f c pr.1 pm.1)
overlap_of_Fits (Fits.static {p} {ps = ps} _ _ f) (Covers.param {m} {ms = ms} _ isp _ c) pr pm =
    overlap-param p m ps ms (ground arith) (overlap_of_Fits f c pr.1 pm.1)
overlap_of_Fits (Fits.static {p} {x} {ps} isp e f) (Covers.static {m} {ms = ms} _ _ _ g c) pr pm =
    overlap-static p m ps ms (statics_agree p m x (pr.0 isp) pm.0 e g)
      (overlap_of_Fits f c pr.1 pm.1)

Fits-tail : {r x : Text} {rs xs : List Text} → Fits (r ∷ rs) (x ∷ xs) → Fits rs xs
Fits-tail (Fits.param _ _ f) = f
Fits-tail (Fits.static _ _ f) = f

safe_decode-eq-nil : (x : Text) → safe_decode x ≡ [] → x ≡ []
unfolding safe_decode
safe_decode-eq-nil [] h = refl
safe_decode-eq-nil (c ∷ s) h =
    absurd (decode_uri_component-ne-nil c s (go (decode_uri_component (c ∷ s)) h))
  where
    go : (o : Option Text) → elim o [ none ↦ c ∷ s | some t ↦ t ] ≡ [] → o ≡ some []
    go none e = cc
    go (some t) e = ap some e

-- The empty pattern segment fits the empty path segment alone, and no other pattern segment does.
Fits-nil_left : {xs : List Text} → Fits ([] ∷ []) xs → xs ≡ [] ∷ []
Fits-nil_left (Fits.static _ (inl e) Fits.done) = ap (λ x. x ∷ []) (sym e)
Fits-nil_left (Fits.static {x} _ (inr e) Fits.done) =
    ap (λ y. y ∷ []) (safe_decode-eq-nil x (sym e))
Fits-nil_left (Fits.param isp _ _) = cc

Fits-nil_right : {rs : List Text} → Fits rs ([] ∷ []) → rs ≡ [] ∷ []
unfolding safe_decode decode_uri_component
Fits-nil_right (Fits.static _ (inl e) Fits.done) = ap (λ x. x ∷ []) e
Fits-nil_right (Fits.static _ (inr e) Fits.done) = ap (λ x. x ∷ []) e
Fits-nil_right (Fits.param _ ne _) = cc

split-eq-nil : (s : Text) → split b'/' s ≡ [] ∷ [] → s ≡ []
split-eq-nil s e = sym (join-split b'/' s) ∙ ap (join (b'/' ∷ [])) e ∙ unfold join in refl

cons-ne-nil : {c : ℕ} {s : Text} → c ∷ s ≡ [] → ⊥
cons-ne-nil h = cc

Fits-root :
    (p q : Text)
    → Fits (split b'/' (b'/' ∷ p)) (split b'/' (b'/' ∷ q))
    → Fits (segments_of (b'/' ∷ p)) (parts_of (b'/' ∷ q))
unfolding split segments_of parts_of ◌===◌
Fits-root [] [] f = Fits.done
Fits-root (c ∷ p) (d ∷ q) f = Fits-tail f
Fits-root [] (d ∷ q) f = absurd (cons-ne-nil (split-eq-nil (d ∷ q) (Fits-nil_left (Fits-tail f))))
Fits-root (c ∷ p) [] f = absurd (cons-ne-nil (split-eq-nil (c ∷ p) (Fits-nil_right (Fits-tail f))))

-- If a page of the route lies under the entry, the two overlap. The route's static segments are
-- written decoded, and the entry is one that `matcherRefusal` accepts.
pub patterns_overlap_complete :
    (p entry q : Text) {params params' : Params}
    → All IsPlain (segments_of (b'/' ∷ p))
    → IsAccepted entry
    → match_pattern (b'/' ∷ p) (b'/' ∷ q) ≡ some params
    → match_entry entry (b'/' ∷ q) ≡ some params'
    → patterns_overlap (b'/' ∷ p) entry ≡ true
unfolding patterns_overlap
patterns_overlap_complete p entry q plain accepted matched covered =
    overlap_of_Fits (Fits-root p q ((match_pattern_iff (b'/' ∷ p) (b'/' ∷ q)).0 (_, matched)))
      ((match_entry_iff entry (b'/' ∷ q)).0 (_, covered)) plain
      (decode_segment-segments_of entry accepted)
