-- ===== src/Canonical/Stable.antt =====
-- `canonicalPath` is stable: it gives aliases one spelling, and a canonical path back unchanged.
use borgo.Common.{
  ℕ, ◌≡◌, refl, sym, ap, ◌∙◌, true, false, ◌&&◌, ◌∷◌, ◌++◌, ◌==◌, is_empty, Bool-cases, inl, inr,
  ltb, length,
}
use borgo.Text.{Text, starts_with, ends_with}
use borgo.Canonical.{
  is_unreserved, octet_value, is_escape, decode_unreserved, collapse_slashes, strip_slashes,
  drop_trailing, canonical_path,
}
use borgo.Canonical.Slashes.{
  IsCollapsed, IsTrimmed, collapse_slashes_of_IsCollapsed, drop_trailing_of_IsTrimmed,
  canonical_path-IsCollapsed,
}
use borgo.Canonical.Escapes.{
  IsWellFormed, IsSettled, done, other, escape, is_hex-ne-slash, escape_parts,
  decode_unreserved-append, decode_unreserved-alias, decode_unreserved-IsSettled,
  decode_unreserved_of_IsSettled,
}

collapse_slashes-other :
    (c : ℕ) (s : Text) → (c == b'/') ≡ false → collapse_slashes (c ∷ s) ≡ c ∷ collapse_slashes s
unfolding collapse_slashes
collapse_slashes-other c s e = rw e refl

strip_slashes-other :
    (c : ℕ) (s : Text) → (c == b'/') ≡ false → strip_slashes (c ∷ s) ≡ c ∷ strip_slashes s
unfolding strip_slashes
strip_slashes-other c s e = rw e refl

-- Three code units none of which is a slash stay in front.
module _ (f : Text → Text)
    (f-other : (c : ℕ) (s : Text) → (c == b'/') ≡ false → f (c ∷ s) ≡ c ∷ f s) where
  keeps_escape :
      (c a b : ℕ) (s : Text) → is_escape c a b ≡ true → f (c ∷ a ∷ b ∷ s) ≡ c ∷ a ∷ b ∷ f s
  keeps_escape c a b s e =
      let (p, ha, hb) = escape_parts c a b e in
      f-other c (a ∷ b ∷ s) (ap (λ x. x == b'/') p)
      ∙ ap (◌∷◌ c) (
          f-other a (b ∷ s) (is_hex-ne-slash a ha)
          ∙ ap (◌∷◌ a) (f-other b s (is_hex-ne-slash b hb)))

collapse_slashes-IsSettled_other :
    (c : ℕ) (s : Text)
    → (c == b'%') ≡ false
    → IsSettled (collapse_slashes s)
    → IsSettled (collapse_slashes (c ∷ s))
unfolding collapse_slashes
collapse_slashes-IsSettled_other c s e h =
    elim (Bool-cases (c == b'/' && starts_with b'/' (collapse_slashes s))) [
      | inl f ↦ rw f h
      | inr f ↦ rw f (other e h)
    ]

collapse_slashes-IsSettled : {s : Text} → IsSettled s → IsSettled (collapse_slashes s)
collapse_slashes-IsSettled done = unfold collapse_slashes in done
collapse_slashes-IsSettled (other {c} {s} e h) =
    collapse_slashes-IsSettled_other c s e (collapse_slashes-IsSettled h)
collapse_slashes-IsSettled (escape {c} {a} {b} {s} e f h) =
    rw (keeps_escape collapse_slashes collapse_slashes-other c a b s e)
      (escape e f (collapse_slashes-IsSettled h))

strip_slashes-IsSettled_other :
    (c : ℕ) (s : Text)
    → (c == b'%') ≡ false
    → IsSettled (strip_slashes s)
    → IsSettled (strip_slashes (c ∷ s))
unfolding strip_slashes
strip_slashes-IsSettled_other c s e h =
    elim (Bool-cases (c == b'/' && is_empty (strip_slashes s))) [
      | inl f ↦ rw f done
      | inr f ↦ rw f (other e h)
    ]

strip_slashes-IsSettled : {s : Text} → IsSettled s → IsSettled (strip_slashes s)
strip_slashes-IsSettled done = unfold strip_slashes in done
strip_slashes-IsSettled (other {c} {s} e h) =
    strip_slashes-IsSettled_other c s e (strip_slashes-IsSettled h)
strip_slashes-IsSettled (escape {c} {a} {b} {s} e f h) =
    rw (keeps_escape strip_slashes strip_slashes-other c a b s e)
      (escape e f (strip_slashes-IsSettled h))

canonical_path-IsSettled : {path : Text} → IsWellFormed path → IsSettled (canonical_path path)
unfolding canonical_path
canonical_path-IsSettled {path} w =
    let out = collapse_slashes (decode_unreserved path) in
    let settled = collapse_slashes-IsSettled (decode_unreserved-IsSettled w) in
    elim (Bool-cases (ltb 1 (length out) && ends_with b'/' out)) [
      | inl e ↦ rw e (strip_slashes-IsSettled settled)
      | inr e ↦ rw e settled
    ]

canonical_path_fixed : (s : Text) → IsSettled s → IsCollapsed s → IsTrimmed s → canonical_path s ≡ s
unfolding canonical_path
canonical_path_fixed s settled collapsed trimmed =
    ap (λ t. drop_trailing (collapse_slashes t)) (decode_unreserved_of_IsSettled settled)
    ∙ ap drop_trailing (collapse_slashes_of_IsCollapsed s collapsed)
    ∙ drop_trailing_of_IsTrimmed s trimmed

-- A second pass changes nothing, if every "%" of the path starts an escape.
pub canonical_path_idempotent :
    (path : Text) → IsWellFormed path → canonical_path (canonical_path path) ≡ canonical_path path
canonical_path_idempotent path w =
    let (collapsed, trimmed) = canonical_path-IsCollapsed path in
    canonical_path_fixed (canonical_path path) (canonical_path-IsSettled w) collapsed trimmed

-- A path that spells an unreserved character by its escape, and the path that spells it out, have
-- one canonical form, whatever follows; every "%" before it starts an escape.
pub canonical_path-alias :
    (before : Text) (c a b : ℕ) (after : Text)
    → IsWellFormed before
    → is_escape c a b ≡ true
    → is_unreserved (octet_value a b) ≡ true
    → canonical_path (before ++ (c ∷ a ∷ b ∷ after))
      ≡ canonical_path (before ++ (octet_value a b ∷ after))
unfolding canonical_path
canonical_path-alias before c a b after w e u =
    ap (λ t. drop_trailing (collapse_slashes t))
      (decode_unreserved-append (c ∷ a ∷ b ∷ after) w
        ∙ ap (λ t. decode_unreserved before ++ t) (decode_unreserved-alias c a b after e u)
        ∙ sym (decode_unreserved-append (octet_value a b ∷ after) w))
