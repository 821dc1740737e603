-- ===== src/Canonical/Slashes.antt =====
-- The slashes of a canonical path.
use borgo.Common.{
  ◌≡◌, refl, Bool, true, false, ◌&&◌, [], ◌∷◌, arith, ◌==◌, if◌then◌else◌, is_empty, Bool-cases,
  inl, inr, ltb, length,
}
use borgo.Text.{Text, starts_with, ends_with}
use borgo.Canonical.{
  collapse_slashes, strip_slashes, drop_trailing, decode_unreserved, canonical_path,
}

-- No two slashes in a row.
abbrev pub IsCollapsed : Text → Type 0
IsCollapsed [] = Unit
IsCollapsed (c ∷ s) = ((c == b'/' && starts_with b'/' s) ≡ false) × IsCollapsed s

-- No slash at the end, but for the root path.
abbrev pub IsTrimmed : Text → Type 0
IsTrimmed s = (ltb 1 (length s) && ends_with b'/' s) ≡ false

pub collapse_slashes-IsCollapsed : (s : Text) → IsCollapsed (collapse_slashes s)
unfolding collapse_slashes
collapse_slashes-IsCollapsed [] = tt
collapse_slashes-IsCollapsed (c ∷ s) =
    let rest = collapse_slashes s in
    elim (Bool-cases (c == b'/' && starts_with b'/' rest)) [
      | inl e ↦ rw e (collapse_slashes-IsCollapsed s)
      | inr e ↦ rw e (e, collapse_slashes-IsCollapsed s)
    ]

pub collapse_slashes_of_IsCollapsed : (s : Text) → IsCollapsed s → collapse_slashes s ≡ s
unfolding collapse_slashes
collapse_slashes_of_IsCollapsed [] h = refl
collapse_slashes_of_IsCollapsed (c ∷ s) (e, h) = rw (collapse_slashes_of_IsCollapsed s h, e) refl

strip_slashes-starts_with :
    (s : Text) → starts_with b'/' s ≡ false → starts_with b'/' (strip_slashes s) ≡ false
unfolding strip_slashes
strip_slashes-starts_with [] h = refl
strip_slashes-starts_with (c ∷ s) h = ground arith

and-false_mono : (b x y : Bool) → (x ≡ false → y ≡ false) → (b && x) ≡ false → (b && y) ≡ false
and-false_mono true x y f h = f h
and-false_mono false x y f h = refl

pub strip_slashes-IsCollapsed : (s : Text) → IsCollapsed s → IsCollapsed (strip_slashes s)
unfolding strip_slashes
strip_slashes-IsCollapsed [] h = tt
strip_slashes-IsCollapsed (c ∷ s) (e, h) =
    elim (Bool-cases (c == b'/' && is_empty (strip_slashes s))) [
      | inl f ↦ rw f tt
      | inr f ↦ rw f (
        and-false_mono (c == b'/') (starts_with b'/' s) (starts_with b'/' (strip_slashes s))
            (strip_slashes-starts_with s) e,
        strip_slashes-IsCollapsed s h,
      )
    ]

pub strip_slashes-ends_with : (s : Text) → ends_with b'/' (strip_slashes s) ≡ false
unfolding strip_slashes
strip_slashes-ends_with [] = refl
strip_slashes-ends_with (c ∷ s) = go (strip_slashes s) (strip_slashes-ends_with s)
  where
    go :
        (rest : Text)
        → ends_with b'/' rest ≡ false
        → ends_with b'/' (if c == b'/' && is_empty rest then [] else c ∷ rest) ≡ false
    go [] h = ground arith
    go (d ∷ rest) h = ground arith

pub strip_slashes_of_ends_with : (s : Text) → ends_with b'/' s ≡ false → strip_slashes s ≡ s
unfolding strip_slashes
strip_slashes_of_ends_with [] h = refl
strip_slashes_of_ends_with (c ∷ []) h = ground arith
strip_slashes_of_ends_with (c ∷ d ∷ s) h = rw (strip_slashes_of_ends_with (d ∷ s) h) (ground arith)

drop_trailing-IsCollapsed : (s : Text) → IsCollapsed s → IsCollapsed (drop_trailing s)
unfolding drop_trailing
drop_trailing-IsCollapsed s h = elim (Bool-cases (ltb 1 (length s) && ends_with b'/' s)) [
  | inl e ↦ rw e (strip_slashes-IsCollapsed s h)
  | inr e ↦ rw e h
]

pub drop_trailing-IsTrimmed : (s : Text) → IsTrimmed (drop_trailing s)
unfolding drop_trailing
drop_trailing-IsTrimmed s = elim (Bool-cases (ltb 1 (length s) && ends_with b'/' s)) [
  | inl e ↦ rw e (ground (arith, strip_slashes-ends_with s))
  | inr e ↦ rw e e
]

pub drop_trailing_of_IsTrimmed : (s : Text) → IsTrimmed s → drop_trailing s ≡ s
unfolding drop_trailing
drop_trailing_of_IsTrimmed s h = rw h refl

-- A canonical path holds no two slashes in a row, and ends in a slash only if it is "/".
pub canonical_path-IsCollapsed :
    (path : Text) → IsCollapsed (canonical_path path) × IsTrimmed (canonical_path path)
unfolding canonical_path
canonical_path-IsCollapsed path =
    let collapsed = collapse_slashes (decode_unreserved path) in
    (
      drop_trailing-IsCollapsed collapsed (collapse_slashes-IsCollapsed (decode_unreserved path)),
      drop_trailing-IsTrimmed collapsed,
    )
