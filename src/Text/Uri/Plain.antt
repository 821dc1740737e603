-- ===== src/Text/Uri/Plain.antt =====
-- Texts that decoding leaves as they are, and that decoding makes no text empty.
use mathlib.Core.Option
use borgo.Common.{
  ℕ, zero, suc, ◌-◌, ◌+◌, ◌*◌, ltb, leb, not, ◌&&◌, is_empty, >>=-eq-some, ◌≡◌, refl, ◌≢◌, ◌⊎◌, inl,
  inr, false, List, [], ◌∷◌, ◌++◌, map, arith, Option, none, some, ◌==◌, Bool-cases,
}
use borgo.Text.Units.{Text, within}
use borgo.Text.Uri.{
  Unit8, plain, octet, is_escape, unescape, utf16, is_scalar, read_utf8, decode_uri_component,
}

-- No "%" of the text is followed by two hexadecimal digits.
abbrev pub HasNoEscape : Text → Type 0
HasNoEscape [] = Unit
HasNoEscape (c ∷ []) = Unit
HasNoEscape (c ∷ a ∷ []) = Unit
HasNoEscape (c ∷ a ∷ b ∷ s) = (is_escape c a b ≡ false) × HasNoEscape (a ∷ b ∷ s)

unescape-plain :
    (s : Text) → HasNoEscape s → (unescape s ≡ none) ⊎ (unescape s ≡ some (map plain s))
unfolding unescape
unescape-plain [] h = inr refl
unescape-plain (c ∷ []) h = ground arith
unescape-plain (c ∷ a ∷ []) h = ground arith
unescape-plain (c ∷ a ∷ b ∷ s) (e, h) = ground (arith, unescape-plain (a ∷ b ∷ s) h)

read_utf8-plain : (s : Text) → read_utf8 zero 0 0 (map plain s) ≡ some s
unfolding read_utf8
read_utf8-plain [] = refl
read_utf8-plain (c ∷ s) = rw (read_utf8-plain s) refl

-- A text with no escape decodes to itself or is refused.
pub decode_of_HasNoEscape :
    (s : Text) → HasNoEscape s → (decode_uri_component s ≡ none) ⊎ (decode_uri_component s ≡ some s)
unfolding decode_uri_component
decode_of_HasNoEscape s h = elim (unescape-plain s h) [
  | inl e ↦ inl (rw e refl)
  | inr e ↦ inr (rw e (read_utf8-plain s))
]

map-cons-ne-nil : (u : Unit8) (o : Option (List Unit8)) → Option.map (◌∷◌ u) o ≢ some []
map-cons-ne-nil u none = cc
map-cons-ne-nil u (some us) = cc

unescape-ne-nil : (c : ℕ) (s : Text) → unescape (c ∷ s) ≢ some []
unfolding unescape
unescape-ne-nil c [] = ground arith
unescape-ne-nil c (a ∷ []) = ground arith
unescape-ne-nil c (a ∷ b ∷ s) = elim (Bool-cases (is_escape c a b)) [
  | inl e ↦ rw e (map-cons-ne-nil _ (unescape s))
  | inr e ↦ rw e (elim (Bool-cases (c == b'%')) [
    | inl f ↦ rw f cc
    | inr f ↦ rw f (map-cons-ne-nil _ (unescape (a ∷ b ∷ s)))
  ])
]

append-ne-nil : (v : ℕ) (o : Option Text) → Option.map (◌++◌ (utf16 v)) o ≢ some []
unfolding utf16
append-ne-nil v none = cc
append-ne-nil v (some t) = ground arith

map-ne-nil : (c : ℕ) (o : Option Text) → Option.map (◌∷◌ c) o ≢ some []
map-ne-nil c none = cc
map-ne-nil c (some t) = cc

read_utf8-ne-nil :
    (more v least : ℕ) (us : List Unit8)
    → (is_empty us ≡ false) ⊎ ((more == 0) ≡ false)
    → read_utf8 more v least us ≢ some []
unfolding read_utf8
read_utf8-ne-nil zero v least [] h = ground arith
read_utf8-ne-nil (suc more) v least [] h = cc
read_utf8-ne-nil zero v least (plain c ∷ us) h = map-ne-nil c (read_utf8 zero 0 0 us)
read_utf8-ne-nil (suc more) v least (plain c ∷ us) h = cc
read_utf8-ne-nil zero v least (octet o ∷ us) h =
    let ascii = map-ne-nil o (read_utf8 zero 0 0 us) in
    let two = read_utf8-ne-nil 1 (o - 192) 0x80 us (inr refl) in
    let three = read_utf8-ne-nil 2 (o - 224) 0x800 us (inr refl) in
    let four = read_utf8-ne-nil 3 (o - 240) 0x10000 us (inr refl) in
    elim (Bool-cases (ltb o 128)) [
      | inl e ↦ rw e ascii
      | inr e ↦ rw e (elim (Bool-cases (within 192 223 o)) [
        | inl f ↦ rw f two
        | inr f ↦ rw f (elim (Bool-cases (within 224 239 o)) [
          | inl g ↦ rw g three
          | inr g ↦
              rw g (elim (Bool-cases (within 240 247 o)) [ inl k ↦ rw k four | inr k ↦ rw k cc ])
        ])
      ])
    ]
read_utf8-ne-nil (suc more) v least (octet o ∷ us) h =
    let v' = v * 64 + (o - 128) in
    let next = λ (p : (more == 0) ≡ false). read_utf8-ne-nil more v' least us (inr p) in
    elim (Bool-cases (not (within 128 191 o))) [
      | inl e ↦ rw e cc
      | inr e ↦ rw e (elim (Bool-cases (more == 0)) [
        | inr f ↦ rw f (next f)
        | inl f ↦ rw f (elim (Bool-cases (leb least v' && is_scalar v')) [
          | inl g ↦ rw g (append-ne-nil v' (read_utf8 zero 0 0 us))
          | inr g ↦ rw g cc
        ])
      ])
    ]

-- What decodes to the empty text is empty.
pub decode_uri_component-ne-nil : (c : ℕ) (s : Text) → decode_uri_component (c ∷ s) ≢ some []
unfolding decode_uri_component
decode_uri_component-ne-nil c s h =
    let (us, read, e) = >>=-eq-some (unescape (c ∷ s)) (read_utf8 zero 0 0) h in go us read e
  where
    go : (us : List Unit8) → unescape (c ∷ s) ≡ some us → read_utf8 zero 0 0 us ≡ some [] → ⊥
    go [] read e = unescape-ne-nil c s read
    go (u ∷ us) read e = read_utf8-ne-nil zero 0 0 (u ∷ us) (inl refl) e
