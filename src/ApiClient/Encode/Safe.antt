-- ===== src/ApiClient/Encode/Safe.antt =====
-- What an encoded component looks like in a path.
use borgo.Common.{
  ℕ, ◌/◌, ◌%◌, ◌≡◌, refl, ◌++◌, Bool, true, false, ◌&&◌, ◌||◌, List, [], ◌∷◌, Option, none, some,
  ◌==◌, All, arith, Bool-cases, ltb, ◌≢◌, ◌+◌, ◌-◌, ◌*◌, subst, ap, sym, ◌∙◌, ◌⊎◌, inl, inr,
}
use borgo.Text.{Text, within}
use borgo.Keys.{utf8_bytes, is_high, is_low}
use borgo.ApiClient.Encode.{
  is_component, hex_digit, escapes, before, encode_unit, encode_uri_component,
}

-- the ends of a segment and of a path
abbrev pub is_mark : ℕ → Bool
is_mark c = c == b'/' || c == b'?' || c == b'#'

abbrev pub IsSafe : Text → Type 0
IsSafe = All (λ (c : ℕ). is_mark c ≡ false)

abbrev AllSafe : Option Text → Type 0
AllSafe none = Unit
AllSafe (some t) = IsSafe t

append-IsSafe : (s t : Text) → IsSafe s → IsSafe t → IsSafe (s ++ t)
append-IsSafe [] t h k = k
append-IsSafe (c ∷ s) t (e, h) k = (e, append-IsSafe s t h k)

before-AllSafe : (s : Text) (o : Option Text) → IsSafe s → AllSafe o → AllSafe (before s o)
before-AllSafe s none h k = tt
before-AllSafe s (some t) h k = append-IsSafe s t h k

hex_digit-is_mark : (n : ℕ) → is_mark (hex_digit n) ≡ false
hex_digit-is_mark n = ground arith

escapes-IsSafe : (bs : List ℕ) → IsSafe (escapes bs)
unfolding escapes
escapes-IsSafe [] = tt
escapes-IsSafe (b ∷ bs) =
    (refl, (hex_digit-is_mark (b / 16), (hex_digit-is_mark (b % 16), escapes-IsSafe bs)))

is_component-is_mark : (c : ℕ) → is_component c ≡ true → is_mark c ≡ false
unfolding is_component
is_component-is_mark c h = ground arith

encode_unit-AllSafe : (c : ℕ) (o : Option Text) → AllSafe o → AllSafe (encode_unit c o)
unfolding encode_unit
encode_unit-AllSafe c o k = elim (Bool-cases (is_component c)) [
  | inl e ↦ rw e (before-AllSafe (c ∷ []) o (is_component-is_mark c e, tt) k)
  | inr e ↦ rw e (elim (Bool-cases (within 0xD800 0xDFFF c)) [
    | inl half ↦ rw half tt
    | inr whole ↦
        rw whole (before-AllSafe (escapes (utf8_bytes c)) o (escapes-IsSafe (utf8_bytes c)) k)
  ])
]

encode-AllSafe : (s : Text) → AllSafe (encode_uri_component s)
unfolding encode_uri_component
encode-AllSafe [] = tt
encode-AllSafe (c ∷ []) = encode_unit-AllSafe c (some []) tt
encode-AllSafe (c ∷ d ∷ s) = elim (Bool-cases (is_high c && is_low d)) [
  | inl e ↦ rw e (
      before-AllSafe _ _
        (escapes-IsSafe (utf8_bytes (0x10000 + (c - 0xD800) * 1024 + (d - 0xDC00))))
        (encode-AllSafe s))
  | inr e ↦ rw e (encode_unit-AllSafe c _ (encode-AllSafe (d ∷ s)))
]

-- An encoded text ends no segment and no path.
pub encode_uri_component-IsSafe : (s e : Text) → encode_uri_component s ≡ some e → IsSafe e
encode_uri_component-IsSafe s e h = subst AllSafe h (encode-AllSafe s)

-- no text that is empty or starts with a dot
abbrev Escaped : Option Text → Type 0
Escaped none = Unit
Escaped (some []) = ⊥
Escaped (some (c ∷ t)) = (c == b'.') ≡ false

escapes-Escaped : (v : ℕ) (o : Option Text) → Escaped (before (escapes (utf8_bytes v)) o)
unfolding escapes utf8_bytes
escapes-Escaped v none = tt
escapes-Escaped v (some t) = elim (Bool-cases (ltb v 0x80)) [
  | inl e ↦ rw e refl
  | inr e ↦ rw e (elim (Bool-cases (ltb v 0x800)) [
    | inl e ↦ rw e refl
    | inr e ↦ rw e (elim (Bool-cases (ltb v 0x10000)) [ inl e ↦ rw e refl | inr e ↦ rw e refl ])
  ])
]

nothing-Escaped : (o : Option Text) → Escaped o → o ≢ some []
nothing-Escaped none h e = cc
nothing-Escaped (some []) h e = h
nothing-Escaped (some (c ∷ t)) h e = cc

dot-Escaped : (o : Option Text) (t : Text) → Escaped o → o ≢ some (b'.' ∷ t)
dot-Escaped o t h e = true-ne-false (subst Escaped e h)
  where
    true-ne-false : true ≡ false → ⊥
    true-ne-false e = cc

encode_unit-cases :
    (c : ℕ) (o : Option Text) → (encode_unit c o ≡ before (c ∷ []) o) ⊎ Escaped (encode_unit c o)
unfolding encode_unit
encode_unit-cases c o = elim (Bool-cases (is_component c)) [
  | inl e ↦ inl (rw e refl)
  | inr e ↦ inr (
      rw e (elim (Bool-cases (within 0xD800 0xDFFF c)) [
        | inl half ↦ rw half tt
        | inr whole ↦ rw whole (escapes-Escaped c o)
      ]))
]

before-nil : (c : ℕ) (o : Option Text) → before (c ∷ []) o ≢ some []
before-nil c none e = cc
before-nil c (some t) e = cc

before-cons :
    (c x : ℕ) (o : Option Text) (t : Text)
    → before (c ∷ []) o ≡ some (x ∷ t)
    → (c ≡ x) × (o ≡ some t)
before-cons c x none t e = cc
before-cons c x (some r) t e = (cc, cc)

encode_unit-nil : (c : ℕ) (o : Option Text) → encode_unit c o ≢ some []
encode_unit-nil c o h = elim (encode_unit-cases c o) [
  | inl e ↦ before-nil c o (sym e ∙ h)
  | inr k ↦ nothing-Escaped _ k h
]

encode_unit-dot :
    (c : ℕ) (o : Option Text) (t : Text)
    → encode_unit c o ≡ some (b'.' ∷ t)
    → (c ≡ b'.') × (o ≡ some t)
encode_unit-dot c o t h = elim (encode_unit-cases c o) [
  | inl e ↦ before-cons c b'.' o t (sym e ∙ h)
  | inr k ↦ absurd (dot-Escaped _ t k h)
]

encode-nil : (s : Text) → encode_uri_component s ≡ some [] → s ≡ []
unfolding encode_uri_component
encode-nil [] h = refl
encode-nil (c ∷ []) h = absurd (encode_unit-nil c (some []) h)
encode-nil (c ∷ d ∷ s) h = elim (Bool-cases (is_high c && is_low d)) [
  | inl e ↦ absurd (
      nothing-Escaped _
        (escapes-Escaped (0x10000 + (c - 0xD800) * 1024 + (d - 0xDC00)) (encode_uri_component s))
        (rw e at h))
  | inr e ↦ absurd (encode_unit-nil c _ (rw e at h))
]

encode-dot :
    (s t : Text)
    → encode_uri_component s ≡ some (b'.' ∷ t)
    → (r : Text) × (s ≡ b'.' ∷ r) × (encode_uri_component r ≡ some t)
unfolding encode_uri_component
encode-dot [] t h = cc
encode-dot (c ∷ []) t h =
    let u = encode_unit-dot c (some []) t h in ([], ap (λ (x : ℕ). x ∷ []) u.0, u.1)
encode-dot (c ∷ d ∷ s) t h = elim (Bool-cases (is_high c && is_low d)) [
  | inl e ↦ absurd (
      dot-Escaped _ t
        (escapes-Escaped (0x10000 + (c - 0xD800) * 1024 + (d - 0xDC00)) (encode_uri_component s))
        (rw e at h))
  | inr e ↦ let u = encode_unit-dot c _ t (rw e at h) in (d ∷ s, ap (λ (x : ℕ). x ∷ d ∷ s) u.0, u.1)
]

-- Only a text that would change the path is encoded as one.
abbrev pub IsDots : Text → Type 0
IsDots t = (t ≡ []) ⊎ ((t ≡ b'.' ∷ []) ⊎ (t ≡ b'.' ∷ b'.' ∷ []))

pub encode_uri_component-IsDots :
    (s e : Text) → encode_uri_component s ≡ some e → IsDots e → IsDots s
encode_uri_component-IsDots s e h (inl empty) = inl (encode-nil s (h ∙ ap some empty))
encode_uri_component-IsDots s e h (inr (inl dot)) =
    let (r, same, more) = encode-dot s [] (h ∙ ap some dot) in
    inr (inl (same ∙ ap (◌∷◌ b'.') (encode-nil r more)))
encode_uri_component-IsDots s e h (inr (inr dots)) =
    let (r, same, more) = encode-dot s (b'.' ∷ []) (h ∙ ap some dots) in
    let (q, again, end) = encode-dot r [] more in
    inr (inr (same ∙ ap (◌∷◌ b'.') (again ∙ ap (◌∷◌ b'.') (encode-nil q end))))
