-- ===== src/Keys.antt =====
-- `keysEqual` of packages/borgo/src/util.ts: two strings compared as their UTF-8 bytes.
use borgo.Common.{
  ℕ, ◌+◌, ◌-◌, ◌*◌, ◌/◌, ◌%◌, ◌<◌, ◌≡◌, refl, ◌↔◌, Bool, true, false, ◌&&◌, List, [], ◌∷◌, ◌++◌,
  All, arith, ltb, ◌==◌, ==_iff, if◌then◌else◌, length,
}
use borgo.Text.{Text, ◌===◌, ===_iff, within}

-- the UTF-8 bytes of a code point
unfoldable pub utf8_bytes : ℕ → List ℕ
utf8_bytes v =
    if ltb v 0x80
    then v ∷ []
    else if ltb v 0x800
    then (192 + v / 64) ∷ (128 + v % 64) ∷ []
    else if ltb v 0x10000
    then (224 + v / 4096) ∷ (128 + (v / 64) % 64) ∷ (128 + v % 64) ∷ []
    else (240 + v / 262144) ∷ (128 + (v / 4096) % 64) ∷ (128 + (v / 64) % 64) ∷ (128 + v % 64) ∷ []

abbrev pub is_high : ℕ → Bool
is_high = within 0xD800 0xDBFF

abbrev pub is_low : ℕ → Bool
is_low = within 0xDC00 0xDFFF

-- a surrogate outside a pair is written as the replacement character
abbrev unit_bytes : ℕ → List ℕ
unit_bytes c = utf8_bytes (if within 0xD800 0xDFFF c then 0xFFFD else c)

-- `Buffer.from(s)`
unfoldable pub buffer_from : Text → List ℕ
buffer_from [] = []
buffer_from (c ∷ []) = unit_bytes c
buffer_from (c ∷ d ∷ s) =
    let pair = utf8_bytes (0x10000 + (c - 0xD800) * 1024 + (d - 0xDC00)) ++ buffer_from s in
    let single = unit_bytes c ++ buffer_from (d ∷ s) in
    if is_high c && is_low d then pair else single

unfoldable pub keys_equal : Text → Text → Bool
keys_equal given expected =
    let a = buffer_from given in let b = buffer_from expected in length a == length b && a === b

unit_bytes_ascii : (c : ℕ) → c < 128 → unit_bytes c ≡ c ∷ []
unfolding utf8_bytes
unit_bytes_ascii c h = ground arith

is_high_ascii : (c : ℕ) → c < 128 → is_high c ≡ false
is_high_ascii c h = ground arith

buffer_from_ascii : (s : Text) → All (λ c. c < 128) s → buffer_from s ≡ s
unfolding buffer_from
buffer_from_ascii [] h = refl
buffer_from_ascii (c ∷ []) (h, _) = unit_bytes_ascii c h
buffer_from_ascii (c ∷ d ∷ s) (h, hs) =
    rw (is_high_ascii c h) (rw (unit_bytes_ascii c h, buffer_from_ascii (d ∷ s) hs) refl)

-- Two keys of ASCII characters are found equal exactly when they are.
pub keys_equal_iff :
    (given expected : Text)
    → All (λ c. c < 128) given
    → All (λ c. c < 128) expected
    → (keys_equal given expected ≡ true) ↔ (given ≡ expected)
unfolding keys_equal
keys_equal_iff given expected a b =
    rw (buffer_from_ascii given a, buffer_from_ascii expected b) (same_length given expected)
  where
    same_length : (s t : Text) → ((length s == length t && s === t) ≡ true) ↔ (s ≡ t)
    same_length s t = (
      λ h. (===_iff s t).0 (ground arith),
      λ e. rw (e, (===_iff t t).1 refl, (==_iff (length t) (length t)).1 refl) refl,
    )
