-- ===== src/ApiClient/Encode.antt =====
-- `encodeURIComponent`, as the language defines it.
pub mod Safe
use borgo.Common.{
  ℕ, ◌+◌, ◌-◌, ◌*◌, ◌/◌, ◌%◌, Bool, ◌&&◌, ◌||◌, List, [], ◌∷◌, ◌++◌, Option, none, some, ltb, ◌==◌,
  if◌then◌else◌,
}
use borgo.Text.{Text, within, is_alpha, is_digit}
use borgo.Keys.{utf8_bytes, is_high, is_low}

-- a code unit that stands for itself
unfoldable pub is_component : ℕ → Bool
is_component c =
    is_alpha c
    || is_digit c
    || c == b'-'
    || c == b'_'
    || c == b'.'
    || c == b'!'
    || c == b'~'
    || c == b'*'
    || c == 39
    || c == b'('
    || c == b')'

abbrev pub hex_digit : ℕ → ℕ
hex_digit n = if ltb n 10 then 48 + n else 55 + n

-- the escapes of octets
unfoldable pub escapes : List ℕ → Text
escapes [] = []
escapes (b ∷ bs) = b'%' ∷ hex_digit (b / 16) ∷ hex_digit (b % 16) ∷ escapes bs

-- the text before an encoded rest
abbrev pub before : Text → Option Text → Option Text
before t none = none
before t (some rest) = some (t ++ rest)

-- a code unit outside a pair, before the encoded rest
unfoldable pub encode_unit : ℕ → Option Text → Option Text
unfolding escapes is_component
encode_unit c rest =
    if is_component c
    then before (c ∷ []) rest
    else if within 0xD800 0xDFFF c
    then none
    else before (escapes (utf8_bytes c)) rest

-- `none` where the function throws, at half a surrogate pair
unfoldable pub encode_uri_component : Text → Option Text
unfolding encode_unit
encode_uri_component [] = some []
encode_uri_component (c ∷ []) = encode_unit c (some [])
encode_uri_component (c ∷ d ∷ s) =
    let pair =
      before (escapes (utf8_bytes (0x10000 + (c - 0xD800) * 1024 + (d - 0xDC00))))
        (encode_uri_component s) in
    let single = encode_unit c (encode_uri_component (d ∷ s)) in
    if is_high c && is_low d then pair else single
