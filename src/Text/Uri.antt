-- ===== src/Text/Uri.antt =====
-- `decodeURIComponent`, as the language defines it: percent escapes become octets, the octets are
-- read as UTF-8, and a malformed escape or sequence throws (`none`).
use borgo.Common.{
  ℕ, zero, suc, ◌+◌, ◌-◌, ◌*◌, ◌/◌, ◌%◌, ◌≡◌, Bool, true, false, ◌&&◌, ◌||◌, not, List, [], ◌∷◌,
  ◌++◌, arith, leb, ltb, ◌==◌, if◌then◌else◌, Option, none, some, ◌>>=◌,
}
pub mod Plain
use mathlib.Core.Option
use borgo.Text.Units.{Text, within, is_hex, hex_value}

-- A code unit that stands for itself, or the octet of a percent escape.
pub data Unit8 : Type 0 where
  plain : ℕ → Unit8
  octet : ℕ → Unit8

abbrev pub is_escape : ℕ → ℕ → ℕ → Bool
is_escape c a b = c == b'%' && is_hex a && is_hex b

-- the escapes of the text; `none` at a "%" that starts none
pub unescape : Text → Option (List Unit8)
unescape [] = some []
unescape (c ∷ []) = if c == b'%' then none else some (plain c ∷ [])
unescape (c ∷ a ∷ []) =
    let rest = unescape (a ∷ []) in if c == b'%' then none else Option.map (◌∷◌ (plain c)) rest
unescape (c ∷ a ∷ b ∷ s) =
    let after = unescape s in
    let rest = unescape (a ∷ b ∷ s) in
    if is_escape c a b
    then Option.map (◌∷◌ (octet (16 * hex_value a + hex_value b))) after
    else if c == b'%'
    then none
    else Option.map (◌∷◌ (plain c)) rest

-- the UTF-16 code units of a code point
unfoldable pub utf16 : ℕ → Text
utf16 v =
    if ltb v 0x10000 then v ∷ [] else (0xD800 + (v - 0x10000) / 1024) ∷ (0xDC00 + v % 1024) ∷ []

-- A surrogate or a number past the last code point is no character.
pub is_scalar : ℕ → Bool
is_scalar v = leb v 0x10FFFF && not (within 0xD800 0xDFFF v)

-- Reads octets as UTF-8. `more` continuation octets are wanted, `v` is the value so far, and a
-- value under `least` was written in too many octets.
pub read_utf8 : (more v least : ℕ) → List Unit8 → Option Text
read_utf8 zero v least [] = some []
read_utf8 (suc more) v least [] = none
read_utf8 zero v least (plain c ∷ us) = Option.map (◌∷◌ c) (read_utf8 zero 0 0 us)
read_utf8 (suc more) v least (plain c ∷ us) = none
read_utf8 zero v least (octet o ∷ us) =
    let ascii = Option.map (◌∷◌ o) (read_utf8 zero 0 0 us) in
    let two = read_utf8 1 (o - 192) 0x80 us in
    let three = read_utf8 2 (o - 224) 0x800 us in
    let four = read_utf8 3 (o - 240) 0x10000 us in
    if ltb o 128
    then ascii
    else if within 192 223 o
    then two
    else if within 224 239 o
    then three
    else if within 240 247 o
    then four
    else none
read_utf8 (suc more) v least (octet o ∷ us) =
    let v' = v * 64 + (o - 128) in
    let last = Option.map (◌++◌ (utf16 v')) (read_utf8 zero 0 0 us) in
    let next = read_utf8 more v' least us in
    if not (within 128 191 o)
    then none
    else if not (more == 0)
    then next
    else if leb least v' && is_scalar v'
    then last
    else none

unfoldable pub decode_uri_component : Text → Option Text
unfolding unescape utf16 is_scalar read_utf8
decode_uri_component s = unescape s >>= read_utf8 zero 0 0
