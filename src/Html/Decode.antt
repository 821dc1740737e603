-- ===== src/Html/Decode.antt =====
-- `decodeHtmlText` of packages/borgo/src/util.ts: the text that html stands for.
use borgo.Common.{
  ℕ, zero, suc, ◌+◌, ◌*◌, Bool, ◌&&◌, ◌||◌, not, [], ◌∷◌, ◌++◌, Option, none, some, length, take,
  drop, ltb, ◌==◌, if◌then◌else◌, map, is_empty,
}
use borgo.Text.{
  Text, codes, ◌===◌, starts_with, is_alpha, is_digit, is_hex, hex_value, within, to_lower, utf16,
}
use borgo.Maps.{Map, lookup}

-- a character reference: its name, or its number
pub data Reference : Type 0 where
  named : Text → Reference
  numeric : ℕ → Reference

unfoldable pub take_while : (ℕ → Bool) → Text → Text
take_while p [] = []
take_while p (c ∷ s) = let more = c ∷ take_while p s in if p c then more else []

-- `parseInt(digits, base)`
unfoldable pub digits_value : ℕ → ℕ → Text → ℕ
digits_value base acc [] = acc
digits_value base acc (d ∷ ds) = digits_value base (acc * base + hex_value d) ds

-- the reference whose letters or digits are these, behind `skipped` code units, if a `;` ends it
unfoldable pub ended : Reference → ℕ → Text → Text → Option (Reference × ℕ)
ended ref skipped body s =
    if not (is_empty body) && starts_with b';' (drop (length body) s)
    then some (ref, skipped + length body + 1)
    else none

abbrev alnum : ℕ → Bool
alnum c = is_alpha c || is_digit c

-- what stands behind `&#`
unfoldable pub number_reference : Text → Option (Reference × ℕ)
unfolding take_while digits_value ended
number_reference [] = none
number_reference (x ∷ s) =
    let hex = take_while is_hex s in
    let digits = take_while is_digit (x ∷ s) in
    if x == b'x' || x == b'X'
    then ended (numeric (digits_value 16 0 hex)) 2 hex s
    else ended (numeric (digits_value 10 0 digits)) 1 digits (x ∷ s)

-- the reference behind a `&`, with its length
unfoldable pub reference : Text → Option (Reference × ℕ)
unfolding number_reference take_while ended
reference [] = none
reference (c ∷ s) =
    let name = c ∷ take_while alnum s in
    if c == b'#'
    then number_reference s
    else if is_alpha c
    then ended (named name) 0 name (c ∷ s)
    else none

abbrev pub named_refs : Map Text
named_refs =
    (codes "amp", codes "&")
    ∷ ((codes "lt", codes "<")
        ∷ ((codes "gt", codes ">")
            ∷ ((codes "quot", codes "\"") ∷ ((codes "apos", codes "'") ∷ []))))

module _ (object_text : Text) where
  -- `NAMED_REFS[name]` as text; the table is an object, whose prototype has the constructor Object
  unfoldable pub named_ref : Text → Option Text
  unfolding lookup
  named_ref name = if name === codes "constructor" then some object_text else lookup name named_refs

  -- the text of a reference; `none` where it is left as it is written
  unfoldable pub reference_text : Reference → Option Text
  unfolding named_ref
  reference_text (named name) = named_ref (map to_lower name)
  reference_text (numeric v) =
      if v == 0 || ltb 0x10FFFF v || within 0xD800 0xDFFF v then none else some (utf16 v)

  abbrev decoded : Text → Option Text → Text
  decoded whole none = whole
  decoded whole (some text) = text

  -- The loop of `replace`; a match has taken the next `skip` code units.
  unfoldable pub decode_from : ℕ → Text → Text
  unfolding reference reference_text
  decode_from skip [] = []
  decode_from (suc skip) (c ∷ s) = decode_from skip s
  decode_from zero (c ∷ s) = elim (if c == b'&' then reference s else none) [
    | none ↦ c ∷ decode_from zero s
    | some (ref, taken) ↦ decoded (c ∷ take taken s) (reference_text ref) ++ decode_from taken s
  ]

  unfoldable pub decode_html_text : Text → Text
  unfolding decode_from
  decode_html_text s = decode_from zero s
