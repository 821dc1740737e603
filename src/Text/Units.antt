-- ===== src/Text/Units.antt =====
-- A string is the sequence of its UTF-16 code units, as in the language; literals are ASCII.
use Prim.Native.Char.{code}
use Prim.Native.String.{String}
use borgo.Common.{
  ℕ, ◌-◌, ◌≡◌, ◌↔◌, Bool, true, false, ◌&&◌, ◌||◌, List, [], ◌∷◌, Option, none, some, arith, leb,
  ◌==◌, if◌then◌else◌,
}

abbrev pub Text : Type 0
Text = List ℕ

-- `t ?? ""`
abbrev pub or_empty : Option Text → Text
or_empty none = []
or_empty (some t) = t

abbrev pub codes : String → Text
codes String.[] = []
codes (String.◌∷◌ c s) = code c ∷ codes s

-- `a === b` on strings
infix 50 ◌===◌
unfoldable pub ◌===◌ : Text → Text → Bool
[] === [] = true
[] === (_ ∷ _) = false
(_ ∷ _) === [] = false
(x ∷ s) === (y ∷ t) = x == y && s === t

pub ===_iff : (s t : Text) → ((s === t) ≡ true) ↔ (s ≡ t)
unfolding ◌===◌
===_iff [] [] = ground arith
===_iff [] (y ∷ t) = ground arith
===_iff (x ∷ s) [] = ground arith
===_iff (x ∷ s) (y ∷ t) = ground (arith, ===_iff s t)

-- `s.startsWith(c)`, `s.endsWith(c)` and `s.includes(c)` for one code unit `c`
abbrev pub starts_with : ℕ → Text → Bool
starts_with c [] = false
starts_with c (x ∷ s) = x == c

abbrev pub ends_with : ℕ → Text → Bool
ends_with c [] = false
ends_with c (x ∷ []) = x == c
ends_with c (x ∷ y ∷ s) = ends_with c (y ∷ s)

abbrev pub includes : ℕ → Text → Bool
includes c [] = false
includes c (x ∷ s) = x == c || includes c s

abbrev pub within : ℕ → ℕ → ℕ → Bool
within lo hi c = leb lo c && leb c hi

abbrev pub is_digit : ℕ → Bool
is_digit = within b'0' b'9'

abbrev pub is_alpha : ℕ → Bool
is_alpha c = within b'a' b'z' c || within b'A' b'Z' c

-- `/[0-9a-fA-F]/`
abbrev pub is_hex : ℕ → Bool
is_hex c = is_digit c || within b'a' b'f' c || within b'A' b'F' c

-- the value of a hexadecimal digit, as `parseInt(_, 16)` reads it
abbrev pub hex_value : ℕ → ℕ
hex_value c = if is_digit c then c - b'0' else if leb b'a' c then c - 87 else c - 55

-- `toUpperCase()` on a hexadecimal digit
abbrev pub to_upper : ℕ → ℕ
to_upper c = if within b'a' b'z' c then c - 32 else c

-- `path.startsWith(prefix)`
unfoldable pub has_prefix : Text → Text → Bool
has_prefix [] path = true
has_prefix (c ∷ prefix) [] = false
has_prefix (c ∷ prefix) (d ∷ path) = c == d && has_prefix prefix path
