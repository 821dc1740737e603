-- ===== src/Canonical.antt =====
-- `canonicalPath` of packages/borgo/src/router.ts: the one spelling of a path.
pub mod Slashes
pub mod Escapes
pub mod Stable
use borgo.Common.{
  ℕ, ◌+◌, ◌*◌, Bool, ◌&&◌, ◌||◌, List, [], ◌∷◌, ◌++◌, ltb, ◌==◌, if◌then◌else◌, is_empty, length,
}
use borgo.Text.{Text, starts_with, ends_with, is_alpha, is_digit, is_hex, hex_value, to_upper}

-- `UNRESERVED`
unfoldable pub is_unreserved : ℕ → Bool
is_unreserved c = is_alpha c || is_digit c || c == b'-' || c == b'.' || c == b'_' || c == b'~'

abbrev pub octet_value : ℕ → ℕ → ℕ
octet_value a b = 16 * hex_value a + hex_value b

-- what the loop appends for the escape `%ab`
pub escape_text : ℕ → ℕ → Text
escape_text a b =
    if is_unreserved (octet_value a b)
    then octet_value a b ∷ []
    else b'%' ∷ to_upper a ∷ to_upper b ∷ []

abbrev pub is_escape : ℕ → ℕ → ℕ → Bool
is_escape c a b = c == b'%' && is_hex a && is_hex b

-- the loop over the path
pub decode_unreserved : Text → Text
decode_unreserved [] = []
decode_unreserved (c ∷ []) = c ∷ []
decode_unreserved (c ∷ a ∷ []) = c ∷ decode_unreserved (a ∷ [])
decode_unreserved (c ∷ a ∷ b ∷ s) =
    let decoded = escape_text a b ++ decode_unreserved s in
    let kept = c ∷ decode_unreserved (a ∷ b ∷ s) in if is_escape c a b then decoded else kept

-- `replace(/\/{2,}/g, "/")`
pub collapse_slashes : Text → Text
collapse_slashes [] = []
collapse_slashes (c ∷ s) =
    let rest = collapse_slashes s in if c == b'/' && starts_with b'/' rest then rest else c ∷ rest

-- `replace(/\/+$/, "")`
unfoldable pub strip_slashes : Text → Text
strip_slashes [] = []
strip_slashes (c ∷ s) =
    let rest = strip_slashes s in if c == b'/' && is_empty rest then [] else c ∷ rest

pub drop_trailing : Text → Text
drop_trailing out = if ltb 1 (length out) && ends_with b'/' out then strip_slashes out else out

unfoldable pub canonical_path : Text → Text
unfolding decode_unreserved escape_text is_unreserved collapse_slashes strip_slashes drop_trailing
canonical_path path = drop_trailing (collapse_slashes (decode_unreserved path))
