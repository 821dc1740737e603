-- ===== src/PublicPath.antt =====
-- What the asset block of packages/borgo/src/server.ts asks of a path, with `inHiddenDirectory` of
-- compress.ts.
use borgo.Common.{Bool, true, false, ◌&&◌, ◌||◌, not, List, [], ◌∷◌, is_empty, drop, ◌==◌, any}
use borgo.Text.{Text, codes, ◌===◌, starts_with, includes, split}

-- `inHiddenDirectory`: a segment between the first and the last that starts with a dot
unfoldable pub hidden_between : Bool → List Text → Bool
hidden_between first [] = false
hidden_between first (s ∷ []) = false
hidden_between first (s ∷ t ∷ rest) =
    (starts_with b'.' s && not (first && s === codes ".well-known"))
    || hidden_between false (t ∷ rest)

unfoldable pub in_hidden_directory : Text → Bool
unfolding hidden_between
in_hidden_directory path = hidden_between true (drop 1 (split b'/' path))

-- `assetPath.includes("..")`
unfoldable pub has_dots : Text → Bool
has_dots [] = false
has_dots (c ∷ s) = (c == b'.' && starts_with b'.' s) || has_dots s

-- `/[:*?"<>|]/`
abbrev pub has_windows_mark : Text → Bool
has_windows_mark =
    any
      (λ c. c == b':' || c == b'*' || c == b'?' || c == b'"' || c == b'<' || c == b'>' || c == b'|')

-- `/\.[^/]+$/`: a dot with no slash and at least one character behind it
unfoldable pub has_extension : Text → Bool
has_extension [] = false
has_extension (c ∷ s) = (c == b'.' && not (is_empty s) && not (includes b'/' s)) || has_extension s
