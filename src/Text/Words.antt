-- ===== src/Text/Words.antt =====
-- Searching and replacing in strings.
use borgo.Common.{
  ℕ, zero, suc, ◌+◌, ◌-◌, Bool, false, ◌||◌, List, [], ◌∷◌, ◌++◌, length, if◌then◌else◌,
}
use borgo.Text.Units.{Text, within, ◌===◌, has_prefix}

-- `s.toLowerCase()`, on ASCII letters
abbrev pub to_lower : ℕ → ℕ
to_lower c = if within b'A' b'Z' c then c + 32 else c

-- `s.includes(needle)`
unfoldable pub contains : Text → Text → Bool
contains needle [] = has_prefix needle []
contains needle (c ∷ s) = has_prefix needle (c ∷ s) || contains needle s

-- the rest of a replacement, behind code units that a match has taken
unfoldable pub replace_from : Text → Text → ℕ → Text → Text
replace_from needle value skip [] = []
replace_from needle value (suc skip) (c ∷ s) = replace_from needle value skip s
replace_from needle value zero (c ∷ s) =
    let matched = value ++ replace_from needle value (length needle - 1) s in
    let kept = c ∷ replace_from needle value 0 s in
    if has_prefix needle (c ∷ s) then matched else kept

-- `s.replaceAll(needle, value)`, for a needle that is not empty and a value without "$"
unfoldable pub replace_all : Text → Text → Text → Text
unfolding replace_from
replace_all needle value s = replace_from needle value 0 s

-- `list.includes(s)`
unfoldable pub listed : Text → List Text → Bool
listed s [] = false
listed s (t ∷ ts) = s === t || listed s ts
