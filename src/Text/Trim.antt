-- ===== src/Text/Trim.antt =====
-- `trim`, which drops white space and line terminators at both ends.
use borgo.Common.{
  ℕ, ◌≡◌, refl, Bool, false, ◌&&◌, ◌||◌, [], ◌∷◌, ◌==◌, if◌then◌else◌, is_empty, Bool-cases, inl,
  inr,
}
use borgo.Text.Units.{Text, within}

-- WhiteSpace and LineTerminator of the language
unfoldable pub is_space : ℕ → Bool
is_space c =
    within 9 13 c
    || c == b' '
    || c == 0xA0
    || c == 0x1680
    || within 0x2000 0x200A c
    || c == 0x2028
    || c == 0x2029
    || c == 0x202F
    || c == 0x205F
    || c == 0x3000
    || c == 0xFEFF

unfoldable pub trim_start : Text → Text
trim_start [] = []
trim_start (c ∷ s) = let rest = trim_start s in if is_space c then rest else c ∷ s

unfoldable pub trim_end : Text → Text
trim_end [] = []
trim_end (c ∷ s) = let rest = trim_end s in if is_space c && is_empty rest then [] else c ∷ rest

unfoldable pub trim : Text → Text
unfolding trim_start trim_end is_space
trim s = trim_end (trim_start s)

-- No white space at either end.
abbrev pub starts_with_space : Text → Bool
starts_with_space [] = false
starts_with_space (c ∷ s) = is_space c

trim_end_idem : (s : Text) → trim_end (trim_end s) ≡ trim_end s
unfolding trim_end
trim_end_idem [] = refl
trim_end_idem (c ∷ s) = elim (Bool-cases (is_space c && is_empty (trim_end s))) [
  | inl e ↦ rw e refl
  | inr e ↦ rw e (rw (trim_end_idem s, e) refl)
]

pub trim_start_of : (s : Text) → starts_with_space s ≡ false → trim_start s ≡ s
unfolding trim_start
trim_start_of [] h = refl
trim_start_of (c ∷ s) h = rw h refl

trim_start-starts_with_space : (s : Text) → starts_with_space (trim_start s) ≡ false
unfolding trim_start
trim_start-starts_with_space [] = refl
trim_start-starts_with_space (c ∷ s) = elim (Bool-cases (is_space c)) [
  | inl e ↦ rw e (trim_start-starts_with_space s)
  | inr e ↦ rw e e
]

trim_end-starts_with_space :
    (s : Text) → starts_with_space s ≡ false → starts_with_space (trim_end s) ≡ false
unfolding trim_end
trim_end-starts_with_space [] h = refl
trim_end-starts_with_space (c ∷ s) h = rw h h

pub trim_idempotent : (s : Text) → trim (trim s) ≡ trim s
unfolding trim
trim_idempotent s =
    let t = trim_start s in
    rw (trim_start_of (trim_end t) (trim_end-starts_with_space t (trim_start-starts_with_space s)))
      (trim_end_idem t)

pub trim-starts_with_space : (s : Text) → starts_with_space (trim s) ≡ false
unfolding trim
trim-starts_with_space s =
    trim_end-starts_with_space (trim_start s) (trim_start-starts_with_space s)

pub trim_end-trim : (s : Text) → trim_end (trim s) ≡ trim s
unfolding trim
trim_end-trim s = trim_end_idem (trim_start s)
