-- ===== src/Text/Split.antt =====
-- `split`, `join` and the trimming of a repeated code unit.
use borgo.Common.{
  ℕ, ◌≡◌, refl, true, false, List, [], ◌∷◌, ◌++◌, arith, ◌==◌, if◌then◌else◌, ◌≢◌, Bool-cases, inl,
  inr, All,
}
use borgo.Text.Units.{Text}

abbrev pub onto_head : ℕ → List Text → List Text
onto_head x [] = (x ∷ []) ∷ []
onto_head x (p ∷ ps) = (x ∷ p) ∷ ps

-- `s.split(c)` for a separator of one code unit
unfoldable pub split : ℕ → Text → List Text
split c [] = [] ∷ []
split c (x ∷ s) = let rest = split c s in if x == c then [] ∷ rest else onto_head x rest

-- `parts.join(c)`
unfoldable pub join : Text → List Text → Text
join sep [] = []
join sep (p ∷ []) = p
join sep (p ∷ q ∷ ps) = p ++ (sep ++ join sep (q ∷ ps))

pub split-ne-nil : (c : ℕ) (s : Text) → split c s ≢ []
unfolding split
split-ne-nil c [] = cc
split-ne-nil c (x ∷ s) = elim (Bool-cases (x == c)) [
  | inl e ↦ rw e cc
  | inr e ↦ rw e (onto_head-ne-nil (split c s))
]
  where
    onto_head-ne-nil : (ps : List Text) → onto_head x ps ≢ []
    onto_head-ne-nil [] = cc
    onto_head-ne-nil (p ∷ ps) = cc

-- Joining what was split gives the text back.
pub join-split : (c : ℕ) (s : Text) → join (c ∷ []) (split c s) ≡ s
unfolding split join
join-split c [] = refl
join-split c (x ∷ s) = go (split c s) (split-ne-nil c s) (join-split c s)
  where
    go :
        (ps : List Text)
        → ps ≢ []
        → join (c ∷ []) ps ≡ s
        → join (c ∷ []) (if x == c then [] ∷ ps else onto_head x ps) ≡ x ∷ s
    go [] ne e = absurd (ne refl)
    go (p ∷ []) ne e = ground arith
    go (p ∷ q ∷ ps) ne e = ground arith

abbrev pub Lacks : ℕ → Text → Type 0
Lacks c = All (λ x. (x == c) ≡ false)

-- No piece holds the separator.
pub split-Lacks : (c : ℕ) (s : Text) → All (Lacks c) (split c s)
unfolding split
split-Lacks c [] = (tt, tt)
split-Lacks c (x ∷ s) = go (split c s) (split-Lacks c s)
  where
    go :
        (ps : List Text)
        → All (Lacks c) ps
        → All (Lacks c) (if x == c then [] ∷ ps else onto_head x ps)
    go [] h = ground arith
    go (p ∷ ps) h = ground arith

-- A text without the separator is one piece.
pub split_of_Lacks : (c : ℕ) (s : Text) → Lacks c s → split c s ≡ s ∷ []
unfolding split
split_of_Lacks c [] h = refl
split_of_Lacks c (x ∷ s) (e, h) = rw (e, split_of_Lacks c s h) refl

-- What stands before a separator is the first piece.
pub split-append : (c : ℕ) (p s : Text) → Lacks c p → split c (p ++ (c ∷ s)) ≡ p ∷ split c s
unfolding split
split-append c [] s h = rw (same c) refl
  where
    same : (c : ℕ) → (c == c) ≡ true
    same c = ground arith
split-append c (x ∷ p) s (e, h) = rw (e, split-append c p s h) refl
