-- ===== src/Assets/Validators/Base36.antt =====
-- `n.toString(36)`, and where its digits end.
use borgo.Common.{
  ℕ, zero, suc, ◌+◌, ◌-◌, ◌*◌, ◌/◌, ◌%◌, ◌<◌, ◌≡◌, refl, sym, ◌∙◌, ap, ap₂, inl, inr, Bool, true,
  false, ◌&&◌, ◌||◌, [], ◌∷◌, ◌++◌, all, ltb, leb, if◌then◌else◌, arith, Bool-cases,
}
use borgo.Text.{Text, within}
use borgo.Assets.Validators.{digit36, base36_from, base36}

abbrev pub is_digit36 : ℕ → Bool
is_digit36 c = within b'0' b'9' c || within b'a' b'z' c

abbrev value36 : ℕ → ℕ
value36 c = if leb b'a' c then c - 87 else c - b'0'

unfoldable number36 : ℕ → Text → ℕ
number36 n [] = n
number36 n (c ∷ s) = number36 (n * 36 + value36 c) s

value36-digit36 : (n : ℕ) → n < 36 → value36 (digit36 n) ≡ n
unfolding digit36
value36-digit36 n h = ground arith

digit36-is_digit36 : (n : ℕ) → n < 36 → is_digit36 (digit36 n) ≡ true
unfolding digit36
digit36-is_digit36 n h = ground arith

quotient : (n : ℕ) → n / 36 * 36 + n % 36 ≡ n
quotient n = omega arith

no_carry : (n : ℕ) → 0 + n ≡ n
no_carry n = omega arith

base36_from-number36 :
    (rounds n : ℕ) (digits : Text)
    → n < rounds
    → number36 0 (base36_from rounds n digits) ≡ number36 n digits
unfolding number36 base36_from
base36_from-number36 zero n digits h = elim h [ ]
base36_from-number36 (suc rounds) n digits h = elim (Bool-cases (ltb n 36)) [
  | inl small ↦ rw small (
      ap (λ (k : ℕ). number36 (0 + k) digits) (value36-digit36 n (ground arith))
      ∙ ap (λ (k : ℕ). number36 k digits) (no_carry n))
  | inr large ↦ rw large (
      base36_from-number36 rounds (n / 36) (digit36 (n % 36) ∷ digits) (ground arith)
      ∙ ap (λ (d : ℕ). number36 (n / 36 * 36 + d) digits) (value36-digit36 (n % 36) (omega arith))
      ∙ ap (λ (k : ℕ). number36 k digits) (quotient n))
]

base36_from-all :
    (rounds n : ℕ) (digits : Text)
    → n < rounds
    → all is_digit36 digits ≡ true
    → all is_digit36 (base36_from rounds n digits) ≡ true
unfolding base36_from
base36_from-all zero n digits h k = elim h [ ]
base36_from-all (suc rounds) n digits h k = elim (Bool-cases (ltb n 36)) [
  | inl small ↦ rw small (both _ _ (digit36-is_digit36 n (ground arith)) k)
  | inr large ↦ rw large (
      base36_from-all rounds (n / 36) (digit36 (n % 36) ∷ digits) (ground arith)
        (both _ _ (digit36-is_digit36 (n % 36) (omega arith)) k))
]
  where
    both : (a b : Bool) → a ≡ true → b ≡ true → (a && b) ≡ true
    both a b p q = ground arith

pub base36-all : (n : ℕ) → all is_digit36 (base36 n) ≡ true
unfolding base36
base36-all n = base36_from-all (suc n) n [] (omega arith) refl

pub base36-injective : (m n : ℕ) → base36 m ≡ base36 n → m ≡ n
unfolding base36 number36
base36-injective m n h =
    sym (base36_from-number36 (suc m) m [] (omega arith))
    ∙ ap (number36 0) h
    ∙ base36_from-number36 (suc n) n [] (omega arith)

pub cons-eq : {x y : ℕ} {s t : Text} → ◌≡◌ {A = Text} (x ∷ s) (y ∷ t) → (x ≡ y) × (s ≡ t)
cons-eq h = (cc, cc)

second : (a b : Bool) → (a && b) ≡ true → b ≡ true
second a b h = ground arith

apart : (c y : ℕ) (rest : Bool) → is_digit36 c ≡ false → (is_digit36 y && rest) ≡ true → c ≡ y → ⊥
apart c y rest h k e = ground arith

-- A code unit that is no digit ends them.
pub digits-end :
    (a b : Text) (c d : ℕ) (s t : Text)
    → all is_digit36 a ≡ true
    → all is_digit36 b ≡ true
    → is_digit36 c ≡ false
    → is_digit36 d ≡ false
    → a ++ (c ∷ s) ≡ b ++ (d ∷ t)
    → (a ≡ b) × ((c ∷ s) ≡ (d ∷ t))
digits-end [] [] c d s t ha hb hc hd e = (refl, e)
digits-end [] (y ∷ b) c d s t ha hb hc hd e =
    absurd (apart c y (all is_digit36 b) hc hb (cons-eq e).0)
digits-end (x ∷ a) [] c d s t ha hb hc hd e =
    absurd (apart d x (all is_digit36 a) hd ha (sym (cons-eq e).0))
digits-end (x ∷ a) (y ∷ b) c d s t ha hb hc hd e =
    let (same, rest) =
      digits-end a b c d s t (second (is_digit36 x) (all is_digit36 a) ha)
        (second (is_digit36 y) (all is_digit36 b) hb) hc hd (cons-eq e).1 in
    (ap₂ (λ (z : ℕ) (r : Text). z ∷ r) (cons-eq e).0 same, rest)
