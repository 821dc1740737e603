-- ===== src/Settings/Topology/Decimal.antt =====
-- `String(n)` of a whole number: digits that `Number` reads back.
use borgo.Common.{
  ℕ, zero, suc, ◌+◌, ◌/◌, ◌%◌, ◌<◌, ◌≡◌, refl, ◌∙◌, ap, inl, inr, true, false, [], ◌∷◌, is_empty,
  all, any, ltb, arith, Bool-cases, some,
}
use borgo.Text.{Text, is_digit, trim, trim_start, trim_end, is_space}
use borgo.Body.{decimal, is_number}
use borgo.Result.{value}
use borgo.Settings.{is_control, Numeric, whole, env_text, env_int}
use borgo.Settings.Topology.{decimal_from, decimal_text}

decimal_from-decimal :
    (rounds n : ℕ) (digits : Text)
    → n < rounds
    → decimal 0 (decimal_from rounds n digits) ≡ decimal n digits
unfolding decimal decimal_from
decimal_from-decimal zero n digits h = elim h [ ]
decimal_from-decimal (suc rounds) n digits h = elim (Bool-cases (ltb n 10)) [
  | inl small ↦ rw small (ap (λ k. decimal k digits) (omega arith))
  | inr large ↦ rw large (
      decimal_from-decimal rounds (n / 10) ((b'0' + n % 10) ∷ digits) (ground arith)
      ∙ ap (λ k. decimal k digits) (omega arith))
]

decimal_from-is_number :
    (rounds n : ℕ) (digits : Text)
    → n < rounds
    → all is_digit digits ≡ true
    → is_number (decimal_from rounds n digits) ≡ true
unfolding decimal_from
decimal_from-is_number zero n digits h k = elim h [ ]
decimal_from-is_number (suc rounds) n digits h k = elim (Bool-cases (ltb n 10)) [
  | inl small ↦ rw small (ground arith)
  | inr large ↦ rw large (
      decimal_from-is_number rounds (n / 10) ((b'0' + n % 10) ∷ digits) (ground arith)
        (ground arith))
]

pub decimal-decimal_text : (n : ℕ) → decimal 0 (decimal_text n) ≡ n
unfolding decimal_text decimal
decimal-decimal_text n = decimal_from-decimal (suc n) n [] (omega arith)

pub decimal_text-is_number : (n : ℕ) → is_number (decimal_text n) ≡ true
unfolding decimal_text
decimal_text-is_number n = decimal_from-is_number (suc n) n [] (omega arith) refl

digit-not-space : (c : ℕ) → is_digit c ≡ true → is_space c ≡ false
unfolding is_space
digit-not-space c h = ground arith

no_controls : (s : Text) → all is_digit s ≡ true → any is_control s ≡ false
no_controls [] h = refl
no_controls (c ∷ s) h = ground (arith, no_controls s)

trim_end-not-empty : (c : ℕ) (s : Text) → is_space c ≡ false → is_empty (trim_end (c ∷ s)) ≡ false
unfolding trim_end
trim_end-not-empty c s h = rw h refl

trim-not-empty : (c : ℕ) (s : Text) → is_space c ≡ false → is_empty (trim (c ∷ s)) ≡ false
unfolding trim trim_start
trim-not-empty c s h = rw h (trim_end-not-empty c s h)

-- What `Number` makes of digits, up to 2^53.
unfoldable pub ReadsDigits : (Text → Numeric) → Type 0
ReadsDigits number =
    (s : Text)
    → is_number s ≡ true
    → decimal 0 s < 9007199254740992
    → number s ≡ whole (decimal 0 s)

env_int_digits :
    (number : Text → Numeric) (name s : Text) (n : ℕ)
    → is_number s ≡ true
    → number s ≡ whole n
    → env_int number name (some s) ≡ value (some n)
unfolding env_int env_text
env_int_digits number name [] n digits reads = cc
env_int_digits number name (c ∷ s) n digits reads =
    rw
      (
        no_controls (c ∷ s) (ground arith),
        trim-not-empty c s (digit-not-space c (ground arith)),
        reads,
      )
      refl

pub env_int-decimal_text :
    (number : Text → Numeric) (name : Text) (n : ℕ)
    → ReadsDigits number
    → n < 9007199254740992
    → env_int number name (some (decimal_text n)) ≡ value (some n)
unfolding ReadsDigits
env_int-decimal_text number name n reads h =
    env_int_digits number name (decimal_text n) n (decimal_text-is_number n) (
      reads (decimal_text n) (decimal_text-is_number n) (omega (arith, decimal-decimal_text n))
      ∙ ap whole (decimal-decimal_text n))
