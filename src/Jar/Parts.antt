-- ===== src/Jar/Parts.antt =====
-- The name of a part of a cookie header.
use borgo.Common.{
  All, ℕ, ◌≡◌, refl, false, ◌&&◌, [], ◌∷◌, ◌++◌, Option, none, some, is_empty, Bool-cases, inl, inr,
  ◌==◌,
}
use borgo.Text.{Text, is_space, trim, trim_start, trim_end, trim_idempotent, Lacks}
use borgo.Csrf.{cut, onto_first}
use borgo.Jar.{name_of}

cut-append : (name w : Text) → Lacks b'=' name → cut (name ++ (b'=' ∷ w)) ≡ some (name, w)
unfolding cut
cut-append [] w h = refl
cut-append (c ∷ name) w (plain, h) = rw (plain, cut-append name w h) refl

abbrev pub PlainName : Option (Text × Text) → Type 0
PlainName none = Unit
PlainName (some (before, after)) = Lacks b'=' before

onto_first-PlainName :
    (c : ℕ) (rest : Option (Text × Text))
    → (c == b'=') ≡ false
    → PlainName rest
    → PlainName (onto_first c rest)
unfolding onto_first
onto_first-PlainName c none plain h = tt
onto_first-PlainName c (some (before, after)) plain h = (plain, h)

pub cut-PlainName : (s : Text) → PlainName (cut s)
unfolding cut
cut-PlainName [] = tt
cut-PlainName (c ∷ s) = elim (Bool-cases (c == b'=')) [
  | inl sign ↦ rw sign tt
  | inr plain ↦ rw plain (onto_first-PlainName c (cut s) plain (cut-PlainName s))
]

-- What holds of every code unit of a text holds of those that are left when it is trimmed.
trim_start-All : (P : ℕ → Type 0) (s : Text) → All P s → All P (trim_start s)
unfolding trim_start
trim_start-All P [] h = tt
trim_start-All P (c ∷ s) (p, h) = elim (Bool-cases (is_space c)) [
  | inl space ↦ rw space (trim_start-All P s h)
  | inr other ↦ rw other (p, h)
]

trim_end-All : (P : ℕ → Type 0) (s : Text) → All P s → All P (trim_end s)
unfolding trim_end
trim_end-All P [] h = tt
trim_end-All P (c ∷ s) (p, h) = elim (Bool-cases (is_space c && is_empty (trim_end s))) [
  | inl ends ↦ rw ends tt
  | inr goes ↦ rw goes (p, trim_end-All P s h)
]

pub trim-All : (P : ℕ → Type 0) (s : Text) → All P s → All P (trim s)
unfolding trim
trim-All P s h = trim_end-All P (trim_start s) (trim_start-All P s h)

-- A part that is made for a name has it.
pub name_of-append :
    (before w : Text) → Lacks b'=' before → name_of (trim before ++ (b'=' ∷ w)) ≡ trim before
unfolding name_of
name_of-append before w h =
    rw (cut-append (trim before) w (trim-All (λ x. (x == b'=') ≡ false) before h), name_of)
      (trim_idempotent before)
