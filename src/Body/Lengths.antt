-- ===== src/Body/Lengths.antt =====
-- What `parseContentLength` reads.
use borgo.Common.{
  ℕ, ◌≡◌, ◌≢◌, refl, ap, ◌↔◌, true, List, [], ◌∷◌, none, some, ==_iff, All, arith, some-eq,
}
use borgo.Text.{Text, split, split-ne-nil, trim}
use borgo.Body.{is_number, number, content_length, parse_content_length}

module _ (round : ℕ → ℕ) where
  -- A part that is a number of digits alone, and this one.
  pub IsLength : ℕ → Text → Type 0
  IsLength n part = (is_number (trim part) ≡ true) × (number round (trim part) ≡ n)

  content_length-some_iff :
      (m : ℕ) (parts : List Text) (n : ℕ)
      → (content_length round (some m) parts ≡ some n) ↔ ((m ≡ n) × All (IsLength n) parts)
  unfolding content_length IsLength
  content_length-some_iff m [] n = (λ e. (some-eq e, tt), λ (e, _). ap some e)
  content_length-some_iff m (part ∷ parts) n = ground (
    arith,
    content_length-some_iff (number round (trim part)) parts n,
    ==_iff (number round (trim part)) m,
  )

  -- A length is read from a Content-Length value exactly when all its parts between commas are that
  -- number, in digits alone.
  pub parse_content_length_iff :
      (value : Text) (n : ℕ)
      → (parse_content_length round value ≡ some n) ↔ All (IsLength n) (split b',' value)
  unfolding parse_content_length content_length IsLength
  parse_content_length_iff value n = go (split b',' value) (split-ne-nil b',' value)
    where
      go :
          (parts : List Text)
          → parts ≢ []
          → (content_length round none parts ≡ some n) ↔ All (IsLength n) parts
      go [] full = absurd (full refl)
      go (part ∷ parts) full =
          ground (arith, content_length-some_iff (number round (trim part)) parts n)
