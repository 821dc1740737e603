-- ===== src/Examples/Bodies.antt =====
-- The limit on request bodies, at concrete inputs.
use Prim.Native.Nat.{ℕ}
use borgo.Common.{◌≡◌, refl, ◌↔◌, [], ◌∷◌, none, some, All, ◌<◌, arith}
use borgo.Text.{codes, split, trim}
use borgo.Body.{
  Stream, Framing, decimal, content_length, parse_content_length, framed_length, replicate, set_at,
  fill, assemble, too_large, read, read_chunks, read_body_within, limit_body, limit_request_body,
  refused, replaced,
}
use borgo.Body.Lengths.{IsLength, parse_content_length_iff}
use borgo.Body.Limits.{IsLimited, limit_request_body-IsLimited}

bodies : Unit {0}
unfolding split trim decimal content_length parse_content_length framed_length replicate set_at fill
    assemble read_chunks read_body_within limit_body limit_request_body
bodies = tt

-- the sizes of these tests are numbers of the language
abbrev exact : ℕ → ℕ
exact n = n

abbrev three_chunks : Stream
three_chunks = (1 ∷ 2 ∷ []) ∷ (3 ∷ []) ∷ (4 ∷ 5 ∷ []) ∷ []

length_tests :
    (parse_content_length exact (codes "5, 05") ≡ some 5)
    × (parse_content_length exact (codes "5, 6") ≡ none)
    × (parse_content_length exact (codes "0x10") ≡ none)
    × (parse_content_length exact [] ≡ none)
unfolding bodies
length_tests = (refl, refl, refl, refl)

read_tests :
    (read_body_within 5 three_chunks ≡ read (1 ∷ 2 ∷ 3 ∷ 4 ∷ 5 ∷ []))
    × (read_body_within 2 three_chunks ≡ too_large ((4 ∷ 5 ∷ []) ∷ []))
unfolding bodies
read_tests = (refl, refl)

abbrev declared_six : Framing
declared_six = record { transfer_encoding = none; declared = some (codes "6") }

abbrev chunked : Framing
chunked = record { transfer_encoding = some (codes "chunked"); declared = some (codes "6") }

limit_tests :
    (limit_request_body exact 5 declared_six (some three_chunks) ≡ refused three_chunks)
    × (limit_request_body exact 5 chunked (some three_chunks) ≡ replaced (1 ∷ 2 ∷ 3 ∷ 4 ∷ 5 ∷ []))
unfolding bodies
limit_tests = (refl, refl)

parse_content_length_iff_example :
    (parse_content_length exact (codes "5, 05") ≡ some 5)
    ↔ All (IsLength exact 5) (split b',' (codes "5, 05"))
parse_content_length_iff_example = parse_content_length_iff exact (codes "5, 05") 5

four_positive : 0 < 4
four_positive = ground arith

limit_request_body-IsLimited_example :
    IsLimited 4
      (framed_length exact chunked)
      three_chunks
      (limit_request_body exact 4 chunked (some three_chunks))
limit_request_body-IsLimited_example =
    limit_request_body-IsLimited exact 4 chunked three_chunks four_positive
