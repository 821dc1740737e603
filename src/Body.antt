-- ===== src/Body.antt =====
-- How packages/borgo/src/util.ts limits the body of a request: `parseContentLength`,
-- `framedLength`, `readBodyWithin` and `limitRequestBody`.
pub mod Lengths
pub mod Limits
use borgo.Common.{
  ℕ, zero, suc, ◌+◌, ◌-◌, ◌*◌, ◌≡◌, refl, Bool, true, false, ◌&&◌, ◌||◌, not, List, [], ◌∷◌, ◌++◌,
  Option, none, some, if◌then◌else◌, is_empty, length, take, drop, all, ltb, leb, ◌==◌, arith,
}
use borgo.Text.{Text, codes, split, trim, is_digit}

abbrev pub Bytes : Type 0
Bytes = List ℕ

-- what a stream yields, chunk by chunk
abbrev pub Stream : Type 0
Stream = List Bytes

-- `/^\d+$/`
abbrev pub is_number : Text → Bool
is_number token = not (is_empty token) && all is_digit token

unfoldable pub decimal : ℕ → Text → ℕ
decimal n [] = n
decimal n (c ∷ s) = decimal (n * 10 + (c - b'0')) s

-- the two framing headers of a request
pub record Framing : Type 0 where
  pub transfer_encoding : Option Text
  pub declared : Option Text

-- `round` takes a whole number to the number of the language that stands for it: itself up to 2^53,
-- a neighbour above it, and one over every limit in place of Infinity.
module _ (round : ℕ → ℕ) where
  -- `Number(token)` of digits
  abbrev pub number : Text → ℕ
  number token = round (decimal 0 token)

  unfoldable pub content_length : Option ℕ → List Text → Option ℕ
  content_length length [] = length
  content_length none (part ∷ parts) =
      let rest = content_length (some (number (trim part))) parts in
      if is_number (trim part) then rest else none
  content_length (some length) (part ∷ parts) =
      let rest = content_length (some (number (trim part))) parts in
      if is_number (trim part) && number (trim part) == length then rest else none

  -- `parseContentLength`; null is `none`
  unfoldable pub parse_content_length : Text → Option ℕ
  unfolding content_length
  parse_content_length value = content_length none (split b',' value)

  unfoldable pub framed_length : Framing → Option ℕ
  framed_length headers = elim headers.transfer_encoding [
    | some _ ↦ none
    | none ↦ elim headers.declared [ none ↦ none | some raw ↦ parse_content_length raw ]
  ]

unfoldable pub replicate : ℕ → ℕ → Bytes
replicate zero b = []
replicate (suc n) b = b ∷ replicate n b

-- `out.set(chunk, at)`
unfoldable pub set_at : Bytes → ℕ → Bytes → Bytes
set_at out at chunk = take at out ++ chunk ++ drop (at + length chunk) out

unfoldable pub fill : Bytes → ℕ → Stream → Bytes
fill out at [] = out
fill out at (chunk ∷ chunks) = fill (set_at out at chunk) (at + length chunk) chunks

-- one chunk is passed on, any others are copied into a fresh array of `total` zeros
unfoldable pub assemble : ℕ → Stream → Bytes
assemble total (chunk ∷ []) = chunk
assemble total chunks = fill (replicate total 0) 0 chunks

-- What reading came to: the stream was cancelled with the rest of it unread, or it ended.
pub data BodyRead : Type 0 where
  too_large : (unread : Stream) → BodyRead
  read : Bytes → BodyRead

unfoldable pub read_chunks : ℕ → ℕ → Stream → Stream → BodyRead
read_chunks limit total chunks [] = read (assemble total chunks)
read_chunks limit total chunks (value ∷ body) =
    let rest = read_chunks limit (total + length value) (chunks ++ (value ∷ [])) body in
    if ltb limit (total + length value) then too_large body else rest

-- `readBodyWithin`
unfoldable pub read_body_within : ℕ → Stream → BodyRead
unfolding read_chunks
read_body_within limit body = read_chunks limit 0 [] body

-- the request as it was, no request and what is left unread, or the request with these bytes
pub data Limited : Type 0 where
  unchanged : Limited
  refused : (unread : Stream) → Limited
  replaced : Bytes → Limited

abbrev pub counted : BodyRead → Limited
counted (too_large unread) = refused unread
counted (read bytes) = replaced bytes

unfoldable pub limit_body : ℕ → Option ℕ → Stream → Limited
limit_body limit none body = counted (read_body_within limit body)
limit_body limit (some n) body =
    if ltb limit n then refused body else counted (read_body_within limit body)

-- `limitRequestBody`
unfoldable pub limit_request_body : (ℕ → ℕ) → ℕ → Framing → Option Stream → Limited
limit_request_body round limit headers none = unchanged
limit_request_body round limit headers (some body) =
    if leb limit 0 then unchanged else limit_body limit (framed_length round headers) body
