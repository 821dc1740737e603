-- ===== src/Body/Limits.antt =====
-- What `limitRequestBody` lets through.
use borgo.Common.{
  ℕ, zero, suc, ◌+◌, ◌≤◌, ◌<◌, ◌≡◌, refl, sym, ap, subst, ◌∙◌, inl, inr, false, [], ◌∷◌, ◌++◌,
  Option, none, some, length, take, drop, ltb, leb, arith, append_assoc, append-nil, length-append,
  Bool-cases, some-eq,
}
use borgo.Body.{
  Bytes, Stream, Framing, framed_length, replicate, set_at, fill, assemble, BodyRead, too_large,
  read, read_chunks, read_body_within, Limited, refused, replaced, counted, limit_body,
  limit_request_body,
}

-- the bytes of the chunks, in order
pub all_bytes : Stream → Bytes
all_bytes [] = []
all_bytes (chunk ∷ chunks) = chunk ++ all_bytes chunks

all_bytes-append : (s t : Stream) → all_bytes (s ++ t) ≡ all_bytes s ++ all_bytes t
unfolding all_bytes
all_bytes-append [] t = refl
all_bytes-append (chunk ∷ s) t =
    rw (all_bytes-append s t) (sym (append_assoc chunk (all_bytes s) (all_bytes t)))

take-append : (xs ys : Bytes) → take (length xs) (xs ++ ys) ≡ xs
take-append [] ys = refl
take-append (x ∷ xs) ys = ap (◌∷◌ x) (take-append xs ys)

suc_add : (m n : ℕ) → suc m + n ≡ suc (m + n)
suc_add m n = omega arith

drop-append : (xs ys : Bytes) (n : ℕ) → drop (length xs + n) (xs ++ ys) ≡ drop n ys
drop-append [] ys n = ap (λ k. drop k ys) (omega arith)
drop-append (x ∷ xs) ys n =
    ap (λ k. drop k ((x ∷ xs) ++ ys)) (suc_add (length xs) n) ∙ drop-append xs ys n

drop-replicate : (n m : ℕ) → drop n (replicate (n + m) 0) ≡ replicate m 0
unfolding replicate
drop-replicate zero m = ap (λ k. replicate k 0) (omega arith)
drop-replicate (suc n) m = ap (λ k. drop (suc n) (replicate k 0)) (suc_add n m) ∙ drop-replicate n m

set_at-append :
    (done chunk : Bytes) (m : ℕ)
    → set_at (done ++ replicate (length chunk + m) 0) (length done) chunk
      ≡ (done ++ chunk) ++ replicate m 0
unfolding set_at
set_at-append done chunk m =
    rw
      (
        take-append done (replicate (length chunk + m) 0),
        drop-append done (replicate (length chunk + m) 0) (length chunk),
        drop-replicate (length chunk) m,
      )
      refl

fill_lem :
    (done : Bytes) (chunks : Stream)
    → fill (done ++ replicate (length (all_bytes chunks)) 0) (length done) chunks
      ≡ done ++ all_bytes chunks
unfolding fill all_bytes replicate
fill_lem done [] = refl
fill_lem done (chunk ∷ chunks) =
    rw
      (
        length-append chunk (all_bytes chunks),
        set_at-append done chunk (length (all_bytes chunks)),
        sym (length-append done chunk),
        fill_lem (done ++ chunk) chunks,
      )
      (append_assoc done chunk (all_bytes chunks))

assemble_lem :
    (total : ℕ) (chunks : Stream)
    → total ≡ length (all_bytes chunks)
    → assemble total chunks ≡ all_bytes chunks
unfolding assemble all_bytes
assemble_lem total [] e = rw e (fill_lem [] [])
assemble_lem total (chunk ∷ []) e = sym (append-nil chunk)
assemble_lem total (chunk ∷ c ∷ chunks) e = rw e (fill_lem [] (chunk ∷ c ∷ chunks))

length-snoc :
    (chunks : Stream) (value : Bytes)
    → length (all_bytes (chunks ++ (value ∷ []))) ≡ length (all_bytes chunks) + length value
unfolding all_bytes
length-snoc chunks value =
    rw (all_bytes-append chunks (value ∷ []), append-nil value)
      (length-append (all_bytes chunks) value)

-- How reading the rest of a body ends, with `total` bytes read so far.
data Reads (limit : ℕ) (chunks : Stream) : Stream → BodyRead → Type 0 where
  ended :
      {body : Stream}
      → length (all_bytes (chunks ++ body)) ≤ limit
      → Reads limit chunks body (read (all_bytes (chunks ++ body)))
  crossed_at :
      {body : Stream} (before : Stream) (chunk : Bytes) (unread : Stream)
      → body ≡ before ++ (chunk ∷ unread)
      → length (all_bytes (chunks ++ before)) ≤ limit
      → limit < length (all_bytes (chunks ++ before)) + length chunk
      → Reads limit chunks body (too_large unread)

read_chunks-Reads :
    (limit total : ℕ) (chunks body : Stream)
    → total ≡ length (all_bytes chunks)
    → total ≤ limit
    → Reads limit chunks body (read_chunks limit total chunks body)
unfolding read_chunks
read_chunks-Reads limit total chunks [] e h = rw (assemble_lem total chunks e) (
    subst (λ s. Reads limit chunks [] (read (all_bytes s))) (append-nil chunks)
      (ended (rw (append-nil chunks) (omega arith))))
read_chunks-Reads limit total chunks (value ∷ body) e h =
    elim (Bool-cases (ltb limit (total + length value))) [
      | inl over ↦ rw over (
          crossed_at [] value body refl (rw (append-nil chunks) (omega arith))
            (rw (append-nil chunks) (ground arith)))
      | inr within ↦ rw within (
          step chunks value body (
            read_chunks-Reads limit (total + length value) (chunks ++ (value ∷ [])) body
              (ap (λ n. n + length value) e ∙ sym (length-snoc chunks value)) (ground arith)))
    ]
  where
    step :
        (chunks : Stream) (value : Bytes) (body : Stream) {result : BodyRead}
        → Reads limit (chunks ++ (value ∷ [])) body result
        → Reads limit chunks (value ∷ body) result
    step chunks value body (ended h) =
        subst (λ s. Reads limit chunks (value ∷ body) (read (all_bytes s)))
          (sym (append_assoc chunks (value ∷ []) body))
          (ended
            (subst (λ s. length (all_bytes s) ≤ limit) (append_assoc chunks (value ∷ []) body) h))
    step chunks value body (crossed_at before chunk unread e h k) =
        let same = append_assoc chunks (value ∷ []) before in
        crossed_at (value ∷ before) chunk unread (ap (◌∷◌ value) e)
          (subst (λ s. length (all_bytes s) ≤ limit) same h)
          (subst (λ s. limit < length (all_bytes s) + length chunk) same k)

-- What became of a body that may have a declared length.
pub data IsLimited (limit : ℕ) (declared : Option ℕ) (body : Stream) : Limited → Type 0 where
  whole :
      ((n : ℕ) → declared ≡ some n → n ≤ limit)
      → length (all_bytes body) ≤ limit
      → IsLimited limit declared body (replaced (all_bytes body))
  declared_over :
      (n : ℕ) → declared ≡ some n → limit < n → IsLimited limit declared body (refused body)
  crossed :
      (before : Stream) (chunk : Bytes) (unread : Stream)
      → ((n : ℕ) → declared ≡ some n → n ≤ limit)
      → body ≡ before ++ (chunk ∷ unread)
      → length (all_bytes before) ≤ limit
      → limit < length (all_bytes before) + length chunk
      → IsLimited limit declared body (refused unread)

counted-IsLimited :
    (limit : ℕ) (declared : Option ℕ) (body : Stream) {result : BodyRead}
    → ((n : ℕ) → declared ≡ some n → n ≤ limit)
    → Reads limit [] body result
    → IsLimited limit declared body (counted result)
counted-IsLimited limit declared body fits (ended h) = whole fits h
counted-IsLimited limit declared body fits (crossed_at before chunk unread e h k) =
    crossed before chunk unread fits e h k

limit_body-IsLimited :
    (limit : ℕ) (declared : Option ℕ) (body : Stream)
    → IsLimited limit declared body (limit_body limit declared body)
unfolding limit_body read_body_within all_bytes
limit_body-IsLimited limit none body =
    counted-IsLimited limit none body (λ n e. cc)
      (read_chunks-Reads limit 0 [] body (omega arith) (omega arith))
limit_body-IsLimited limit (some n) body = elim (Bool-cases (ltb limit n)) [
  | inl over ↦ rw over (declared_over n refl (ground arith))
  | inr within ↦ rw within (
      counted-IsLimited limit (some n) body (λ m e. ground (arith, some-eq e))
        (read_chunks-Reads limit 0 [] body (omega arith) (omega arith)))
]

leb_positive : (limit : ℕ) → 0 < limit → leb limit 0 ≡ false
leb_positive limit h = ground arith

-- Under a limit, a body whose length is not declared over it and whose bytes are within it is handed
-- on whole; any other is refused, unread if its declared length is over the limit, and else with
-- what comes behind the first chunk that crosses the limit unread.
pub limit_request_body-IsLimited :
    (round : ℕ → ℕ) (limit : ℕ) (headers : Framing) (body : Stream)
    → 0 < limit
    → IsLimited limit
        (framed_length round headers)
        body
        (limit_request_body round limit headers (some body))
unfolding limit_request_body
limit_request_body-IsLimited round limit headers body h =
    rw (leb_positive limit h) (limit_body-IsLimited limit (framed_length round headers) body)
