-- ===== src/Jar.antt =====
-- The cookies of a request after the api has answered with new ones: `freshCookieHeader`,
-- `cookieExpired`, `freshCookieRequest` and `requestApiClient` of packages/borgo/src/util.ts.
pub mod Parts
pub mod Names
pub mod Calls
pub mod Pieces
pub mod Texts
use borgo.Common.{
  ℕ, zero, suc, Bool, true, false, ◌&&◌, ◌||◌, not, List, [], ◌∷◌, ◌++◌, map, Option, none, some,
  is_empty, if◌then◌else◌, take, drop, all, ◌==◌, length,
}
use borgo.Text.{
  Text, codes, or_empty, ◌===◌, split, join, trim, to_lower, has_prefix, is_space, is_digit,
}
use borgo.Params.{Params, get, put}
use borgo.Csrf.{cut}

abbrev first_piece : List Text → Text
first_piece [] = []
first_piece (p ∷ ps) = p

-- `nameOf`
unfoldable pub name_of : Text → Text
name_of part = elim (cut part) [ none ↦ trim part | some (before, after) ↦ trim before ]

-- `s.split(";").map((p) => p.trim()).filter(Boolean)`
unfoldable pub kept_parts : List Text → List Text
kept_parts [] = []
kept_parts (p ∷ ps) = let rest = kept_parts ps in if is_empty (trim p) then rest else trim p ∷ rest

unfoldable pub parts_of : Option Text → List Text
unfolding kept_parts
parts_of header = kept_parts (split b';' (or_empty header))

-- the text behind white space
skip_space : Text → Text
skip_space [] = []
skip_space (c ∷ s) = let rest = skip_space s in if is_space c then rest else c ∷ s

-- what stands behind the first `;\s*name=` with something that `accepts` behind it
unfoldable pub behind_attribute : Text → (Text → Bool) → Text → Option Text
unfolding skip_space
behind_attribute name accepts [] = none
behind_attribute name accepts (c ∷ s) =
    let rest = behind_attribute name accepts s in
    let here = skip_space s in
    let behind = drop (length name) here in
    if c == b';' && has_prefix name (map to_lower here) && accepts behind then some behind else rest

abbrev starts_with_digit : Text → Bool
starts_with_digit [] = false
starts_with_digit (c ∷ s) = is_digit c

-- `-?\d+`
unfoldable pub starts_with_number : Text → Bool
starts_with_number [] = false
starts_with_number (c ∷ s) = is_digit c || (c == b'-' && starts_with_digit s)

unfoldable pub only_zeros : Text → Bool
only_zeros [] = true
only_zeros (c ∷ s) = if is_digit c then c == b'0' && only_zeros s else true

-- `Number(digits) <= 0`, where digits follow a sign or none
unfoldable pub is_at_most_zero : Text → Bool
unfolding only_zeros
is_at_most_zero [] = true
is_at_most_zero (c ∷ s) = c == b'-' || only_zeros (c ∷ s)

-- `[^;]+`
unfoldable pub starts_attribute : Text → Bool
starts_attribute [] = false
starts_attribute (c ∷ s) = not (c == b';')

-- `findIndex`, of the name of a part
unfoldable pub index_of : Text → List Text → Option ℕ
index_of name [] = none
index_of name (p ∷ ps) =
    let rest = index_of name ps in
    if name_of p === name then some 0 else elim rest [ none ↦ none | some at ↦ some (suc at) ]

unfoldable pub without : Text → List Text → List Text
without name [] = []
without name (p ∷ ps) = let rest = without name ps in if name_of p === name then rest else p ∷ rest

unfoldable pub place_at : Option ℕ → List Text → List Text → List Text
place_at none fresh rest = rest ++ fresh
place_at (some at) fresh rest = take at rest ++ (fresh ++ drop at rest)

-- `headers.delete(name)`
unfoldable pub remove : Text → Params → Params
remove name [] = []
remove name ((k, v) ∷ headers) =
    let rest = remove name headers in if k === name then rest else (k, v) ∷ rest

unfoldable pub put_cookie : Text → Params → Params
unfolding remove
put_cookie cookie headers =
    if is_empty cookie then remove (codes "cookie") headers else put (codes "cookie") cookie headers

-- the client of `requestApiClient`: the headers of its next call, and what go has set so far
pub record Client : Type 0 where
  pub headers : Params
  pub collected : List Text

unfoldable pub request_api_client : Params → Option Text → Client
request_api_client defaults cookie = record {
  headers =
      if is_empty (or_empty cookie)
      then defaults
      else put (codes "cookie") (or_empty cookie) defaults;
  collected = [];
}

-- `is_past` is whether `Date.parse` of a text gives a time that is not after the clock's
module _ (is_past : Text → Bool) where
  unfoldable pub expired_at : Option Text → Bool
  expired_at none = false
  expired_at (some expires) = is_past (first_piece (split b';' expires))

  unfoldable pub cookie_expired : Text → Bool
  unfolding behind_attribute starts_with_number is_at_most_zero starts_attribute expired_at
  cookie_expired set_cookie =
      elim (behind_attribute (codes "max-age=") starts_with_number set_cookie) [
        | some digits ↦ is_at_most_zero digits
        | none ↦ expired_at (behind_attribute (codes "expires=") starts_attribute set_cookie)
      ]

  -- the part that a cookie leaves: none where it has expired
  unfoldable pub fresh_part : Text → Text → Text → List Text
  unfolding cookie_expired
  fresh_part set_cookie name v =
      if cookie_expired set_cookie then [] else (name ++ (b'=' ∷ trim v)) ∷ []

  unfoldable pub take_cookie : List Text → Text → List Text
  unfolding fresh_part index_of without place_at name_of
  take_cookie parts set_cookie = elim (cut (first_piece (split b';' set_cookie))) [
    | none ↦ parts
    | some (name, v) ↦
        place_at (index_of (trim name) parts) (fresh_part set_cookie (trim name) v)
          (without (trim name) parts)
  ]

  unfoldable pub take_cookies : List Text → List Text → List Text
  unfolding take_cookie
  take_cookies parts [] = parts
  take_cookies parts (c ∷ set_cookies) = take_cookies (take_cookie parts c) set_cookies

  unfoldable pub fresh_cookie_header : Option Text → List Text → Text
  unfolding parts_of take_cookies
  fresh_cookie_header header set_cookies =
      join (codes "; ") (take_cookies (parts_of header) set_cookies)

  -- the headers of `freshCookieRequest`
  unfoldable pub fresh_cookie_request : Params → List Text → Params
  unfolding put_cookie fresh_cookie_header
  fresh_cookie_request headers set_cookies =
      if is_empty set_cookies
      then headers
      else put_cookie (fresh_cookie_header (get (codes "cookie") headers) set_cookies) headers

  -- an answer of go, with the cookies that it sets
  unfoldable pub receive : Option Text → Client → List Text → Client
  unfolding put_cookie fresh_cookie_header
  receive cookie client cookies =
      let collected = client.collected ++ cookies in
      record {
        headers = put_cookie (fresh_cookie_header cookie collected) client.headers;
        collected = collected;
      }

  -- the answers of a request's calls, one after the other
  unfoldable pub after_calls : Option Text → Client → List (List Text) → Client
  unfolding receive
  after_calls cookie client [] = client
  after_calls cookie client (cookies ∷ answers) =
      after_calls cookie (receive cookie client cookies) answers
