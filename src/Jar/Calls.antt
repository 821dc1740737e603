-- ===== src/Jar/Calls.antt =====
-- The cookies that the calls of one request send to go.
use borgo.Common.{
  ◌≡◌, refl, sym, subst, ◌∙◌, Bool, true, false, List, [], ◌∷◌, ◌++◌, Option, none, some, is_empty,
  arith, if◌then◌else◌, Bool-cases, inl, inr,
}
use borgo.Text.{Text, codes, ◌===◌, ===_iff}
use borgo.Params.{Params, get, get-put}
use borgo.Jar.{
  remove, put_cookie, fresh_cookie_header, fresh_cookie_request, Client, request_api_client,
  receive, after_calls,
}

abbrev cookie_name : Text
cookie_name = codes "cookie"

-- a header that is sent unless it is empty
abbrev shown : Text → Option Text
shown cookie = if is_empty cookie then none else some cookie

get-remove : (name : Text) (headers : Params) → get name (remove name headers) ≡ none
unfolding get remove
get-remove name [] = refl
get-remove name ((k, v) ∷ headers) = elim (Bool-cases (k === name)) [
  | inl same ↦ rw same (get-remove name headers)
  | inr other ↦ rw other (rw other (get-remove name headers))
]

get-put_cookie :
    (cookie : Text) (headers : Params) → get cookie_name (put_cookie cookie headers) ≡ shown cookie
unfolding put_cookie
get-put_cookie [] headers = get-remove cookie_name headers
get-put_cookie (c ∷ cookie) headers =
    get-put cookie_name cookie_name (c ∷ cookie) headers ∙ rw same refl
  where
    same : (cookie_name === cookie_name) ≡ true
    same = ground (arith, ===_iff cookie_name cookie_name)

module _ (is_past : Text → Bool) (cookie : Option Text) where
  -- Once go has set a cookie, the next call carries the jar as it then is.
  abbrev CarriesJar : Client → Type 0
  CarriesJar client =
      is_empty client.collected ≡ false
      → get cookie_name client.headers ≡ shown (fresh_cookie_header is_past cookie client.collected)

  receive-CarriesJar :
      (client : Client) (cookies : List Text) → CarriesJar (receive is_past cookie client cookies)
  unfolding receive
  receive-CarriesJar client cookies filled =
      get-put_cookie (fresh_cookie_header is_past cookie (client.collected ++ cookies))
        client.headers

  after_calls-CarriesJar :
      (client : Client) (answers : List (List Text))
      → CarriesJar client
      → CarriesJar (after_calls is_past cookie client answers)
  unfolding after_calls
  after_calls-CarriesJar client [] h = h
  after_calls-CarriesJar client (cookies ∷ answers) h =
      after_calls-CarriesJar (receive is_past cookie client cookies) answers
        (receive-CarriesJar client cookies)

-- Once go has set a cookie in the answers to an action's calls, in any number of them, the next call
-- of the action and the loader after it send go the same cookies.
pub after_calls-fresh_cookie_request :
    (is_past : Text → Bool) (asked defaults : Params) (answers : List (List Text)) (client : Client)
    → after_calls is_past
        (get (codes "cookie") asked)
        (request_api_client defaults (get (codes "cookie") asked))
        answers
      ≡ client
    → is_empty client.collected ≡ false
    → get (codes "cookie") client.headers
      ≡ get (codes "cookie") (fresh_cookie_request is_past asked client.collected)
unfolding fresh_cookie_request request_api_client
after_calls-fresh_cookie_request is_past asked defaults answers client e filled =
    subst (CarriesJar is_past cookie) e
      (after_calls-CarriesJar is_past cookie (request_api_client defaults cookie) answers
        (λ h. absurd (ground arith)))
      filled
    ∙ sym (
        rw (filled, fresh_cookie_request)
          (get-put_cookie (fresh_cookie_header is_past cookie client.collected) asked))
  where
    cookie : Option Text
    cookie = get cookie_name asked
