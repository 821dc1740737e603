-- ===== src/Responses.antt =====
-- Responses and their headers in packages/borgo/src/util.ts: `withCookies` and `carryHeaders`.
use borgo.Common.{Option, none, some, ℕ, Bool, ◌||◌, List, [], ◌∷◌, ◌++◌, if◌then◌else◌, is_empty}
use borgo.Text.{Text, codes, ◌===◌, has_prefix}
use borgo.Params.{Params, get, put}

-- A response: `headers` are those but for Set-Cookie, under their lower-case names, as the platform
-- keeps them.
pub record Response (Content : Type 0) : Type 0 where
  pub status : ℕ
  pub headers : Params
  pub set_cookies : List Text
  pub content : Content

-- the headers that `carryHeaders` leaves to the json
unfoldable pub is_restated : Text → Bool
is_restated name = name === codes "location" || has_prefix (codes "content-") name

unfoldable pub carry : Params → Params → Params
carry [] headers = headers
carry ((name, v) ∷ rest) headers =
    carry rest (if is_restated name then headers else put name v headers)

module _ {Content : Type 0} where
  unfoldable pub with_cookies : Response Content → List Text → Response Content
  with_cookies res cookies =
      if is_empty cookies then res else record res { set_cookies = res.set_cookies ++ cookies }

  -- `carryHeaders(from, json)`
  unfoldable pub carry_headers : Response Content → Response Content → Response Content
  unfolding carry is_restated
  carry_headers sender json = record {
    status = json.status;
    headers = carry sender.headers json.headers;
    set_cookies = json.set_cookies ++ sender.set_cookies;
    content = json.content;
  }

  -- `headers.get("Location")` in a test: no location and an empty one are no redirect
  unfoldable pub location_of : Response Content → Option Text
  location_of res = elim (get (codes "location") res.headers) [
    | none ↦ none
    | some location ↦ if is_empty location then none else some location
  ]
