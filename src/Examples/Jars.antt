-- ===== src/Examples/Jars.antt =====
-- The cookies of a request, at concrete inputs.
use borgo.Common.{◌≡◌, refl, Bool, true, false, List, [], ◌∷◌, none, some, Option}
use borgo.Text.{Text, codes, ◌===◌, split, join, trim, trim_start, trim_end, is_space, has_prefix}
use borgo.Params.{Params, get, put}
use borgo.Csrf.{cut, onto_first}
use borgo.Jar.{
  name_of, kept_parts, parts_of, behind_attribute, starts_with_number, only_zeros, is_at_most_zero,
  starts_attribute, expired_at, cookie_expired, fresh_part, index_of, without, place_at,
  take_cookie, take_cookies, fresh_cookie_header, remove, put_cookie, fresh_cookie_request,
  request_api_client, receive, after_calls,
}
use borgo.Jar.Names.{in_place, with_name, outcome}
use borgo.Jar.Texts.{with_name-fresh_cookie_header}
use borgo.Jar.Calls.{after_calls-fresh_cookie_request}

jars : Unit {0}
unfolding ◌===◌ split join trim trim_start trim_end is_space has_prefix get put cut onto_first
    name_of kept_parts parts_of behind_attribute starts_with_number only_zeros is_at_most_zero
    starts_attribute expired_at cookie_expired fresh_part index_of without place_at take_cookie
    take_cookies fresh_cookie_header remove put_cookie fresh_cookie_request request_api_client
    receive after_calls in_place with_name outcome
jars = tt

-- a clock behind every date but one
abbrev is_past : Text → Bool
is_past s = trim s === codes "1970"

abbrev header : Option Text
header = some (codes "a=1; sid=old;b; sid=older")

expiry_tests :
    (cookie_expired is_past (codes "a=1; Max-Age=0") ≡ true)
    × (cookie_expired is_past (codes "a=1; max-age=-1; expires=2030") ≡ true)
    × (cookie_expired is_past (codes "a=1; max-age=10; expires=1970") ≡ false)
    × (cookie_expired is_past (codes "a=1; max-age=x; Expires=1970; path=/") ≡ true)
    × (cookie_expired is_past (codes "a=1; path=/") ≡ false)
unfolding jars
expiry_tests = (refl, refl, refl, refl, refl)

header_tests :
    (fresh_cookie_header is_past header (codes "sid=new; path=/" ∷ []) ≡ codes "a=1; sid=new; b")
    × (fresh_cookie_header is_past header (codes "sid=; max-age=0" ∷ []) ≡ codes "a=1; b")
    × (fresh_cookie_header is_past none (codes " c = 2 ; secure" ∷ []) ≡ codes "c=2")
    × (fresh_cookie_header is_past header (codes "nameless" ∷ [])
        ≡ codes "a=1; sid=old; b; sid=older")
unfolding jars
header_tests = (refl, refl, refl, refl)

with_name-fresh_cookie_header_example :
    with_name (codes "sid") (parts_of (some (codes "a=1; sid=new; b; c=2"))) ≡ codes "sid=new" ∷ []
unfolding jars
with_name-fresh_cookie_header_example =
    with_name-fresh_cookie_header is_past header (codes "sid=new" ∷ (codes "c=2" ∷ []))
      (codes "sid")

abbrev asked : Params
asked = (codes "cookie", codes "a=1; sid=old") ∷ []

abbrev answers : List (List Text)
answers = (codes "sid=new" ∷ []) ∷ ([] ∷ [])

after_calls-fresh_cookie_request_example :
    some (codes "a=1; sid=new")
    ≡ get (codes "cookie") (fresh_cookie_request is_past asked (codes "sid=new" ∷ []))
unfolding jars
after_calls-fresh_cookie_request_example =
    after_calls-fresh_cookie_request is_past asked [] answers
      (after_calls is_past (get (codes "cookie") asked)
        (request_api_client [] (get (codes "cookie") asked)) answers)
      refl refl
