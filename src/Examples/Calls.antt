-- ===== src/Examples/Calls.antt =====
-- Calls of the api client, at concrete inputs.
use borgo.Common.{ℕ, ◌≡◌, refl, Bool, true, false, List, [], ◌∷◌, Option, none, some, zero, suc}
use borgo.Text.{Text, codes, ◌===◌, has_prefix, contains, split, join}
use borgo.Result.{thrown, value}
use borgo.Maps.{Map, lookup, set}
use borgo.ApiClient.{Failure, missing_param, dot_segment, no_form_part}
use borgo.ApiClient.Encode.{is_component, escapes, encode_unit, encode_uri_component}
use borgo.ApiClient.Path.{
  in_name, name_part, close_name, wildcard, segment, join_segments, rest_value, expand,
  fill_route_from, fill_route,
}
use borgo.ApiClient.Path.Shape.{literal, param, Fits, fill_route-Fits}
use borgo.ApiClient.Form.{
  Blob, missing, blob, scalar, other, single, many, text_part, file_part, nothing, object,
  field_parts, list_parts, form_parts, multipart_body,
}
use borgo.ApiClient.Request.{
  Options, Init, split_route, set_query, spread, without_content_type, init_headers, init_of,
}
use borgo.ApiClient.Answer.{Reply, read_head, error_body, timed_out, conclude}
use borgo.ApiClient.Call.{
  Attempt, answered, failed, is_conn_refused, is_retried, settle, fetch_from, call_with, call,
}
use borgo.ApiClient.Call.Tries.{IsCalled, call-IsCalled}
use borgo.Keys.{utf8_bytes}

calls : Unit {0}
unfolding utf8_bytes is_component escapes encode_unit encode_uri_component in_name name_part
    close_name wildcard segment join_segments rest_value expand fill_route_from fill_route
    field_parts list_parts form_parts multipart_body split_route set_query spread
    without_content_type init_headers init_of read_head error_body timed_out conclude
    is_conn_refused is_retried settle fetch_from call_with call lookup set ◌===◌ has_prefix contains
    split join
calls = tt

abbrev params : Map (Option Text)
params =
    (codes "id", some (codes "7/x"))
    ∷ ((codes "up", some (codes ".."))
        ∷ ((codes "rest", some (codes "a b/c")) ∷ ((codes "none", none) ∷ [])))

path_tests :
    (fill_route params (codes "/api/{id}") ≡ value (codes "/api/7%2Fx"))
    × (fill_route params (codes "/api/{rest...}") ≡ value (codes "/api/a%20b/c"))
    × (fill_route params (codes "/api/{$}") ≡ value (codes "/api/"))
    × (fill_route params (codes "/{}/{a.b}") ≡ value (codes "/{}/{a.b}"))
    × (fill_route params (codes "/api/{up}") ≡ thrown (dot_segment (codes "up") (codes "..")))
    × (fill_route params (codes "/api/{none}") ≡ thrown (missing_param (codes "none")))
unfolding calls
path_tests = (refl, refl, refl, refl, refl, refl)

encode_tests :
    (encode_uri_component (0xE9 ∷ []) ≡ some (codes "%C3%A9"))
    × (encode_uri_component (0xD83D ∷ 0xDE00 ∷ []) ≡ some (codes "%F0%9F%98%80"))
    × (encode_uri_component (0xD83D ∷ []) ≡ none)
unfolding calls
encode_tests = (refl, refl, refl)

abbrev photo : Blob
photo = record { name = none; bytes = 1 ∷ [] }

form_tests :
    (multipart_body (
        object
          ((codes "a", single (scalar (codes "1")))
            ∷ ((codes "b", many (blob photo ∷ (missing ∷ []))) ∷ []))
          [])
      ≡ value (
          some (
            text_part (codes "a") (codes "1") ∷ (file_part (codes "b") photo (codes "blob") ∷ []))))
    × (multipart_body (object ((codes "a", single other) ∷ []) []) ≡ value none)
    × (multipart_body (object ((codes "a", many (blob photo ∷ (other ∷ []))) ∷ []) [])
        ≡ thrown (no_form_part (codes "a")))
unfolding calls
form_tests = (refl, refl, refl)

abbrev options : Options
options = record {
  params = params;
  query = (codes "q", some (codes "x")) ∷ [];
  headers = [];
  body = nothing;
}

abbrev refused : Failure
refused = record {
  name = codes "TypeError";
  code = codes "ConnectionRefused";
  message = [];
  aborted = false;
}

abbrev found : Reply ℕ
found = record {
  status = 200;
  set_cookies = codes "a=1" ∷ [];
  content_length = none;
  chunks = none;
  json = value 5;
}

-- an api that is up from the second attempt on
abbrev restarting : Init → ℕ → Attempt ℕ
restarting init zero = failed refused
restarting init (suc n) = answered found

abbrev down : Init → ℕ → Attempt ℕ
down init n = failed refused

abbrev any_url : Text → Bool
any_url url = true

abbrev as_is : List ℕ → Text
as_is bytes = bytes

call_tests :
    ((call any_url as_is restarting (codes "http://a") [] 3 (codes "GET /api/{id}") options).outcome
      ≡ value (some 5))
    × ((call any_url as_is restarting
          (codes "http://a")
          []
          3
          (codes "GET /api/{id}")
          options).requests
        ≡ 2)
    × ((call any_url as_is down (codes "http://a") [] 3 (codes "GET /api/{id}") options).requests
        ≡ 4)
    × ((call any_url as_is down (codes "http://a") [] 3 (codes "GET /api/{up}") options).requests
        ≡ 0)
unfolding calls
call_tests = (refl, refl, refl, refl)

fill_route-Fits_example :
    Fits params
      (literal [] ∷ (literal (codes "api") ∷ (param (codes "id") ∷ [])))
      ([] ∷ (codes "api" ∷ (codes "7%2Fx" ∷ [])))
unfolding calls
fill_route-Fits_example =
    fill_route-Fits params (literal []) (literal (codes "api") ∷ (param (codes "id") ∷ []))
      (codes "/api/7%2Fx")
      (
        (tt, tt),
        (
          ((refl, (refl, (refl, tt))), (refl, (refl, (refl, tt)))),
          ((cc, cc, (refl, (refl, tt))), tt),
        ),
      )
      refl

call-IsCalled_example :
    IsCalled as_is restarting 3
      (init_of any_url (codes "http://a") [] (codes "GET /api/{id}") options)
      (call any_url as_is restarting (codes "http://a") [] 3 (codes "GET /api/{id}") options)
call-IsCalled_example =
    call-IsCalled any_url as_is restarting (codes "http://a") [] 3 (codes "GET /api/{id}") options
