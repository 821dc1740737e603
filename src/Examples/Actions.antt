-- ===== src/Examples/Actions.antt =====
-- Actions, at concrete inputs.
use Prim.Native.Nat.{ℕ}
use borgo.Common.{◌≡◌, ◌⊎◌, refl, true, false, List, [], ◌∷◌, none, some}
use borgo.Text.{contains, Text, codes, ◌===◌, split, trim, has_prefix}
use borgo.Params.{Params, put, get}
use borgo.Result.{Result, thrown, value}
use borgo.Responses.{location_of, Response, with_cookies, carry_headers, carry, is_restated}
use borgo.Body.{
  Limited, limit_request_body, limit_body, read_body_within, read_chunks, framed_length,
  content_length, parse_content_length, decimal, assemble, replicate, set_at, fill,
}
use borgo.Csrf.{
  cut, named_value, agreed_value, csrf_cookie_value, has_value, has_cookie, csrf_rejects,
}
use borgo.Action.{
  Content, document, Outcome, failed, responded, Post, ActionOptions, action, run_action,
  run_limited, recover, attempt, after_action, action_response, redirect_json, is_html, action_json,
  or_app, enhanced_error, error_page, native_error, raw_document, refusal,
}
use borgo.PropsRequest.{PropsJson, LoaderResult, loaded, no_store, run_props_request}
use borgo.PropsRequest.Cookies.{run_props_request-answers}
use borgo.Action.Cookies.{Sets}

actions : Unit {0}
unfolding ◌===◌ split trim has_prefix put get with_cookies carry_headers carry is_restated
    limit_request_body limit_body read_body_within read_chunks framed_length content_length
    parse_content_length decimal assemble replicate set_at fill cut named_value agreed_value
    csrf_cookie_value has_value has_cookie csrf_rejects run_action run_limited recover attempt
    after_action action_response redirect_json location_of contains is_html action_json or_app
    enhanced_error error_page native_error raw_document refusal
actions = tt

abbrev Answer : Type 0
Answer = Response (Content Text Text)

-- json that holds nothing, and a page that the renderer makes of the cookies it is handed
abbrev options : ActionOptions Text ℕ Text Text
options = record {
  dev = false;
  round = λ n. n;
  max_body = 4;
  csrf_enforced = true;
  server_error = none;
  send_json = λ json status headers.
      value
        (record { status = status; headers = headers; set_cookies = []; content = document [] });
  run_loader = λ fresh page. ([], Outcome.returned 0);
  render_page = λ fresh page status extra cookies.
      value
        (record { status = status; headers = []; set_cookies = cookies; content = document page });
}

abbrev post : Post
post = record {
  wants_json = true;
  aborted = false;
  cookie_header = none;
  token = [];
  framing = record { transfer_encoding = none; declared = none };
  body = some ((1 ∷ []) ∷ []);
}

abbrev session : List Text
session = codes "s=1" ∷ []

-- an action that signs in and redirects, and one that throws behind the sign-in
abbrev signs_in : Limited → List Text × Outcome Text ℕ Text
signs_in limited = (
  session,
  responded (record {
    status = 303;
    headers = (codes "location", codes "/in") ∷ [];
    set_cookies = [];
    content = document [];
  }),
)

abbrev throws : Limited → List Text × Outcome Text ℕ Text
throws limited = (session, failed (codes "x"))

abbrev redirected : Answer
redirected = record {
  status = 200;
  headers =
      (codes "x-borgo", codes "action") ∷ (codes "cache-control", codes "private, no-store") ∷ [];
  set_cookies = session;
  content = document [];
}

signs_in_test :
    run_action options post (some (codes "p", action signs_in)) ≡ value (some redirected)
unfolding actions
signs_in_test = refl

abbrev Loaded : Type 0
Loaded = LoaderResult Text ℕ Text

abbrev three : Loaded
three = loaded 3

abbrev sends_text : PropsJson ℕ → Params → Result Text (Response Text)
sends_text json headers =
    value (record { status = 200; headers = headers; set_cookies = []; content = [] })

run_props_request-answers_example :
    ((sent : Response Text)
      → run_props_request sends_text session three ≡ value sent
      → Sets session sent)
    × ((error : Text)
        → run_props_request sends_text session three ≡ thrown error
        → (◌≡◌ {A = Loaded} three (LoaderResult.failed error))
          ⊎ ((json : PropsJson ℕ) × (sends_text json no_store ≡ thrown error)))
run_props_request-answers_example = run_props_request-answers sends_text session three
