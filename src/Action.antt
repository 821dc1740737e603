-- ===== src/Action.antt =====
-- `runAction` of packages/borgo/src/util.ts: a post to a page.
pub mod Cookies
use borgo.Common.{
  ℕ, ◌+◌, ◌≡◌, refl, Bool, true, false, ◌&&◌, ◌||◌, not, List, [], ◌∷◌, ◌++◌, Option, none, some,
  if◌then◌else◌, is_empty, ◌==◌, map,
}
use borgo.Text.{to_lower, contains, Text, codes, ◌===◌, has_prefix, or_empty, within}
use borgo.Params.{Params, put, get}
use borgo.Result.{Result, thrown, value, ◌>>=◌}
use borgo.Responses.{Response, with_cookies, carry_headers, location_of}
use borgo.Body.{Framing, Stream, Limited, unchanged, refused, replaced, limit_request_body}
use borgo.Csrf.{csrf_rejects}

-- the json values that an action's answers hold
pub data Json (Data : Type 0) : Type 0 where
  csrf unsupported : Json Data
  redirect : Text → Json Data
  page : (props action_data : Data) → Json Data

-- what a response of `runAction` holds: its own texts, the overlay of an error, or what the app, the
-- renderer and `sendJson` made
pub data Content (Error Document : Type 0) : Type 0 where
  document : Document → Content Error Document
  too_large : ℕ → Content Error Document
  invalid_csrf_token internal_server_error : Content Error Document
  overlay : Error → Content Error Document

-- How code of the app ended: it threw, or it gave a response or data.
pub data Outcome (Error Data Document : Type 0) : Type 0 where
  failed : Error → Outcome Error Data Document
  responded : Response (Content Error Document) → Outcome Error Data Document
  returned : Data → Outcome Error Data Document

-- the action export of a page, which is handed the limited body; a run is the cookies that the api
-- set on its way and how it ended
pub data Action (Error Data Document : Type 0) : Type 0 where
  absent not_a_function : Action Error Data Document
  action : (Limited → List Text × Outcome Error Data Document) → Action Error Data Document

pub data ActionError (Error : Type 0) : Type 0 where
  action_not_a_function : ActionError Error
  app : Error → ActionError Error

-- what `runAction` reads of the request; `token` is the one in the posted form
pub record Post : Type 0 where
  pub wants_json : Bool
  pub aborted : Bool
  pub cookie_header : Option Text
  pub token : Text
  pub framing : Framing
  pub body : Option Stream

-- `ActionOptions`. The loader and the renderer see the cookies collected so far, and the renderer is
-- also handed those that it must set.
pub record ActionOptions (Error Data Document Page : Type 0) : Type 0 where
  pub dev : Bool
  pub round : ℕ → ℕ
  pub max_body : ℕ
  pub csrf_enforced : Bool
  pub server_error : Option Page
  pub send_json : Json Data → ℕ → Params → Result Error (Response (Content Error Document))
  pub run_loader : List Text → Page → List Text × Outcome Error Data Document
  pub render_page :
      List Text
      → Page
      → ℕ
      → Option Data
      → List Text
      → Result Error (Response (Content Error Document))

module _ {Error Data Document Page : Type 0}
    (options : ActionOptions Error Data Document Page) where
  abbrev Answer : Type 0
  Answer = Response (Content Error Document)

  abbrev pub plain_answer : ℕ → Content Error Document → Answer
  plain_answer status content = record {
    status = status;
    headers = [];
    set_cookies = [];
    content = content;
  }

  unfoldable pub action_json : Json Data → ℕ → Params → Result Error Answer
  action_json json status headers = options.send_json json status (
      put (codes "cache-control") (codes "private, no-store")
        (put (codes "x-borgo") (codes "action") headers))

  unfoldable pub raw_document : Answer → Answer
  raw_document doc = record doc { headers = put (codes "x-borgo") (codes "raw") doc.headers }

  unfoldable pub is_html : Answer → Bool
  is_html res =
      contains (codes "text/html")
        (map to_lower (or_empty (get (codes "content-type") res.headers)))

  unfoldable pub redirect_json : Answer → Text → List Text → Result Error Answer
  redirect_json res location cookies = do
    json ← action_json (redirect location) 200 []
    value (with_cookies (carry_headers res json) cookies)

  unfoldable pub action_response : Bool → Answer → List Text → Result Error Answer
  action_response wants_json res cookies =
      if not wants_json then value (with_cookies res cookies) else elim (location_of res) [
        | some location ↦ redirect_json res location cookies
        | none ↦
            if is_html res
            then value (with_cookies (raw_document res) cookies)
            else value (with_cookies res cookies)
      ]

  unfoldable pub after_loader : Data → List Text → Outcome Error Data Document → Result Error Answer
  after_loader result cookies (failed error) = thrown error
  after_loader result cookies (responded loaded) = elim (location_of loaded) [
    | some location ↦ redirect_json loaded location cookies
    | none ↦ value (with_cookies loaded cookies)
  ]
  after_loader result cookies (returned props) = do
    json ← action_json (page props result) 200 []
    value (with_cookies json cookies)

  -- the `try` block behind the action's own run: the cookies collected by its end, and how it ended
  unfoldable pub after_action :
      Bool → Page → List Text → Outcome Error Data Document → List Text × Result Error Answer
  after_action wants_json target cookies (failed error) = (cookies, thrown error)
  after_action wants_json target cookies (responded res) =
      (cookies, action_response wants_json res cookies)
  after_action true target cookies (returned result) =
      let loaded = options.run_loader cookies target in
      (cookies ++ loaded.0, after_loader result (cookies ++ loaded.0) loaded.1)
  after_action false target cookies (returned result) =
      (cookies, options.render_page cookies target 200 (some result) cookies)

  -- the _500 page, rendered with these cookies, if there is one and it does not throw
  abbrev pub if_rendered : Result Error Answer → Option Answer
  if_rendered (value rendered) = some rendered
  if_rendered (thrown _) = none

  abbrev pub error_page_of : Option Page → List Text → Option Answer
  error_page_of none cookies = none
  error_page_of (some target) cookies = if_rendered (options.render_page [] target 500 none cookies)

  unfoldable pub error_page : List Text → Option Answer
  error_page cookies = error_page_of options.server_error cookies

  abbrev pub overlay_answer : Error → Answer
  overlay_answer error = record {
    status = 500;
    headers = (codes "content-type", codes "text/html; charset=utf-8") ∷ [];
    set_cookies = [];
    content = overlay error;
  }

  unfoldable pub native_error : Error → List Text → Answer
  native_error error cookies =
      if options.dev
      then with_cookies (overlay_answer error) cookies
      else elim (error_page cookies) [
        | some rendered ↦ rendered
        | none ↦ with_cookies (plain_answer 500 internal_server_error) cookies
      ]

  unfoldable pub enhanced_error : Error → List Text → Answer
  enhanced_error error cookies =
      if options.dev
      then with_cookies (raw_document (overlay_answer error)) cookies
      else elim (error_page []) [
        | some rendered ↦ with_cookies (raw_document rendered) cookies
        | none ↦ with_cookies (raw_document (plain_answer 500 internal_server_error)) cookies
      ]

  -- the `catch` block
  unfoldable pub recover : Post → List Text → Result Error Answer → Result Error Answer
  recover post cookies (value res) = value res
  recover post cookies (thrown error) =
      if post.aborted || (not post.wants_json && is_empty cookies)
      then thrown error
      else if post.wants_json
      then value (enhanced_error error cookies)
      else value (native_error error cookies)

  -- the cookies that the request collects, and what became of it
  unfoldable pub attempt :
      Post → Page → List Text × Outcome Error Data Document → List Text × Result Error Answer
  attempt post target (cookies, outcome) = after_action post.wants_json target cookies outcome

  unfoldable pub or_app : Result Error Answer → Result (ActionError Error) (Option Answer)
  or_app (thrown error) = thrown (app error)
  or_app (value res) = value (some res)

  unfoldable pub refusal : Post → Result Error Answer
  refusal post =
      if post.wants_json
      then action_json csrf 403 []
      else value (plain_answer 403 invalid_csrf_token)

  unfoldable pub run_limited :
      Post
      → Page
      → (Limited → List Text × Outcome Error Data Document)
      → Limited
      → Result Error Answer
  run_limited post target run (refused _) = value (plain_answer 413 (too_large options.max_body))
  run_limited post target run limited =
      if csrf_rejects options.csrf_enforced post.cookie_header post.token
      then refusal post
      else recover post (attempt post target (run limited)).0 (attempt post target (run limited)).1

  unfoldable pub answer_without : Post → Result Error (Option Answer)
  answer_without post =
      if post.wants_json
      then (action_json unsupported 405 ((codes "allow", codes "GET, HEAD") ∷ [])
          >>= (λ json. value (some json)))
      else value none

  -- `runAction`; `none` is null, which asks for a 405
  unfoldable pub run_action :
      Post → Option (Page × Action Error Data Document) → Result (ActionError Error) (Option Answer)
  run_action post none = value none
  run_action post (some (target, absent)) = elim (answer_without post) [
    | thrown error ↦ thrown (app error)
    | value answer ↦ value answer
  ]
  run_action post (some (target, not_a_function)) = thrown action_not_a_function
  run_action post (some (target, action run)) = or_app (
      run_limited post target run
        (limit_request_body options.round options.max_body post.framing post.body))
