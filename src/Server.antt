-- ===== src/Server.antt =====
-- The request handler of `serve` in packages/borgo/src/server.ts: what `fetch` and `handle` decide
-- for a request, up to the page code that they run.
pub mod Doors
pub mod Reach
pub mod Files
pub mod Answered
pub mod Public
pub mod Admitted
use borgo.Common.{
  ℕ, ◌≡◌, refl, Bool, true, false, ◌&&◌, ◌||◌, not, List, [], ◌∷◌, ◌++◌, Option, none, some,
  if◌then◌else◌, is_empty, drop, ◌==◌, any,
}
use borgo.Text.{has_prefix, Text, codes, ◌===◌, starts_with, includes, split}
use borgo.Result.{Result, thrown, value, ◌>>=◌}
use borgo.Params.{Params}
use borgo.Canonical.{canonical_path}
use borgo.Router.{safe_decode, Matched, match_route}
use borgo.Guard.Boot.{PageGuard}
use borgo.Guard.Decide.{Headers, Answer, Decision, continue, DecideError, decide_page}
use borgo.Guard.Decide.Doors.{Asked, Response, Sent, is_text, is_props, answer_for_door}
use borgo.PublicPath.{has_dots, in_hidden_directory, has_windows_mark, has_extension}
use borgo.Keys.{keys_equal}

-- a page module, as the handler sees it
pub record Page : Type 0 where
  pub pattern : Text
  pub has_action : Bool

-- what the handler reads of a request; `facts` is its verified session and its locals
pub record Request (Facts : Type 0) : Type 0 where
  pub asked : Asked
  pub pathname : Text
  pub search : Text
  pub internal_key : Option Text
  pub shared : Option Text
  pub aborted : Bool
  pub facts : Facts

-- what `serve` closed over: `server_error_page` is whether there is a _500 page, and it renders,
-- `css_compiles` whether the style sheet compiles, and two questions are asked of the files of `public`
pub record Site (Facts : Type 0) : Type 0 where
  pub render : Bool
  pub dev : Bool
  pub windows : Bool
  pub key : Text
  pub routes : List Page
  pub not_found_page : Bool
  pub server_error_page : Bool
  pub css_compiles : Bool
  pub guard : Option (PageGuard (Request Facts → Params → Facts → Answer Response))
  pub indexed : Text → Bool
  pub exists : Text → Bool

abbrev pub Target : Type 0
Target = Matched (λ (p : Page). p.pattern)

-- Who answers: the server itself, a file, the middleware, or the code of a page, which makes its
-- own response.
pub data Reply : Type 0 where
  forbidden css_compiled css_failed dev_not_found policy_table healthy : Reply
  moved : Text → Reply
  indexed_file file : Text → Reply
  from_middleware : Sent → Reply
  action props shared_render page : Target → Reply
  action_unsupported : Target → Reply
  method_not_allowed not_found_json not_found_page not_found : Reply
  client_gone overlay error_page server_error : Reply

-- the file that answers at once, or the path to probe once no route is found
pub data Probe : Type 0 where
  served : Reply → Probe
  late : Option Text → Probe

module _ {Facts : Type 0} where
  unfoldable pub is_get : Request Facts → Bool
  is_get req = req.asked.method === codes "GET" || req.asked.method === codes "HEAD"

  -- the guard of the asset block
  unfoldable pub may_be_file : Site Facts → Text → Bool
  may_be_file site path =
      not (path === codes "/")
      && not (has_dots path)
      && not (includes b'\\' path)
      && not (includes 0 path)
      && not (in_hidden_directory path)
      && (not site.windows || not (has_windows_mark path))

  unfoldable pub probe_file : Site Facts → Text → Probe
  probe_file site path =
      if site.indexed path
      then served (indexed_file path)
      else if not (has_extension path)
      then late (some path)
      else if site.exists path
      then served (file path)
      else late none

  unfoldable pub probe_asset : Site Facts → Request Facts → Probe
  probe_asset site req =
      let path = safe_decode req.pathname in
      if not site.render && is_get req && may_be_file site path
      then probe_file site path
      else late none

  unfoldable pub decide : Site Facts → Request Facts → Result DecideError (Decision Response)
  decide site req = elim site.guard [
    | none ↦ value (continue req.pathname [])
    | some g ↦ decide_page g req req.pathname req.facts
  ]

  -- whether `runAction` answers: with the action, with the refusal of an enhanced post, or not at all
  unfoldable pub run_action : Request Facts → Option Target → Option Reply
  run_action req none = none
  run_action req (some target) =
      if target.route.has_action
      then some (action target)
      else if is_text req.asked.action (codes "1")
      then some (action_unsupported target)
      else none

  unfoldable pub no_page : Site Facts → Request Facts → Option Text → Reply
  no_page site req (some path) =
      if site.exists path
      then file path
      else if is_props req.asked
      then not_found_json
      else if site.not_found_page
      then not_found_page
      else not_found
  no_page site req none =
      if is_props req.asked
      then not_found_json
      else if site.not_found_page
      then not_found_page
      else not_found

  unfoldable pub render_target : Site Facts → Request Facts → Target → Reply
  render_target site req target =
      if is_props req.asked
      then props target
      else if site.render && is_text req.shared (codes "1")
      then shared_render target
      else page target

  unfoldable pub get_page : Site Facts → Request Facts → Option Text → Option Target → Reply
  get_page site req late_path matched =
      if not (is_get req) then method_not_allowed else elim matched [
        | none ↦ no_page site req late_path
        | some target ↦ render_target site req target
      ]

  unfoldable pub post_action : Request Facts → Option Target → Option Reply
  post_action req matched =
      if req.asked.method === codes "POST" then run_action req matched else none

  -- the doors behind the middleware, for the path it decided on
  unfoldable pub open_door : Site Facts → Request Facts → Option Text → Text → Reply
  open_door site req late_path pathname =
      let matched = match_route (λ (p : Page). p.pattern) pathname site.routes in
      elim (post_action req matched) [
        | some reply ↦ reply
        | none ↦ get_page site req late_path matched
      ]

  -- the reply, and the headers of `next({ headers })` that `fetch` sets on it
  unfoldable pub after_decision :
      Site Facts → Request Facts → Option Text → Decision Response → Reply × Headers
  after_decision site req late_path (Decision.respond response) =
      (from_middleware (answer_for_door req.asked response), [])
  after_decision site req late_path (continue pathname headers) =
      (open_door site req late_path pathname, headers)

  unfoldable pub after_probe :
      Site Facts → Request Facts → Probe → Result DecideError (Reply × Headers)
  after_probe site req (served reply) = value (reply, [])
  after_probe site req (late late_path) = do
    decision ← decide site req
    value (after_decision site req late_path decision)

  abbrev pub handle : Site Facts → Request Facts → Result DecideError (Reply × Headers)
  handle site req = after_probe site req (probe_asset site req)

  -- what the `catch` of `fetch` answers
  unfoldable pub failure : Site Facts → Request Facts → Reply
  failure site req =
      if req.aborted
      then client_gone
      else if site.dev
      then overlay
      else if site.server_error_page
      then error_page
      else server_error

  unfoldable pub or_failure :
      Site Facts → Request Facts → Result DecideError (Reply × Headers) → Reply × Headers
  or_failure site req (value answered) = answered
  or_failure site req (thrown why) = (failure site req, [])

  -- `internalKeyRejects`
  unfoldable pub internal_key_rejects : Site Facts → Request Facts → Bool
  internal_key_rejects site req = elim req.internal_key [
    | none ↦ true
    | some presented ↦ not (keys_equal presented site.key)
  ]

  unfoldable pub dev_channel : Site Facts → Request Facts → Reply
  dev_channel site req =
      if req.asked.method === codes "POST" && req.pathname === codes "/__borgo/dev/css"
      then (if site.css_compiles then css_compiled else css_failed)
      else dev_not_found

  -- `fetch` behind the key and the canonical spelling
  unfoldable pub dispatch : Site Facts → Request Facts → Reply × Headers
  dispatch site req =
      if site.dev && has_prefix (codes "/__borgo/dev") req.pathname
      then (dev_channel site req, [])
      else if site.render && req.pathname === codes "/__borgo/routes"
      then (policy_table, [])
      else if req.pathname === codes "/healthz"
      then (healthy, [])
      else or_failure site req (handle site req)

  unfoldable pub fetch : Site Facts → Request Facts → Reply × Headers
  fetch site req =
      if site.render && internal_key_rejects site req
      then (forbidden, [])
      else if not (canonical_path req.pathname === req.pathname)
      then (moved (canonical_path req.pathname ++ req.search), [])
      else dispatch site req
