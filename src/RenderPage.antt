-- ===== src/RenderPage.antt =====
-- `renderPage` of packages/borgo/src/util.ts: the document of a page.
pub mod Rendered
pub mod Posted
use borgo.Common.{
  ℕ, Bool, true, false, ◌&&◌, not, List, [], ◌∷◌, ◌++◌, Option, none, some, is_empty, if◌then◌else◌,
}
use borgo.Text.{Text, codes}
use borgo.Params.{Params}
use borgo.Result.{Result, thrown, value, ◌>>=◌}
use borgo.Responses.{Response, with_cookies}
use borgo.Csrf.{csrf_cookie, csrf_cookie_value}
use borgo.Settings.Security.{Security, needs_nonce, csp_for}
use borgo.Assets.Encoding.{Weight, pick_encoding}
use borgo.Action.{Content, document, Outcome, failed, responded, returned}
use borgo.Html.{Head, head_html, HeadExport, resolve_head, script_json}

-- `ShellParts` but for the title, which only the browser reads
pub record Shell : Type 0 where
  pub start : Text
  pub head : Text × Text
  pub head_no_title : Text × Text
  pub end_props : Text × Text
  pub zero_js_plain : Text
  pub zero_js_islands : Text
  pub state_tail : Text

-- What `documentStream` is given: the text before the chunks that the renderer gives, whether it throws
-- behind them, and the text after them.
pub record Document : Type 0 where
  pub start : Text
  pub chunks : List Text
  pub fails : Bool
  pub end : Text
  pub is_gzipped : Bool

-- A page, with its component in its layouts: `render` is told the props, the token and the nonce.
pub record PageModule (Error Data : Type 0) : Type 0 where
  pub hydrates : Bool
  pub islands : Bool
  pub head : HeadExport Error Data
  pub render : Data → Text → Option Text → Result Error (List Text × Bool)

-- `RenderPageOptions`. `random` numbers the draws of `randomToken`, `json_of` is `JSON.stringify` and
-- `merge` the spread of two objects.
pub record RenderOptions (Error Data : Type 0) : Type 0 where
  pub dev : Bool
  pub shell : Shell
  pub security : Option Security
  pub csrf_cookie_attrs : Text
  pub shared_render : Bool
  pub redact_text : Text → Text
  pub random : ℕ → Text
  pub json_of : Data → Result Error Text
  pub merge : Data → Data → Data
  pub number : Text → Weight
  pub run_loader : List Text → PageModule Error Data → List Text × Outcome Error Data Document

-- what is read of the request
pub record Visit : Type 0 where
  pub cookie_header : Option Text
  pub accept_encoding : Option Text

module _ {Error Data : Type 0} (options : RenderOptions Error Data) (visit : Visit) where
  abbrev pub cookie_token : Text
  cookie_token = if options.shared_render then [] else csrf_cookie_value visit.cookie_header

  abbrev pub mints : Bool
  mints = is_empty cookie_token && not options.shared_render

  unfoldable pub csrf_token : Text
  csrf_token =
      if options.shared_render
      then []
      else if is_empty cookie_token
      then options.random 0
      else cookie_token

  abbrev pub token_cookie : Text → Text
  token_cookie token =
      csrf_cookie ++ (codes "=" ++ (token ++ (codes "; " ++ options.csrf_cookie_attrs)))

  unfoldable pub minted : List Text
  unfolding csrf_token
  minted = if mints then token_cookie csrf_token ∷ [] else []

  abbrev nonce_of : Option Security → Text
  nonce_of none = []
  nonce_of (some security) =
      if needs_nonce security then options.random (if mints then 1 else 0) else []

  unfoldable pub nonce : Text
  nonce = nonce_of options.security

  -- `nonce || undefined`
  abbrev pub given_nonce : Option Text
  given_nonce = if is_empty nonce then none else some nonce

  abbrev redacted : Result Error Text → Result Error Text
  redacted (thrown error) = thrown error
  redacted (value json) = value (options.redact_text (script_json json))

  unfoldable pub props_json : PageModule Error Data → Data → Result Error Text
  unfolding script_json
  props_json target props = if target.hydrates then redacted (options.json_of props) else value []

  abbrev within_head : Text × Text → Text → Text
  within_head (before, after) injected = before ++ (injected ++ after)

  unfoldable pub start_of : Head → Text
  unfolding head_html
  start_of head =
      let injected = options.redact_text (head_html head) in
      if is_empty injected
      then options.shell.start
      else if is_empty head.title
      then within_head options.shell.head injected
      else within_head options.shell.head_no_title injected

  unfoldable pub end_of : PageModule Error Data → Text → Text
  unfolding nonce
  end_of target json =
      let tag =
        if is_empty nonce
        then codes "<script>"
        else codes "<script nonce=\"" ++ (nonce ++ codes "\">") in
      if not target.hydrates
      then (if target.islands then options.shell.zero_js_islands else options.shell.zero_js_plain)
      else options.shell.end_props.0
        ++ (tag
            ++ (codes "window.__PROPS__="
                ++ (json ++ (options.shell.state_tail ++ options.shell.end_props.1))))

  abbrev csp_of : Option Security → Params
  csp_of none = []
  csp_of (some security) =
      if is_empty nonce then [] else (codes "content-security-policy", csp_for security nonce) ∷ []

  unfoldable pub page_csp : Params
  page_csp = csp_of options.security

  abbrev is_some : Option Text → Bool
  is_some none = false
  is_some (some t) = true

  unfoldable pub gzips : Bool
  gzips =
      not options.dev
      && is_some (pick_encoding options.number visit.accept_encoding (codes "gzip" ∷ []))

  unfoldable pub page_headers : Params
  unfolding page_csp gzips
  page_headers =
      (codes "content-type", codes "text/html; charset=utf-8")
      ∷ ((codes "cache-control", codes "private, no-store")
          ∷ ((codes "vary", codes "Accept-Encoding")
              ∷ (page_csp
                  ++ (if gzips then (codes "content-encoding", codes "gzip") ∷ [] else []))))

  -- the render of a page with its props
  unfoldable pub render_props :
      PageModule Error Data
      → ℕ
      → List Text
      → Data
      → Result Error (Response (Content Error Document))
  unfolding csrf_token minted props_json start_of end_of page_headers gzips resolve_head
  render_props target status cookies props = do
    json ← props_json target props
    head ← resolve_head target.head props
    stream ← target.render props csrf_token given_nonce
    value (record {
      status = status;
      headers = page_headers;
      set_cookies = cookies ++ minted;
      content = document (record {
        start = start_of head;
        chunks = stream.0;
        fails = stream.1;
        end = end_of target json;
        is_gzipped = gzips;
      });
    })

  abbrev pub with_extra : Option Data → Data → Data
  with_extra none loaded = loaded
  with_extra (some extra) loaded = options.merge loaded extra

  unfoldable pub after_load :
      PageModule Error Data
      → ℕ
      → Option Data
      → List Text
      → Outcome Error Data Document
      → Result Error (Response (Content Error Document))
  unfolding render_props
  after_load target status extra cookies (failed error) = thrown error
  after_load target status extra cookies (responded res) = value (with_cookies res cookies)
  after_load target status extra cookies (returned loaded) =
      render_props target status cookies (with_extra extra loaded)

  unfoldable pub render_page :
      List Text
      → PageModule Error Data
      → ℕ
      → Option Data
      → List Text
      → Result Error (Response (Content Error Document))
  unfolding after_load
  render_page fresh target status extra cookies =
      let ran = options.run_loader fresh target in
      after_load target status extra (cookies ++ ran.0) ran.1
