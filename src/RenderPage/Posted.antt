-- ===== src/RenderPage/Posted.antt =====
-- Posts to a page, with `renderPage` as the renderer of `runAction`.
use borgo.Common.{◌≡◌, Bool, true, false, List, [], ◌∷◌, ◌++◌, Option, none, some}
use borgo.Text.{Text, codes}
use borgo.Params.{Params, get}
use borgo.Result.{Result, thrown, value}
use borgo.Responses.{Response}
use borgo.Body.{Stream, Limited, refused}
use borgo.Csrf.{csrf_rejects}
use borgo.Jar.{fresh_cookie_request}
use borgo.Action.{
  Content, Outcome, failed, responded, returned, Post, ActionOptions, refusal, plain_answer,
  too_large,
}
use borgo.Action.Cookies.{Sets}
use borgo.RenderPage.{Document, PageModule, RenderOptions, Visit, render_page}

abbrev cookie_headers : Option Text → Params
cookie_headers none = []
cookie_headers (some header) = (codes "cookie", header) ∷ []

-- A post's render sees the cookies as the calls before it left them.
module _ {Error Data : Type 0} (pages : RenderOptions Error Data) (is_past : Text → Bool)
    (accept : Option Text) where
  abbrev pub Answer : Type 0
  Answer = Response (Content Error Document)

  -- what the render reads of `freshCookieRequest`
  unfoldable pub fresh_visit : Post → List Text → Visit
  unfolding fresh_cookie_request get
  fresh_visit post fresh = record {
    cookie_header =
        get (codes "cookie")
          (fresh_cookie_request is_past (cookie_headers post.cookie_header) fresh);
    accept_encoding = accept;
  }

  -- the options of `runAction` with this renderer and its loader
  unfoldable pub rendering :
      Post
      → ActionOptions Error Data Document (PageModule Error Data)
      → ActionOptions Error Data Document (PageModule Error Data)
  unfolding fresh_visit render_page
  rendering post options = record options {
    run_loader = pages.run_loader;
    render_page = λ fresh. render_page pages (fresh_visit post fresh) fresh;
  }

  module _ (options : ActionOptions Error Data Document (PageModule Error Data)) (post : Post)
      (target : PageModule Error Data) where
    -- the cookies collected when a native post has rendered its page, or thrown from the render
    abbrev pub of_render : List Text → Result Error Answer → List Text
    of_render cookies (value res) = cookies ++ (pages.run_loader cookies target).0
    of_render cookies (thrown error) = cookies

    -- The cookies that go set for a post, by what its action did: those of the action's calls; behind
    -- an action that gave data, also those of the loader's, but for a document whose render threw.
    abbrev pub collected : Bool → List Text × Outcome Error Data Document → List Text
    collected true (cookies, returned result) = cookies ++ (pages.run_loader cookies target).0
    collected false (cookies, returned result) =
        of_render cookies
          (render_page pages (fresh_visit post cookies) cookies target 200 (some result) cookies)
    collected wants_json (cookies, failed error) = cookies
    collected wants_json (cookies, responded res) = cookies

    -- How a post to a page with an action was answered, by what its limited body was.
    pub data Posted (run : Limited → List Text × Outcome Error Data Document) (limited : Limited)
        : Answer → Type 0 where
      over_limit :
          (unread : Stream)
          → limited ≡ refused unread
          → Posted run limited
              (plain_answer (rendering post options) 413 (too_large options.max_body))
      no_token :
          {sent : Answer}
          → csrf_rejects options.csrf_enforced post.cookie_header post.token ≡ true
          → refusal (rendering post options) post ≡ value sent
          → Posted run limited sent
      ran :
          {sent : Answer}
          → csrf_rejects options.csrf_enforced post.cookie_header post.token ≡ false
          → Sets (collected post.wants_json (run limited)) sent
          → Posted run limited sent
