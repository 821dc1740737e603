-- ===== src/RenderPage/Rendered.antt =====
-- What a page is rendered to.
use borgo.Common.{
  ℕ, ◌≡◌, refl, Bool, true, false, List, [], ◌∷◌, ◌++◌, Option, is_empty, Bool-cases, inl, inr,
  subst,
}
use borgo.Text.{Text}
use borgo.Result.{value, >>=-value, value-eq}
use borgo.Responses.{Response, with_cookies}
use borgo.Csrf.{csrf_cookie_value}
use borgo.Action.{Content, document, Outcome, failed, responded, returned}
use borgo.Html.{resolve_head}
use borgo.RenderPage.{
  Document, PageModule, RenderOptions, Visit, csrf_token, token_cookie, minted, given_nonce,
  props_json, with_extra, render_props, after_load, render_page,
}

module _ {Error Data : Type 0} (options : RenderOptions Error Data) (visit : Visit) where
  -- Which token a page is rendered with, and the cookies that are minted for it: none in a copy that
  -- is shared, the one of the request, or a fresh one in a cookie.
  pub data Token : Text → List Text → Type 0 where
    shared : options.shared_render ≡ true → Token [] []
    known :
        options.shared_render ≡ false
        → is_empty (csrf_cookie_value visit.cookie_header) ≡ false
        → Token (csrf_cookie_value visit.cookie_header) []
    fresh :
        options.shared_render ≡ false
        → csrf_cookie_value visit.cookie_header ≡ []
        → Token (options.random 0) (token_cookie options visit (options.random 0) ∷ [])

  -- How a page was rendered, by what its loader did.
  pub data IsRendered (target : PageModule Error Data) (extra : Option Data) (cookies : List Text)
      : Outcome Error Data Document → Response (Content Error Document) → Type 0 where
    short :
        (res : Response (Content Error Document))
        → IsRendered target extra cookies (responded res) (with_cookies res cookies)
    shown :
        {loaded : Data} {res : Response (Content Error Document)} {token : Text} {made : List Text}
        {chunks : List Text} {fails : Bool} {content : Document}
        → Token token made
        → res.set_cookies ≡ cookies ++ made
        → target.render (with_extra options visit extra loaded) token (given_nonce options visit)
          ≡ value (chunks, fails)
        → res.content ≡ document content
        → content.chunks ≡ chunks
        → IsRendered target extra cookies (returned loaded) res

  no_cookie : (t : Text) → is_empty t ≡ true → t ≡ []
  no_cookie [] e = refl
  no_cookie (c ∷ t) e = cc

  Token-Token : Token (csrf_token options visit) (minted options visit)
  unfolding csrf_token minted
  Token-Token = elim (Bool-cases options.shared_render) [
    | inl e ↦ simp e (shared e)
    | inr e ↦ elim (Bool-cases (is_empty (csrf_cookie_value visit.cookie_header))) [
      | inl none_there ↦
          simp (e, none_there)
            (fresh e (no_cookie (csrf_cookie_value visit.cookie_header) none_there))
      | inr there ↦ simp (e, there) (known e there)
    ]
  ]

  render_props-IsRendered :
      (target : PageModule Error Data) (status : ℕ) (extra : Option Data) (cookies : List Text)
      (loaded : Data) {res : Response (Content Error Document)}
      → render_props options visit target status cookies (with_extra options visit extra loaded)
        ≡ value res
      → IsRendered target extra cookies (returned loaded) res
  unfolding render_props
  render_props-IsRendered target status extra cookies loaded e =
      let props = with_extra options visit extra loaded in
      let (json, made, f) = >>=-value (props_json options visit target props) _ e in
      let (head, found, g) = >>=-value (resolve_head target.head props) _ f in
      let (stream, drawn, h) =
        >>=-value (target.render props (csrf_token options visit) (given_nonce options visit)) _
          g in
      subst (IsRendered target extra cookies (returned loaded)) (value-eq h)
        (shown Token-Token refl drawn refl refl)

  after_load-IsRendered :
      (target : PageModule Error Data) (status : ℕ) (extra : Option Data) (cookies : List Text)
      (outcome : Outcome Error Data Document) {res : Response (Content Error Document)}
      → after_load options visit target status extra cookies outcome ≡ value res
      → IsRendered target extra cookies outcome res
  unfolding after_load
  after_load-IsRendered target status extra cookies (failed error) e = cc
  after_load-IsRendered target status extra cookies (responded res) e =
      subst (IsRendered target extra cookies (responded res)) (value-eq e) (short res)
  after_load-IsRendered target status extra cookies (returned loaded) e =
      render_props-IsRendered target status extra cookies loaded e

  -- A page that is answered was short-circuited by a response of its loader, which then sets all
  -- cookies collected, or shows the loader's data. It then sets all cookies collected and at most
  -- one more, which holds the token that the page is rendered with: a copy that is shared has no token
  -- and mints none, and otherwise it is the token of the request's cookies, or a fresh one if there is
  -- none.
  pub render_page-IsRendered :
      (given : List Text) (target : PageModule Error Data) (status : ℕ) (extra : Option Data)
      (cookies : List Text) {res : Response (Content Error Document)}
      → render_page options visit given target status extra cookies ≡ value res
      → IsRendered target extra
          (cookies ++ (options.run_loader given target).0)
          (options.run_loader given target).1
          res
  unfolding render_page
  render_page-IsRendered given target status extra cookies e =
      after_load-IsRendered target status extra (cookies ++ (options.run_loader given target).0)
        (options.run_loader given target).1 e
