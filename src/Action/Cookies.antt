-- ===== src/Action/Cookies.antt =====
-- The cookies of `runAction`: what the api set on the way of an action reaches the browser.
use borgo.Common.{
  ℕ, append-nil, ◌≡◌, ◌≢◌, refl, sym, ap, subst, inl, inr, Bool, true, false, ◌||◌, ◌&&◌, not, List,
  [], ◌∷◌, ◌++◌, Option, none, some, is_empty, Bool-cases, Option-cases, some-eq,
}
use borgo.Text.{Text}
use borgo.Result.{Result, thrown, value, value-eq, >>=-value}
use borgo.Responses.{location_of, Response, with_cookies, carry_headers}
use borgo.Action.{
  Json, Content, Outcome, failed, responded, returned, Post, ActionOptions, action_response,
  redirect_json, is_html, raw_document, after_loader, after_action, error_page, error_page_of,
  if_rendered, native_error, enhanced_error, recover, action_json, page, plain_answer,
  overlay_answer, internal_server_error,
}

-- A response that sets these cookies, one after the other, among its own.
unfoldable pub Sets : {C : Type 0} → List Text → Response C → Type 0
Sets cookies res =
    (own : List Text) × (later : List Text) × (res.set_cookies ≡ own ++ (cookies ++ later))

pub with_cookies-Sets :
    {C : Type 0} (res : Response C) (cookies : List Text) → Sets cookies (with_cookies res cookies)
unfolding with_cookies Sets
with_cookies-Sets res [] = (res.set_cookies, [], sym (append-nil res.set_cookies))
with_cookies-Sets res (c ∷ cookies) =
    (res.set_cookies, [], ap (◌++◌ res.set_cookies) (sym (append-nil (c ∷ cookies))))

pub Sets-value :
    {E C : Type 0} (cookies : List Text) {res sent : Response C}
    → Sets cookies res
    → ◌≡◌ {A = Result E (Response C)} (value res) (value sent)
    → Sets cookies sent
Sets-value cookies sets e = subst (Sets cookies) (value-eq e) sets

pub thrown-not-value : {E A : Type 0} {e : E} {a : A} → ◌≢◌ {A = Result E A} (thrown e) (value a)
thrown-not-value e = cc

module _ {Error Data Document Page : Type 0}
    (options : ActionOptions Error Data Document Page) where
  -- what `runAction` asks of the renderer: its responses set the cookies that it is handed
  unfoldable pub RendererSets : Type 0
  RendererSets =
      (fresh : List Text) (target : Page) (status : ℕ) (extra : Option Data) (cookies : List Text)
      (res : Response (Content Error Document))
      → options.render_page fresh target status extra cookies ≡ value res
      → Sets cookies res

  redirect_json-Sets :
      (sender : Response (Content Error Document)) (location : Text) (cookies : List Text)
      {sent : Response (Content Error Document)}
      → redirect_json options sender location cookies ≡ value sent
      → Sets cookies sent
  unfolding redirect_json
  redirect_json-Sets sender location cookies e =
      let (json, made, sends) =
        >>=-value (action_json options (Json.redirect location) 200 [])
          (λ json. value (with_cookies (carry_headers sender json) cookies)) e in
      Sets-value cookies (with_cookies-Sets (carry_headers sender json) cookies) sends

  action_response-Sets :
      (wants_json : Bool) (res : Response (Content Error Document)) (cookies : List Text)
      {sent : Response (Content Error Document)}
      → action_response options wants_json res cookies ≡ value sent
      → Sets cookies sent
  unfolding action_response
  action_response-Sets false res cookies e = Sets-value cookies (with_cookies-Sets res cookies) e
  action_response-Sets true res cookies e = elim (Option-cases (location_of res)) [
    | inr (location, moves) ↦
        redirect_json-Sets res location cookies (rw (moves, action_response) at e)
    | inl stays ↦ elim (Bool-cases (is_html options res)) [
      | inl html ↦
          Sets-value cookies (with_cookies-Sets (raw_document options res) cookies)
            (rw (stays, html, action_response) at e)
      | inr other ↦
          Sets-value cookies (with_cookies-Sets res cookies)
            (rw (stays, other, action_response) at e)
    ]
  ]

  after_loader-Sets :
      (result : Data) (cookies : List Text) (outcome : Outcome Error Data Document)
      {sent : Response (Content Error Document)}
      → after_loader options result cookies outcome ≡ value sent
      → Sets cookies sent
  unfolding after_loader
  after_loader-Sets result cookies (failed error) e = cc
  after_loader-Sets result cookies (responded loaded) e = elim (Option-cases (location_of loaded)) [
    | inr (location, moves) ↦
        redirect_json-Sets loaded location cookies (rw (moves, after_loader) at e)
    | inl stays ↦
        Sets-value cookies (with_cookies-Sets loaded cookies) (rw (stays, after_loader) at e)
  ]
  after_loader-Sets result cookies (returned props) e =
      let (json, made, sends) =
        >>=-value (action_json options (page props result) 200 [])
          (λ json. value (with_cookies json cookies)) e in
      Sets-value cookies (with_cookies-Sets json cookies) sends

  pub after_action-Sets :
      (wants_json : Bool) (target : Page) (cookies : List Text)
      (outcome : Outcome Error Data Document) {sent : Response (Content Error Document)}
      → RendererSets
      → (after_action options wants_json target cookies outcome).1 ≡ value sent
      → Sets (after_action options wants_json target cookies outcome).0 sent
  unfolding after_action RendererSets
  after_action-Sets wants_json target cookies (failed error) renders e = cc
  after_action-Sets wants_json target cookies (responded res) renders e =
      action_response-Sets wants_json res cookies e
  after_action-Sets true target cookies (returned result) renders e =
      after_loader-Sets result (cookies ++ (options.run_loader cookies target).0)
        (options.run_loader cookies target).1 e
  after_action-Sets false target cookies (returned result) {sent} renders e =
      renders cookies target 200 (some result) cookies sent e

  if_rendered-value :
      (result : Result Error (Response (Content Error Document)))
      {rendered : Response (Content Error Document)}
      → if_rendered options result ≡ some rendered
      → result ≡ value rendered
  if_rendered-value (value res) e = ap value (some-eq e)
  if_rendered-value (thrown error) e = cc

  error_page_of-Sets :
      (target : Option Page) (cookies : List Text) (rendered : Response (Content Error Document))
      → RendererSets
      → error_page_of options target cookies ≡ some rendered
      → Sets cookies rendered
  unfolding RendererSets
  error_page_of-Sets none cookies rendered renders made = cc
  error_page_of-Sets (some target) cookies rendered renders made =
      renders [] target 500 none cookies rendered (if_rendered-value _ made)

  rendered-Sets :
      (cookies : List Text) (rendered : Response (Content Error Document))
      → RendererSets
      → error_page options cookies ≡ some rendered
      → Sets cookies rendered
  unfolding error_page
  rendered-Sets cookies rendered renders made =
      error_page_of-Sets options.server_error cookies rendered renders made

  native_error-Sets :
      (error : Error) (cookies : List Text)
      → RendererSets
      → Sets cookies (native_error options error cookies)
  unfolding native_error error_page RendererSets
  native_error-Sets error cookies renders = elim (Bool-cases options.dev) [
    | inl dev ↦ rw dev (with_cookies-Sets (overlay_answer options error) cookies)
    | inr production ↦ elim (Option-cases (error_page options cookies)) [
      | inl none_made ↦
          rw (production, none_made)
            (with_cookies-Sets (plain_answer options 500 internal_server_error) cookies)
      | inr (rendered, made) ↦ rw (production, made) (rendered-Sets cookies rendered renders made)
    ]
  ]

  enhanced_error-Sets :
      (error : Error) (cookies : List Text) → Sets cookies (enhanced_error options error cookies)
  unfolding enhanced_error
  enhanced_error-Sets error cookies = elim (Bool-cases options.dev) [
    | inl dev ↦
        simp dev (with_cookies-Sets (raw_document options (overlay_answer options error)) cookies)
    | inr production ↦ elim (Option-cases (error_page options [])) [
      | inl none_made ↦
          simp (production, none_made)
            (with_cookies-Sets
              (raw_document options (plain_answer options 500 internal_server_error)) cookies)
      | inr (rendered, made) ↦
          simp (production, made) (with_cookies-Sets (raw_document options rendered) cookies)
    ]
  ]

  pub recover-Sets :
      (post : Post) (cookies : List Text)
      (result : Result Error (Response (Content Error Document)))
      {sent : Response (Content Error Document)}
      → RendererSets
      → ((res : Response (Content Error Document)) → result ≡ value res → Sets cookies res)
      → recover options post cookies result ≡ value sent
      → Sets cookies sent
  unfolding recover
  recover-Sets post cookies (value res) renders sets e = Sets-value cookies (sets res refl) e
  recover-Sets post cookies (thrown error) renders sets e =
      elim (Bool-cases (post.aborted || (not post.wants_json && is_empty cookies))) [
        | inl again ↦ absurd (thrown-not-value (rw again at e))
        | inr handled ↦ elim (Bool-cases post.wants_json) [
          | inl json ↦
              Sets-value cookies (enhanced_error-Sets error cookies) (rw (handled, json) at e)
          | inr native ↦
              Sets-value cookies (native_error-Sets error cookies renders)
                (rw (handled, native) at e)
        ]
      ]
