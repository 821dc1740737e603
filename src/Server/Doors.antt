-- ===== src/Server/Doors.antt =====
-- Behind which decisions `serve` runs the code of a page.
use borgo.Common.{
  ◌≡◌, ◌≢◌, refl, sym, ap, ◌∙◌, inl, inr, true, Option, none, some, arith, Option-cases, Bool-cases,
  some-eq, ◌⊎◌, Bool, false, subst, if◌then◌else◌,
}
use borgo.Text.{Text, codes, ◌===◌}
use borgo.Router.{match_route}
use borgo.Guard.Decide.Doors.{is_text, is_props}
use borgo.Server.{
  Page, Request, Site, Target, Reply, action, props, shared_render, page, run_action, post_action,
  not_found_json, not_found_page, not_found, error_page, render_target, no_page, get_page,
  open_door, is_get,
}

-- the code of a page: of the page of a route, of the _404 page or of the _500 page
pub data Code : Type 0 where
  route : Target → Code
  not_found_code error_code : Code

-- the page whose code a reply runs
abbrev pub runs_page : Reply → Option Code
runs_page (action target) = some (route target)
runs_page (props target) = some (route target)
runs_page (shared_render target) = some (route target)
runs_page (page target) = some (route target)
runs_page not_found_page = some not_found_code
runs_page error_page = some error_code
runs_page _ = none

none≢some : {A : Type 0} {a : A} → ◌≢◌ {A = Option A} none (some a)
none≢some e = cc

runs_not_found :
    (wants there : Bool) {code : Code}
    → runs_page (if wants then not_found_json else if there then not_found_page else not_found)
      ≡ some code
    → (wants ≡ false) × (there ≡ true) × (not_found_code ≡ code)
runs_not_found true there h = cc
runs_not_found false true h = (refl, refl, some-eq h)
runs_not_found false false h = cc

module _ {Facts : Type 0} where
  -- The method that the code of a page asks for: a read, or a post to a page with an action.
  abbrev pub Asks : Request Facts → Target → Type 0
  Asks req target =
      (is_get req ≡ true)
      ⊎ (((req.asked.method === codes "POST") ≡ true) × (target.route.has_action ≡ true))

  -- Whose code runs behind the middleware, by what the router found: the page of the route, or the
  -- _404 page for a read of a document where no route is found and no file is there.
  pub data Opened (site : Site Facts) (req : Request Facts) : Option Target → Code → Type 0 where
    to_route : {target : Target} → Asks req target → Opened site req (some target) (route target)
    to_not_found :
        is_get req ≡ true
        → is_props req.asked ≡ false
        → site.not_found_page ≡ true
        → Opened site req none not_found_code

  no_page-code :
      (site : Site Facts) (req : Request Facts) (late_path : Option Text) {code : Code}
      → runs_page (no_page site req late_path) ≡ some code
      → (is_props req.asked ≡ false) × (site.not_found_page ≡ true) × (not_found_code ≡ code)
  unfolding no_page
  no_page-code site req none h = runs_not_found (is_props req.asked) site.not_found_page h
  no_page-code site req (some path) h = elim (Bool-cases (site.exists path)) [
    | inl there ↦ absurd (none≢some (rw there at h))
    | inr missing ↦ runs_not_found (is_props req.asked) site.not_found_page (rw missing at h)
  ]

  render_target-code :
      (site : Site Facts) (req : Request Facts) (target : Target)
      → runs_page (render_target site req target) ≡ some (route target)
  unfolding render_target
  render_target-code site req target = ground arith

  get_page-Opened :
      (site : Site Facts) (req : Request Facts) (late_path : Option Text) (matched : Option Target)
      {code : Code}
      → runs_page (get_page site req late_path matched) ≡ some code
      → Opened site req matched code
  unfolding get_page
  get_page-Opened site req late_path none h = elim (Bool-cases (is_get req)) [
    | inl gets ↦
        let (document, there, same) = no_page-code site req late_path (rw gets at h) in
        subst (Opened site req none) same (to_not_found gets document there)
    | inr other ↦ absurd (none≢some (rw other at h))
  ]
  get_page-Opened site req late_path (some found) h = elim (Bool-cases (is_get req)) [
    | inl gets ↦
        let same = some-eq (sym (render_target-code site req found) ∙ rw gets at h) in
        subst (Opened site req (some found)) same (to_route (inl gets))
    | inr other ↦ absurd (none≢some (rw other at h))
  ]

  run_action-acts :
      (req : Request Facts) (found : Target)
      → found.route.has_action ≡ true
      → run_action req (some found) ≡ some (action found)
  unfolding run_action
  run_action-acts req found acts = rw acts refl

  run_action-Opened :
      (site : Site Facts) (req : Request Facts) (matched : Option Target) {reply : Reply}
      {code : Code}
      → (req.asked.method === codes "POST") ≡ true
      → run_action req matched ≡ some reply
      → runs_page reply ≡ some code
      → Opened site req matched code
  unfolding run_action
  run_action-Opened site req none posts e h = cc
  run_action-Opened site req (some found) posts e h = elim (Bool-cases found.route.has_action) [
    | inl acts ↦
        let ran = some-eq (sym (run_action-acts req found acts) ∙ e) in
        let same = some-eq (ap runs_page ran ∙ h) in
        subst (Opened site req (some found)) same (to_route (inr (posts, acts)))
    | inr idle ↦ absurd (ground (arith, is_text))
  ]

  post_action-Opened :
      (site : Site Facts) (req : Request Facts) (matched : Option Target) {reply : Reply}
      {code : Code}
      → post_action req matched ≡ some reply
      → runs_page reply ≡ some code
      → Opened site req matched code
  unfolding post_action
  post_action-Opened site req matched e h = elim (Bool-cases (req.asked.method === codes "POST")) [
    | inl posts ↦ run_action-Opened site req matched posts (rw posts at e) h
    | inr other ↦ absurd (none≢some (rw other at e))
  ]

  pub open_door-Opened :
      (site : Site Facts) (req : Request Facts) (late_path : Option Text) (pathname : Text)
      {code : Code}
      → runs_page (open_door site req late_path pathname) ≡ some code
      → Opened site req (match_route (λ (p : Page). p.pattern) pathname site.routes) code
  unfolding open_door
  open_door-Opened site req late_path pathname h = elim (Option-cases (post_action req matched)) [
    | inl passed ↦ get_page-Opened site req late_path matched (rw (passed, open_door) at h)
    | inr (reply, answered) ↦
        post_action-Opened site req matched answered (rw (answered, open_door) at h)
  ]
    where
      matched : Option Target
      matched = match_route (λ (p : Page). p.pattern) pathname site.routes
