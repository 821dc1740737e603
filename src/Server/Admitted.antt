-- ===== src/Server/Admitted.antt =====
-- `fetch` of `serve`: what stands before the code of a page.
use borgo.Common.{
  ◌≡◌, refl, sym, subst, ◌∙◌, inl, inr, true, false, Bool-cases, some-eq, ◌&&◌, [], Option, none,
  some, Option-cases,
}
use mathlib.Core.Path.{subst₂}
use borgo.Text.{Text}
use borgo.Result.{Result, thrown, ◌>>=◌, value, value-eq}
use borgo.Params.{Params}
use borgo.Canonical.{canonical_path}
use borgo.Router.{match_route}
use borgo.Guard.Boot.{PageGuard, covers}
use borgo.Guard.Decide.{
  Headers, Answer, Decision, DecideError, continue, Allows, decide_page-continue, continue-eq,
}
use borgo.Guard.Decide.Doors.{Response}
use borgo.Server.{
  Page, Request, Site, Reply, Probe, served, late, decide, after_decision, failure, or_failure,
  after_probe, fetch, probe_asset, internal_key_rejects,
}
use borgo.Server.Reach.{Silent, none-not-some, fetch-reaches}
use borgo.Server.Files.{Served, from_index, from_disk, probe_asset-Served}
use borgo.Server.Doors.{runs_page, Code, error_code, Opened, open_door-Opened}

abbrev PageMiddleware : Type 0 → Type 0
PageMiddleware Facts = PageGuard (Request Facts → Params → Facts → Answer Response)

silent : Silent runs_page
silent = record {
  at_forbidden = refl;
  at_moved = λ path. refl;
  at_css_compiled = refl;
  at_css_failed = refl;
  at_dev_not_found = refl;
  at_policy_table = refl;
  at_healthy = refl;
  at_client_gone = refl;
  at_overlay = refl;
  at_server_error = refl;
}

module _ {Facts : Type 0} where
  -- How a request came to be answered for this path, with these headers added.
  pub data Admitted (site : Site Facts) (req : Request Facts) : Text → Headers → Type 0 where
    unguarded : site.guard ≡ none → Admitted site req req.pathname []
    uncovered :
        {g : PageMiddleware Facts}
        → site.guard ≡ some g
        → covers g req.pathname ≡ none
        → Admitted site req req.pathname []
    allowed :
        {g : PageMiddleware Facts} {params : Params} {pathname : Text} {headers : Headers}
        → site.guard ≡ some g
        → covers g req.pathname ≡ some params
        → Allows req.pathname (g.run req params req.facts) pathname headers
        → Admitted site req pathname headers

  decide-Admitted :
      (site : Site Facts) (req : Request Facts) {pathname : Text} {headers : Headers}
      → decide site req ≡ value (continue pathname headers)
      → Admitted site req pathname headers
  unfolding decide
  decide-Admitted site req e = elim (Option-cases site.guard) [
    | inl no_guard ↦
        let (same, sames) = continue-eq (value-eq (rw no_guard at e)) in
        subst₂ (Admitted site req) same sames (unguarded no_guard)
    | inr (g, guards) ↦ elim (decide_page-continue g req req.pathname req.facts (rw guards at e)) [
      | inl (free, same, sames) ↦
          subst₂ (Admitted site req) (sym same) (sym sames) (uncovered guards free)
      | inr (params, found, allows) ↦ allowed guards found allows
    ]
  ]

  probe_asset-none :
      (site : Site Facts) (req : Request Facts) {reply : Reply}
      → probe_asset site req ≡ served reply
      → runs_page reply ≡ none
  probe_asset-none site req e = served-none (probe_asset-Served site req e)
    where
      served-none : {reply : Reply} → Served site req reply → runs_page reply ≡ none
      served-none (from_index servable listed) = refl
      served-none (from_disk servable named there) = refl

  -- Why the code of a page runs first for a request, with these headers added.
  pub data Reason (site : Site Facts) (req : Request Facts) : Code → Headers → Type 0 where
    opened :
        {pathname : Text} {headers : Headers} {code : Code}
        → Admitted site req pathname headers
        → Opened site req (match_route (λ (p : Page). p.pattern) pathname site.routes) code
        → Reason site req code headers
    undecided :
        {why : DecideError}
        → decide site req ≡ thrown why
        → req.aborted ≡ false
        → site.dev ≡ false
        → site.server_error_page ≡ true
        → Reason site req error_code []

  after_decision-Reason :
      (site : Site Facts) (req : Request Facts) (late_path : Option Text)
      (decision : Decision Response) {code : Code}
      → decide site req ≡ value decision
      → runs_page (after_decision site req late_path decision).0 ≡ some code
      → Reason site req code (after_decision site req late_path decision).1
  unfolding after_decision
  after_decision-Reason site req late_path (Decision.respond response) decided h =
      absurd (none-not-some h)
  after_decision-Reason site req late_path (continue pathname headers) decided h =
      opened (decide-Admitted site req decided) (open_door-Opened site req late_path pathname h)

  failure-Reason :
      (site : Site Facts) (req : Request Facts) {why : DecideError} {code : Code}
      → decide site req ≡ thrown why
      → runs_page (failure site req) ≡ some code
      → Reason site req code []
  unfolding failure
  failure-Reason site req decided h = elim (Bool-cases req.aborted) [
    | inl gone ↦ absurd (none-not-some (simp gone at h))
    | inr waits ↦ elim (Bool-cases site.dev) [
      | inl dev ↦ absurd (none-not-some (simp (waits, dev) at h))
      | inr production ↦ elim (Bool-cases site.server_error_page) [
        | inl there ↦
            subst (λ (c : Code). Reason site req c [])
              (some-eq (simp (waits, production, there) at h))
              (undecided decided waits production there)
        | inr missing ↦ absurd (none-not-some (simp (waits, production, missing) at h))
      ]
    ]
  ]

  or_failure-Reason :
      (site : Site Facts) (req : Request Facts) (late_path : Option Text)
      (decision : Result DecideError (Decision Response)) {code : Code}
      → decide site req ≡ decision
      → runs_page
          (or_failure site req
            (decision >>= λ (d : Decision Response). value (after_decision site req late_path d))).0
        ≡ some code
      → Reason site req code
          (or_failure site req
            (decision >>= λ (d : Decision Response). value (after_decision site req late_path d))).1
  unfolding or_failure
  or_failure-Reason site req late_path (value decision) decided h =
      after_decision-Reason site req late_path decision decided h
  or_failure-Reason site req late_path (thrown why) decided h = failure-Reason site req decided h

  after_probe-Reason :
      (site : Site Facts) (req : Request Facts) (probe : Probe) {code : Code}
      → probe_asset site req ≡ probe
      → runs_page (or_failure site req (after_probe site req probe)).0 ≡ some code
      → Reason site req code (or_failure site req (after_probe site req probe)).1
  unfolding after_probe or_failure
  after_probe-Reason site req (served reply) same h =
      absurd (none-not-some (sym (probe_asset-none site req same) ∙ h))
  after_probe-Reason site req (late late_path) same h =
      or_failure-Reason site req late_path (decide site req) refl h

  -- What a request has passed for which the code of a page runs.
  pub record RunsPage (site : Site Facts) (req : Request Facts) (code : Code) (headers : Headers)
      : Type 0 where
    pub known : (site.render && internal_key_rejects site req) ≡ false
    pub canonical : canonical_path req.pathname ≡ req.pathname
    pub reason : Reason site req code headers

  -- The first code of a page that `fetch` runs is run only for a request with the key of the boot, if
  -- the process renders for the front, and at a canonical path. It is that of the first route of the
  -- path that the middleware let it go on to, for a read or for a post to a page with an action, with
  -- the headers that the middleware added; or, likewise, that of the _404 page, for a read of a
  -- document at a path with no route; or that of the _500 page, in production, when the middleware
  -- threw or its answer was refused and the client still waits.
  pub fetch-RunsPage :
      (site : Site Facts) (req : Request Facts) {code : Code}
      → runs_page (fetch site req).0 ≡ some code
      → RunsPage site req code (fetch site req).1
  fetch-RunsPage site req {code} h =
      let (known, canonical, reached) = fetch-reaches silent site req h in
      let asked = subst (λ (r : Reply × Headers). runs_page r.0 ≡ some code) reached h in
      let reason = after_probe-Reason site req (probe_asset site req) refl asked in
      record {
        known = known;
        canonical = canonical;
        reason = subst (λ (r : Reply × Headers). Reason site req code r.1) (sym reached) reason;
      }
