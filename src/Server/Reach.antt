-- ===== src/Server/Reach.antt =====
-- `fetch` of `serve`: which of its replies can only come from `handle`.
use borgo.Common.{
  ◌≡◌, ◌≢◌, refl, sym, ap, subst, ◌∙◌, Bool, true, false, ◌&&◌, not, [], ◌++◌, Option, none, some,
  if◌then◌else◌, arith,
}
use borgo.Text.{has_prefix, Text, codes, ◌===◌, ===_iff}
use borgo.Result.{Result, thrown, value}
use borgo.Canonical.{canonical_path}
use borgo.Guard.Decide.{Headers, DecideError}
use borgo.Server.{
  Request, Site, Reply, forbidden, css_compiled, css_failed, dev_not_found, policy_table, healthy,
  moved, client_gone, overlay, error_page, server_error, handle, fetch, dispatch,
  internal_key_rejects, or_failure, failure, dev_channel,
}

pub none-not-some : {A : Type 0} {a : A} → ◌≢◌ {A = Option A} none (some a)
none-not-some e = cc

-- A question about replies that none of the server's own answers, but perhaps the _500 page.
pub record Silent {A : Type 0} (question : Reply → Option A) : Type 0 where
  pub at_forbidden : question forbidden ≡ none
  pub at_moved : (path : Text) → question (moved path) ≡ none
  pub at_css_compiled : question css_compiled ≡ none
  pub at_css_failed : question css_failed ≡ none
  pub at_dev_not_found : question dev_not_found ≡ none
  pub at_policy_table : question policy_table ≡ none
  pub at_healthy : question healthy ≡ none
  pub at_client_gone : question client_gone ≡ none
  pub at_overlay : question overlay ≡ none
  pub at_server_error : question server_error ≡ none

module _ {A : Type 0} (question : Reply → Option A) where
  passes :
      (test : Bool) (reply : Reply) {rest : Reply × Headers} {a : A}
      → question reply ≡ none
      → question (if test then (reply, []) else rest).0 ≡ some a
      → (test ≡ false) × ((if test then (reply, []) else rest) ≡ rest) × (question rest.0 ≡ some a)
  passes true reply idle h = absurd (none-not-some (sym idle ∙ h))
  passes false reply idle h = (refl, refl, h)

module _ {Facts : Type 0} {A : Type 0} {question : Reply → Option A} (silent : Silent question)
    (site : Site Facts) (req : Request Facts) where
  dev_channel-none : question (dev_channel site req) ≡ none
  unfolding dev_channel
  dev_channel-none =
      ground (arith, silent.at_css_compiled, silent.at_css_failed, silent.at_dev_not_found)

  dispatch-reaches :
      {a : A}
      → question (dispatch site req).0 ≡ some a
      → dispatch site req ≡ or_failure site req (handle site req)
  unfolding dispatch
  dispatch-reaches h =
      let (_, not_dev, h1) =
        passes question (site.dev && has_prefix (codes "/__borgo/dev") req.pathname)
          (dev_channel site req) dev_channel-none h in
      let (_, not_table, h2) =
        passes question (site.render && req.pathname === codes "/__borgo/routes") policy_table
          silent.at_policy_table h1 in
      let (_, not_health, _) =
        passes question (req.pathname === codes "/healthz") healthy silent.at_healthy h2 in
      not_dev ∙ not_table ∙ not_health

  pub fetch-reaches :
      {a : A}
      → question (fetch site req).0 ≡ some a
      → ((site.render && internal_key_rejects site req) ≡ false)
        × (canonical_path req.pathname ≡ req.pathname)
        × (fetch site req ≡ or_failure site req (handle site req))
  unfolding fetch
  fetch-reaches h =
      let (known, let_in, h1) =
        passes question (site.render && internal_key_rejects site req) forbidden silent.at_forbidden
          h in
      let (same, kept, h2) =
        passes question (not (canonical_path req.pathname === req.pathname))
          (moved (canonical_path req.pathname ++ req.search))
          (silent.at_moved (canonical_path req.pathname ++ req.search)) h1 in
      let canonical = (===_iff (canonical_path req.pathname) req.pathname).0 (ground arith) in
      (known, canonical, let_in ∙ kept ∙ dispatch-reaches h2)

  -- the same, of what the _500 page does not answer either
  module _ (at_error_page : question error_page ≡ none) where
    failure-none : question (failure site req) ≡ none
    unfolding failure
    failure-none =
        ground
          (arith, silent.at_client_gone, silent.at_overlay, at_error_page, silent.at_server_error)

    or_failure-value :
        (handled : Result DecideError (Reply × Headers)) {a : A}
        → question (or_failure site req handled).0 ≡ some a
        → handled ≡ value (or_failure site req handled)
    unfolding or_failure
    or_failure-value (value answered) h = refl
    or_failure-value (thrown why) h = absurd (none-not-some (sym failure-none ∙ h))

    pub fetch-handle :
        {a : A}
        → question (fetch site req).0 ≡ some a
        → ((site.render && internal_key_rejects site req) ≡ false)
          × (canonical_path req.pathname ≡ req.pathname)
          × (handle site req ≡ value (fetch site req))
    fetch-handle {a} h =
        let (known, canonical, reached) = fetch-reaches h in
        let asked = subst (λ (r : Reply × Headers). question r.0 ≡ some a) reached h in
        (known, canonical, or_failure-value (handle site req) asked ∙ ap value (sym reached))
