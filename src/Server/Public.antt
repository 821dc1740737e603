-- ===== src/Server/Public.antt =====
-- `fetch` of `serve`: the files that it answers with.
use borgo.Common.{
  ◌≡◌, refl, sym, ap, ◌∙◌, ◌⊎◌, inl, inr, true, Option, none, some, arith, Option-cases, Bool-cases,
  some-eq,
}
use borgo.Text.{Text, codes, ◌===◌}
use borgo.Result.{value, value-eq, >>=-value}
use borgo.Router.{safe_decode, match_route}
use borgo.Guard.Decide.{Headers, Decision, continue}
use borgo.Guard.Decide.Doors.{Response, is_text}
use borgo.Server.{
  Page, Request, Site, Target, Reply, file, indexed_file, Probe, served, late, is_get, run_action,
  post_action, no_page, render_target, get_page, open_door, decide, after_decision, after_probe,
  fetch, probe_asset,
}
use borgo.Server.Reach.{Silent, none-not-some, fetch-handle}
use borgo.Server.Files.{
  IsServable, Served, from_index, from_disk, probe_asset-Served, probe_asset-late,
}

-- the path of the file that a reply holds
abbrev pub reads_file : Reply → Option Text
reads_file (indexed_file path) = some path
reads_file (file path) = some path
reads_file _ = none

silent : Silent reads_file
silent = record {
  at_forbidden = refl;
  at_moved = λ path. refl;
  at_css_compiled = refl;
  at_css_failed = refl;
  at_dev_not_found = refl;
  at_policy_table = refl;
  at_healthy = refl;
  at_client_gone = refl;
  at_overlay = refl;
  at_server_error = refl;
}

module _ {Facts : Type 0} where
  no_page-file :
      (site : Site Facts) (req : Request Facts) (late_path : Option Text) {path : Text}
      → reads_file (no_page site req late_path) ≡ some path
      → (late_path ≡ some path) × (site.exists path ≡ true)
  unfolding no_page
  no_page-file site req none h = absurd (ground arith)
  no_page-file site req (some at) h = elim (Bool-cases (site.exists at)) [
    | inl there ↦
        let same = some-eq (rw there at h) in (ap some same, ap site.exists (sym same) ∙ there)
    | inr gone ↦ absurd (ground arith)
  ]

  render_target-none :
      (site : Site Facts) (req : Request Facts) (target : Target)
      → reads_file (render_target site req target) ≡ none
  unfolding render_target
  render_target-none site req target = ground arith

  get_page-file :
      (site : Site Facts) (req : Request Facts) (late_path : Option Text) (matched : Option Target)
      {path : Text}
      → reads_file (get_page site req late_path matched) ≡ some path
      → (late_path ≡ some path) × (site.exists path ≡ true)
  unfolding get_page
  get_page-file site req late_path matched h = elim (Bool-cases (is_get req)) [
    | inr other ↦ absurd (none-not-some (rw other at h))
    | inl gets ↦ elim (Option-cases matched) [
      | inl missed ↦ no_page-file site req late_path (rw (gets, missed) at h)
      | inr (target, found) ↦
          absurd (none-not-some (sym (render_target-none site req target) ∙ rw (gets, found) at h))
    ]
  ]

  post_action-none :
      (req : Request Facts) (matched : Option Target) {reply : Reply}
      → post_action req matched ≡ some reply
      → reads_file reply ≡ none
  unfolding post_action run_action
  post_action-none req none e = absurd (ground arith)
  post_action-none req (some found) e = elim (Bool-cases (req.asked.method === codes "POST")) [
    | inr other ↦ absurd (none-not-some (rw other at e))
    | inl posts ↦ elim (Bool-cases found.route.has_action) [
      | inl acts ↦ sym (ap reads_file (some-eq (rw (posts, acts) at e)))
      | inr idle ↦ elim (Bool-cases (is_text req.asked.action (codes "1"))) [
        | inl enhanced ↦ sym (ap reads_file (some-eq (rw (posts, idle, enhanced) at e)))
        | inr plain ↦ absurd (none-not-some (rw (posts, idle, plain) at e))
      ]
    ]
  ]

  open_door-file :
      (site : Site Facts) (req : Request Facts) (late_path : Option Text) (pathname : Text)
      {path : Text}
      → reads_file (open_door site req late_path pathname) ≡ some path
      → (late_path ≡ some path) × (site.exists path ≡ true)
  unfolding open_door
  open_door-file site req late_path pathname h = elim (Option-cases (post_action req matched)) [
    | inl passed ↦ get_page-file site req late_path matched (rw (passed, open_door) at h)
    | inr (reply, answered) ↦ absurd (
        none-not-some (sym (post_action-none req matched answered) ∙ rw (answered, open_door) at h))
  ]
    where
      matched : Option Target
      matched = match_route (λ (p : Page). p.pattern) pathname site.routes

  after_decision-file :
      (site : Site Facts) (req : Request Facts) (late_path : Option Text)
      (decision : Decision Response) {path : Text}
      → reads_file (after_decision site req late_path decision).0 ≡ some path
      → (late_path ≡ some path) × (site.exists path ≡ true)
  unfolding after_decision
  after_decision-file site req late_path (Decision.respond response) h = absurd (none-not-some h)
  after_decision-file site req late_path (continue pathname headers) h =
      open_door-file site req late_path pathname h

  -- A file that answers: one that is there, for a request that may read it.
  pub record ReadsFile (site : Site Facts) (req : Request Facts) (path : Text) : Type 0 where
    pub servable : IsServable site req
    pub asked_for : path ≡ safe_decode req.pathname
    pub there : (site.indexed path ≡ true) ⊎ (site.exists path ≡ true)

  Served-ReadsFile :
      (site : Site Facts) (req : Request Facts) {reply : Reply} {path : Text}
      → Served site req reply
      → reads_file reply ≡ some path
      → ReadsFile site req path
  Served-ReadsFile site req (from_index servable listed) h = record {
    servable = servable;
    asked_for = sym (some-eq h);
    there = inl (ap site.indexed (sym (some-eq h)) ∙ listed);
  }
  Served-ReadsFile site req (from_disk servable named there) h = record {
    servable = servable;
    asked_for = sym (some-eq h);
    there = inr (ap site.exists (sym (some-eq h)) ∙ there);
  }

  after_probe-ReadsFile :
      (site : Site Facts) (req : Request Facts) (probe : Probe) {answered : Reply × Headers}
      {path : Text}
      → probe_asset site req ≡ probe
      → after_probe site req probe ≡ value answered
      → reads_file answered.0 ≡ some path
      → ReadsFile site req path
  unfolding after_probe
  after_probe-ReadsFile site req (served reply) same e h =
      let read = ap (λ (a : Reply × Headers). reads_file a.0) (value-eq e) in
      Served-ReadsFile site req (probe_asset-Served site req same) (read ∙ h)
  after_probe-ReadsFile site req (late late_path) same e h =
      let (decision, decided, answers) =
        >>=-value (decide site req) (λ decision. value (after_decision site req late_path decision))
          e in
      let read = ap (λ (a : Reply × Headers). reads_file a.0) (value-eq answers) in
      let (asked, there) = after_decision-file site req late_path decision (read ∙ h) in
      let (servable, named) = probe_asset-late site req (same ∙ ap late asked) in
      record { servable = servable; asked_for = named; there = inr there }

  -- A file answers only a GET or HEAD request in front of which no process stands, for the decoded
  -- path of the request, which has no "..", no backslash, no NUL and no directory that starts with a
  -- dot but `.well-known` at the root, and, on Windows, no ":"; and the file is there.
  pub fetch-ReadsFile :
      (site : Site Facts) (req : Request Facts) {path : Text}
      → reads_file (fetch site req).0 ≡ some path
      → ReadsFile site req path
  fetch-ReadsFile site req h =
      let (_, _, handled) = fetch-handle silent site req refl h in
      after_probe-ReadsFile site req (probe_asset site req) refl handled h
