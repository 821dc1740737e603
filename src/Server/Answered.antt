-- ===== src/Server/Answered.antt =====
-- `handle` of `serve`: the middleware's own response.
use borgo.Common.{◌≡◌, refl, ◌⊎◌, inl, inr, [], some}
use borgo.Result.{value}
use borgo.Params.{Params}
use borgo.Guard.Boot.{PageGuard, covers}
use borgo.Guard.Decide.{Answer, Decision, decide_page, decide_answer}
use borgo.Guard.Decide.Doors.{Response, Sent, answer_for_door, Shaped, answer_for_door-Shaped}
use borgo.Server.{
  Request, Site, Reply, from_middleware, Probe, served, late, decide, after_decision, after_probe,
  handle, probe_asset,
}
use borgo.Server.Files.{Served, probe_asset-Served}

module _ {Facts : Type 0} where
  decide-respond :
      (site : Site Facts) (req : Request Facts)
      {g : PageGuard (Request Facts → Params → Facts → Answer Response)} {params : Params}
      {response : Response}
      → site.guard ≡ some g
      → covers g req.pathname ≡ some params
      → g.run req params req.facts ≡ Answer.respond response
      → decide site req ≡ value (Decision.respond response)
  unfolding decide decide_page decide_answer
  decide-respond site req guards covered answers =
      rw (guards, decide, covered, decide_page, answers) refl

  after_probe-respond :
      (site : Site Facts) (req : Request Facts) (probe : Probe) {response : Response}
      → probe_asset site req ≡ probe
      → decide site req ≡ value (Decision.respond response)
      → (after_probe site req probe
          ≡ value (from_middleware (answer_for_door req.asked response), []))
        ⊎ ((reply : Reply) × Served site req reply
            × (after_probe site req probe ≡ value (reply, [])))
  unfolding after_probe after_decision
  after_probe-respond site req (served reply) same decided =
      inr (reply, probe_asset-Served site req same, refl)
  after_probe-respond site req (late late_path) same decided = inl (rw decided refl)

  -- A response of the middleware to a path that an entry covers answers the request, whatever it asked
  -- for, but for a request that a file answers. A redirect is then the json that names its target at
  -- the props door and at the door of an enhanced action, with the marks that each reads; any other
  -- response, and any at another door, is passed on as it is.
  pub handle-respond :
      (site : Site Facts) (req : Request Facts)
      {g : PageGuard (Request Facts → Params → Facts → Answer Response)} {params : Params}
      {response : Response}
      → site.guard ≡ some g
      → covers g req.pathname ≡ some params
      → g.run req params req.facts ≡ Answer.respond response
      → ((sent : Sent) × Shaped req.asked response sent
          × (handle site req ≡ value (from_middleware sent, [])))
        ⊎ ((reply : Reply) × Served site req reply × (handle site req ≡ value (reply, [])))
  handle-respond site req {response = response} guards covered answers =
      elim (after_probe-respond site req (probe_asset site req) refl
        (decide-respond site req guards covered answers)) [
          | inl answered ↦ inl (
            answer_for_door req.asked response,
            answer_for_door-Shaped req.asked response,
            answered,
          )
          | inr file ↦ inr file
        ]
