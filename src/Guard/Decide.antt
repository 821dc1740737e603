-- ===== src/Guard/Decide.antt =====
-- `decidePage` and `answerForDoor`: what middleware.ts decided for a request, and the answer shaped
-- for the door that asked.
pub mod Doors
use borgo.Common.{
  ℕ, ◌≡◌, refl, sym, inl, inr, Bool, true, false, ◌&&◌, ◌||◌, not, List, [], ◌∷◌, ltb, leb, Option,
  none, some, if◌then◌else◌, drop, is_empty, ◌⊎◌, ◌≢◌, arith, Option-cases, Bool-cases,
}
use mathlib.Core.Path.{subst₂}
use borgo.Text.{or_empty, Text, codes, ◌===◌, ===_iff, starts_with, includes, split}
use borgo.Result.{Result, value, thrown, value-eq}
use borgo.Params.{Params}
use borgo.Guard.Boot.{PageGuard, covers}

abbrev pub Headers : Type 0
Headers = List (Text × Text)

-- the reasons of `rewriteRefusal`
pub data RewriteRefusal : Type 0 where
  outside not_only_a_path itself : RewriteRefusal
  reserved : Text → RewriteRefusal

-- `path.split("/")[1]`
abbrev pub second_part : List Text → Option Text
second_part [] = none
second_part (_ ∷ []) = none
second_part (_ ∷ first ∷ _) = some first

abbrev pub is_reserved : Text → Bool
is_reserved first = first === codes "api" || first === codes "__borgo"

unfoldable pub reserved_rewrite : Option Text → Option RewriteRefusal
reserved_rewrite none = none
reserved_rewrite (some first) = if is_reserved first then some (reserved first) else none

-- `rewriteRefusal`; `none` is the empty reason
unfoldable pub rewrite_refusal : Text → Text → Option RewriteRefusal
rewrite_refusal path current =
    if not (starts_with b'/' path) || (starts_with b'/' path && starts_with b'/' (drop 1 path))
    then some outside
    else if includes b'?' path || includes b'#' path
    then some not_only_a_path
    else if path === current
    then some itself
    else reserved_rewrite (second_part (split b'/' path))

-- what an app's middleware may return: a response, `next()`, `rewrite()` to a
-- text or to another value, or anything else; or it throws
pub data Answer (Response : Type 0) : Type 0 where
  respond : Response → Answer Response
  next : Headers → Answer Response
  rewrite : Option Text → Headers → Answer Response
  rewrite_no_text other threw : Answer Response

pub data Decision (Response : Type 0) : Type 0 where
  continue : (pathname : Text) (headers : Headers) → Decision Response
  respond : Response → Decision Response

pub data DecideError : Type 0 where
  bad_rewrite : Text → RewriteRefusal → DecideError
  bad_answer middleware_error : DecideError

unfoldable pub decide_answer :
    {Response : Type 0} → Text → Answer Response → Result DecideError (Decision Response)
decide_answer pathname (respond response) = value (Decision.respond response)
decide_answer pathname (next headers) = value (continue pathname headers)
decide_answer pathname (rewrite path headers) = elim (rewrite_refusal (or_empty path) pathname) [
  | some why ↦ thrown (bad_rewrite (or_empty path) why)
  | none ↦ value (continue (or_empty path) headers)
]
decide_answer pathname rewrite_no_text = thrown (bad_rewrite [] outside)
decide_answer pathname other = thrown bad_answer
decide_answer pathname threw = thrown middleware_error

-- Requests, responses and the facts of a request (its url, session and locals) are the platform's;
-- the app's middleware is a function of these and of the params of the entry that covers the path.
module _ {Request Response Facts : Type 0} where
  unfoldable pub decide_page :
      PageGuard (Request → Params → Facts → Answer Response)
      → Request
      → Text
      → Facts
      → Result DecideError (Decision Response)
  decide_page g request pathname facts = elim (covers g pathname) [
    | none ↦ value (continue pathname [])
    | some params ↦ decide_answer pathname (g.run request params facts)
  ]

-- A rewrite's target: another path of this app, outside the api and borgo's own paths.
pub record IsPagePath (path current : Text) : Type 0 where
  pub rooted : starts_with b'/' path ≡ true
  pub local : starts_with b'/' (drop 1 path) ≡ false
  pub no_query : includes b'?' path ≡ false
  pub no_fragment : includes b'#' path ≡ false
  pub changed : path ≢ current
  pub page : reserved_rewrite (second_part (split b'/' path)) ≡ none

rewrite_refusal-IsPagePath :
    (path current : Text) → rewrite_refusal path current ≡ none → IsPagePath path current
unfolding rewrite_refusal
rewrite_refusal-IsPagePath path current h = record {
  rooted = ground arith;
  local = ground arith;
  no_query = ground arith;
  no_fragment = ground arith;
  changed = λ same. ground (arith, ===_iff path current);
  page = ground arith;
}

-- How a decision to continue came about.
pub data Allows {Response : Type 0} (pathname : Text)
    : Answer Response → Text → Headers → Type 0 where
  passed : {headers : Headers} → Allows pathname (next headers) pathname headers
  rewritten :
      {target : Text} {headers : Headers}
      → IsPagePath target pathname
      → Allows pathname (rewrite (some target) headers) target headers

pub continue-eq :
    {Response : Type 0} {s t : Text} {g h : Headers}
    → ◌≡◌ {A = Decision Response} (continue s g) (continue t h)
    → (s ≡ t) × (g ≡ h)
continue-eq e = (cc, cc)

decide_answer-Allows :
    {Response : Type 0} (pathname : Text) (answer : Answer Response) {target : Text}
    {headers : Headers}
    → decide_answer pathname answer ≡ value (continue target headers)
    → Allows pathname answer target headers
unfolding decide_answer
decide_answer-Allows pathname (Answer.respond r) e = cc
decide_answer-Allows {Response} pathname (next hs) e =
    let (same, sames) = continue-eq (value-eq e) in
    subst₂ (λ t h. Allows {Response = Response} pathname (next hs) t h) same sames passed
decide_answer-Allows pathname (rewrite none hs) e = unfold rewrite_refusal in cc
decide_answer-Allows {Response} pathname (rewrite (some path) hs) e =
    elim (Option-cases (rewrite_refusal path pathname)) [
      | inl allowed ↦
          let (same, sames) = continue-eq (value-eq (rw (allowed, decide_answer) at e)) in
          subst₂ (λ t h. Allows {Response = Response} pathname (rewrite (some path) hs) t h) same
            sames (rewritten (rewrite_refusal-IsPagePath path pathname allowed))
      | inr (why, refused) ↦ absurd (ground arith)
    ]
decide_answer-Allows pathname rewrite_no_text e = cc
decide_answer-Allows pathname other e = cc
decide_answer-Allows pathname threw e = cc

module _ {Request Response Facts : Type 0} where
  -- The request goes on only if no entry covers its path, when nothing changes, or the app's
  -- middleware was asked about it and answered `next()`, or a rewrite to another page of this app.
  pub decide_page-continue :
      (g : PageGuard (Request → Params → Facts → Answer Response)) (request : Request)
      (pathname : Text) (facts : Facts) {target : Text} {headers : Headers}
      → decide_page g request pathname facts ≡ value (continue target headers)
      → ((covers g pathname ≡ none) × (target ≡ pathname) × (headers ≡ []))
        ⊎ ((params : Params) × (covers g pathname ≡ some params)
            × Allows pathname (g.run request params facts) target headers)
  unfolding decide_page
  decide_page-continue g request pathname facts e = elim (Option-cases (covers g pathname)) [
    | inl free ↦
        let (same, sames) = continue-eq (value-eq (rw (free, decide_page) at e)) in
        inl (free, sym same, sym sames)
    | inr (params, found) ↦
        let allowed =
          decide_answer-Allows pathname (g.run request params facts)
            (rw (found, decide_page) at e) in
        inr (params, found, allowed)
  ]
