-- ===== src/PropsRequest/Cookies.antt =====
-- What `runPropsRequest` answers, and when it throws.
use borgo.Common.{◌≡◌, sym, ap, ◌⊎◌, inl, inr, List, Option-cases}
use borgo.Text.{Text}
use borgo.Result.{Result, thrown, value, ◌>>=◌, >>=-value}
use borgo.Responses.{Response, with_cookies, carry_headers, location_of}
use borgo.Action.Cookies.{Sets, with_cookies-Sets, Sets-value, thrown-not-value}
use borgo.Params.{Params}
use borgo.PropsRequest.{
  PropsJson, redirect, props, LoaderResult, failed, responded, loaded, no_store, run_props_request,
}

thrown-eq : {E A : Type 0} {e f : E} → ◌≡◌ {A = Result E A} (thrown e) (thrown f) → e ≡ f
thrown-eq h = cc

-- A sequence whose second step has a value throws only what its first step throws.
>>=-thrown :
    {E A B : Type 0} (step : Result E A) (rest : A → B) {error : E}
    → step >>= (λ a. value (rest a)) ≡ thrown error
    → step ≡ thrown error
>>=-thrown (thrown e) rest h = ap thrown (thrown-eq h)
>>=-thrown (value a) rest h = cc

module _ {Error Data Content : Type 0}
    (send_json : PropsJson Data → Params → Result Error (Response Content)) where
  run_props_request-Sets :
      (cookies : List Text) (outcome : LoaderResult Error Data Content) {sent : Response Content}
      → run_props_request send_json cookies outcome ≡ value sent
      → Sets cookies sent
  unfolding run_props_request
  run_props_request-Sets cookies (failed error) e = cc
  run_props_request-Sets cookies (responded res) e = elim (Option-cases (location_of res)) [
    | inl stays ↦
        Sets-value cookies (with_cookies-Sets res cookies) (rw (stays, run_props_request) at e)
    | inr (location, moves) ↦
        let (json, made, sends) =
          >>=-value (send_json (redirect location) no_store)
            (λ json. value (with_cookies (carry_headers res json) cookies))
            (rw (moves, run_props_request) at e) in
        Sets-value cookies (with_cookies-Sets (carry_headers res json) cookies) sends
  ]
  run_props_request-Sets cookies (loaded result) e =
      let (json, made, sends) =
        >>=-value (send_json (props result) no_store) (λ json. value (with_cookies json cookies))
          e in
      Sets-value cookies (with_cookies-Sets json cookies) sends

  run_props_request-thrown :
      (cookies : List Text) (outcome : LoaderResult Error Data Content) {error : Error}
      → run_props_request send_json cookies outcome ≡ thrown error
      → (outcome ≡ failed error)
        ⊎ ((json : PropsJson Data) × (send_json json no_store ≡ thrown error))
  unfolding run_props_request
  run_props_request-thrown cookies (failed error) e = inl (ap failed (thrown-eq e))
  run_props_request-thrown cookies (responded res) e = elim (Option-cases (location_of res)) [
    | inl stays ↦ absurd (thrown-not-value (sym (rw (stays, run_props_request) at e)))
    | inr (location, moves) ↦ inr (
      redirect location,
      >>=-thrown (send_json (redirect location) no_store)
          (λ json. with_cookies (carry_headers res json) cookies)
          (rw (moves, run_props_request) at e),
    )
  ]
  run_props_request-thrown cookies (loaded result) e = inr (
    props result,
    >>=-thrown (send_json (props result) no_store) (λ json. with_cookies json cookies) e,
  )

  -- The props door answers with a response that sets all cookies collected, in order, one after the
  -- other, and throws only what the loader or the json of the answer throws.
  pub run_props_request-answers :
      (cookies : List Text) (outcome : LoaderResult Error Data Content)
      → ((sent : Response Content)
          → run_props_request send_json cookies outcome ≡ value sent
          → Sets cookies sent)
        × ((error : Error)
            → run_props_request send_json cookies outcome ≡ thrown error
            → (outcome ≡ failed error)
              ⊎ ((json : PropsJson Data) × (send_json json no_store ≡ thrown error)))
  run_props_request-answers cookies outcome = (
    λ sent e. run_props_request-Sets cookies outcome e,
    λ error e. run_props_request-thrown cookies outcome e,
  )
