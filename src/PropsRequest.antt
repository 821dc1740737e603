-- ===== src/PropsRequest.antt =====
-- `runPropsRequest` of packages/borgo/src/util.ts: the props that a client navigation fetches.
pub mod Cookies
use borgo.Common.{ℕ, ◌≡◌, ◌⊎◌, refl, inl, inr, List, [], ◌∷◌, Option, none, some, Option-cases}
use borgo.Text.{Text, codes}
use borgo.Params.{Params}
use borgo.Result.{Result, thrown, value, ◌>>=◌, >>=-value}
use borgo.Responses.{Response, with_cookies, carry_headers, location_of}

-- the json values that the props door sends
pub data PropsJson (Data : Type 0) : Type 0 where
  redirect : Text → PropsJson Data
  props : Data → PropsJson Data

-- How the loader ended, as `LoaderResult` or an error.
pub data LoaderResult (Error Data Content : Type 0) : Type 0 where
  failed : Error → LoaderResult Error Data Content
  responded : Response Content → LoaderResult Error Data Content
  loaded : Data → LoaderResult Error Data Content

abbrev pub no_store : Params
no_store = (codes "cache-control", codes "private, no-store") ∷ []

-- `send_json` and the loader are options of the source; a run of the loader is the cookies that the
-- api set on its way and how it ended
module _ {Error Data Content : Type 0}
    (send_json : PropsJson Data → Params → Result Error (Response Content)) where
  unfoldable pub run_props_request :
      List Text → LoaderResult Error Data Content → Result Error (Response Content)
  run_props_request cookies (failed error) = thrown error
  run_props_request cookies (responded res) = elim (location_of res) [
    | none ↦ value (with_cookies res cookies)
    | some location ↦ do
      json ← send_json (redirect location) no_store
      value (with_cookies (carry_headers res json) cookies)
  ]
  run_props_request cookies (loaded result) = do
    json ← send_json (props result) no_store
    value (with_cookies json cookies)
