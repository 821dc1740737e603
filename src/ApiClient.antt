-- ===== src/ApiClient.antt =====
-- `makeApiClient` of packages/borgo/src/api.ts: the client that loaders and actions call the go api
-- with.
pub mod Encode
pub mod Path
pub mod Form
pub mod Request
pub mod Answer
pub mod Call
use borgo.Common.{ℕ, Bool}
use borgo.Text.{Text}

-- what a rejected `fetch` or `json` was rejected with, and whether the call's deadline had passed
pub record Failure : Type 0 where
  pub name : Text
  pub code : Text
  pub message : Text
  pub aborted : Bool

-- what a call throws, without its route
pub data Fault : Type 0 where
  no_method : Fault
  missing_param empty_param malformed_param : Text → Fault
  dot_segment : (name value : Text) → Fault
  bad_url : Text → Fault
  no_form_part : Text → Fault
  no_response : Fault
  rejected : Failure → Fault
  api_error : (status : ℕ) (body : Text) → Fault
