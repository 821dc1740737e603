-- ===== src/ApiClient/Answer.antt =====
-- What a call makes of the answer.
use borgo.Common.{
  ℕ, ◌+◌, Bool, not, ◌||◌, List, [], ◌∷◌, ◌++◌, Option, none, some, length, take, ltb, ◌==◌,
  if◌then◌else◌,
}
use borgo.Text.{Text, codes, ◌===◌, within, or_empty}
use borgo.Result.{Result, thrown, value}
use borgo.ApiClient.{Failure, Fault, no_response, api_error}

-- A response: the chunks of its body that can be read, if it has one, and what `json()` makes of it.
pub record Reply (J : Type 0) : Type 0 where
  pub status : ℕ
  pub set_cookies : List Text
  pub content_length : Option Text
  pub chunks : Option (List (List ℕ))
  pub json : Result Failure J

abbrev pub max_error : ℕ
max_error = 2048

-- the bytes that `errorBody` reads, behind `size` of them
unfoldable pub read_head : ℕ → List (List ℕ) → List ℕ
read_head size [] = []
read_head size (chunk ∷ rest) =
    let more = chunk ++ read_head (size + length chunk) rest in
    if ltb size max_error then more else []

-- `errorBody`, given how `TextDecoder` decodes
unfoldable pub error_body : (List ℕ → Text) → Option (List (List ℕ)) → Text
unfolding read_head
error_body decode none = []
error_body decode (some chunks) = take max_error (decode (read_head 0 chunks))

unfoldable pub timed_out : Failure → Bool
timed_out f = f.name === codes "TimeoutError" || f.aborted

abbrev pub is_ok : ℕ → Bool
is_ok = within 200 299

abbrev pub json_or : ℕ → {J : Type 0} → Result Failure J → Result Fault (Option J)
json_or status (value j) = value (some j)
json_or status (thrown f) =
    if timed_out f
    then thrown no_response
    else thrown (api_error status (codes "response body is not json"))

unfoldable pub conclude : (List ℕ → Text) → {J : Type 0} → Reply J → Result Fault (Option J)
unfolding error_body timed_out
conclude decode a =
    if not (is_ok a.status)
    then thrown (api_error a.status (error_body decode a.chunks))
    else if a.status == 204 || or_empty a.content_length === codes "0"
    then value none
    else json_or a.status a.json
