-- ===== src/ApiClient/Call.antt =====
-- A call: its requests, its retries and what comes of it.
pub mod Tries
use borgo.Common.{
  ℕ, zero, suc, ◌+◌, Bool, false, not, ◌&&◌, ◌||◌, List, [], ◌∷◌, Option, map, if◌then◌else◌,
}
use borgo.Text.{Text, codes, ◌===◌, contains, to_lower}
use borgo.Result.{Result, thrown, value, ◌>>=◌}
use borgo.Maps.{Map}
use borgo.ApiClient.{Failure, Fault, no_response, rejected}
use borgo.ApiClient.Request.{Options, Init, init_of}
use borgo.ApiClient.Answer.{Reply, timed_out, conclude}

-- `isConnRefused`
unfoldable pub is_conn_refused : Failure → Bool
is_conn_refused f =
    f.code === codes "ConnectionRefused"
    || f.code === codes "ECONNREFUSED"
    || contains (codes "unable to connect") (map to_lower f.message)
    || contains (codes "refused") (map to_lower f.message)

-- what becomes of one `fetch`
pub data Attempt (J : Type 0) : Type 0 where
  answered : Reply J → Attempt J
  failed : Failure → Attempt J

-- a refused connection that may be tried again
unfoldable pub is_retried : {J : Type 0} → Attempt J → Bool
unfolding timed_out is_conn_refused
is_retried (answered a) = false
is_retried (failed f) = not (timed_out f) && is_conn_refused f

-- what the loop leaves with
unfoldable pub settle : {J : Type 0} → Attempt J → Result Fault (Reply J)
unfolding timed_out
settle (answered a) = value a
settle (failed f) = if timed_out f then thrown no_response else thrown (rejected f)

-- the outcome of a call, the requests it made, and the cookies it handed to `onSetCookie`
pub record Called (J : Type 0) : Type 0 where
  pub outcome : Result Fault (Option J)
  pub requests : ℕ
  pub handed : List Text

-- The loop, with `left` retries left: what it leaves with, and the number of the last attempt.
unfoldable pub fetch_from :
    {J : Type 0} → (ℕ → Attempt J) → (left attempt : ℕ) → Result Fault (Reply J) × ℕ
unfolding is_retried settle
fetch_from sends zero attempt = (settle (sends attempt), attempt)
fetch_from sends (suc left) attempt =
    let again = fetch_from sends left (suc attempt) in
    if is_retried (sends attempt) then again else (settle (sends attempt), attempt)

abbrev pub cookies_of : {J : Type 0} → Result Fault (Reply J) → List Text
cookies_of (thrown why) = []
cookies_of (value a) = a.set_cookies

-- a call that has its request
unfoldable pub call_with :
    (List ℕ → Text)
    → {J : Type 0} → (retries : ℕ) → (Init → ℕ → Attempt J)
    → Result Fault Init
    → Called J
unfolding fetch_from conclude
call_with decode retries sends (thrown why) = record {
  outcome = thrown why;
  requests = 0;
  handed = [];
}
call_with decode retries sends (value init) =
    let (reply, last) = fetch_from (sends init) retries 0 in
    record { outcome = reply >>= conclude decode; requests = last + 1; handed = cookies_of reply }

unfoldable pub call :
    (Text → Bool)
    → (List ℕ → Text)
    → {J : Type 0} → (Init → ℕ → Attempt J)
    → (base : Text) → (defaults : Map Text) → (retries : ℕ) → (route : Text) → Options
    → Called J
unfolding init_of call_with
call is_url decode sends base defaults retries route opts =
    call_with decode retries sends (init_of is_url base defaults route opts)
