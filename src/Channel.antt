-- ===== src/Channel.antt =====
-- `subscribe` of packages/borgo/src/index.ts: a live channel over web sockets, as a machine whose
-- steps are its handlers.
pub mod Steps
pub mod Sound
pub mod Left
pub mod Topic
use borgo.Common.{
  ℕ, ◌+◌, ◌*◌, ◌^◌, ◌≡◌, ◌⊎◌, Bool, true, false, ◌&&◌, not, List, [], ◌∷◌, ◌++◌, Option, none, some,
  is_empty, if◌then◌else◌, length, ltb, ◌==◌,
}
use borgo.Text.{Text, ◌===◌, includes, trim}

-- what is wrong with a topic
pub data TopicError : Type 0 where
  comma blank padded too_long : TopicError

abbrev pub max_topic_length : ℕ
max_topic_length = 128

unfoldable pub topic_error : Text → Option TopicError
topic_error topic =
    if includes b',' topic
    then some comma
    else if is_empty (trim topic)
    then some blank
    else if not (topic === trim topic)
    then some padded
    else if ltb max_topic_length (length topic)
    then some too_long
    else none

-- `readyState` of the latest socket
pub data Socket : Type 0 where
  connecting opened closing gone : Socket

-- what `JSON.parse` reads of a message
pub record Message : Type 0 where
  pub topic : Text
  pub event : Text
  pub payload : Text

-- The variables of `subscribe`, with what the world has seen: the frames given to sockets, the events
-- handed to the page, the number of sockets made and the refusals reported. `retry` is the delay of
-- the timer that is set.
pub record Channel : Type 0 where
  pub socket : Socket
  pub closed : Bool
  pub attempts : ℕ
  pub retry : Option ℕ
  pub queue : List Text
  pub sent : List Text
  pub events : List (Text × Text)
  pub dials : ℕ
  pub refusals : List Text

abbrev pub close_origin_refused : ℕ
close_origin_refused = 4403

unfoldable pub backoff : ℕ → ℕ
backoff attempts = let delay = 1000 * 2 ^ attempts in if ltb 30000 delay then 30000 else delay

abbrev pub initial : Channel
initial = record {
  socket = gone;
  closed = false;
  attempts = 0;
  retry = none;
  queue = [];
  sent = [];
  events = [];
  dials = 0;
  refusals = [];
}

-- `connect`; the timer that calls it is spent
unfoldable pub connect : Channel → Channel
connect s =
    if s.closed
    then record s { retry = none }
    else record s { retry = none; socket = connecting; dials = s.dials + 1 }

unfoldable pub on_open : Channel → Channel
on_open s = record s { socket = opened; attempts = 0; queue = []; sent = s.sent ++ s.queue }

-- `onmessage`, of what `JSON.parse` makes of the data
unfoldable pub on_message : Text → Option Message → Channel → Channel
on_message topic none s = s
on_message topic (some msg) s =
    if msg.topic === topic
    then record s { events = s.events ++ ((msg.event, msg.payload) ∷ []) }
    else s

-- the reason that is reported
abbrev pub reason_of : Text → Text → Text
reason_of default [] = default
reason_of default (c ∷ reason) = c ∷ reason

unfoldable pub on_close : Text → ℕ → Text → Channel → Channel
unfolding backoff
on_close default code reason s =
    if s.closed
    then record s { socket = gone }
    else if code == close_origin_refused
    then record s {
      socket = gone;
      closed = true;
      refusals = s.refusals ++ (reason_of default reason ∷ []);
    }
    else record s { socket = gone; retry = some (backoff s.attempts); attempts = s.attempts + 1 }

abbrev pub is_open : Socket → Bool
is_open opened = true
is_open _ = false

-- `publish`, of the message as json
unfoldable pub publish : Text → Channel → Channel
publish msg s =
    if s.closed
    then s
    else if is_open s.socket
    then record s { sent = s.sent ++ (msg ∷ []) }
    else record s { queue = s.queue ++ (msg ∷ []) }

-- `ws?.close()`
abbrev pub after_close : Socket → Socket
after_close gone = gone
after_close _ = closing

unfoldable pub close : Channel → Channel
close s = record s { closed = true; retry = none; socket = after_close s.socket }
