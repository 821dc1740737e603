-- ===== src/Examples/Channels.antt =====
-- A live channel, at concrete inputs.
use borgo.Common.{◌≡◌, refl, [], ◌∷◌, none, some, ◌↔◌}
use borgo.Text.{codes, ◌===◌, trim, trim_start, trim_end, is_space, split}
use borgo.Channel.{
  closing, comma, blank, padded, topic_error, Channel, backoff, initial, connect, on_open,
  on_message, on_close, publish, close, close_origin_refused,
}
use borgo.Channel.Steps.{opens, ends, closes, publishes, dialled, next, here, more}
use borgo.Channel.Sound.{IsSound, Reaches-IsSound}
use borgo.Channel.Left.{IsSilent, closed_channel-IsSilent}
use borgo.Channel.Topic.{IsUsable, topic_error-none_iff}

channels : Unit {0}
unfolding topic_error backoff connect on_open on_message on_close publish close ◌===◌ trim
    trim_start trim_end is_space split
channels = tt

topic_tests :
    (topic_error (codes "a,b") ≡ some comma)
    × (topic_error (codes "  ") ≡ some blank)
    × (topic_error (codes " chat") ≡ some padded)
    × (topic_error (codes "chat room") ≡ none)
unfolding channels
topic_tests = (refl, refl, refl, refl)

backoff_tests : (backoff 0 ≡ 1000) × (backoff 4 ≡ 16000) × (backoff 5 ≡ 30000)
unfolding channels
backoff_tests = (refl, refl, refl)

-- a message before the socket opens, one after it, and a lost socket
abbrev queued : Channel
queued = publish (codes "m") (connect initial)

abbrev flushed : Channel
flushed = on_open queued

abbrev live : Channel
live = publish (codes "n") flushed

abbrev lost : Channel
lost = on_close [] 1006 [] live

abbrev refused : Channel
refused = on_close (codes "d") close_origin_refused (codes "no") (connect initial)

channel_tests :
    (queued.sent ≡ [])
    × (live.sent ≡ codes "m" ∷ (codes "n" ∷ []))
    × (lost.retry ≡ some 1000)
    × (refused.refusals ≡ codes "no" ∷ [])
unfolding channels
channel_tests = (refl, refl, refl, refl)

-- the peer ends the socket, and a message that is published before it is closed waits
abbrev ended : Channel
ended = record live { socket = closing }

abbrev waits : Channel
waits = publish (codes "o") ended

ended_tests : (waits.queue ≡ codes "o" ∷ []) × ((on_close [] 1006 [] waits).retry ≡ some 1000)
unfolding channels
ended_tests = (refl, refl)

Reaches-IsSound_example :
    IsSound (codes "m" ∷ (codes "n" ∷ (codes "o" ∷ []))) (on_close [] 1006 [] waits)
unfolding channels
Reaches-IsSound_example = Reaches-IsSound {default = []} {topic = codes "t"} (
    next
      (next
        (next
          (next (next (next dialled (publishes (connect initial) (codes "m"))) (opens queued refl))
            (publishes flushed (codes "n")))
          (ends live cc))
        (publishes ended (codes "o")))
      (closes waits 1006 [] cc))

closed_channel-IsSilent_example : IsSilent refused (publish (codes "m") refused)
unfolding channels
closed_channel-IsSilent_example =
    closed_channel-IsSilent {default = codes "d"} {topic = codes "t"}
      (next dialled (closes (connect initial) close_origin_refused (codes "no") cc)) refl
      (more here (publishes refused (codes "m")))

topic_error-none_iff_example : (topic_error (codes "chat") ≡ none) ↔ IsUsable (codes "chat")
topic_error-none_iff_example = topic_error-none_iff (codes "chat")
