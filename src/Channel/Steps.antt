-- ===== src/Channel/Steps.antt =====
-- Which handler of a channel may run next, as the platform runs them.
use borgo.Common.{ℕ, ◌≡◌, ◌≢◌, List, [], ◌∷◌, ◌++◌, Option, some, if◌then◌else◌}
use borgo.Text.{Text}
use borgo.Channel.{
  Channel, Message, connecting, opened, closing, gone, initial, connect, on_open, on_message,
  on_close, publish, close,
}

-- A timer fires once, a socket opens once, brings messages while it is open, and closes once. The
-- platform may turn a socket to closing before it is closed, when the peer or a failure ends it, and
-- calls no handler then. The page publishes and closes at any time.
module _ (default topic : Text) where
  pub data Step : Channel → Channel → Type 0 where
    fires : (s : Channel) (delay : ℕ) → s.retry ≡ some delay → Step s (connect s)
    opens : (s : Channel) → s.socket ≡ connecting → Step s (on_open s)
    hears :
        (s : Channel) (msg : Option Message) → s.socket ≡ opened → Step s (on_message topic msg s)
    ends : (s : Channel) → s.socket ≢ gone → Step s (record s { socket = closing })
    closes :
        (s : Channel) (code : ℕ) (reason : Text)
        → s.socket ≢ gone
        → Step s (on_close default code reason s)
    publishes : (s : Channel) (msg : Text) → Step s (publish msg s)
    leaves : (s : Channel) → Step s (close s)

  -- what a step adds to the messages that the page has published on a channel that is not closed
  abbrev pub published : {s t : Channel} → Step s t → List Text
  published (publishes s msg) = if s.closed then [] else msg ∷ []
  published _ = []

  -- The states of a channel, with the messages published so far.
  pub data Reaches : List Text → Channel → Type 0 where
    dialled : Reaches [] (connect initial)
    next :
        {log : List Text} {s t : Channel}
        → Reaches log s
        → (step : Step s t) → Reaches (log ++ published step) t

  -- any number of steps
  pub data Steps (s : Channel) : Channel → Type 0 where
    here : Steps s s
    more : {t u : Channel} → Steps s t → Step t u → Steps s u
