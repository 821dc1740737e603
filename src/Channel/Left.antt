-- ===== src/Channel/Left.antt =====
-- What a channel does after it was closed, by the page or by a refusal.
use borgo.Common.{ℕ, ◌≡◌, ◌≢◌, ◌⊎◌, refl, Bool, true, false, List, Option, none, some, inl, inr}
use borgo.Text.{Text}
use borgo.Channel.{
  Channel, Socket, connecting, opened, closing, gone, connect, on_close, publish, close,
}
use borgo.Channel.Steps.{
  Step, fires, opens, hears, ends, closes, publishes, leaves, Reaches, Steps, here, more,
}
use borgo.Channel.Sound.{
  Mode, dialling, up, parting, waiting, leaving, left, channel, Reaches-IsSound,
}

-- the frames, events, sockets and refusals of a closed channel are final, and what waits is dropped
pub record IsSilent (s t : Channel) : Type 0 where
  pub still_closed : t.closed ≡ true
  pub no_timer : t.retry ≡ none
  pub same_sent : t.sent ≡ s.sent
  pub same_queue : t.queue ≡ s.queue
  pub same_events : t.events ≡ s.events
  pub same_dials : t.dials ≡ s.dials
  pub same_refusals : t.refusals ≡ s.refusals

-- a closed channel whose socket is on its way out
record IsLeft (s t : Channel) : Type 0 where
  silent : IsSilent s t
  mode : Mode t.closed t.socket t.retry

open_and_closed : false ≡ true → ⊥
open_and_closed e = cc

module _ (r : Channel) (attempts dials : ℕ) (queue sent refusals : List Text)
    (events : List (Text × Text)) where
  abbrev state : Socket → Bool → Option ℕ → Channel
  state socket closed retry = channel socket closed attempts retry queue sent events dials refusals

  -- the same channel, with its socket gone or on its way out
  moved :
      {socket : Socket} {closed : Bool} {retry : Option ℕ}
      → IsSilent r (state socket closed retry)
      → (out : Socket) → Mode true out none
      → IsLeft r (state out true none)
  moved h out m = record {
    silent = record {
      still_closed = refl;
      no_timer = refl;
      same_sent = h.same_sent;
      same_queue = h.same_queue;
      same_events = h.same_events;
      same_dials = h.same_dials;
      same_refusals = h.same_refusals;
    };
    mode = m;
  }

  connect-IsLeft :
      {socket : Socket} {closed : Bool} {retry : Option ℕ} (delay : ℕ)
      → Mode closed socket retry
      → retry ≡ some delay
      → IsSilent r (state socket closed retry)
      → IsLeft r (connect (state socket closed retry))
  connect-IsLeft delay dialling e h = absurd (open_and_closed h.still_closed)
  connect-IsLeft delay up e h = absurd (open_and_closed h.still_closed)
  connect-IsLeft delay parting e h = absurd (open_and_closed h.still_closed)
  connect-IsLeft delay (waiting d lo hi) e h = absurd (open_and_closed h.still_closed)
  connect-IsLeft delay leaving e h = cc
  connect-IsLeft delay left e h = cc

  socket-IsLeft :
      (t : Channel) {socket : Socket} {closed : Bool} {retry : Option ℕ}
      → Mode closed socket retry
      → (socket ≡ connecting) ⊎ (socket ≡ opened)
      → IsSilent r (state socket closed retry)
      → IsLeft r t
  socket-IsLeft t dialling e h = absurd (open_and_closed h.still_closed)
  socket-IsLeft t up e h = absurd (open_and_closed h.still_closed)
  socket-IsLeft t parting e h = absurd (open_and_closed h.still_closed)
  socket-IsLeft t (waiting d lo hi) e h = absurd (open_and_closed h.still_closed)
  socket-IsLeft t leaving (inl e) h = cc
  socket-IsLeft t leaving (inr e) h = cc
  socket-IsLeft t left (inl e) h = cc
  socket-IsLeft t left (inr e) h = cc

  on_close-IsLeft :
      (default : Text) (code : ℕ) (reason : Text) {socket : Socket} {closed : Bool}
      {retry : Option ℕ}
      → Mode closed socket retry
      → IsSilent r (state socket closed retry)
      → IsLeft r (on_close default code reason (state socket closed retry))
  unfolding on_close
  on_close-IsLeft default code reason dialling h = absurd (open_and_closed h.still_closed)
  on_close-IsLeft default code reason up h = absurd (open_and_closed h.still_closed)
  on_close-IsLeft default code reason parting h = absurd (open_and_closed h.still_closed)
  on_close-IsLeft default code reason (waiting d lo hi) h = absurd (open_and_closed h.still_closed)
  on_close-IsLeft default code reason leaving h = moved h gone left
  on_close-IsLeft default code reason left h = moved h gone left

  ended-IsLeft :
      {socket : Socket} {closed : Bool} {retry : Option ℕ}
      → Mode closed socket retry
      → socket ≢ gone
      → IsSilent r (state socket closed retry)
      → IsLeft r (state closing closed retry)
  ended-IsLeft dialling e h = absurd (open_and_closed h.still_closed)
  ended-IsLeft up e h = absurd (open_and_closed h.still_closed)
  ended-IsLeft parting e h = absurd (open_and_closed h.still_closed)
  ended-IsLeft (waiting d lo hi) e h = absurd (open_and_closed h.still_closed)
  ended-IsLeft leaving e h = moved h closing leaving
  ended-IsLeft left e h = absurd (e refl)

  publish-IsLeft :
      (msg : Text) {socket : Socket} {closed : Bool} {retry : Option ℕ}
      → Mode closed socket retry
      → IsSilent r (state socket closed retry)
      → IsLeft r (publish msg (state socket closed retry))
  unfolding publish
  publish-IsLeft msg dialling h = absurd (open_and_closed h.still_closed)
  publish-IsLeft msg up h = absurd (open_and_closed h.still_closed)
  publish-IsLeft msg parting h = absurd (open_and_closed h.still_closed)
  publish-IsLeft msg (waiting d lo hi) h = absurd (open_and_closed h.still_closed)
  publish-IsLeft msg leaving h = moved h closing leaving
  publish-IsLeft msg left h = moved h gone left

  close-IsLeft :
      {socket : Socket} {closed : Bool} {retry : Option ℕ}
      → Mode closed socket retry
      → IsSilent r (state socket closed retry)
      → IsLeft r (close (state socket closed retry))
  unfolding close
  close-IsLeft dialling h = absurd (open_and_closed h.still_closed)
  close-IsLeft up h = absurd (open_and_closed h.still_closed)
  close-IsLeft parting h = absurd (open_and_closed h.still_closed)
  close-IsLeft (waiting d lo hi) h = absurd (open_and_closed h.still_closed)
  close-IsLeft leaving h = moved h closing leaving
  close-IsLeft left h = moved h gone left

Step-IsLeft :
    {default topic : Text} (r : Channel) {s t : Channel}
    → Step default topic s t
    → IsLeft r s
    → IsLeft r t
Step-IsLeft r (fires s delay e) h =
    connect-IsLeft r s.attempts s.dials s.queue s.sent s.refusals s.events delay h.mode e h.silent
Step-IsLeft r (opens s e) h =
    socket-IsLeft r s.attempts s.dials s.queue s.sent s.refusals s.events _ h.mode (inl e) h.silent
Step-IsLeft r (hears s msg e) h =
    socket-IsLeft r s.attempts s.dials s.queue s.sent s.refusals s.events _ h.mode (inr e) h.silent
Step-IsLeft r (ends s e) h =
    ended-IsLeft r s.attempts s.dials s.queue s.sent s.refusals s.events h.mode e h.silent
Step-IsLeft r (closes s code reason e) h =
    on_close-IsLeft r s.attempts s.dials s.queue s.sent s.refusals s.events _ code reason h.mode
      h.silent
Step-IsLeft r (publishes s msg) h =
    publish-IsLeft r s.attempts s.dials s.queue s.sent s.refusals s.events msg h.mode h.silent
Step-IsLeft r (leaves s) h =
    close-IsLeft r s.attempts s.dials s.queue s.sent s.refusals s.events h.mode h.silent

Steps-IsLeft :
    {default topic : Text} (r : Channel) {s t : Channel}
    → IsLeft r s
    → Steps default topic s t
    → IsLeft r t
Steps-IsLeft r h here = h
Steps-IsLeft r h (more steps step) = Step-IsLeft r step (Steps-IsLeft r h steps)

closed_timer :
    {closed : Bool} {socket : Socket} {retry : Option ℕ}
    → Mode closed socket retry
    → closed ≡ true
    → retry ≡ none
closed_timer dialling e = refl
closed_timer up e = refl
closed_timer parting e = refl
closed_timer (waiting d lo hi) e = cc
closed_timer leaving e = refl
closed_timer left e = refl

-- Once a channel is closed, by the page or by a refusal, it stays closed whatever happens next: it
-- sends nothing, hands over no event, makes no socket, reports no refusal, and keeps no timer.
pub closed_channel-IsSilent :
    {default topic : Text} {log : List Text} {s t : Channel}
    → Reaches default topic log s
    → s.closed ≡ true
    → Steps default topic s t
    → IsSilent s t
closed_channel-IsSilent {s = s} reach e steps =
    let sound = Reaches-IsSound reach in
    let start : IsSilent s s = record {
      still_closed = e;
      no_timer = closed_timer sound.mode e;
      same_sent = refl;
      same_queue = refl;
      same_events = refl;
      same_dials = refl;
      same_refusals = refl;
    } in
    (Steps-IsLeft s (record { silent = start; mode = sound.mode }) steps).silent
