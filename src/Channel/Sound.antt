-- ===== src/Channel/Sound.antt =====
-- What holds of a channel at any time.
use native.Mathlib.Omega.{pow_step}
use borgo.Common.{
  zero, suc, ℕ, ◌^◌, ◌≤◌, ◌≡◌, ◌≢◌, refl, sym, ap, subst, ◌∙◌, Bool, true, false, List, [], ◌∷◌,
  ◌++◌, Option, none, some, if◌then◌else◌, length, length-append, ◌==◌, append-nil, append_assoc,
  arith, Bool-cases, inl, inr,
}
use borgo.Text.{Text, ◌===◌}
use borgo.Channel.{
  Channel, Message, Socket, connecting, opened, closing, gone, close_origin_refused, backoff,
  reason_of, connect, on_open, on_message, on_close, publish, close,
}
use borgo.Channel.Steps.{
  Step, fires, opens, hears, ends, closes, publishes, leaves, published, Reaches, dialled, next,
}

-- A channel is dialling, open, about to lose its socket, or waits 1 to 30 seconds to dial again; one
-- that was closed does none of these, and has no socket but one on its way out.
pub data Mode : Bool → Socket → Option ℕ → Type 0 where
  dialling : Mode false connecting none
  up : Mode false opened none
  parting : Mode false closing none
  waiting : (delay : ℕ) → 1000 ≤ delay → delay ≤ 30000 → Mode false gone (some delay)
  leaving : Mode true closing none
  left : Mode true gone none

-- no message waits while the socket is open
abbrev pub Flushed : Socket → List Text → Type 0
Flushed opened queue = queue ≡ []
Flushed _ queue = Unit

abbrev pub refusals_at_most : Bool → ℕ
refusals_at_most true = 1
refusals_at_most false = 0

pub record IsSound (log : List Text) (s : Channel) : Type 0 where
  -- each message published went to a socket once, in order, or waits for one
  pub in_order : s.sent ++ s.queue ≡ log
  pub flushed : Flushed s.socket s.queue
  pub mode : Mode s.closed s.socket s.retry
  -- a refusal is reported once, and only by closing
  pub reported : length s.refusals ≤ refusals_at_most s.closed

abbrev pub channel :
    Socket
    → Bool
    → ℕ
    → Option ℕ
    → List Text
    → List Text
    → List (Text × Text)
    → ℕ
    → List Text
    → Channel
channel socket closed attempts retry queue sent events dials refusals = record {
  socket = socket;
  closed = closed;
  attempts = attempts;
  retry = retry;
  queue = queue;
  sent = sent;
  events = events;
  dials = dials;
  refusals = refusals;
}

pow_pos : (n : ℕ) → 1 ≤ 2 ^ n
pow_pos zero = omega arith
pow_pos (suc n) = let p = pow_pos n in omega (arith, pow_step 2 n)

backoff_bounds : (attempts : ℕ) → (1000 ≤ backoff attempts) × (backoff attempts ≤ 30000)
unfolding backoff
backoff_bounds attempts = let p = pow_pos attempts in ground arith

none_reported : (refusals : List Text) → length refusals ≤ 0 → length refusals ≤ 1
none_reported refusals e = omega arith

one_reported :
    (refusals : List Text) (reason : Text)
    → length refusals ≤ 0
    → length (refusals ++ (reason ∷ [])) ≤ 1
one_reported refusals reason e = rw (length-append refusals (reason ∷ [])) (omega arith)

module _ (attempts dials : ℕ) (queue sent refusals : List Text) (events : List (Text × Text))
    (log : List Text) where
  abbrev state : Socket → Bool → Option ℕ → Channel
  state socket closed retry = channel socket closed attempts retry queue sent events dials refusals

  connect-IsSound_at :
      {socket : Socket} {closed : Bool} {retry : Option ℕ} (delay : ℕ)
      → Mode closed socket retry
      → retry ≡ some delay
      → IsSound log (state socket closed retry)
      → IsSound log (connect (state socket closed retry))
  unfolding connect
  connect-IsSound_at delay dialling e h = cc
  connect-IsSound_at delay up e h = cc
  connect-IsSound_at delay parting e h = cc
  connect-IsSound_at delay (waiting d lo hi) e h = record {
    in_order = h.in_order;
    flushed = tt;
    mode = dialling;
    reported = h.reported;
  }
  connect-IsSound_at delay leaving e h = cc
  connect-IsSound_at delay left e h = cc

  on_open-IsSound_at :
      {socket : Socket} {closed : Bool} {retry : Option ℕ}
      → Mode closed socket retry
      → socket ≡ connecting
      → IsSound log (state socket closed retry)
      → IsSound log (on_open (state socket closed retry))
  unfolding on_open
  on_open-IsSound_at dialling e h = record {
    in_order = append-nil (sent ++ queue) ∙ h.in_order;
    flushed = refl;
    mode = up;
    reported = h.reported;
  }
  on_open-IsSound_at up e h = cc
  on_open-IsSound_at parting e h = cc
  on_open-IsSound_at (waiting d lo hi) e h = cc
  on_open-IsSound_at leaving e h = cc
  on_open-IsSound_at left e h = cc

  dropped-IsSound :
      (default : Text) (code : ℕ) (reason : Text) (socket : Socket)
      → sent ++ queue ≡ log
      → length refusals ≤ 0
      → IsSound log (on_close default code reason (state socket false none))
  unfolding on_close
  dropped-IsSound default code reason socket same quiet =
      elim (Bool-cases (code == close_origin_refused)) [
        | inl e ↦ rw e record {
          in_order = same;
          flushed = tt;
          mode = left;
          reported = one_reported refusals (reason_of default reason) quiet;
        }
        | inr e ↦
            let b = backoff_bounds attempts in
            rw e record {
              in_order = same;
              flushed = tt;
              mode = waiting (backoff attempts) b.0 b.1;
              reported = quiet;
            }
      ]

  on_close-IsSound_at :
      (default : Text) (code : ℕ) (reason : Text) {socket : Socket} {closed : Bool}
      {retry : Option ℕ}
      → Mode closed socket retry
      → socket ≢ gone
      → IsSound log (state socket closed retry)
      → IsSound log (on_close default code reason (state socket closed retry))
  unfolding on_close
  on_close-IsSound_at default code reason dialling e h =
      dropped-IsSound default code reason connecting h.in_order h.reported
  on_close-IsSound_at default code reason up e h =
      dropped-IsSound default code reason opened h.in_order h.reported
  on_close-IsSound_at default code reason parting e h =
      dropped-IsSound default code reason closing h.in_order h.reported
  on_close-IsSound_at default code reason (waiting d lo hi) e h = absurd (e refl)
  on_close-IsSound_at default code reason leaving e h = record {
    in_order = h.in_order;
    flushed = tt;
    mode = left;
    reported = h.reported;
  }
  on_close-IsSound_at default code reason left e h = absurd (e refl)

  one_more : (msg : Text) → sent ++ queue ≡ log → sent ++ (queue ++ (msg ∷ [])) ≡ log ++ (msg ∷ [])
  one_more msg e = sym (append_assoc sent queue (msg ∷ [])) ∙ ap (λ xs. xs ++ (msg ∷ [])) e

  one_sent :
      (msg : Text)
      → queue ≡ []
      → sent ++ queue ≡ log
      → (sent ++ (msg ∷ [])) ++ queue ≡ log ++ (msg ∷ [])
  one_sent msg empty e =
      subst (λ q. (sent ++ q ≡ log) → (sent ++ (msg ∷ [])) ++ q ≡ log ++ (msg ∷ [])) (sym empty)
        (λ same.
          append-nil (sent ++ (msg ∷ []))
          ∙ ap (λ xs. xs ++ (msg ∷ [])) (sym (append-nil sent) ∙ same))
        e

  publish-IsSound_at :
      (msg : Text) {socket : Socket} {closed : Bool} {retry : Option ℕ}
      → Mode closed socket retry
      → IsSound log (state socket closed retry)
      → IsSound (log ++ (if closed then [] else msg ∷ [])) (publish msg (state socket closed retry))
  unfolding publish
  publish-IsSound_at msg dialling h = record {
    in_order = one_more msg h.in_order;
    flushed = tt;
    mode = dialling;
    reported = h.reported;
  }
  publish-IsSound_at msg up h = record {
    in_order = one_sent msg h.flushed h.in_order;
    flushed = h.flushed;
    mode = up;
    reported = h.reported;
  }
  publish-IsSound_at msg parting h = record {
    in_order = one_more msg h.in_order;
    flushed = tt;
    mode = parting;
    reported = h.reported;
  }
  publish-IsSound_at msg (waiting d lo hi) h = record {
    in_order = one_more msg h.in_order;
    flushed = tt;
    mode = waiting d lo hi;
    reported = h.reported;
  }
  publish-IsSound_at msg leaving h = record {
    in_order = h.in_order ∙ sym (append-nil log);
    flushed = tt;
    mode = leaving;
    reported = h.reported;
  }
  publish-IsSound_at msg left h = record {
    in_order = h.in_order ∙ sym (append-nil log);
    flushed = tt;
    mode = left;
    reported = h.reported;
  }

  close-IsSound_at :
      {socket : Socket} {closed : Bool} {retry : Option ℕ}
      → Mode closed socket retry
      → IsSound log (state socket closed retry)
      → IsSound log (close (state socket closed retry))
  unfolding close
  close-IsSound_at dialling h = record {
    in_order = h.in_order;
    flushed = tt;
    mode = leaving;
    reported = none_reported refusals h.reported;
  }
  close-IsSound_at up h = record {
    in_order = h.in_order;
    flushed = tt;
    mode = leaving;
    reported = none_reported refusals h.reported;
  }
  close-IsSound_at parting h = record {
    in_order = h.in_order;
    flushed = tt;
    mode = leaving;
    reported = none_reported refusals h.reported;
  }
  close-IsSound_at (waiting d lo hi) h = record {
    in_order = h.in_order;
    flushed = tt;
    mode = left;
    reported = none_reported refusals h.reported;
  }
  close-IsSound_at leaving h = record {
    in_order = h.in_order;
    flushed = tt;
    mode = leaving;
    reported = h.reported;
  }
  close-IsSound_at left h = record {
    in_order = h.in_order;
    flushed = tt;
    mode = left;
    reported = h.reported;
  }

  ended :
      {socket : Socket} {closed : Bool} {retry : Option ℕ}
      → IsSound log (state socket closed retry)
      → Mode closed closing retry
      → IsSound log (state closing closed retry)
  ended h mode = record { in_order = h.in_order; flushed = tt; mode = mode; reported = h.reported }

  -- a socket that the platform ends
  ended-IsSound_at :
      {socket : Socket} {closed : Bool} {retry : Option ℕ}
      → Mode closed socket retry
      → socket ≢ gone
      → IsSound log (state socket closed retry)
      → IsSound log (state closing closed retry)
  ended-IsSound_at dialling e h = ended h parting
  ended-IsSound_at up e h = ended h parting
  ended-IsSound_at parting e h = h
  ended-IsSound_at (waiting d lo hi) e h = absurd (e refl)
  ended-IsSound_at leaving e h = h
  ended-IsSound_at left e h = absurd (e refl)

connect-IsSound :
    {log : List Text} (s : Channel) (delay : ℕ)
    → s.retry ≡ some delay
    → IsSound log s
    → IsSound log (connect s)
connect-IsSound {log} s delay e h =
    connect-IsSound_at s.attempts s.dials s.queue s.sent s.refusals s.events log delay h.mode e h

on_message-IsSound :
    {log : List Text} (topic : Text) (msg : Option Message) (s : Channel)
    → IsSound log s
    → IsSound log (on_message topic msg s)
unfolding on_message
on_message-IsSound topic none s h = h
on_message-IsSound topic (some msg) s h = elim (Bool-cases (msg.topic === topic)) [
  | inl e ↦
      rw e
        record { in_order = h.in_order; flushed = h.flushed; mode = h.mode; reported = h.reported }
  | inr e ↦ rw e h
]

kept : {log : List Text} {s : Channel} → IsSound log s → IsSound (log ++ []) s
kept {log} {s} h = subst (λ l. IsSound l s) (sym (append-nil log)) h

-- each step keeps a channel sound
Step-IsSound :
    {default topic : Text} {log : List Text} {s t : Channel} (step : Step default topic s t)
    → IsSound log s
    → IsSound (log ++ published default topic step) t
Step-IsSound (fires s delay e) h = kept (connect-IsSound s delay e h)
Step-IsSound (opens s e) h =
    kept (on_open-IsSound_at s.attempts s.dials s.queue s.sent s.refusals s.events _ h.mode e h)
Step-IsSound (hears s msg e) h = kept (on_message-IsSound _ msg s h)
Step-IsSound (ends s e) h =
    kept (ended-IsSound_at s.attempts s.dials s.queue s.sent s.refusals s.events _ h.mode e h)
Step-IsSound (closes s code reason e) h = kept (
    on_close-IsSound_at s.attempts s.dials s.queue s.sent s.refusals s.events _ _ code reason h.mode
      e h)
Step-IsSound (publishes s msg) h =
    publish-IsSound_at s.attempts s.dials s.queue s.sent s.refusals s.events _ msg h.mode h
Step-IsSound (leaves s) h =
    kept (close-IsSound_at s.attempts s.dials s.queue s.sent s.refusals s.events _ h.mode h)

-- A channel that is not closed is dialling, open, about to lose its socket or waiting 1 to 30 seconds
-- to dial again, and each message published while it was not closed has gone to a socket once, in
-- order, or waits its turn; none waits while the socket is open. A refusal of the origin is reported at
-- most once, and only by a channel that is then closed.
pub Reaches-IsSound :
    {default topic : Text} {log : List Text} {s : Channel}
    → Reaches default topic log s
    → IsSound log s
unfolding connect
Reaches-IsSound dialled = record {
  in_order = refl;
  flushed = tt;
  mode = dialling;
  reported = omega arith;
}
Reaches-IsSound (next r step) = Step-IsSound step (Reaches-IsSound r)
