-- ===== src/DocumentStream.antt =====
-- `documentStream` of packages/borgo/src/compress.ts: the document of a page, chunk by chunk.
pub mod Pulls
pub mod Reached
use borgo.Common.{◌≡◌, ◌≢◌, Bool, true, false, ◌&&◌, not, List, [], ◌∷◌, ◌++◌, if◌then◌else◌}
use borgo.Text.{Text}

-- a stream that takes chunks, that has been closed, or that has failed
pub data Phase : Type 0 where
  running closed errored : Phase

-- The stream and its source: `rest` is what the renderer has still to give, and `sent` the chunks
-- that were put into the stream.
pub record Streaming : Type 0 where
  pub rest : List Text
  pub tail_sent : Bool
  pub cancelled : Bool
  pub phase : Phase
  pub sent : List Text

-- what `iterator.next()` gives
pub data Next : Type 0 where
  value : Text → Next
  done failed : Next

-- `fails` is whether the renderer throws behind its last chunk; the head and the tail are bytes
module _ (head tail : Text) (fails : Bool) where
  unfoldable pub start : List Text → Streaming
  start chunks = record {
    rest = chunks;
    tail_sent = false;
    cancelled = false;
    phase = running;
    sent = head ∷ [];
  }

  -- `controller.enqueue`, which throws on a cancelled stream: the throw is caught and, since the
  -- stream is cancelled, passed over
  unfoldable pub enqueue : Text → Streaming → Streaming
  enqueue chunk s = if s.cancelled then s else record s { sent = s.sent ++ (chunk ∷ []) }

  -- `controller.close`, likewise
  unfoldable pub close : Streaming → Streaming
  close s = if s.cancelled then s else record s { phase = closed }

  abbrev next_of : List Text → Next
  next_of [] = if fails then failed else done
  next_of (c ∷ rest) = value c

  abbrev rest_behind : List Text → List Text
  rest_behind [] = []
  rest_behind (c ∷ rest) = rest

  unfoldable pub after_next : Next → Streaming → Streaming
  unfolding enqueue close
  after_next (value chunk) s = enqueue chunk s
  after_next done s = if s.tail_sent then close s else enqueue tail (record s { tail_sent = true })
  after_next failed s = if s.cancelled then s else record s { phase = errored }

  unfoldable pub pull : Streaming → Streaming
  unfolding after_next
  pull s = after_next (next_of s.rest) (record s { rest = rest_behind s.rest })

  -- the renderer is asked to stop as well; what it still gives is passed over
  unfoldable pub cancel : Streaming → Streaming
  cancel s = record s { cancelled = true }

  -- The states of the stream: the platform pulls while it is open, and the consumer may go at any
  -- time, also while a pull is under way.
  pub data Reaches (chunks : List Text) : Streaming → Type 0 where
    started : Reaches chunks (start chunks)
    pulled : {s : Streaming} → Reaches chunks s → s.phase ≡ running → Reaches chunks (pull s)
    left : {s : Streaming} → Reaches chunks s → s.phase ≡ running → Reaches chunks (cancel s)
