-- ===== src/DocumentStream/Reached.antt =====
-- What the consumer of a document has got, at any time.
use borgo.Common.{ℕ, zero, suc, ◌≡◌, refl, sym, subst, Bool, true, false, List, [], ◌∷◌, ◌++◌}
use borgo.Text.{Text}
use borgo.DocumentStream.{
  Phase, running, closed, errored, Streaming, start, enqueue, close, after_next, pull, cancel,
  Reaches, started, pulled, left,
}
use borgo.DocumentStream.Pulls.{
  document, Holds, state, pull-Holds, true-ne-false, cons-ne-nil, running-ne-closed,
  running-ne-errored,
}

module _ (head tail : Text) (fails : Bool) where
  unfoldable pub pulls : ℕ → Streaming → Streaming
  pulls zero s = s
  pulls (suc n) s = pulls n (pull head tail fails s)

  -- A stream whose consumer has got a beginning of the document, all of it if it was closed, and that
  -- failed only if the renderer did; an open one whose consumer stays closes after some more pulls.
  pub record IsStreamed (chunks : List Text) (s : Streaming) : Type 0 where
    pub missing : List Text
    pub beginning : s.sent ++ missing ≡ document head tail chunks
    pub whole : s.phase ≡ closed → s.sent ≡ document head tail chunks
    pub failure : s.phase ≡ errored → fails ≡ true
    pub ends :
        s.phase ≡ running
        → s.cancelled ≡ false
        → fails ≡ false
        → (n : ℕ) × ((pulls n s).phase ≡ closed)

  Reaches-Holds :
      (chunks : List Text) {s : Streaming}
      → Reaches head tail fails chunks s
      → Holds head tail fails chunks s
  unfolding start cancel
  Reaches-Holds chunks started = record {
    all_there = λ on. refl;
    drained = λ over. absurd (true-ne-false (sym over));
    missing = chunks ++ (tail ∷ []);
    beginning = refl;
    whole = λ over. absurd (running-ne-closed over);
    failure = λ over. absurd (running-ne-errored over);
  }
  Reaches-Holds chunks (pulled {s} r open_) =
      pull-Holds head tail fails chunks s.rest s.sent s.tail_sent s.cancelled s.phase open_
        (Reaches-Holds chunks r)
  Reaches-Holds chunks (left {s} r open_) =
      let h = Reaches-Holds chunks r in
      record {
        all_there = λ off. absurd (true-ne-false off);
        drained = h.drained;
        missing = h.missing;
        beginning = h.beginning;
        whole = h.whole;
        failure = h.failure;
      }

  pulls-close :
      (rest sent : List Text) (tail_sent : Bool)
      → (tail_sent ≡ true → rest ≡ [])
      → fails ≡ false
      → (n : ℕ) × ((pulls n (state rest tail_sent false running sent)).phase ≡ closed)
  unfolding pulls pull after_next enqueue close
  pulls-close [] sent true drained e = (1, rw e refl)
  pulls-close [] sent false drained e = (2, rw e refl)
  pulls-close (c ∷ rest) sent true drained e = absurd (cons-ne-nil (drained refl))
  pulls-close (c ∷ rest) sent false drained e =
      let (n, ends) =
        pulls-close rest (sent ++ (c ∷ [])) false (λ over. absurd (true-ne-false (sym over))) e in
      (suc n, ends)

  -- Whatever the order of pulls and of a departure, the consumer has got a beginning of the document:
  -- the head, the chunks in their order, and the tail. A closed stream has given all of it, a failed
  -- one only a renderer that threw; an open one whose consumer stays, and whose renderer does not
  -- throw, closes after some more pulls.
  pub Reaches-IsStreamed :
      (chunks : List Text) {s : Streaming} → Reaches head tail fails chunks s → IsStreamed chunks s
  Reaches-IsStreamed chunks {s} r =
      let h = Reaches-Holds chunks r in
      record {
        missing = h.missing;
        beginning = h.beginning;
        whole = h.whole;
        failure = h.failure;
        ends = λ runs stays fine. ends_of s.phase s.cancelled runs stays h.drained fine;
      }
    where
      ends_of :
          (phase : Phase) (cancelled : Bool)
          → phase ≡ running
          → cancelled ≡ false
          → (s.tail_sent ≡ true → s.rest ≡ [])
          → fails ≡ false
          → (n : ℕ) × ((pulls n (state s.rest s.tail_sent cancelled phase s.sent)).phase ≡ closed)
      ends_of phase cancelled runs stays drained fine =
          subst
            (λ (p : Phase).
              (n : ℕ) × ((pulls n (state s.rest s.tail_sent cancelled p s.sent)).phase ≡ closed))
            (sym runs)
            (subst
              (λ (c : Bool).
                (n : ℕ) × ((pulls n (state s.rest s.tail_sent c running s.sent)).phase ≡ closed))
              (sym stays) (pulls-close s.rest s.sent s.tail_sent drained fine))
