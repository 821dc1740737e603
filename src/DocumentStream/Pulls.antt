-- ===== src/DocumentStream/Pulls.antt =====
-- What each pull of a document's stream keeps.
use borgo.Common.{
  ◌≡◌, refl, sym, ◌∙◌, Bool, true, false, List, [], ◌∷◌, ◌++◌, if◌then◌else◌, append_assoc,
  append-nil,
}
use borgo.Text.{Text}
use borgo.DocumentStream.{
  Phase, running, closed, errored, Streaming, value, done, failed, enqueue, close, after_next, pull,
}

pub true-ne-false : true ≡ false → ⊥
true-ne-false e = cc

pub cons-ne-nil : {x : Text} {xs : List Text} → x ∷ xs ≡ [] → ⊥
cons-ne-nil e = cc

pub running-ne-closed : running ≡ closed → ⊥
running-ne-closed e = cc

pub running-ne-errored : running ≡ errored → ⊥
running-ne-errored e = cc

pub closed-ne-errored : closed ≡ errored → ⊥
closed-ne-errored e = cc

-- the document that a stream gives
abbrev pub document : Text → Text → List Text → List Text
document head tail chunks = head ∷ (chunks ++ (tail ∷ []))

abbrev pub state : List Text → Bool → Bool → Phase → List Text → Streaming
state rest tail_sent cancelled phase sent = record {
  rest = rest;
  tail_sent = tail_sent;
  cancelled = cancelled;
  phase = phase;
  sent = sent;
}

module _ (head tail : Text) (fails : Bool) where
  -- what an open stream has still to give
  abbrev pub pending : Streaming → List Text
  pending s = if s.tail_sent then [] else s.rest ++ (tail ∷ [])

  -- the invariant of the loop: while nobody has left, what was sent and what is pending make the
  -- document
  pub record Holds (chunks : List Text) (s : Streaming) : Type 0 where
    pub all_there : s.cancelled ≡ false → s.sent ++ pending s ≡ document head tail chunks
    pub drained : s.tail_sent ≡ true → s.rest ≡ []
    pub missing : List Text
    pub beginning : s.sent ++ missing ≡ document head tail chunks
    pub whole : s.phase ≡ closed → s.sent ≡ document head tail chunks
    pub failure : s.phase ≡ errored → fails ≡ true

  value-Holds :
      (chunks rest sent : List Text) (c : Text) (tail_sent cancelled : Bool) (phase : Phase)
      → phase ≡ running
      → Holds chunks (state (c ∷ rest) tail_sent cancelled phase sent)
      → Holds chunks
          (after_next head tail fails (value c) (state rest tail_sent cancelled phase sent))
  unfolding after_next enqueue
  value-Holds chunks rest sent c tail_sent true phase e h = record {
    all_there = λ off. absurd (true-ne-false off);
    drained = λ over. absurd (cons-ne-nil (h.drained over));
    missing = h.missing;
    beginning = h.beginning;
    whole = h.whole;
    failure = h.failure;
  }
  value-Holds chunks rest sent c true false phase e h = absurd (cons-ne-nil (h.drained refl))
  value-Holds chunks rest sent c false false phase e h =
      let same = append_assoc sent (c ∷ []) (rest ++ (tail ∷ [])) ∙ h.all_there refl in
      record {
        all_there = λ on. same;
        drained = λ over. absurd (true-ne-false (sym over));
        missing = rest ++ (tail ∷ []);
        beginning = same;
        whole = λ over. absurd (running-ne-closed (sym e ∙ over));
        failure = h_failure;
      }
    where
      h_failure : phase ≡ errored → fails ≡ true
      h_failure over = absurd (running-ne-errored (sym e ∙ over))

  done-Holds :
      (chunks sent : List Text) (tail_sent cancelled : Bool) (phase : Phase)
      → phase ≡ running
      → Holds chunks (state [] tail_sent cancelled phase sent)
      → Holds chunks (after_next head tail fails done (state [] tail_sent cancelled phase sent))
  unfolding after_next enqueue close
  done-Holds chunks sent true true phase e h = h
  done-Holds chunks sent true false phase e h = record {
    all_there = h.all_there;
    drained = h.drained;
    missing = [];
    beginning = h.all_there refl;
    whole = λ over. sym (append-nil sent) ∙ h.all_there refl;
    failure = λ over. absurd (closed-ne-errored over);
  }
  done-Holds chunks sent false true phase e h = record {
    all_there = λ off. absurd (true-ne-false off);
    drained = λ over. refl;
    missing = h.missing;
    beginning = h.beginning;
    whole = h.whole;
    failure = h.failure;
  }
  done-Holds chunks sent false false phase e h =
      let same = append-nil (sent ++ (tail ∷ [])) ∙ h.all_there refl in
      record {
        all_there = λ on. same;
        drained = λ over. refl;
        missing = [];
        beginning = same;
        whole = λ over. absurd (running-ne-closed (sym e ∙ over));
        failure = λ over. absurd (running-ne-errored (sym e ∙ over));
      }

  failed-Holds :
      (chunks sent : List Text) (tail_sent cancelled : Bool) (phase : Phase)
      → fails ≡ true
      → Holds chunks (state [] tail_sent cancelled phase sent)
      → Holds chunks (after_next head tail fails failed (state [] tail_sent cancelled phase sent))
  unfolding after_next
  failed-Holds chunks sent tail_sent true phase e h = h
  failed-Holds chunks sent tail_sent false phase e h = record {
    all_there = h.all_there;
    drained = h.drained;
    missing = h.missing;
    beginning = h.beginning;
    whole = λ over. absurd (closed-ne-errored (sym over));
    failure = λ over. e;
  }

  pub pull-Holds :
      (chunks rest sent : List Text) (tail_sent cancelled : Bool) (phase : Phase)
      → phase ≡ running
      → Holds chunks (state rest tail_sent cancelled phase sent)
      → Holds chunks (pull head tail fails (state rest tail_sent cancelled phase sent))
  unfolding pull
  pull-Holds chunks (c ∷ rest) sent tail_sent cancelled phase e h =
      value-Holds chunks rest sent c tail_sent cancelled phase e h
  pull-Holds chunks [] sent tail_sent cancelled phase e h = at_end fails refl
    where
      at_end :
          (throws : Bool)
          → fails ≡ throws
          → Holds chunks (
              after_next head tail fails
                (if throws then failed else done)
                (state [] tail_sent cancelled phase sent))
      at_end true throws = failed-Holds chunks sent tail_sent cancelled phase throws h
      at_end false ends = done-Holds chunks sent tail_sent cancelled phase e h
